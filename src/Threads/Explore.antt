-- ===== src/Threads/Explore.antt =====
-- All runs of the two tasks, by a search that visits every order of their steps.
use training.Base.{ℕ, zero, suc, ◌+◌, ◌≤◌, ◌≡◌, refl, Bool, true, false, ◌&&◌, none, some, arith}
use training.Threads.{Task, main_task, thread_task, State, step}

-- Runs of `n` steps, in any order of the tasks.
pub data Run (s : State) : ℕ → State → Type 0 where
  stop : Run s 0 s
  then :
      {n : ℕ} {u : State} (t : Task) (v : State) → Run s n u → step t u ≡ some v → Run s (suc n) v

-- `P` holds now and after each order of further steps, of which there are at most `n`.
unfoldable pub always : (ℕ → State → Bool) → (n k : ℕ) → State → Bool
unfolding step
always P zero k s = false
always P (suc n) k s =
    let rest : Task → Bool = λ t. elim (step t s) [ none ↦ true | some u ↦ always P n (suc k) u ] in
    P k s && (rest main_task && rest thread_task)

module _ (P : ℕ → State → Bool) where
  always_here : (n k : ℕ) (s : State) → always P n k s ≡ true → P k s ≡ true
  unfolding always
  always_here zero k s h = cc
  always_here (suc n) k s h = ground arith

  always-step :
      (n k : ℕ) (s : State) (t : Task) (u : State)
      → always P n k s ≡ true
      → step t s ≡ some u
      → (m : ℕ) × (suc m ≡ n) × (always P m (suc k) u ≡ true)
  unfolding always
  always-step zero k s t u h e = cc
  always-step (suc n) k s main_task u h e = (n, refl, ground arith)
  always-step (suc n) k s thread_task u h e = (n, refl, ground arith)

  always_pos : (n k : ℕ) (s : State) → always P n k s ≡ true → 1 ≤ n
  unfolding always
  always_pos zero k s h = cc
  always_pos (suc n) k s h = omega arith

  always_run :
      (s : State) (n k : ℕ) (u : State)
      → always P n 0 s ≡ true
      → Run s k u
      → (m : ℕ) × (m + k ≡ n) × (always P m k u ≡ true)
  always_run s n _ _ h stop = (n, omega arith, h)
  always_run s n _ _ h (then {n = k} {u = u} t v before e) =
      let (m, sum, there) = always_run s n k u h before in
      let (more, is, next) = always-step m k u t v there e in (more, omega arith, next)

  -- What the search found holds in every run, and bounds its length.
  pub always_lem :
      (s : State) (n k : ℕ) (u : State)
      → always P n 0 s ≡ true
      → Run s k u
      → (P k u ≡ true) × (suc k ≤ n)
  always_lem s n k u h r =
      let (m, sum, there) = always_run s n k u h r in
      (always_here m k u there, omega (arith, always_pos m k u there))
