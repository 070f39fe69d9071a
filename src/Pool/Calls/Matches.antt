-- ===== src/Pool/Calls/Matches.antt =====
-- A pool of thread-pool.c as the small steps of tp_process_job see it.
use training.Base.{
  ℕ, zero, suc, ◌≡◌, refl, sym, ◌∙◌, ◌≢◌, inl, inr, List, [], ◌∷◌, Bool, true, Option, none, some,
  arith, ◌==◌, Bool-cases, get_elem?, modify, get_elem?-modify_ne,
}
use training.Pool.{Info, Pool, assign}
use training.Pool.Scan.{set_busy}
use training.Pool.Submit.{}
use training.Pool.Calls.{Shared, put}
use training.Pool.Calls.Exclusive.{put_self}

-- The slots of the pool as the small steps see them.
abbrev pub SameSlots : (ℕ → Bool) → (work job : ℕ → Option ℕ) → List Info → Type 0
SameSlots busy work job infos =
    (j : ℕ) (v : Info)
    → get_elem? infos j ≡ some v
    → (busy j ≡ v.is_busy) × (work j ≡ v.th_work) × (job j ≡ v.th_job)

-- The pool as the small steps see it, with every mutex free.
pub record Matches (p : Pool) (s : Shared) : Type 0 where
  pub cur : s.cur_th_num ≡ p.cur_th_num
  pub max : s.max_th_num ≡ p.max_th_num
  pub slots : SameSlots s.is_busy s.th_work s.th_job p.thread_info
  pub slot_locks : (i : ℕ) → s.thread_lock i ≡ none
  pub pool_lock : s.tp_lock ≡ none

get_elem?-modify_inv :
    (k : ℕ) (f : Info → Info) (xs : List Info) (v : Info)
    → get_elem? (modify k f xs) k ≡ some v
    → (w : Info) × (get_elem? xs k ≡ some w) × (v ≡ f w)
unfolding modify
get_elem?-modify_inv k f [] v e = cc
get_elem?-modify_inv zero f (x ∷ xs) v e = (x, refl, (let same : v ≡ f x = cc in same))
get_elem?-modify_inv (suc k) f (x ∷ xs) v e = get_elem?-modify_inv k f xs v e

pub put_other : {A : Type 0} (k j : ℕ) (a : A) (f : ℕ → A) → j ≢ k → put k a f j ≡ f j
put_other k j a f ne = ground arith

module _ (busy : ℕ → Bool) (work job : ℕ → Option ℕ) (infos : List Info) (k : ℕ)
    (same : SameSlots busy work job infos) where
  pub SameSlots-set_busy : SameSlots (put k true busy) work job (modify k set_busy infos)
  SameSlots-set_busy j v e = elim (Bool-cases (j == k)) [
    | inl here ↦
        let at : j ≡ k = ground arith in
        let (w, old, is) = get_elem?-modify_inv k set_busy infos v (rw at at e) in
        let (b, c, d) = same k w old in rw (at, is) (put_self k true busy, c, d)
    | inr there ↦
        let ne : j ≢ k = λ eq. ground arith in
        let (b, c, d) =
          same j v (sym (get_elem?-modify_ne k j set_busy infos (λ eq. ne (sym eq))) ∙ e) in
        (put_other k j true busy ne ∙ b, c, d)
  ]

  pub SameSlots-assign :
      (w j : ℕ)
      → SameSlots busy (put k (some w) work) (put k (some j) job) (modify k (assign w j) infos)
  SameSlots-assign w n j v e = elim (Bool-cases (j == k)) [
    | inl here ↦
        let at : j ≡ k = ground arith in
        let (i, old, is) = get_elem?-modify_inv k (assign w n) infos v (rw at at e) in
        let (b, c, d) = same k i old in
        rw (at, is) (b, put_self k (some w) work, put_self k (some n) job)
    | inr there ↦
        let ne : j ≢ k = λ eq. ground arith in
        let (b, c, d) =
          same j v (sym (get_elem?-modify_ne k j (assign w n) infos (λ eq. ne (sym eq))) ∙ e) in
        (b, put_other k j (some w) work ne ∙ c, put_other k j (some n) job ne ∙ d)
  ]

  pub SameSlots-thread :
      (tid : ℕ) → SameSlots busy work job (modify k (λ t. record t { thread_id = tid }) infos)
  SameSlots-thread tid j v e = elim (Bool-cases (j == k)) [
    | inl here ↦
        let at : j ≡ k = ground arith in
        let (i, old, is) =
          get_elem?-modify_inv k (λ t. record t { thread_id = tid }) infos v (rw at at e) in
        rw (at, is) (same k i old)
    | inr there ↦
        let ne : j ≢ k = λ eq. ground arith in
        same j v (
          sym
            (get_elem?-modify_ne k j (λ t. record t { thread_id = tid }) infos (λ eq. ne (sym eq)))
          ∙ e)
  ]
