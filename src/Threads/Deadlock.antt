-- ===== src/Threads/Deadlock.antt =====
-- Every run of multi-thread/helgrind/test.c ends in a deadlock.
use training.Base.{
  ℕ, ◌≤◌, ◌≡◌, refl, Bool, true, false, not, ◌&&◌, Option, none, some, arith, ◌==◌, if◌then◌else◌,
  Bool-cases, ◌⊎◌, inl, inr,
}
use training.Threads.{
  Task, main_task, thread_task, Mutex, s_mutex_a, s_mutex_b, mutex_lock, State, start, step, next,
  same_task,
}
use training.Threads.Explore.{Run, always, always_lem}

abbrev is_none : Option State → Bool
is_none none = true
is_none (some u) = false

abbrev blocked : Task → State → Bool
blocked t s = is_none (step t s)

abbrev owned_by : Task → Option Task → Bool
owned_by t none = false
owned_by t (some u) = same_task t u

abbrev same_mutex : Mutex → Mutex → Bool
same_mutex s_mutex_a s_mutex_a = true
same_mutex s_mutex_b s_mutex_b = true
same_mutex _ _ = false

-- The task stands at a lock of the mutex.
abbrev awaits : Task → Mutex → State → Bool
awaits t m s = elim (next t s) [ some (mutex_lock n) ↦ same_mutex m n | _ ↦ false ]

-- Each task waits for the mutex that the other holds.
abbrev pub deadlocked : State → Bool
deadlocked s =
    (awaits main_task s_mutex_a s && owned_by thread_task s.owner_a)
    && (awaits thread_task s_mutex_b s && owned_by main_task s.owner_b)

-- After eight steps the two are deadlocked, and before that one of them can go on.
abbrev found : ℕ → State → Bool
found k s =
    let stuck = blocked main_task s && blocked thread_task s in
    if k == 8 then deadlocked s && stuck else not stuck

search_lem : always found 9 0 start ≡ true
unfolding always start step
search_lem = refl

is_none-true : (o : Option State) → is_none o ≡ true → o ≡ none
is_none-true none h = refl
is_none-true (some u) h = cc

is_none-false : (o : Option State) → is_none o ≡ false → (u : State) × (o ≡ some u)
is_none-false none h = cc
is_none-false (some u) h = (u, refl)

-- Each run of the two tasks of helgrind/test.c, in whatever order their calls are made, has at most
-- eight steps, and either one of them can make its next call, or the run has eight steps and neither
-- can, since the main task holds mutex b and waits for mutex a, and the thread holds mutex a and waits
-- for mutex b.
pub deadlock_lem :
    (n : ℕ) (s : State)
    → Run start n s
    → (n ≤ 8)
      × (((n ≡ 8) × (deadlocked s ≡ true) × ((t : Task) → step t s ≡ none))
          ⊎ ((t : Task) × (u : State) × (step t s ≡ some u)))
deadlock_lem n s r =
    let (holds, bound) = always_lem found start 9 n s search_lem r in
    (
      omega arith,
      elim (Bool-cases (n == 8)) [
        | inl last ↦
            let end : deadlocked s ≡ true = ground arith in
            let main_stuck : blocked main_task s ≡ true = ground arith in
            let thread_stuck : blocked thread_task s ≡ true = ground arith in
            inl (
              ground arith,
              end,
              elim [
                | main_task ↦ is_none-true (step main_task s) main_stuck
                | thread_task ↦ is_none-true (step thread_task s) thread_stuck
              ],
            )
        | inr more ↦ elim (Bool-cases (blocked main_task s)) [
          | inr moves ↦ let (u, e) = is_none-false (step main_task s) moves in inr (main_task, u, e)
          | inl stuck ↦
              let (u, e) = is_none-false (step thread_task s) (ground arith) in
              inr (thread_task, u, e)
        ]
      ],
    )
