-- ===== src/Pool/Calls.antt =====
-- The calls of tp_process_job of thread-pool.c in small steps: between two accesses to what the threads
-- share, any of the other submitters and workers may go on.
pub mod Exclusive
pub mod Claims
pub mod Filling
pub mod Growing
pub mod Steps
pub mod Matches
pub mod Searching
pub mod Alone
pub mod Whole
pub mod Manager
pub mod Late
mod Tests
use training.Base.{
  ℕ, ◌+◌, ◌≤◌, ◌<◌, ◌≡◌, ◌⊎◌, List, ◌∷◌, Bool, true, false, Option, none, some, ◌==◌, if◌then◌else◌,
}

-- Where a submitter is: at the head of the loop with `i`; with the mutex of slot `i`, and with the slot
-- marked busy as well; behind the release of that mutex, with th_work and then th_job written; behind the
-- loop with `i`, and there with tp_lock; with the new slot `i` marked busy; behind a tp_add_thread that
-- found the pool full, with the `i` of the loop. `pool` tells whether it holds tp_lock.
pub data Place : Type 0 where
  scanning locked claimed leaving growing marked : (i : ℕ) → Place
  filling worked filled refused : (i : ℕ) → (pool : Bool) → Place
  done : Place

-- What the threads share, where each submitter is, and the slots that were signalled, the newest first.
-- `waiting i` tells whether the worker of slot `i` waits for its condition, and `running i` is the
-- submitter whose signal it works on.
pub record Shared : Type 0 where
  pub cur_th_num : ℕ
  pub max_th_num : ℕ
  pub is_busy : ℕ → Bool
  pub th_work : ℕ → Option ℕ
  pub th_job : ℕ → Option ℕ
  pub thread_lock : ℕ → Option ℕ
  pub tp_lock : Option ℕ
  pub waiting : ℕ → Bool
  pub running : ℕ → Option ℕ
  pub signalled : List ℕ
  pub place : ℕ → Place

abbrev pub put {ℓ} : {A : Type ℓ} → ℕ → A → (ℕ → A) → ℕ → A
put k a f j = if j == k then a else f j

abbrev pub goes : (t : ℕ) → Place → Shared → Shared
goes t p s = record s { place = put t p s.place }

-- Submitter `t` has a call with `worker t` and `job t`.
module _ (worker job : ℕ → ℕ) where
  -- A step of the submitter `t`, or of the worker of a slot. Where `pthread_create` fails no step follows:
  -- the code then frees a pointer into its array.
  pub data Step (s : Shared) : Shared → Type 0 where
    locks :
        (t i : ℕ)
        → s.place t ≡ scanning i
        → i < s.cur_th_num
        → s.thread_lock i ≡ none
        → Step s (goes t (locked i) (record s { thread_lock = put i (some t) s.thread_lock }))
    skips :
        (t i : ℕ)
        → s.place t ≡ locked i
        → s.is_busy i ≡ true
        → Step s (goes t (scanning (i + 1)) (record s { thread_lock = put i none s.thread_lock }))
    claims :
        (t i : ℕ)
        → s.place t ≡ locked i
        → s.is_busy i ≡ false
        → Step s (goes t (claimed i) (record s { is_busy = put i true s.is_busy }))
    unlocks :
        (t i : ℕ)
        → s.place t ≡ claimed i
        → Step s (goes t (filling i false) (record s { thread_lock = put i none s.thread_lock }))
    writes_work :
        (t i : ℕ) (pool : Bool)
        → s.place t ≡ filling i pool
        → Step s (goes t (worked i pool) (record s { th_work = put i (some (worker t)) s.th_work }))
    writes_job :
        (t i : ℕ) (pool : Bool)
        → s.place t ≡ worked i pool
        → Step s (goes t (filled i pool) (record s { th_job = put i (some (job t)) s.th_job }))
    -- `pthread_cond_signal` to a worker that waits, and to one that does not.
    signals :
        (t i : ℕ)
        → (s.place t ≡ filled i false) ⊎ (s.place t ≡ refused i false)
        → s.waiting i ≡ true
        → Step s (
            goes t done (record s {
              waiting = put i false s.waiting;
              running = put i (some t) s.running;
              signalled = i ∷ s.signalled;
            }))
    signals_nobody :
        (t i : ℕ)
        → (s.place t ≡ filled i false) ⊎ (s.place t ≡ refused i false)
        → s.waiting i ≡ false
        → Step s (goes t done (record s { signalled = i ∷ s.signalled }))
    ends_scan :
        (t i : ℕ) → s.place t ≡ scanning i → s.cur_th_num ≤ i → Step s (goes t (leaving i) s)
    locks_pool :
        (t i : ℕ)
        → s.place t ≡ leaving i
        → s.tp_lock ≡ none
        → Step s (goes t (growing i) (record s { tp_lock = some t }))
    finds_full :
        (t i : ℕ)
        → s.place t ≡ growing i
        → s.max_th_num ≤ s.cur_th_num
        → Step s (goes t (refused i true) s)
    gives_up :
        (t i : ℕ)
        → s.place t ≡ refused i true
        → Step s (goes t (refused i false) (record s { tp_lock = none }))
    marks :
        (t i : ℕ)
        → s.place t ≡ growing i
        → s.cur_th_num < s.max_th_num
        → Step s
            (goes t (marked s.cur_th_num) (record s { is_busy = put s.cur_th_num true s.is_busy }))
    creates :
        (t i : ℕ)
        → s.place t ≡ marked i
        → Step s (
            goes t
              (filling i true)
              (record s { cur_th_num = s.cur_th_num + 1; waiting = put i false s.waiting }))
    unlocks_pool :
        (t i : ℕ)
        → s.place t ≡ filled i true
        → Step s (goes t (filled i false) (record s { tp_lock = none }))
    waits :
        (i : ℕ)
        → i < s.cur_th_num
        → s.running i ≡ none
        → Step s (record s { waiting = put i true s.waiting })
    frees :
        (i t : ℕ)
        → s.running i ≡ some t
        → s.thread_lock i ≡ none
        → Step s (record s { is_busy = put i false s.is_busy; running = put i none s.running })

  pub data Run (s : Shared) : Shared → Type 0 where
    stop : Run s s
    then : {t u : Shared} → Run s t → Step t u → Run s u
