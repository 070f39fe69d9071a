-- ===== src/Pool/System.antt =====
-- The threads of thread-pool.c side by side: submitters that call tp_process_job, the manager, and the
-- loops of the workers. A call of tp_process_job, a round of the manager and each stretch of a worker
-- between its waits is one step; any order of them is a run. Calls do not overlap. A run goes on only
-- where what the code did is defined: a `pthread_create` that fails makes tp_add_thread free a pointer into
-- its array, and a thread that the manager gives up, which `kill` of a pthread_t does not stop, waits on a
-- condition that was destroyed.
pub mod Phases
pub mod Orderly
pub mod Submits
pub mod Running
use training.Base.{
  ℕ, ◌+◌, ◌<◌, ◌≡◌, List, [], ◌∷◌, Bool, true, false, Option, none, some, ltb, ◌==◌, if◌then◌else◌,
}
use training.Pool.{
  Pool, Call, signal, Creates, tp_process_job, manage_round, take_work, finish_work,
}

-- Where the worker of a slot is: there is none, it is on its way to `pthread_cond_wait`, it waits
-- there, it was signalled, or it works on a job.
pub data Phase : Type 0 where
  gone looping waiting woken : Phase
  working : (worker job : Option ℕ) → Phase

-- The pool, and the phase of the worker of each slot.
pub record System : Type 0 where
  pub pool : Pool
  pub phases : ℕ → Phase

abbrev pub put : ℕ → Phase → (ℕ → Phase) → ℕ → Phase
put k phase phases j = if j == k then phase else phases j

-- `pthread_cond_signal` to a slot: it wakes the worker if that waits, and is lost otherwise.
abbrev pub wake : ℕ → (ℕ → Phase) → ℕ → Phase
wake k phases = elim (phases k) [ waiting ↦ put k woken phases | _ ↦ phases ]

-- The signal that a call of `tp_process_job` ends with.
abbrev pub last_signal : List Call → (ℕ → Phase) → ℕ → Phase
last_signal (signal k ∷ _) phases = wake k phases
last_signal _ phases = phases

-- The thread that a call of `tp_process_job` created in slot `k`, where it did.
abbrev pub start : (k : ℕ) → (grown : Bool) → Option ℕ → (ℕ → Phase) → ℕ → Phase
start k true (some _) phases = put k looping phases
start k _ _ phases = phases

-- The workers of the slots in use.
abbrev pub cut : (used : ℕ) → (ℕ → Phase) → ℕ → Phase
cut used phases j = if ltb j used then phases j else gone

unfoldable pub submit : Creates → (worker job : ℕ) → System → System
submit creates worker job s =
    let p = s.pool in
    let q = tp_process_job creates worker job p in
    record {
      pool = q;
      phases =
          last_signal q.calls
            (start p.cur_th_num (ltb p.cur_th_num q.cur_th_num) (creates p.cur_th_num) s.phases);
    }

-- The steps: a job is submitted, and a thread can be had if one is asked for; the manager makes a round
-- and gives up no thread; a worker begins to wait, takes the job that it was woken for, or ends its job.
pub data Step : System → System → Type 0 where
  submits :
      {s : System} (creates : Creates) (worker job : ℕ) {thread : ℕ}
      → creates s.pool.cur_th_num ≡ some thread
      → Step s (submit creates worker job s)
  manages :
      {s : System} (q : Pool)
      → manage_round s.pool ≡ some q
      → q.cur_th_num ≡ s.pool.cur_th_num
      → Step s (record s { pool = q })
  waits :
      {s : System} (i : ℕ)
      → s.phases i ≡ looping
      → Step s (record s { phases = put i waiting s.phases })
  takes :
      {s : System} (i : ℕ) (worker job : Option ℕ)
      → s.phases i ≡ woken
      → take_work i s.pool ≡ some (worker, job)
      → Step s (record s { phases = put i (working worker job) s.phases })
  ends :
      {s : System} (i : ℕ) (worker job : Option ℕ)
      → s.phases i ≡ working worker job
      → Step s (record { pool = finish_work i s.pool; phases = put i looping s.phases })

-- Any number of steps.
pub data Run : System → System → Type 0 where
  stop : {s : System} → Run s s
  more : {s t u : System} → Step s t → Run t u → Run s u
