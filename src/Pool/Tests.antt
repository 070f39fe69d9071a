-- ===== src/Pool/Tests.antt =====
-- Runs of multi-thread/libthreadpool/src/thread-pool.c on small pools.
use training.Base.{
  ltb, ◌==◌, if◌then◌else◌, ℕ, ◌≡◌, refl, ◌<◌, ◌≤◌, ◌*◌, ◌⊎◌, List, [], ◌∷◌, Bool, true, false,
  none, some, arith, get_elem?,
}
use training.Pool.{
  Info, Pool, Creates, give_idle, tp_process_job, busy_slot, busy_num, manage_round, tp_close,
}
use training.Pool.Slots.{IsValid}
use training.Pool.Submit.{Submitted, tp_process_job_lem}
use training.Pool.Served.{tp_process_job-keeps}
use training.Pool.Shrink.{Managed, manage_round_lem}
use training.Pool.System.{
  System, Phase, gone, looping, waiting, put, submit, Run, stop, more, submits, waits,
}
use training.Pool.System.Orderly.{Orderly, Lost}
use training.Pool.System.Running.{Run-Orderly, Run-Lost}
use training.Pool.Start.{all_created}
use training.Pool.Close.{Gone, begin, initial, run-Gone}

abbrev thread : ℕ → Bool → Info
thread id busy = record { thread_id = id; is_busy = busy; th_work = none; th_job = none }

-- Two of at most three threads, the first one busy.
abbrev pair : Pool
pair = record {
  min_th_num = 1;
  cur_th_num = 2;
  max_th_num = 3;
  manage_thread_id = 9;
  thread_info = thread 11 true ∷ (thread 12 false ∷ (thread 0 false ∷ []));
  calls = [];
}

pair-IsValid : IsValid pair
pair-IsValid = record { least = omega arith; most = omega arith; room = refl }

abbrev refuses : Creates
refuses i = none

abbrev gives : Creates
gives i = some 7

tp_process_job_lem_example : Submitted refuses 100 200 pair (tp_process_job refuses 100 200 pair)
tp_process_job_lem_example = tp_process_job_lem refuses 100 200 pair pair-IsValid

tp_process_job-keeps_example :
    IsValid (tp_process_job refuses 100 200 pair)
    × ((j : ℕ)
        → j < 2
        → busy_slot pair.thread_info j ≡ true
        → get_elem? (tp_process_job refuses 100 200 pair).thread_info j
          ≡ get_elem? pair.thread_info j)
tp_process_job-keeps_example = tp_process_job-keeps refuses 100 200 pair pair-IsValid

manage_round_lem_example :
    (q : Pool) × (manage_round pair ≡ some q)
    × (((2 ≤ 2 * busy_num pair.thread_info 2) × (q ≡ pair))
        ⊎ ((2 * busy_num pair.thread_info 2 < 2) × Managed pair q))
manage_round_lem_example = manage_round_lem pair pair-IsValid

abbrev raw : List Info
raw = thread 0 true ∷ (thread 0 false ∷ [])

-- The worker of slot 0 waits, that of slot 1 has not come to its wait yet.
abbrev phases : ℕ → Phase
phases j = if j == 0 then waiting else if ltb j 2 then looping else gone

abbrev system : System
system = record { pool = pair; phases = phases }

system-Orderly : Orderly system
system-Orderly = record {
  valid = pair-IsValid;
  unused = λ j h. ground arith;
  called = λ j e. ground arith;
  running = λ j w b e. absurd (ground arith);
}

-- A job is submitted, and the worker of slot 1, which was to do it, begins to wait.
abbrev after : System
after = let s = submit gives 100 200 system in record s { phases = put 1 waiting s.phases }

steps : Run system after
unfolding submit tp_process_job give_idle
steps = more (submits gives 100 200 refl) (more (waits 1 refl) stop)

Run-Orderly_example : Orderly after
Run-Orderly_example = Run-Orderly steps system-Orderly

Run-Lost_example : Lost 0 after
Run-Lost_example = Run-Lost 0 steps system-Orderly (record { waits = refl; busy = refl })

-- The only thread is busy, and a second one is created for the job.
abbrev grown : System
grown = submit (all_created (λ i. i)) 100 200 (begin (initial (λ i. i) 9 1 2 raw))

run-Gone_example : Gone grown.pool (tp_close grown.pool)
run-Gone_example =
    run-Gone (λ i. i) 9 1 2 raw (omega arith) refl grown
      (more (submits (all_created (λ i. i)) 100 200 refl) stop)
