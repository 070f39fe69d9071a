-- ===== src/Threads.antt =====
-- multi-thread/helgrind/test.c: two tasks that take two mutexes in opposite orders, with a barrier
-- between. A function of the file is the list of its pthread calls, since it has no branches; `step`
-- makes the next call of a task.
mod Explore
pub mod Deadlock
mod Tests
use training.Base.{List, [], ◌∷◌, ◌++◌, Bool, true, false, Option, none, some, if◌then◌else◌}

pub data Task : Type 0 where
  main_task thread_task : Task

pub data Mutex : Type 0 where
  s_mutex_a s_mutex_b : Mutex

-- The calls, each with the `pthread_` of its name left out. The barrier is one for two tasks.
pub data Call : Type 0 where
  mutex_init mutex_lock mutex_unlock mutex_destroy : (m : Mutex) → Call
  barrier_init barrier_wait barrier_destroy : Call
  create join cancel : Call

abbrev pub lock : List Call
lock =
    mutex_lock s_mutex_b
    ∷ barrier_wait
    ∷ mutex_lock s_mutex_a
    ∷ mutex_unlock s_mutex_a
    ∷ mutex_unlock s_mutex_b
    ∷ []

abbrev pub thread_routine : List Call
thread_routine =
    mutex_lock s_mutex_a
    ∷ barrier_wait
    ∷ mutex_lock s_mutex_b
    ∷ mutex_unlock s_mutex_b
    ∷ mutex_unlock s_mutex_a
    ∷ []

abbrev pub main : List Call
main =
    mutex_init s_mutex_a
    ∷ mutex_init s_mutex_b
    ∷ barrier_init
    ∷ create
    ∷ (lock
        ++ (join
            ∷ cancel
            ∷ barrier_destroy
            ∷ mutex_destroy s_mutex_a
            ∷ mutex_destroy s_mutex_b
            ∷ []))

-- What each task has still to call (the thread nothing before it is created), who holds the mutexes,
-- and who is blocked at the barrier.
pub record State : Type 0 where
  pub main_calls : List Call
  pub thread_calls : Option (List Call)
  pub owner_a : Option Task
  pub owner_b : Option Task
  pub arrived : Option Task

pub start : State
start = record {
  main_calls = main;
  thread_calls = none;
  owner_a = none;
  owner_b = none;
  arrived = none;
}

abbrev pub calls : Task → State → Option (List Call)
calls main_task s = some s.main_calls
calls thread_task s = s.thread_calls

abbrev advance : Task → List Call → State → State
advance main_task rest s = record s { main_calls = rest }
advance thread_task rest s = record s { thread_calls = some rest }

abbrev pub owner : Mutex → State → Option Task
owner s_mutex_a s = s.owner_a
owner s_mutex_b s = s.owner_b

abbrev own : Mutex → Option Task → State → State
own s_mutex_a t s = record s { owner_a = t }
own s_mutex_b t s = record s { owner_b = t }

abbrev pub same_task : Task → Task → Bool
same_task main_task main_task = true
same_task thread_task thread_task = true
same_task _ _ = false

-- Past the call at which a task stands.
abbrev release : Task → State → State
release t s = elim (calls t s) [ none ↦ s | some [] ↦ s | some (call ∷ rest) ↦ advance t rest s ]

-- A call of a task, where it does not block.
abbrev exec : Task → List Call → State → Option State
exec t [] s = none
exec t (mutex_init m ∷ rest) s = some (advance t rest (own m none s))
exec t (mutex_lock m ∷ rest) s = elim (owner m s) [
  | none ↦ some (advance t rest (own m (some t) s))
  | some u ↦ none
]
exec t (mutex_unlock m ∷ rest) s = some (advance t rest (own m none s))
exec t (mutex_destroy m ∷ rest) s = some (advance t rest s)
exec t (barrier_init ∷ rest) s = some (advance t rest (record s { arrived = none }))
exec t (barrier_wait ∷ rest) s = elim s.arrived [
  | none ↦ some (record s { arrived = some t })
  | some u ↦
      if same_task t u
      then none
      else some (release u (advance t rest (record s { arrived = none })))
]
exec t (barrier_destroy ∷ rest) s = some (advance t rest s)
exec t (create ∷ rest) s = some (advance t rest (record s { thread_calls = some thread_routine }))
exec t (join ∷ rest) s = elim s.thread_calls [
  | none ↦ none
  | some [] ↦ some (advance t rest s)
  | some (call ∷ more) ↦ none
]
exec t (cancel ∷ rest) s = some (advance t rest s)

pub step : Task → State → Option State
step t s = elim (calls t s) [ none ↦ none | some list ↦ exec t list s ]

-- The next call of a task.
abbrev pub next : Task → State → Option Call
next t s = elim (calls t s) [ none ↦ none | some [] ↦ none | some (call ∷ rest) ↦ some call ]
