-- ===== src/Pool/System/Orderly.antt =====
-- What holds of the pool and its workers between the steps.
use training.Base.{
  ℕ, ◌≤◌, ◌<◌, ◌≡◌, refl, ◌≢◌, inl, inr, List, true, Option, some, arith, ltb, Bool-cases,
  get_elem?,
}
use training.Pool.{Info, Pool, busy_slot, take_work}
use training.Pool.Slots.{IsValid}
use training.Pool.System.{System, gone, waiting, woken, working}

-- A worker stands in a slot in use only; one that was woken has a busy slot; and the slot of one that
-- works is busy and has its job.
pub record Orderly (s : System) : Type 0 where
  pub valid : IsValid s.pool
  pub unused : (j : ℕ) → s.pool.cur_th_num ≤ j → s.phases j ≡ gone
  pub called : (j : ℕ) → s.phases j ≡ woken → busy_slot s.pool.thread_info j ≡ true
  pub running :
      (j : ℕ) (worker job : Option ℕ)
      → s.phases j ≡ working worker job
      → (busy_slot s.pool.thread_info j ≡ true) × (take_work j s.pool ≡ some (worker, job))

pub used : (s : System) → Orderly s → (j : ℕ) → s.phases j ≢ gone → j < s.pool.cur_th_num
used s o j ne = elim (Bool-cases (ltb j s.pool.cur_th_num)) [
  | inl e ↦ ground arith
  | inr e ↦ absurd (ne (o.unused j (ground arith)))
]

busy_slot-same :
    (xs ys : List Info) (j : ℕ) → get_elem? xs j ≡ get_elem? ys j → busy_slot xs j ≡ busy_slot ys j
busy_slot-same xs ys j e = rw (e, busy_slot) refl

take_work-same :
    (p q : Pool) (j : ℕ)
    → get_elem? q.thread_info j ≡ get_elem? p.thread_info j
    → take_work j q ≡ take_work j p
unfolding take_work
take_work-same p q j e = rw (e, take_work) refl

-- A slot that is busy and that the pool keeps as it was stays busy, with its job.
pub record Keeps (p q : Pool) (j : ℕ) : Type 0 where
  pub stays : busy_slot q.thread_info j ≡ busy_slot p.thread_info j
  pub has : take_work j q ≡ take_work j p

pub keeps :
    (p q : Pool) (j : ℕ) → get_elem? q.thread_info j ≡ get_elem? p.thread_info j → Keeps p q j
keeps p q j e = record {
  stays = busy_slot-same q.thread_info p.thread_info j e;
  has = take_work-same p q j e;
}

-- The worker of slot `i` waits, and its slot is busy: it has been given a job, and the signal has gone.
pub record Lost (i : ℕ) (s : System) : Type 0 where
  pub waits : s.phases i ≡ waiting
  pub busy : busy_slot s.pool.thread_info i ≡ true
