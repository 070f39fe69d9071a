-- ===== src/Pool/Locks.antt =====
-- The lifetime of the mutexes of the slots, through the operations of thread-pool.c.
use training.Base.{
  ℕ, zero, suc, ◌+◌, ◌-◌, ◌≤◌, ◌<◌, ◌≡◌, refl, sym, ◌∙◌, inl, inr, List, [], ◌∷◌, Bool, true, false,
  none, some, arith, ltb, ◌==◌, if◌then◌else◌, Bool-cases, Option-cases, get_elem?,
}
use training.Pool.Scan.{give_idle_hit, give_idle_busy, give_idle_end}
use training.Pool.Submit.{tp_add_thread-none, tp_add_thread-some}
use training.Pool.Shrink.{
  delete_least, delete_busy, delete_last, delete_idle_stop, delete_idle_more,
}
use training.Pool.{
  tp_get_tp_status, Pool, Call, emit, update_slot, assign, mutex_init, mutex_destroy, lock, unlock,
  lock_pool, unlock_pool, signal, Creates, give_idle, give_new, tp_add_thread, tp_process_job,
  tp_delete_thread, delete_idle, manage_round, finish_work, busy_slot,
}

-- The mutex of a slot is set up and was not destroyed since.
abbrev pub alive : List Call → ℕ → Bool
alive [] i = false
alive (mutex_init k ∷ rest) i = if i == k then true else alive rest i
alive (mutex_destroy k ∷ rest) i = if i == k then false else alive rest i
alive (_ ∷ rest) i = alive rest i

-- Mutexes are set up only where there is none, and taken, released and destroyed only where there is
-- one. The last call is the first of the list.
abbrev pub Proper : List Call → Type 0
Proper [] = Unit {0}
Proper (mutex_init k ∷ rest) = (alive rest k ≡ false) × Proper rest
Proper (mutex_destroy k ∷ rest) = (alive rest k ≡ true) × Proper rest
Proper (lock k ∷ rest) = (alive rest k ≡ true) × Proper rest
Proper (unlock k ∷ rest) = (alive rest k ≡ true) × Proper rest
Proper (_ ∷ rest) = Proper rest

-- The calls so far are proper, and leave a mutex in the first `n` slots.
pub record Alive (calls : List Call) (n : ℕ) : Type 0 where
  pub proper : Proper calls
  pub slots : (i : ℕ) → alive calls i ≡ ltb i n

lock-unlock-Alive :
    (i n : ℕ) (calls : List Call) → Alive calls n → i < n → Alive (unlock i ∷ (lock i ∷ calls)) n
lock-unlock-Alive i n calls a h =
    let here = a.slots i in
    let set : alive calls i ≡ true = ground arith in
    record { proper = (set, (set, a.proper)); slots = a.slots }

-- A new slot.
pub init-Alive : (n : ℕ) (calls : List Call) → Alive calls n → Alive (mutex_init n ∷ calls) (n + 1)
init-Alive n calls a = record {
  proper = (ground (arith, a.slots n), a.proper);
  slots = λ i. ground (arith, a.slots i);
}

-- The last slot is given up.
destroy-Alive :
    (n : ℕ) (calls : List Call)
    → Alive calls n
    → 0 < n
    → Alive (mutex_destroy (n - 1) ∷ calls) (n - 1)
destroy-Alive n calls a h = record {
  proper = (ground (arith, a.slots (n - 1)), a.proper);
  slots = λ i. ground (arith, a.slots i);
}

abbrev pub PoolAlive : Pool → Type 0
PoolAlive p = Alive p.calls p.cur_th_num

give_idle-none :
    (worker job n i : ℕ) (p : Pool)
    → get_elem? p.thread_info i ≡ none
    → give_idle worker job (suc n) i p ≡ (false, emit (lock i) p)
unfolding give_idle
give_idle-none worker job n i p e = ground arith

add_full :
    (creates : Creates) (p : Pool)
    → ltb p.cur_th_num p.max_th_num ≡ false
    → tp_add_thread creates p ≡ (false, p)
unfolding tp_add_thread
add_full creates p e = ground arith

delete_none :
    (p : Pool)
    → ltb p.min_th_num p.cur_th_num ≡ true
    → busy_slot p.thread_info (p.cur_th_num - 1) ≡ false
    → get_elem? p.thread_info (p.cur_th_num - 1) ≡ none
    → tp_delete_thread p ≡ (false, p)
unfolding tp_delete_thread
delete_none p more idle e = ground arith

manage_idle :
    (p : Pool)
    → (tp_get_tp_status p == 0) ≡ true
    → manage_round p ≡ delete_idle (p.cur_th_num + 1) p
unfolding manage_round
manage_idle p e = ground arith

manage_busy : (p : Pool) → (tp_get_tp_status p == 0) ≡ false → manage_round p ≡ some p
unfolding manage_round
manage_busy p e = ground arith

pub give_idle-PoolAlive :
    (worker job n i : ℕ) (p : Pool)
    → PoolAlive p
    → i + n ≤ p.cur_th_num
    → PoolAlive (give_idle worker job n i p).1
give_idle-PoolAlive worker job zero i p a h = rw (give_idle_end worker job i p) a
give_idle-PoolAlive worker job (suc n) i p a h =
    let pair = lock-unlock-Alive i p.cur_th_num p.calls a (omega arith) in
    elim (Option-cases (get_elem? p.thread_info i)) [
      | inl e ↦
          rw (give_idle-none worker job n i p e)
            (record { proper = (ground (arith, a.slots i), a.proper); slots = a.slots })
      | inr (t, e) ↦ elim (Bool-cases t.is_busy) [
        | inl busy ↦ rw (give_idle_busy worker job n i p t e busy) (
            give_idle-PoolAlive worker job n (i + 1) (emit (unlock i) (emit (lock i) p)) pair
              (omega arith))
        | inr idle ↦
            rw (give_idle_hit worker job n i p t e idle)
              (record { proper = pair.proper; slots = pair.slots })
      ]
    ]

tp_add_thread-PoolAlive :
    (creates : Creates) (p : Pool) → PoolAlive p → PoolAlive (tp_add_thread creates p).1
unfolding tp_add_thread
tp_add_thread-PoolAlive creates p a =
    let new = init-Alive p.cur_th_num p.calls a in
    elim (Bool-cases (ltb p.cur_th_num p.max_th_num)) [
      | inr full ↦ rw (add_full creates p full) a
      | inl room ↦ elim (Option-cases (creates p.cur_th_num)) [
        | inl fails ↦
            rw (tp_add_thread-none creates p (ground arith) fails)
              (record { proper = new.proper; slots = new.slots })
        | inr (t, made) ↦
            rw (tp_add_thread-some creates p (ground arith) made)
              (record { proper = new.proper; slots = new.slots })
      ]
    ]

give_new-PoolAlive :
    (creates : Creates) (worker job : ℕ) (p : Pool)
    → PoolAlive p
    → PoolAlive (give_new creates worker job p)
unfolding give_new
give_new-PoolAlive creates worker job p a = finish (tp_add_thread creates (emit lock_pool p)) (
    tp_add_thread-PoolAlive creates (emit lock_pool p)
      (record { proper = a.proper; slots = a.slots }))
  where
    finish :
        (r : Bool × Pool)
        → PoolAlive r.1
        → PoolAlive (
            if r.0
            then emit
                (signal (r.1.cur_th_num - 1))
                (emit unlock_pool (update_slot (r.1.cur_th_num - 1) (assign worker job) r.1))
            else emit (signal p.cur_th_num) (emit unlock_pool r.1))
    finish (true, q) b = record { proper = b.proper; slots = b.slots }
    finish (false, q) b = record { proper = b.proper; slots = b.slots }

pub tp_process_job-PoolAlive :
    (creates : Creates) (worker job : ℕ) (p : Pool)
    → PoolAlive p
    → PoolAlive (tp_process_job creates worker job p)
unfolding tp_process_job
tp_process_job-PoolAlive creates worker job p a =
    finish (give_idle worker job p.cur_th_num 0 p)
      (give_idle-PoolAlive worker job p.cur_th_num 0 p a (omega arith))
  where
    finish :
        (r : Bool × Pool)
        → PoolAlive r.1
        → PoolAlive (if r.0 then r.1 else give_new creates worker job r.1)
    finish (true, q) b = b
    finish (false, q) b = give_new-PoolAlive creates worker job q b

tp_delete_thread-PoolAlive : (p : Pool) → PoolAlive p → PoolAlive (tp_delete_thread p).1
tp_delete_thread-PoolAlive p a = elim (Bool-cases (ltb p.min_th_num p.cur_th_num)) [
  | inr least ↦ rw (delete_least p least) a
  | inl more ↦ elim (Bool-cases (busy_slot p.thread_info (p.cur_th_num - 1))) [
    | inl busy ↦ rw (delete_busy p more busy) a
    | inr idle ↦ elim (Option-cases (get_elem? p.thread_info (p.cur_th_num - 1))) [
      | inl e ↦ rw (delete_none p more idle e) a
      | inr (t, e) ↦
          let fewer = destroy-Alive p.cur_th_num p.calls a (ground arith) in
          rw (delete_last p more idle e) (record { proper = fewer.proper; slots = fewer.slots })
    ]
  ]
]

delete_idle-PoolAlive :
    (fuel : ℕ) (p q : Pool) → PoolAlive p → delete_idle fuel p ≡ some q → PoolAlive q
unfolding delete_idle
delete_idle-PoolAlive zero p q a e = cc
delete_idle-PoolAlive (suc fuel) p q a e =
    split (tp_delete_thread p) refl (tp_delete_thread-PoolAlive p a) (delete_idle-PoolAlive fuel)
  where
    split :
        (r : Bool × Pool)
        → tp_delete_thread p ≡ r
        → PoolAlive r.1
        → ((s u : Pool) → PoolAlive s → delete_idle fuel s ≡ some u → PoolAlive u)
        → PoolAlive q
    split (false, s) d b rest =
        let same : s ≡ q = let both = sym (delete_idle_stop fuel p s d) ∙ e in cc in rw (← same) b
    split (true, s) d b rest = rest s q b (sym (delete_idle_more fuel p s d) ∙ e)

pub manage_round-PoolAlive : (p q : Pool) → PoolAlive p → manage_round p ≡ some q → PoolAlive q
unfolding manage_round
manage_round-PoolAlive p q a e = elim (Bool-cases (tp_get_tp_status p == 0)) [
  | inl idle ↦ delete_idle-PoolAlive (p.cur_th_num + 1) p q a (sym (manage_idle p idle) ∙ e)
  | inr busy ↦ let same : p ≡ q = let both = sym (manage_busy p busy) ∙ e in cc in rw (← same) a
]

pub finish_work-PoolAlive :
    (i : ℕ) (p : Pool) → i < p.cur_th_num → PoolAlive p → PoolAlive (finish_work i p)
unfolding finish_work
finish_work-PoolAlive i p h a =
    let pair = lock-unlock-Alive i p.cur_th_num p.calls a h in
    record { proper = pair.proper; slots = pair.slots }
