-- ===== src/Pool/Scan.antt =====
-- The loop of tp_process_job: the search for an idle thread.
use training.Base.{
  ℕ, zero, suc, ◌+◌, ◌≤◌, ◌<◌, ◌≡◌, refl, inl, inr, List, ◌∷◌, Bool, true, false, some, arith, ◌==◌,
  Bool-cases, length, get_elem?, get_elem?-some, modify,
}
use training.Pool.{
  Info, Pool, Call, emit, update_slot, assign, signal, lock, unlock, busy_slot, give_idle,
}
use training.Pool.Slots.{AllBusy}

-- The three numbers of the pool and its array.
abbrev pub fields : Pool → ℕ × ℕ × ℕ × List Info
fields p = (p.min_th_num, p.cur_th_num, p.max_th_num, p.thread_info)

abbrev pub set_busy : Info → Info
set_busy t = record t { is_busy = true }

-- The pool with the job in slot `k`.
abbrev pub with_job : (worker job k : ℕ) → List Info → List Info
with_job worker job k infos = modify k (assign worker job) (modify k set_busy infos)

-- `tp_process_job` gave the job to the first idle slot, and woke it.
pub record GaveIdle (worker job i upto : ℕ) (p q : Pool) : Type 0 where
  pub slot : ℕ
  pub lower : i ≤ slot
  pub upper : slot < upto
  pub idle : busy_slot p.thread_info slot ≡ false
  pub first : AllBusy p.thread_info i slot
  pub after :
      fields q ≡ (p.min_th_num, p.cur_th_num, p.max_th_num, with_job worker job slot p.thread_info)
  pub older : List Call
  pub woken : q.calls ≡ signal slot ∷ older

-- The loop of `tp_process_job` went through the slots and found none idle.
pub record FoundNone (i upto : ℕ) (p q : Pool) : Type 0 where
  pub all_busy : AllBusy p.thread_info i upto
  pub calls : List Call
  pub after : q ≡ record p { calls = calls }

abbrev pub Scanned : (worker job i upto : ℕ) → Pool → Bool × Pool → Type 0
Scanned worker job i upto p (true, q) = GaveIdle worker job i upto p q
Scanned worker job i upto p (false, q) = FoundNone i upto p q

module _ (worker job n i : ℕ) (p : Pool) (t : Info)
    (here : get_elem? p.thread_info i ≡ some t) where
  pub give_idle_hit :
      t.is_busy ≡ false
      → give_idle worker job (suc n) i p ≡ (
        true,
        emit (signal i) (
            update_slot i
              (assign worker job)
              (emit (unlock i) (update_slot i set_busy (emit (lock i) p)))),
      )
  unfolding give_idle
  give_idle_hit idle = ground arith

  pub give_idle_busy :
      t.is_busy ≡ true
      → give_idle worker job (suc n) i p
        ≡ give_idle worker job n (i + 1) (emit (unlock i) (emit (lock i) p))
  unfolding give_idle
  give_idle_busy busy = ground arith

pub give_idle_end : (worker job i : ℕ) (p : Pool) → give_idle worker job 0 i p ≡ (false, p)
unfolding give_idle
give_idle_end worker job i p = refl

AllBusy-step :
    (infos : List Info) (i b : ℕ)
    → busy_slot infos i ≡ true
    → AllBusy infos (i + 1) b
    → AllBusy infos i b
AllBusy-step infos i b busy rest j lo hi = elim (Bool-cases (j == i)) [
  | inl e ↦ let e' : j ≡ i = ground arith in rw e' busy
  | inr ne ↦ rest j (ground arith) hi
]

Scanned-step :
    (worker job i upto : ℕ) (p : Pool) (r : Bool × Pool) (c : List Call)
    → busy_slot p.thread_info i ≡ true
    → Scanned worker job (i + 1) upto (record p { calls = c }) r
    → Scanned worker job i upto p r
Scanned-step worker job i upto p (true, q) c busy g = record {
  slot = g.slot;
  lower = let l = g.lower in omega arith;
  upper = g.upper;
  idle = g.idle;
  first = AllBusy-step p.thread_info i g.slot busy g.first;
  after = g.after;
  older = g.older;
  woken = g.woken;
}
Scanned-step worker job i upto p (false, q) c busy f = record {
  all_busy = AllBusy-step p.thread_info i upto busy f.all_busy;
  calls = f.calls;
  after = f.after;
}

pub give_idle_lem :
    (worker job n i upto : ℕ) (p : Pool)
    → i + n ≡ upto
    → upto ≤ length p.thread_info
    → Scanned worker job i upto p (give_idle worker job n i p)
give_idle_lem worker job zero i upto p e h =
    rw (give_idle_end worker job i p)
      (record { all_busy = λ j lo hi. absurd (omega arith); calls = p.calls; after = refl })
give_idle_lem worker job (suc n) i upto p e h =
    let (t, et) = get_elem?-some p.thread_info i (omega arith) in
    elim (Bool-cases t.is_busy) [
      | inl busy ↦ rw (give_idle_busy worker job n i p t et busy) (
          Scanned-step worker job i upto p
            (give_idle worker job n (i + 1) (emit (unlock i) (emit (lock i) p)))
            (unlock i ∷ (lock i ∷ p.calls)) (ground arith)
            (give_idle_lem worker job n (i + 1) upto (emit (unlock i) (emit (lock i) p))
              (omega arith) h))
      | inr idle ↦ rw (give_idle_hit worker job n i p t et idle) (record {
        slot = i;
        lower = omega arith;
        upper = omega arith;
        idle = ground arith;
        first = λ j lo hi. absurd (omega arith);
        after = refl;
        older = unlock i ∷ (lock i ∷ p.calls);
        woken = refl;
      })
    ]
