-- ===== src/Pool/Calls/Tests.antt =====
-- Two submitters at a pool of one thread, the first one ahead; and a call that is made alone, or beside the
-- manager.
use training.Base.{
  ℕ, zero, suc, ◌+◌, ◌≡◌, refl, sym, inl, [], ◌∷◌, true, false, none, some, arith, get_elem?,
}
use training.Pool.Calls.{
  locked, claimed, filling, worked, filled, done, Shared, put, goes, Run, stop, then, locks, claims,
  unlocks, writes_work, writes_job, signals,
}
use training.Pool.{Info, Pool, tp_process_job}
use training.Pool.Slots.{IsValid}
use training.Pool.Calls.Matches.{Matches}
use training.Pool.Calls.Whole.{Returns, tp_process_job-Returns}
use training.Pool.Calls.Manager.{Managed, deleting, ManagedRun, Stranded, deletes_claimed}
use training.Pool.Calls.Late.{late_signal}
use training.Pool.Calls.Steps.{begun, slot_of, Run-running}

abbrev job_of : ℕ → ℕ
job_of t = t + 100

abbrev first : Shared
first = begun 1 2 (λ i. false) (λ i. true) (λ i. none) (λ i. none)

abbrev with_slot : Shared
with_slot =
    goes 0 (claimed 0)
      (record (goes 0 (locked 0)
        (record first { thread_lock = put 0 (some 0) first.thread_lock })) {
          is_busy = put 0 true first.is_busy;
        })

abbrev takes_slot : Run suc job_of first with_slot
takes_slot = then (then stop (locks 0 0 refl (omega arith) refl)) (claims 0 0 refl refl)

abbrev released : Shared
released =
    goes 0 (filling 0 false) (record with_slot { thread_lock = put 0 none with_slot.thread_lock })

abbrev half : Shared
half = goes 0 (worked 0 false) (record released { th_work = put 0 (some (suc 0)) released.th_work })

abbrev whole : Shared
whole = goes 0 (filled 0 false) (record half { th_job = put 0 (some (job_of 0)) half.th_job })

abbrev woken : Shared
woken = goes 0 done (record whole {
  waiting = put 0 false whole.waiting;
  running = put 0 (some 0) whole.running;
  signalled = 0 ∷ whole.signalled;
})

abbrev gives_job : Run suc job_of first woken
gives_job =
    then
      (then (then (then takes_slot (unlocks 0 0 refl)) (writes_work 0 0 false refl))
        (writes_job 0 0 false refl))
      (signals 0 0 (inl refl) refl)

Run-running_example :
    (woken.is_busy 0 ≡ true) × (woken.th_work 0 ≡ some (suc 0)) × (woken.th_job 0 ≡ some (job_of 0))
Run-running_example =
    Run-running suc job_of 1 2 (λ i. false) (λ i. true) (λ i. none) (λ i. none) woken gives_job
      ((((((tt, tt), tt), tt), tt), tt), tt) 0 0 refl

abbrev idle_slot : Info
idle_slot = record { thread_id = 5; is_busy = false; th_work = none; th_job = none }

-- One idle thread, and room for another.
abbrev small : Pool
small = record {
  min_th_num = 1;
  cur_th_num = 1;
  max_th_num = 2;
  manage_thread_id = 9;
  thread_info = idle_slot ∷ (idle_slot ∷ []);
  calls = [];
}

small-IsValid : IsValid small
small-IsValid = record { least = omega arith; most = omega arith; room = refl }

small-Matches : Matches small first
small-Matches = record {
  cur = refl;
  max = refl;
  slots = same;
  slot_locks = λ i. refl;
  pool_lock = refl;
}
  where
    same :
        (j : ℕ) (v : Info)
        → get_elem? (idle_slot ∷ (idle_slot ∷ [])) j ≡ some v
        → (false ≡ v.is_busy) × (none ≡ v.th_work) × (none ≡ v.th_job)
    same zero v e = let is : idle_slot ≡ v = cc in rw (sym is) (refl, refl, refl)
    same (suc zero) v e = let is : idle_slot ≡ v = cc in rw (sym is) (refl, refl, refl)
    same (suc (suc j)) v e = cc

tp_process_job-Returns_example :
    Returns suc job_of 0 small first (tp_process_job (λ i. some 7) (suc 0) (job_of 0) small)
tp_process_job-Returns_example =
    tp_process_job-Returns suc job_of 0 small first small-IsValid small-Matches refl (λ i. some 7)
      refl

deletes_claimed_example :
    (u : Managed) × ManagedRun suc job_of 0
      (record { shared = first; manager = deleting; destroyed = λ i. false })
      u
    × Stranded suc job_of 0 0 0 u
deletes_claimed_example =
    deletes_claimed suc job_of 0 first (λ i. false) 0 0 refl refl (omega arith) (λ i. refl) refl
      (λ j lt. absurd (omega arith)) refl

-- One thread, which is busy, and room for another.
abbrev one_busy : Shared
one_busy = begun 1 2 (λ i. true) (λ i. false) (λ i. none) (λ i. none)

late_signal_example :
    (v : Shared) × Run suc job_of one_busy v
    × (slot_of (v.place 1) ≡ some 1)
    × (slot_of (v.place 2) ≡ some 1)
late_signal_example =
    late_signal suc job_of one_busy 0 1 2 (omega arith) (omega arith) (omega arith) (λ v. refl) refl
      (λ i. refl) refl refl (λ j lt. refl)
