-- ===== src/Pool/Submit.antt =====
-- tp_process_job and tp_add_thread: who gets a job.
use training.Base.{
  ℕ, ◌+◌, ◌-◌, ◌<◌, ◌≡◌, refl, ap, ◌⊎◌, inl, inr, List, ◌∷◌, Bool, true, false, none, some, arith,
  ltb, if◌then◌else◌, Bool-cases, Option-cases, length, modify,
}
use training.Pool.{
  Info, Pool, Call, Creates, emit, update_slot, assign, signal, lock_pool, unlock_pool, create,
  free_slot, give_idle, give_new, tp_add_thread, tp_process_job,
}
use training.Pool.Slots.{IsValid, AllBusy}
pub use training.Pool.Scan.{fields, with_job, GaveIdle}
use training.Pool.Scan.{set_busy, Scanned, give_idle_lem}

-- The slot `cur_th_num` with a new thread in it.
abbrev new_thread : ℕ → ℕ → List Info → List Info
new_thread i tid infos = modify i (λ t. record t { thread_id = tid }) (modify i set_busy infos)

-- Every thread was busy, and a new one got the job and was woken.
pub record GaveNew (creates : Creates) (worker job : ℕ) (p q : Pool) : Type 0 where
  pub all_busy : AllBusy p.thread_info 0 p.cur_th_num
  pub room : p.cur_th_num < p.max_th_num
  pub thread : ℕ
  pub created : creates p.cur_th_num ≡ some thread
  pub after : fields q ≡ (
    p.min_th_num,
    p.cur_th_num + 1,
    p.max_th_num,
    modify p.cur_th_num (assign worker job) (new_thread p.cur_th_num thread p.thread_info),
  )
  pub older : List Call
  pub woken : q.calls ≡ signal p.cur_th_num ∷ older

-- Every thread was busy, and `pthread_create` failed: the job is in no slot, and the slot that has no
-- thread is counted, busy and signalled.
pub record LostThread (creates : Creates) (p q : Pool) : Type 0 where
  pub all_busy : AllBusy p.thread_info 0 p.cur_th_num
  pub room : p.cur_th_num < p.max_th_num
  pub failed : creates p.cur_th_num ≡ none
  pub after :
      fields q
      ≡ (p.min_th_num, p.cur_th_num + 1, p.max_th_num, modify p.cur_th_num set_busy p.thread_info)
  pub older : List Call
  pub woken : q.calls ≡ signal p.cur_th_num ∷ older

-- Every thread was busy and there may be no more: the job is in no slot, and the signal goes to a slot
-- behind the array.
pub record Dropped (p q : Pool) : Type 0 where
  pub all_busy : AllBusy p.thread_info 0 p.cur_th_num
  pub full : p.cur_th_num ≡ p.max_th_num
  pub after : fields q ≡ fields p
  pub behind : length p.thread_info ≡ p.max_th_num
  pub older : List Call
  pub woken : q.calls ≡ signal p.max_th_num ∷ older

abbrev pub Submitted : Creates → (worker job : ℕ) → Pool → Pool → Type 0
Submitted creates worker job p q =
    GaveIdle worker job 0 p.cur_th_num p q
    ⊎ GaveNew creates worker job p q
    ⊎ LostThread creates p q
    ⊎ Dropped p q

-- The pool after `cur_th_num++`, with the new slot busy.
abbrev counted : Pool → List Call → Pool
counted q calls = record q {
  cur_th_num = q.cur_th_num + 1;
  thread_info = modify q.cur_th_num set_busy q.thread_info;
  calls = calls;
}

abbrev begun : Pool → List Call
begun p =
    create p.cur_th_num ∷ (Call.mutex_init p.cur_th_num ∷ (Call.cond_init p.cur_th_num ∷ p.calls))

module _ (creates : Creates) (p : Pool) where
  abbrev i : ℕ
  i = p.cur_th_num

  pub tp_add_thread_full : i ≡ p.max_th_num → tp_add_thread creates p ≡ (false, p)
  unfolding tp_add_thread
  tp_add_thread_full e = ground arith

  pub tp_add_thread-none :
      i < p.max_th_num
      → creates i ≡ none
      → tp_add_thread creates p ≡ (false, counted p (free_slot i ∷ begun p))
  unfolding tp_add_thread
  tp_add_thread-none h e = ground arith

  pub tp_add_thread-some :
      {tid : ℕ}
      → i < p.max_th_num
      → creates i ≡ some tid
      → tp_add_thread creates p
        ≡ (true, update_slot i (λ t. record t { thread_id = tid }) (counted p (begun p)))
  unfolding tp_add_thread
  tp_add_thread-some h e = ground arith

module _ (creates : Creates) (worker job : ℕ) (p : Pool) (c : List Call) where
  abbrev q : Pool
  q = record p { calls = c }

  abbrev locked_pool : Pool
  locked_pool = emit lock_pool q

  give_new_full :
      p.cur_th_num ≡ p.max_th_num
      → give_new creates worker job q ≡ emit (signal p.cur_th_num) (emit unlock_pool locked_pool)
  unfolding give_new
  give_new_full e = rw (tp_add_thread_full creates locked_pool e)

  give_new-none :
      p.cur_th_num < p.max_th_num
      → creates p.cur_th_num ≡ none
      → give_new creates worker job q
        ≡ emit
            (signal p.cur_th_num)
            (emit unlock_pool (counted locked_pool (free_slot p.cur_th_num ∷ begun locked_pool)))
  unfolding give_new
  give_new-none h e = rw (tp_add_thread-none creates locked_pool h e)

  give_new-some :
      {tid : ℕ}
      → p.cur_th_num < p.max_th_num
      → creates p.cur_th_num ≡ some tid
      → give_new creates worker job q
        ≡ emit (signal (p.cur_th_num + 1 - 1)) (
            emit unlock_pool (
              update_slot (p.cur_th_num + 1 - 1) (assign worker job) (
                update_slot p.cur_th_num
                  (λ t. record t { thread_id = tid })
                  (counted locked_pool (begun locked_pool)))))
  unfolding give_new
  give_new-some h e = rw (tp_add_thread-some creates locked_pool h e)

  give_new_lem :
      IsValid p
      → AllBusy p.thread_info 0 p.cur_th_num
      → Submitted creates worker job p (give_new creates worker job q)
  give_new_lem v busy = elim (Bool-cases (ltb p.cur_th_num p.max_th_num)) [
    | inr full ↦
        let e : p.cur_th_num ≡ p.max_th_num = ground arith in
        rw (give_new_full e) (
          inr (
            inr (
              inr (record {
                all_busy = busy;
                full = e;
                after = refl;
                behind = v.room;
                older = unlock_pool ∷ (lock_pool ∷ c);
                woken = ap (λ k. signal k ∷ (unlock_pool ∷ (lock_pool ∷ c))) e;
              }))))
    | inl room ↦
        let h : p.cur_th_num < p.max_th_num = ground arith in
        elim (Option-cases (creates p.cur_th_num)) [
          | inl failed ↦ rw (give_new-none h failed) (
              inr (
                inr (
                  inl (record {
                    all_busy = busy;
                    room = h;
                    failed = failed;
                    after = refl;
                    older = _;
                    woken = refl;
                  }))))
          | inr (tid, made) ↦
              let last : p.cur_th_num + 1 - 1 ≡ p.cur_th_num = omega arith in
              rw (give_new-some h made) (
                rw last (
                  inr (
                    inl (record {
                      all_busy = busy;
                      room = h;
                      thread = tid;
                      created = made;
                      after = refl;
                      older = _;
                      woken = refl;
                    }))))
        ]
  ]

resolve :
    (creates : Creates) (worker job : ℕ) (p : Pool) (r : Bool × Pool)
    → IsValid p
    → Scanned worker job 0 p.cur_th_num p r
    → Submitted creates worker job p (if r.0 then r.1 else give_new creates worker job r.1)
resolve creates worker job p (true, r) v g = inl g
resolve creates worker job p (false, r) v f =
    rw f.after (give_new_lem creates worker job p f.calls v f.all_busy)

-- Every way in which `tp_process_job` of a valid pool may end: the first idle thread gets the job and is woken; or all
-- are busy, and a new thread gets it, or `pthread_create` fails and no thread gets it, or the pool is at
-- its maximum, no thread gets it and the signal goes behind the array.
pub tp_process_job_lem :
    (creates : Creates) (worker job : ℕ) (p : Pool)
    → IsValid p
    → Submitted creates worker job p (tp_process_job creates worker job p)
unfolding tp_process_job
tp_process_job_lem creates worker job p v =
    resolve creates worker job p (give_idle worker job p.cur_th_num 0 p) v
      (give_idle_lem worker job p.cur_th_num 0 p.cur_th_num p (omega arith) (omega arith))
