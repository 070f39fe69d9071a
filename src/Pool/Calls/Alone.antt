-- ===== src/Pool/Calls/Alone.antt =====
-- The ends of a call of tp_process_job of thread-pool.c that is made alone, in small steps.
use training.Base.{
  ℕ, ◌+◌, ◌≤◌, ◌<◌, ◌≡◌, refl, ap, ◌∙◌, ◌≢◌, ◌⊎◌, inl, inr, ◌∷◌, Bool, true, false, Option, none,
  some, arith, Bool-cases,
}
use training.Pool.Calls.{
  scanning, locked, claimed, leaving, growing, marked, filling, worked, filled, refused, done,
  Place, Shared, put, goes, Step, locks, claims, unlocks, writes_work, writes_job, signals,
  signals_nobody, ends_scan, locks_pool, finds_full, gives_up, marks, creates, unlocks_pool, Run,
  then,
}
use training.Pool.Calls.Exclusive.{put_self}
use training.Pool.Calls.Matches.{put_other}
use training.Pool.Calls.Searching.{put_free, moved, Scanned, scan-Scanned_start}

module _ (worker job : ℕ → ℕ) (t : ℕ) where
  -- The submitter `t` returned from its call, left the slots as told, and signalled `slot` last; the others
  -- stand where they stood, and every mutex is free.
  pub record Left (s : Shared) (cur : ℕ) (busy : ℕ → Bool) (work jobs : ℕ → Option ℕ) (slot : ℕ)
      : Type 0 where
    pub state : Shared
    pub run : Run worker job s state
    pub at : state.place t ≡ done
    pub others : (r : ℕ) → r ≢ t → state.place r ≡ s.place r
    pub slots :
        (state.cur_th_num ≡ cur)
        × (state.max_th_num ≡ s.max_th_num)
        × (state.is_busy ≡ busy)
        × (state.th_work ≡ work)
        × (state.th_job ≡ jobs)
    pub signalled : state.signalled ≡ slot ∷ s.signalled
    pub slot_locks : (i : ℕ) → state.thread_lock i ≡ none
    pub pool_lock : state.tp_lock ≡ none

  -- The signal may come to a worker that waits, or to nobody.
  signal-Step :
      (u : Shared) (i : ℕ)
      → (u.place t ≡ filled i false) ⊎ (u.place t ≡ refused i false)
      → (waiting : ℕ → Bool) × (running : ℕ → Option ℕ) × Step worker job u (
          goes t done
            (record u { waiting = waiting; running = running; signalled = i ∷ u.signalled }))
  signal-Step u i at = elim (Bool-cases (u.waiting i)) [
    | inl yes_it ↦ (put i false u.waiting, put i (some t) u.running, signals t i at yes_it)
    | inr no_one ↦ (u.waiting, u.running, signals_nobody t i at no_one)
  ]

  -- The last step of a call.
  signals-Left :
      (s u : Shared) (k : ℕ)
      → Run worker job s u
      → (u.place t ≡ filled k false) ⊎ (u.place t ≡ refused k false)
      → ((r : ℕ) → r ≢ t → u.place r ≡ s.place r)
      → u.max_th_num ≡ s.max_th_num
      → u.signalled ≡ s.signalled
      → ((i : ℕ) → u.thread_lock i ≡ none)
      → u.tp_lock ≡ none
      → Left s u.cur_th_num u.is_busy u.th_work u.th_job k
  signals-Left s u k run at others most before slot_locks pool_lock =
      let (waiting, running, step) = signal-Step u k at in
      record {
        state = _;
        run = then run step;
        at = put_self t done u.place;
        others = λ r ne. put_other t r done u.place ne ∙ others r ne;
        slots = (refl, most, refl, refl, refl);
        signalled = ap (◌∷◌ k) before;
        slot_locks = slot_locks;
        pool_lock = pool_lock;
      }

  module _ (s : Shared) (at : s.place t ≡ scanning 0) (free : (i : ℕ) → s.thread_lock i ≡ none)
      (open_pool : s.tp_lock ≡ none) where
    pub idle-Left :
        (k : ℕ)
        → k < s.cur_th_num
        → ((j : ℕ) → j < k → s.is_busy j ≡ true)
        → s.is_busy k ≡ false
        → Left s s.cur_th_num
            (put k true s.is_busy)
            (put k (some (worker t)) s.th_work)
            (put k (some (job t)) s.th_job)
            k
    idle-Left k h busy idle =
        let c = scan-Scanned_start worker job t k s at (omega arith) free busy in
        let p1 = put t (locked k) c.place in
        let p2 = put t (claimed k) p1 in
        let p3 = put t (filling k false) p2 in
        let p4 = put t (worked k false) p3 in
        let p5 = put t (filled k false) p4 in
        signals-Left s _ k
          (then
            (then
              (then
                (then (then c.run (locks t k c.at h (c.free k)))
                  (claims t k (put_self t (locked k) c.place) idle))
                (unlocks t k (put_self t (claimed k) p1)))
              (writes_work t k false (put_self t (filling k false) p2)))
            (writes_job t k false (put_self t (worked k false) p3)))
          (inl (put_self t (filled k false) p4))
          (λ r ne.
            put_other t r (filled k false) p4 ne
            ∙ put_other t r (worked k false) p3 ne
            ∙ put_other t r (filling k false) p2 ne
            ∙ put_other t r (claimed k) p1 ne
            ∙ put_other t r (locked k) c.place ne
            ∙ c.others r ne)
          refl refl (put_free k (some t) c.thread_lock c.free) open_pool

    module _ (busy : (j : ℕ) → j < s.cur_th_num → s.is_busy j ≡ true) where
      abbrev k : ℕ
      k = s.cur_th_num

      abbrev c : Scanned worker job s t s.cur_th_num
      c = scan-Scanned_start worker job t s.cur_th_num s at (omega arith) free busy

      abbrev p1 : ℕ → Place
      p1 = put t (leaving k) c.place

      abbrev p2 : ℕ → Place
      p2 = put t (growing k) p1

      abbrev to_growing :
          Run worker job s (record (moved worker job s p2 c.thread_lock) { tp_lock = some t })
      to_growing =
          then (then c.run (ends_scan t k c.at (omega arith)))
            (locks_pool t k (put_self t (leaving k) c.place) open_pool)

      others2 : (r : ℕ) → r ≢ t → p2 r ≡ s.place r
      others2 r ne =
          put_other t r (growing k) p1 ne ∙ put_other t r (leaving k) c.place ne ∙ c.others r ne

      pub full-Left :
          s.max_th_num ≤ s.cur_th_num
          → Left s s.cur_th_num s.is_busy s.th_work s.th_job s.cur_th_num
      full-Left h =
          let p3 = put t (refused k true) p2 in
          signals-Left s _ k
            (then (then to_growing (finds_full t k (put_self t (growing k) p1) h))
              (gives_up t k (put_self t (refused k true) p2)))
            (inr (put_self t (refused k false) p3))
            (λ r ne.
              put_other t r (refused k false) p3 ne
              ∙ put_other t r (refused k true) p2 ne
              ∙ others2 r ne)
            refl refl c.free refl

      pub new-Left :
          s.cur_th_num < s.max_th_num
          → Left s
              (s.cur_th_num + 1)
              (put s.cur_th_num true s.is_busy)
              (put s.cur_th_num (some (worker t)) s.th_work)
              (put s.cur_th_num (some (job t)) s.th_job)
              s.cur_th_num
      new-Left h =
          let p3 = put t (marked k) p2 in
          let p4 = put t (filling k true) p3 in
          let p5 = put t (worked k true) p4 in
          let p6 = put t (filled k true) p5 in
          signals-Left s _ k
            (then
              (then
                (then
                  (then (then to_growing (marks t k (put_self t (growing k) p1) h))
                    (creates t k (put_self t (marked k) p2)))
                  (writes_work t k true (put_self t (filling k true) p3)))
                (writes_job t k true (put_self t (worked k true) p4)))
              (unlocks_pool t k (put_self t (filled k true) p5)))
            (inl (put_self t (filled k false) p6))
            (λ r ne.
              put_other t r (filled k false) p6 ne
              ∙ put_other t r (filled k true) p5 ne
              ∙ put_other t r (worked k true) p4 ne
              ∙ put_other t r (filling k true) p3 ne
              ∙ put_other t r (marked k) p2 ne
              ∙ others2 r ne)
            refl refl c.free refl
