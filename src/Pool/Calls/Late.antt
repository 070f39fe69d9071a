-- ===== src/Pool/Calls/Late.antt =====
-- A submitter of thread-pool.c that comes late: it left its loop before another one added a slot, and finds
-- the pool full.
use training.Base.{
  ℕ, ◌+◌, ◌≤◌, ◌<◌, ◌≡◌, refl, sym, ap, ◌∙◌, ◌≢◌, inr, ◌∷◌, Bool, true, false, Option, none, some,
  arith,
}
use training.Pool.Calls.{
  scanning, locked, claimed, leaving, growing, marked, filling, worked, filled, refused, done,
  Place, Shared, put, goes, locks, claims, writes_work, writes_job, signals, ends_scan, locks_pool,
  finds_full, gives_up, marks, creates, unlocks_pool, waits, frees, Run, stop, then,
}
use training.Pool.Calls.Exclusive.{put_self}
use training.Pool.Calls.Matches.{put_other}
use training.Pool.Calls.Searching.{Run-trans, moved, scan-Scanned_start}
use training.Pool.Calls.Steps.{slot_of}

module _ (worker job : ℕ → ℕ) where
  -- The submitter `t` has added a slot and written its job into it, and has not signalled yet.
  abbrev added : Shared → (t : ℕ) → (ℕ → Place) → (ℕ → Option ℕ) → Shared
  added s t place thread_lock = record (moved worker job s place thread_lock) {
    cur_th_num = s.cur_th_num + 1;
    is_busy = put s.cur_th_num true s.is_busy;
    th_work = put s.cur_th_num (some (worker t)) s.th_work;
    th_job = put s.cur_th_num (some (job t)) s.th_job;
    waiting = put s.cur_th_num false s.waiting;
    tp_lock = none;
  }

  record Added (s : Shared) (t : ℕ) : Type 0 where
    place : ℕ → Place
    thread_lock : ℕ → Option ℕ
    run : Run worker job s (added s t place thread_lock)
    at : place t ≡ filled s.cur_th_num false
    others : (r : ℕ) → r ≢ t → place r ≡ s.place r
    free : (i : ℕ) → thread_lock i ≡ none

  adds-Added :
      (s : Shared) (t : ℕ)
      → s.place t ≡ scanning 0
      → ((i : ℕ) → s.thread_lock i ≡ none)
      → s.tp_lock ≡ none
      → ((j : ℕ) → j < s.cur_th_num → s.is_busy j ≡ true)
      → s.cur_th_num < s.max_th_num
      → Added s t
  adds-Added s t at free open_pool busy room =
      let k : ℕ = s.cur_th_num in
      let c = scan-Scanned_start worker job t k s at (omega arith) free busy in
      let p1 = put t (leaving k) c.place in
      let p2 = put t (growing k) p1 in
      let p3 = put t (marked k) p2 in
      let p4 = put t (filling k true) p3 in
      let p5 = put t (worked k true) p4 in
      let p6 = put t (filled k true) p5 in
      record {
        place = put t (filled k false) p6;
        thread_lock = c.thread_lock;
        run =
            then
              (then
                (then
                  (then
                    (then
                      (then (then c.run (ends_scan t k c.at (omega arith)))
                        (locks_pool t k (put_self t (leaving k) c.place) open_pool))
                      (marks t k (put_self t (growing k) p1) room))
                    (creates t k (put_self t (marked k) p2)))
                  (writes_work t k true (put_self t (filling k true) p3)))
                (writes_job t k true (put_self t (worked k true) p4)))
              (unlocks_pool t k (put_self t (filled k true) p5));
        at = put_self t (filled k false) p6;
        others = λ r ne.
            put_other t r (filled k false) p6 ne
            ∙ put_other t r (filled k true) p5 ne
            ∙ put_other t r (worked k true) p4 ne
            ∙ put_other t r (filling k true) p3 ne
            ∙ put_other t r (marked k) p2 ne
            ∙ put_other t r (growing k) p1 ne
            ∙ put_other t r (leaving k) c.place ne
            ∙ c.others r ne;
        free = c.free;
      }

  -- The worker of the slot `k` was signalled by a submitter that gave it nothing, and has marked it idle.
  abbrev freed : Shared → (k : ℕ) → (ℕ → Place) → (waiting : ℕ → Bool) → (ℕ → Option ℕ) → Shared
  freed s k place waiting running = record s {
    place = place;
    is_busy = put k false s.is_busy;
    waiting = waiting;
    running = running;
    signalled = k ∷ s.signalled;
    tp_lock = none;
  }

  record Freed (s : Shared) (r k : ℕ) : Type 0 where
    place : ℕ → Place
    waiting : ℕ → Bool
    running : ℕ → Option ℕ
    run : Run worker job s (freed s k place waiting running)
    others : (u : ℕ) → u ≢ r → place u ≡ s.place u

  signals-Freed :
      (s : Shared) (r k : ℕ)
      → s.place r ≡ leaving k
      → s.tp_lock ≡ none
      → s.max_th_num ≤ s.cur_th_num
      → k < s.cur_th_num
      → s.running k ≡ none
      → s.thread_lock k ≡ none
      → Freed s r k
  signals-Freed s r k at open_pool full lt nobody free =
      let p1 = put r (growing k) s.place in
      let p2 = put r (refused k true) p1 in
      let p3 = put r (refused k false) p2 in
      record {
        place = put r done p3;
        waiting = put k false (put k true s.waiting);
        running = put k none (put k (some r) s.running);
        run =
            then
              (then
                (then
                  (then (then (then stop (waits k lt nobody)) (locks_pool r k at open_pool))
                    (finds_full r k (put_self r (growing k) s.place) full))
                  (gives_up r k (put_self r (refused k true) p1)))
                (signals r k (inr (put_self r (refused k false) p2)) (put_self k true s.waiting)))
              (frees k r (put_self k (some r) s.running) free);
        others = λ u ne.
            put_other r u done p3 ne
            ∙ put_other r u (refused k false) p2 ne
            ∙ put_other r u (refused k true) p1 ne
            ∙ put_other r u (growing k) s.place ne;
      }

  -- Without the condition that no call finds the pool full, two submitters can hold one slot: in a pool
  -- with one slot to spare, whose other slots are all busy and whose mutexes are free, and of three
  -- submitters that begin their calls, one can leave its loop before the second one adds the slot, find
  -- the pool full and signal that slot; its worker marks it idle, and the third submitter takes it while
  -- the second one has it and has not signalled yet.
  pub late_signal :
      (s : Shared) (r t u : ℕ)
      → r ≢ t
      → r ≢ u
      → t ≢ u
      → ((v : ℕ) → s.place v ≡ scanning 0)
      → s.max_th_num ≡ s.cur_th_num + 1
      → ((i : ℕ) → s.thread_lock i ≡ none)
      → s.tp_lock ≡ none
      → s.running s.cur_th_num ≡ none
      → ((j : ℕ) → j < s.cur_th_num → s.is_busy j ≡ true)
      → (v : Shared) × Run worker job s v
        × (slot_of (v.place t) ≡ some s.cur_th_num)
        × (slot_of (v.place u) ≡ some s.cur_th_num)
  late_signal s r t u rt ru tu starts most free open_pool nobody busy =
      let k : ℕ = s.cur_th_num in
      let c = scan-Scanned_start worker job r k s (starts r) (omega arith) free busy in
      let s1 = goes r (leaving k) (moved worker job s c.place c.thread_lock) in
      let begins : (v : ℕ) → v ≢ r → s1.place v ≡ scanning 0 =
        λ v ne. put_other r v (leaving k) c.place ne ∙ c.others v ne ∙ starts v in
      let a =
        adds-Added s1 t (begins t (λ e. rt (sym e))) c.free open_pool busy
          (rw most (omega arith)) in
      let s2 = added s1 t a.place a.thread_lock in
      let f =
        signals-Freed s2 r k (a.others r rt ∙ put_self r (leaving k) c.place) refl
          (rw most (omega arith)) (omega arith) nobody (a.free k) in
      let s3 = freed s2 k f.place f.waiting f.running in
      let at_u : s3.place u ≡ scanning 0 =
        f.others u (λ e. ru (sym e)) ∙ a.others u (λ e. tu (sym e)) ∙ begins u (λ e. ru (sym e)) in
      let d = scan-Scanned_start worker job u k s3 at_u (omega arith) a.free (λ j lt.
        put_other k j false s2.is_busy (omega arith)
        ∙ put_other k j true s.is_busy (omega arith)
        ∙ busy j lt) in
      let p1 = put u (locked k) d.place in
      let run =
        then (then d.run (locks u k d.at (omega arith) (d.free k)))
          (claims u k (put_self u (locked k) d.place) (put_self k false s2.is_busy)) in
      let at_t =
        put_other u t (claimed k) p1 tu
        ∙ put_other u t (locked k) d.place tu
        ∙ d.others t tu
        ∙ f.others t (λ e. rt (sym e))
        ∙ a.at in
      (
        _,
        Run-trans worker job (then c.run (ends_scan r k c.at (omega arith)))
            (Run-trans worker job a.run (Run-trans worker job f.run run)),
        ap slot_of at_t,
        ap slot_of (put_self u (claimed k) p1),
      )
