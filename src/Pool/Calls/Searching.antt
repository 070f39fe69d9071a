-- ===== src/Pool/Calls/Searching.antt =====
-- A submitter that makes the small steps of tp_process_job of thread-pool.c alone, up to the end of its search.
use training.Base.{
  ℕ, zero, suc, ◌+◌, ◌≤◌, ◌<◌, ◌≡◌, refl, ap, ◌∙◌, ◌≢◌, inl, inr, true, Option, none, some, arith,
  ◌==◌, Bool-cases,
}
use training.Pool.Calls.{scanning, locked, Place, Shared, put, goes, locks, skips, Run, stop, then}
use training.Pool.Calls.Exclusive.{put_self}
use training.Pool.Calls.Matches.{put_other}

pub put_free :
    (k : ℕ) (a : Option ℕ) (f : ℕ → Option ℕ)
    → ((i : ℕ) → f i ≡ none)
    → (i : ℕ) → put k none (put k a f) i ≡ none
put_free k a f free i = elim (Bool-cases (i == k)) [ inl e ↦ rw e refl | inr e ↦ rw e (free i) ]

module _ (worker job : ℕ → ℕ) where
  pub Run-trans : {s t u : Shared} → Run worker job s t → Run worker job t u → Run worker job s u
  Run-trans r stop = r
  Run-trans r (then b step) = then (Run-trans r b) step

  abbrev pub moved : Shared → (ℕ → Place) → (ℕ → Option ℕ) → Shared
  moved s p l = record s { place = p; thread_lock = l }

  -- The pool is as it was, and the submitter `t` further in its loop.
  pub record Scanned (s : Shared) (t k : ℕ) : Type 0 where
    pub place : ℕ → Place
    pub thread_lock : ℕ → Option ℕ
    pub run : Run worker job s (moved s place thread_lock)
    pub at : place t ≡ scanning k
    pub others : (r : ℕ) → r ≢ t → place r ≡ s.place r
    pub free : (i : ℕ) → thread_lock i ≡ none

  module _ (t : ℕ) where
    scan-Scanned :
        (n i : ℕ) (s : Shared)
        → s.place t ≡ scanning i
        → i + n ≤ s.cur_th_num
        → ((i : ℕ) → s.thread_lock i ≡ none)
        → ((j : ℕ) → i ≤ j → j < i + n → s.is_busy j ≡ true)
        → Scanned s t (i + n)
    scan-Scanned zero i s at h free busy = record {
      place = s.place;
      thread_lock = s.thread_lock;
      run = stop;
      at = at ∙ ap scanning (omega arith);
      others = λ r ne. refl;
      free = free;
    }
    scan-Scanned (suc n) i s at h free busy =
        let s1 = goes t (locked i) (record s { thread_lock = put i (some t) s.thread_lock }) in
        let s2 =
          goes t (scanning (i + 1)) (record s1 { thread_lock = put i none s1.thread_lock }) in
        let c =
          scan-Scanned n (i + 1) s2 (put_self t (scanning (i + 1)) s1.place) (omega arith)
            (put_free i (some t) s.thread_lock free)
            (λ j lo hi. busy j (omega arith) (omega arith)) in
        record {
          place = c.place;
          thread_lock = c.thread_lock;
          run =
              Run-trans
                (then (then stop (locks t i at (omega arith) (free i)))
                  (skips t i (put_self t (locked i) s.place) (busy i (omega arith) (omega arith))))
                c.run;
          at = c.at ∙ ap scanning (omega arith);
          others = λ r ne.
              c.others r ne
              ∙ put_other t r (scanning (i + 1)) s1.place ne
              ∙ put_other t r (locked i) s.place ne;
          free = c.free;
        }

    pub scan-Scanned_start :
        (k : ℕ) (s : Shared)
        → s.place t ≡ scanning 0
        → k ≤ s.cur_th_num
        → ((i : ℕ) → s.thread_lock i ≡ none)
        → ((j : ℕ) → j < k → s.is_busy j ≡ true)
        → Scanned s t k
    scan-Scanned_start k s at h free busy =
        let start : 0 + k ≡ k = omega arith in
        rw start at (scan-Scanned k 0 s at (omega arith) free (λ j lo hi. busy j (omega arith)))
