-- ===== src/Pool/Calls/Growing.antt =====
-- A submitter that adds a thread keeps the slots apart.
use training.Base.{
  ℕ, ◌+◌, ◌≡◌, refl, ◌≢◌, inl, inr, true, false, none, some, arith, ◌==◌, Bool-cases,
}
use training.Pool.Calls.{scanning, leaving, growing, marked, filling, filled, Shared, put, goes}
use training.Pool.Calls.Exclusive.{
  Exclusive, put-Fits, fit, bounded_keep, put_self, put_keeps, none-some, some-other,
}

module _ (worker job : ℕ → ℕ) {s : Shared} (x : Exclusive worker job s) where
  abbrev Kept : Shared → Type 0
  Kept = Exclusive worker job

  pub ends_scan-Exclusive : (t i : ℕ) → s.place t ≡ scanning i → Kept (goes t (leaving i) s)
  ends_scan-Exclusive t i at = record {
    owner = x.owner;
    fits = put-Fits worker job s s x.owner x.owner t (leaving i) x.fits tt (λ u ne. record {
      owns = λ k e. e;
      locks = λ k e. e;
      pool = λ e. (e, refl);
      grows = omega arith;
      work = λ k e. refl;
      job_kept = λ k e. refl;
    });
    bounded = bounded_keep worker job x t (leaving i) at (λ k e. cc);
    taken = x.taken;
    runs = x.runs;
  }

  pub locks_pool-Exclusive :
      (t i : ℕ)
      → s.place t ≡ leaving i
      → s.tp_lock ≡ none
      → Kept (goes t (growing i) (record s { tp_lock = some t }))
  locks_pool-Exclusive t i at free =
      let s' = record s { tp_lock = some t } in
      record {
        owner = x.owner;
        fits = put-Fits worker job s s' x.owner x.owner t (growing i) x.fits refl (λ u ne. record {
          owns = λ k e. e;
          locks = λ k e. e;
          pool = λ e. absurd (none-some free e);
          grows = omega arith;
          work = λ k e. refl;
          job_kept = λ k e. refl;
        });
        bounded = bounded_keep worker job x t (growing i) at (λ k e. cc);
        taken = x.taken;
        runs = x.runs;
      }

  pub marks-Exclusive :
      (t i : ℕ)
      → s.place t ≡ growing i
      → Kept (goes t (marked s.cur_th_num) (record s { is_busy = put s.cur_th_num true s.is_busy }))
  marks-Exclusive t i at =
      let s' = record s { is_busy = put s.cur_th_num true s.is_busy } in
      let f = fit worker job x t (growing i) at in
      let not_owned : (u : ℕ) → u ≢ t → x.owner s.cur_th_num ≢ some u = λ u ne e.
        elim (x.bounded s.cur_th_num u e) [
          | inl lt ↦ omega arith
          | inr m ↦ let g = fit worker job x u (marked s.cur_th_num) m in some-other f ne g.0
        ] in
      record {
        owner = put s.cur_th_num (some t) x.owner;
        fits =
            put-Fits worker job s s' x.owner (put s.cur_th_num (some t) x.owner) t
              (marked s.cur_th_num) x.fits (f, put_self s.cur_th_num (some t) x.owner, refl)
              (λ u ne. record {
                owns = λ k e. put_keeps s.cur_th_num (some t) x.owner k e (not_owned u ne);
                locks = λ k e. e;
                pool = λ e. (e, refl);
                grows = omega arith;
                work = λ k e. refl;
                job_kept = λ k e. refl;
              });
        bounded = λ k u e. elim (Bool-cases (k == s.cur_th_num)) [
          | inl same ↦
              let here : k ≡ s.cur_th_num = ground arith in
              let who : t ≡ u = let eq = rw same at e in cc in
              inr (rw (here, ← who) (put_self t (marked s.cur_th_num) s.place))
          | inr other ↦
              bounded_keep worker job x t (marked s.cur_th_num) at (λ k e. cc) k u (rw other at e)
        ];
        taken = λ k u e. elim (Bool-cases (k == s.cur_th_num)) [
          | inl same ↦ rw same refl
          | inr other ↦ rw other (x.taken k u (rw other at e))
        ];
        runs = λ k u e.
            let r = x.runs k u e in
            elim (Bool-cases (k == s.cur_th_num)) [
              | inl same ↦ absurd (ground arith)
              | inr other ↦ rw other r
            ];
      }

  pub creates-Exclusive :
      (t i : ℕ)
      → s.place t ≡ marked i
      → Kept (
          goes t
            (filling i true)
            (record s { cur_th_num = s.cur_th_num + 1; waiting = put i false s.waiting }))
  creates-Exclusive t i at =
      let s' = record s { cur_th_num = s.cur_th_num + 1; waiting = put i false s.waiting } in
      let f = fit worker job x t (marked i) at in
      record {
        owner = x.owner;
        fits =
            put-Fits worker job s s' x.owner x.owner t (filling i true) x.fits
              (f.0, f.1, omega (arith, f.2))
              (λ u ne. record {
                owns = λ k e. e;
                locks = λ k e. e;
                pool = λ e. absurd (some-other f.0 ne e);
                grows = omega arith;
                work = λ k e. refl;
                job_kept = λ k e. refl;
              });
        bounded = λ k u e. elim (x.bounded k u e) [
          | inl lt ↦ inl (omega arith)
          | inr m ↦ let g = fit worker job x u (marked k) m in inl (omega (arith, g.2))
        ];
        taken = x.taken;
        runs = λ k u e. let r = x.runs k u e in (r.0, r.1, omega (arith, r.2), r.3, r.4);
      }

  pub unlocks_pool-Exclusive :
      (t i : ℕ)
      → s.place t ≡ filled i true
      → Kept (goes t (filled i false) (record s { tp_lock = none }))
  unlocks_pool-Exclusive t i at =
      let s' = record s { tp_lock = none } in
      let f = fit worker job x t (filled i true) at in
      record {
        owner = x.owner;
        fits =
            put-Fits worker job s s' x.owner x.owner t (filled i false) x.fits
              (tt, f.1, f.2, f.3, f.4)
              (λ u ne. record {
                owns = λ k e. e;
                locks = λ k e. e;
                pool = λ e. absurd (some-other f.0 ne e);
                grows = omega arith;
                work = λ k e. refl;
                job_kept = λ k e. refl;
              });
        bounded = bounded_keep worker job x t (filled i false) at (λ k e. cc);
        taken = x.taken;
        runs = x.runs;
      }
