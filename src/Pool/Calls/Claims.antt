-- ===== src/Pool/Calls/Claims.antt =====
-- A submitter that takes an idle slot keeps the slots apart.
use training.Base.{
  ℕ, ◌+◌, ◌<◌, ◌≡◌, refl, sym, ap, ◌∙◌, ◌≢◌, inl, inr, true, false, none, some, arith, ◌==◌,
  Bool-cases,
}
use training.Pool.Calls.{scanning, locked, claimed, filling, Shared, put, goes}
use training.Pool.Calls.Exclusive.{
  Exclusive, put-Fits, fit, bounded_keep, put_self, put_keeps, none-some, some-other,
}

module _ (worker job : ℕ → ℕ) {s : Shared} (x : Exclusive worker job s) where
  abbrev Kept : Shared → Type 0
  Kept = Exclusive worker job

  pub locks-Exclusive :
      (t i : ℕ)
      → s.place t ≡ scanning i
      → i < s.cur_th_num
      → s.thread_lock i ≡ none
      → Kept (goes t (locked i) (record s { thread_lock = put i (some t) s.thread_lock }))
  locks-Exclusive t i at lt free =
      let s' = record s { thread_lock = put i (some t) s.thread_lock } in
      record {
        owner = x.owner;
        fits =
            put-Fits worker job s s' x.owner x.owner t (locked i) x.fits
              (put_self i (some t) s.thread_lock, lt)
              (λ u ne. record {
                owns = λ k e. e;
                locks = λ k e. put_keeps i (some t) s.thread_lock k e (none-some free);
                pool = λ e. (e, refl);
                grows = omega arith;
                work = λ k e. refl;
                job_kept = λ k e. refl;
              });
        bounded = bounded_keep worker job x t (locked i) at (λ k e. cc);
        taken = x.taken;
        runs = x.runs;
      }

  pub skips-Exclusive :
      (t i : ℕ)
      → s.place t ≡ locked i
      → Kept (goes t (scanning (i + 1)) (record s { thread_lock = put i none s.thread_lock }))
  skips-Exclusive t i at =
      let s' = record s { thread_lock = put i none s.thread_lock } in
      let f = fit worker job x t (locked i) at in
      record {
        owner = x.owner;
        fits = put-Fits worker job s s' x.owner x.owner t (scanning (i + 1)) x.fits tt (λ u ne.
            record {
              owns = λ k e. e;
              locks = λ k e. put_keeps i none s.thread_lock k e (some-other f.0 ne);
              pool = λ e. (e, refl);
              grows = omega arith;
              work = λ k e. refl;
              job_kept = λ k e. refl;
            });
        bounded = bounded_keep worker job x t (scanning (i + 1)) at (λ k e. cc);
        taken = x.taken;
        runs = x.runs;
      }

  pub claims-Exclusive :
      (t i : ℕ)
      → s.place t ≡ locked i
      → s.is_busy i ≡ false
      → Kept (goes t (claimed i) (record s { is_busy = put i true s.is_busy }))
  claims-Exclusive t i at idle =
      let s' = record s { is_busy = put i true s.is_busy } in
      let f = fit worker job x t (locked i) at in
      let not_owned : (u : ℕ) → x.owner i ≢ some u =
        λ u e. let both = sym (x.taken i u e) ∙ idle in cc in
      record {
        owner = put i (some t) x.owner;
        fits =
            put-Fits worker job s s' x.owner (put i (some t) x.owner) t (claimed i) x.fits
              (f.0, put_self i (some t) x.owner, f.1)
              (λ u ne. record {
                owns = λ k e. put_keeps i (some t) x.owner k e (not_owned u);
                locks = λ k e. e;
                pool = λ e. (e, refl);
                grows = omega arith;
                work = λ k e. refl;
                job_kept = λ k e. refl;
              });
        bounded = λ k u e. elim (Bool-cases (k == i)) [
          | inl same ↦ let here : k ≡ i = ground arith in inl (rw here f.1)
          | inr other ↦ bounded_keep worker job x t (claimed i) at (λ k e. cc) k u (rw other at e)
        ];
        taken = λ k u e. elim (Bool-cases (k == i)) [
          | inl same ↦ rw same refl
          | inr other ↦ rw other (x.taken k u (rw other at e))
        ];
        runs = λ k u e.
            let r = x.runs k u e in
            elim (Bool-cases (k == i)) [
              | inl same ↦
                  let here : k ≡ i = ground arith in
                  absurd (let both = sym (ap s.is_busy here ∙ idle) ∙ r.1 in cc)
              | inr other ↦ rw other r
            ];
      }

  pub unlocks-Exclusive :
      (t i : ℕ)
      → s.place t ≡ claimed i
      → Kept (goes t (filling i false) (record s { thread_lock = put i none s.thread_lock }))
  unlocks-Exclusive t i at =
      let s' = record s { thread_lock = put i none s.thread_lock } in
      let f = fit worker job x t (claimed i) at in
      record {
        owner = x.owner;
        fits =
            put-Fits worker job s s' x.owner x.owner t (filling i false) x.fits (tt, f.1, f.2)
              (λ u ne. record {
                owns = λ k e. e;
                locks = λ k e. put_keeps i none s.thread_lock k e (some-other f.0 ne);
                pool = λ e. (e, refl);
                grows = omega arith;
                work = λ k e. refl;
                job_kept = λ k e. refl;
              });
        bounded = bounded_keep worker job x t (filling i false) at (λ k e. cc);
        taken = x.taken;
        runs = x.runs;
      }
