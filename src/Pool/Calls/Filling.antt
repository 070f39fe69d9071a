-- ===== src/Pool/Calls/Filling.antt =====
-- A submitter that writes its job into its slot, and signals the worker, keeps the slots apart.
use training.Base.{
  ℕ, ◌≡◌, refl, sym, ap, ◌∙◌, inl, inr, ◌∷◌, Bool, false, none, some, arith, ◌==◌, Bool-cases,
}
use training.Pool.Calls.{filling, worked, filled, done, Shared, put, goes}
use training.Pool.Calls.Exclusive.{
  HoldsPool, Exclusive, put-Fits, fit, bounded_keep, put_self, put_keeps, none-some, some-other,
  HoldsPool-same,
}

module _ (worker job : ℕ → ℕ) {s : Shared} (x : Exclusive worker job s) where
  abbrev Kept : Shared → Type 0
  Kept = Exclusive worker job

  pub writes_work-Exclusive :
      (t i : ℕ) (pool : Bool)
      → s.place t ≡ filling i pool
      → Kept (goes t (worked i pool) (record s { th_work = put i (some (worker t)) s.th_work }))
  writes_work-Exclusive t i pool at =
      let s' = record s { th_work = put i (some (worker t)) s.th_work } in
      let f = fit worker job x t (filling i pool) at in
      let pool_same : HoldsPool worker job s t pool → HoldsPool worker job s' t pool =
        HoldsPool-same worker job t s s' refl pool in
      record {
        owner = x.owner;
        fits =
            put-Fits worker job s s' x.owner x.owner t (worked i pool) x.fits
              (pool_same f.0, f.1, f.2, put_self i (some (worker t)) s.th_work)
              (λ u ne. record {
                owns = λ k e. e;
                locks = λ k e. e;
                pool = λ e. (e, refl);
                grows = omega arith;
                work = λ k e. elim (Bool-cases (k == i)) [
                  | inl same ↦
                      let here : k ≡ i = ground arith in
                      absurd (some-other f.1 ne (sym (ap x.owner here) ∙ e))
                  | inr other ↦ rw other refl
                ];
                job_kept = λ k e. refl;
              });
        bounded = bounded_keep worker job x t (worked i pool) at (λ k e. cc);
        taken = x.taken;
        runs = λ k u e.
            let r = x.runs k u e in
            elim (Bool-cases (k == i)) [
              | inl same ↦
                  let here : k ≡ i = ground arith in
                  absurd (let both = sym (ap x.owner here) ∙ r.0 in none-some both f.1)
              | inr other ↦ rw other r
            ];
      }

  pub writes_job-Exclusive :
      (t i : ℕ) (pool : Bool)
      → s.place t ≡ worked i pool
      → Kept (goes t (filled i pool) (record s { th_job = put i (some (job t)) s.th_job }))
  writes_job-Exclusive t i pool at =
      let s' = record s { th_job = put i (some (job t)) s.th_job } in
      let f = fit worker job x t (worked i pool) at in
      let pool_same : HoldsPool worker job s t pool → HoldsPool worker job s' t pool =
        HoldsPool-same worker job t s s' refl pool in
      record {
        owner = x.owner;
        fits =
            put-Fits worker job s s' x.owner x.owner t (filled i pool) x.fits
              (pool_same f.0, f.1, f.2, f.3, put_self i (some (job t)) s.th_job)
              (λ u ne. record {
                owns = λ k e. e;
                locks = λ k e. e;
                pool = λ e. (e, refl);
                grows = omega arith;
                work = λ k e. refl;
                job_kept = λ k e. elim (Bool-cases (k == i)) [
                  | inl same ↦
                      let here : k ≡ i = ground arith in
                      absurd (some-other f.1 ne (sym (ap x.owner here) ∙ e))
                  | inr other ↦ rw other refl
                ];
              });
        bounded = bounded_keep worker job x t (filled i pool) at (λ k e. cc);
        taken = x.taken;
        runs = λ k u e.
            let r = x.runs k u e in
            elim (Bool-cases (k == i)) [
              | inl same ↦
                  let here : k ≡ i = ground arith in
                  absurd (let both = sym (ap x.owner here) ∙ r.0 in none-some both f.1)
              | inr other ↦ rw other r
            ];
      }

  pub signals-Exclusive :
      (t i : ℕ)
      → s.place t ≡ filled i false
      → Kept (
          goes t done (record s {
            waiting = put i false s.waiting;
            running = put i (some t) s.running;
            signalled = i ∷ s.signalled;
          }))
  signals-Exclusive t i at =
      let s' = record s {
        waiting = put i false s.waiting;
        running = put i (some t) s.running;
        signalled = i ∷ s.signalled;
      } in
      let f = fit worker job x t (filled i false) at in
      record {
        owner = put i none x.owner;
        fits = put-Fits worker job s s' x.owner (put i none x.owner) t done x.fits tt (λ u ne.
            record {
              owns = λ k e. put_keeps i none x.owner k e (some-other f.1 ne);
              locks = λ k e. e;
              pool = λ e. (e, refl);
              grows = omega arith;
              work = λ k e. refl;
              job_kept = λ k e. refl;
            });
        bounded = λ k u e. elim (Bool-cases (k == i)) [
          | inl same ↦ absurd (let no_one = rw same at e in cc)
          | inr other ↦ bounded_keep worker job x t done at (λ k e. cc) k u (rw other at e)
        ];
        taken = λ k u e. elim (Bool-cases (k == i)) [
          | inl same ↦ absurd (let no_one = rw same at e in cc)
          | inr other ↦ x.taken k u (rw other at e)
        ];
        runs = λ k u e. elim (Bool-cases (k == i)) [
          | inl same ↦
              let here : k ≡ i = ground arith in
              let who : t ≡ u = let eq = rw same at e in cc in
              rw (here, ← who) (put_self i none x.owner, x.taken i t f.1, f.2, f.3, f.4)
          | inr other ↦ rw other (x.runs k u (rw other at e))
        ];
      }

  pub signals_nobody-Exclusive :
      (t i : ℕ)
      → s.place t ≡ filled i false
      → Kept (goes t done (record s { signalled = i ∷ s.signalled }))
  signals_nobody-Exclusive t i at =
      let s' = record s { signalled = i ∷ s.signalled } in
      let f = fit worker job x t (filled i false) at in
      record {
        owner = put i none x.owner;
        fits = put-Fits worker job s s' x.owner (put i none x.owner) t done x.fits tt (λ u ne.
            record {
              owns = λ k e. put_keeps i none x.owner k e (some-other f.1 ne);
              locks = λ k e. e;
              pool = λ e. (e, refl);
              grows = omega arith;
              work = λ k e. refl;
              job_kept = λ k e. refl;
            });
        bounded = λ k u e. elim (Bool-cases (k == i)) [
          | inl same ↦ absurd (let no_one = rw same at e in cc)
          | inr other ↦ bounded_keep worker job x t done at (λ k e. cc) k u (rw other at e)
        ];
        taken = λ k u e. elim (Bool-cases (k == i)) [
          | inl same ↦ absurd (let no_one = rw same at e in cc)
          | inr other ↦ x.taken k u (rw other at e)
        ];
        runs = λ k u e.
            let r = x.runs k u e in
            elim (Bool-cases (k == i)) [
              | inl same ↦
                  let here : k ≡ i = ground arith in
                  absurd (let both = sym (ap x.owner here) ∙ r.0 in none-some both f.1)
              | inr other ↦ rw other r
            ];
      }
