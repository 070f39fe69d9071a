-- ===== src/Pool/System/Submits.antt =====
-- A call of tp_process_job among the workers.
use training.Base.{
  ℕ, ◌+◌, ◌≤◌, ◌<◌, ◌≡◌, refl, sym, ap, ◌∙◌, ◌≢◌, ◌⊎◌, inl, inr, List, ◌∷◌, true, false, arith, ltb,
  ◌==◌, Bool-cases,
}
use training.Pool.{Pool, Call, signal, Creates, busy_slot, tp_process_job}
use training.Pool.Slots.{IsValid}
use training.Pool.Submit.{Submitted, tp_process_job_lem}
use training.Pool.Served.{tp_process_job-keeps, GaveIdle-slot}
use training.Pool.System.{
  System, Phase, gone, looping, waiting, woken, working, put, wake, last_signal, start, submit,
}
use training.Pool.System.Phases.{put_other, wake_cases, start_cases}
use training.Pool.System.Orderly.{Orderly, used, Keeps, keeps, Lost}

-- What a call of tp_process_job does for the workers, whatever its outcome.
record Effect (p q : Pool) : Type 0 where
  grown : (q.cur_th_num ≡ p.cur_th_num) ⊎ (q.cur_th_num ≡ p.cur_th_num + 1)
  slot : ℕ
  older : List Call
  signalled : q.calls ≡ signal slot ∷ older
  busy : slot < p.cur_th_num → busy_slot q.thread_info slot ≡ true
  idle : slot < p.cur_th_num → busy_slot p.thread_info slot ≡ false

Submitted-Effect :
    (creates : Creates) (worker job : ℕ) (p q : Pool)
    → IsValid p
    → Submitted creates worker job p q
    → Effect p q
Submitted-Effect creates worker job p q v (inl g) = record {
  grown = inl (ap (λ d. d.1) g.after);
  slot = g.slot;
  older = g.older;
  signalled = g.woken;
  busy = λ lt. (GaveIdle-slot worker job p q v g).1;
  idle = λ lt. g.idle;
}
Submitted-Effect creates worker job p q v (inr (inl g)) = record {
  grown = inr (ap (λ d. d.1) g.after);
  slot = p.cur_th_num;
  older = g.older;
  signalled = g.woken;
  busy = λ lt. absurd (omega (arith, lt));
  idle = λ lt. absurd (omega (arith, lt));
}
Submitted-Effect creates worker job p q v (inr (inr (inl g))) = record {
  grown = inr (ap (λ d. d.1) g.after);
  slot = p.cur_th_num;
  older = g.older;
  signalled = g.woken;
  busy = λ lt. absurd (omega (arith, lt));
  idle = λ lt. absurd (omega (arith, lt));
}
Submitted-Effect creates worker job p q v (inr (inr (inr g))) = record {
  grown = inl (ap (λ d. d.1) g.after);
  slot = p.max_th_num;
  older = g.older;
  signalled = g.woken;
  busy = λ lt. let full = g.full in absurd (omega (arith, lt));
  idle = λ lt. let full = g.full in absurd (omega (arith, lt));
}

module _ (creates : Creates) (worker job : ℕ) (s : System) (o : Orderly s) where
  abbrev p : Pool
  p = s.pool

  abbrev q : Pool
  q = tp_process_job creates worker job p

  abbrev begun : ℕ → Phase
  begun = start p.cur_th_num (ltb p.cur_th_num q.cur_th_num) (creates p.cur_th_num) s.phases

  effect : Effect p q
  effect =
      Submitted-Effect creates worker job p q o.valid
        (tp_process_job_lem creates worker job p o.valid)

  kept : (j : ℕ) → busy_slot p.thread_info j ≡ true → s.phases j ≢ gone → Keeps p q j
  kept j busy ne =
      keeps p q j ((tp_process_job-keeps creates worker job p o.valid).1 j (used s o j ne) busy)

  begun_old : (j : ℕ) (a : Phase) → begun j ≡ a → a ≢ looping → s.phases j ≡ a
  begun_old j a e ne =
      elim (start_cases p.cur_th_num (ltb p.cur_th_num q.cur_th_num) (creates p.cur_th_num) s.phases
        j) [ inl same ↦ sym same ∙ e | inr (new, _, _) ↦ absurd (ne (sym e ∙ new)) ]

  phases_are : (j : ℕ) → (submit creates worker job s).phases j ≡ wake effect.slot begun j
  unfolding submit
  phases_are j = ap (λ c. last_signal c begun j) effect.signalled

  -- A phase after the call was there before, or is that of the worker that the call woke.
  submit_old :
      (j : ℕ) (a : Phase)
      → (submit creates worker job s).phases j ≡ a
      → a ≢ looping
      → (s.phases j ≡ a) ⊎ ((j ≡ effect.slot) × (s.phases effect.slot ≡ waiting) × (a ≡ woken))
  submit_old j a e ne = elim (wake_cases effect.slot begun) [
    | inl (was, all) ↦ elim (Bool-cases (j == effect.slot)) [
      | inl here ↦
          let new : woken ≡ wake effect.slot begun j = sym (all j ∙ rw here refl) in
          inr (
            ground arith,
            begun_old effect.slot waiting was (λ eq. cc),
            sym (new ∙ sym (phases_are j) ∙ e),
          )
      | inr other ↦
          let same : put effect.slot woken begun j ≡ begun j =
            put_other effect.slot j woken begun (λ eq. ground arith) in
          inl (begun_old j a (sym same ∙ sym (all j) ∙ sym (phases_are j) ∙ e) ne)
    ]
    | inr all ↦ inl (begun_old j a (sym (all j) ∙ sym (phases_are j) ∙ e) ne)
  ]

  submit_pool : (submit creates worker job s).pool ≡ q
  unfolding submit
  submit_pool = refl

  submit_unused : (j : ℕ) → q.cur_th_num ≤ j → (submit creates worker job s).phases j ≡ gone
  submit_unused j h =
      let old : s.phases j ≡ gone =
        o.unused j (elim effect.grown [ inl e ↦ omega (arith, e) | inr e ↦ omega (arith, e) ]) in
      let at_start : begun j ≡ gone =
        elim (start_cases p.cur_th_num (ltb p.cur_th_num q.cur_th_num) (creates p.cur_th_num)
          s.phases j) [ inl same ↦ same ∙ old | inr (_, here, grown) ↦ absurd (ground arith) ] in
      phases_are j ∙ elim (wake_cases effect.slot begun) [
        | inl (was, all) ↦
            all j
            ∙ put_other effect.slot j woken begun
                (λ eq. let e = sym at_start ∙ ap begun eq ∙ was in cc)
            ∙ at_start
        | inr all ↦ all j ∙ at_start
      ]

  pub submit-Orderly : Orderly (submit creates worker job s)
  unfolding submit
  submit-Orderly = record {
    valid = (tp_process_job-keeps creates worker job p o.valid).0;
    unused = submit_unused;
    called = λ j e. elim (submit_old j woken e (λ eq. cc)) [
      | inl old ↦
          let busy = o.called j old in (kept j busy (λ eq. let e = sym old ∙ eq in cc)).stays ∙ busy
      | inr (here, was, _) ↦
          let lt = used s o effect.slot (λ eq. let e = sym was ∙ eq in cc) in
          ap (λ i. busy_slot q.thread_info i) here ∙ effect.busy lt
    ];
    running = λ j w b e. elim (submit_old j (working w b) e (λ eq. cc)) [
      | inl old ↦
          let (busy, has) = o.running j w b old in
          let k = kept j busy (λ eq. let e = sym old ∙ eq in cc) in (k.stays ∙ busy, k.has ∙ has)
      | inr (_, _, other) ↦ absurd (let e : working w b ≡ woken = other in cc)
    ];
  }

  -- A worker that waits in a busy slot is not woken.
  pub submit-Lost : (i : ℕ) → Lost i s → Lost i (submit creates worker job s)
  submit-Lost i l =
      let lt = used s o i (λ eq. let e = sym l.waits ∙ eq in cc) in
      let at_start : begun i ≡ waiting =
        elim (start_cases p.cur_th_num (ltb p.cur_th_num q.cur_th_num) (creates p.cur_th_num)
          s.phases i) [
            | inl same ↦ same ∙ l.waits
            | inr (_, here, _) ↦ absurd (omega (arith, here, lt))
          ] in
      let other : i ≢ effect.slot = λ eq.
        let slot_lt : effect.slot < p.cur_th_num = omega (arith, eq, lt) in
        let e = sym (effect.idle slot_lt) ∙ ap (busy_slot p.thread_info) (sym eq) ∙ l.busy in cc in
      record {
        waits = phases_are i ∙ elim (wake_cases effect.slot begun) [
          | inl (_, all) ↦ all i ∙ put_other effect.slot i woken begun other ∙ at_start
          | inr all ↦ all i ∙ at_start
        ];
        busy =
            ap (λ (r : Pool). busy_slot r.thread_info i) submit_pool
            ∙ (kept i l.busy (λ eq. let e = sym l.waits ∙ eq in cc)).stays
            ∙ l.busy;
      }
