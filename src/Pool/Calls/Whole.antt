-- ===== src/Pool/Calls/Whole.antt =====
-- tp_process_job of thread-pool.c as one step, and the same call in small steps.
use mathlib.Core.Path.{subst}
use training.Base.{
  ℕ, ◌+◌, ◌<◌, ◌≡◌, sym, ap, ◌∙◌, ◌≢◌, inl, inr, List, ◌∷◌, Bool, Option, true, some, arith, length,
  get_elem?, get_elem?-some, modify,
}
use training.Pool.{Info, Pool, Call, signal, Creates, busy_slot, tp_process_job}
use training.Pool.Slots.{IsValid, AllBusy}
use training.Pool.Scan.{set_busy}
use training.Pool.Submit.{fields, with_job, Submitted, tp_process_job_lem}
use training.Pool.Calls.{Shared, Run, scanning, done, put}
use training.Pool.Calls.Matches.{
  SameSlots, Matches, SameSlots-set_busy, SameSlots-assign, SameSlots-thread,
}
use training.Pool.Calls.Alone.{Left, idle-Left, full-Left, new-Left}

SameSlots-busy_slot :
    (busy : ℕ → Bool) (work job : ℕ → Option ℕ) (infos : List Info) (j : ℕ)
    → SameSlots busy work job infos
    → j < length infos
    → busy j ≡ busy_slot infos j
SameSlots-busy_slot busy work job infos j same h =
    let (v, e) = get_elem?-some infos j h in let (b, c, d) = same j v e in rw (e, busy_slot) b

module _ (worker job : ℕ → ℕ) (t : ℕ) (p : Pool) (s : Shared) where
  -- A run of the small steps in which only the submitter `t` moves, up to its return, with the pool `q`
  -- as it ends.
  pub record Returns (q : Pool) : Type 0 where
    pub state : Shared
    pub run : Run worker job s state
    pub at : state.place t ≡ done
    pub others : (r : ℕ) → r ≢ t → state.place r ≡ s.place r
    pub matches : Matches q state
    -- Both signal the same slot last.
    pub slot : ℕ
    pub signalled : state.signalled ≡ slot ∷ s.signalled
    pub older : List Call
    pub woken : q.calls ≡ signal slot ∷ older

  Left-Returns :
      {busy : ℕ → Bool} {work jobs : ℕ → Option ℕ} {cur least slot : ℕ} {infos : List Info}
      {older : List Call} (q : Pool)
      → Left worker job t s cur busy work jobs slot
      → s.max_th_num ≡ p.max_th_num
      → SameSlots busy work jobs infos
      → fields q ≡ (least, cur, p.max_th_num, infos)
      → q.calls ≡ signal slot ∷ older
      → Returns q
  Left-Returns {slot = slot} {older = older} q l most same e woken =
      let (sc, sm, sb, sw, sj) = l.slots in
      record {
        state = l.state;
        run = l.run;
        at = l.at;
        others = l.others;
        matches = record {
          cur = sc ∙ sym (ap (λ x. x.1) e);
          max = sm ∙ most ∙ sym (ap (λ x. x.2) e);
          slots = λ j v ev.
              let (b, c, d) = same j v (sym (ap (λ x. get_elem? x.3 j) e) ∙ ev) in
              (ap (λ f. f j) sb ∙ b, ap (λ f. f j) sw ∙ c, ap (λ f. f j) sj ∙ d);
          slot_locks = l.slot_locks;
          pool_lock = l.pool_lock;
        };
        slot = slot;
        signalled = l.signalled;
        older = older;
        woken = woken;
      }

  module _ (v : IsValid p) (m : Matches p s) (at : s.place t ≡ scanning 0) where
    all_busy :
        (k : ℕ)
        → k < p.cur_th_num + 1
        → AllBusy p.thread_info 0 k
        → (j : ℕ) → j < k
        → s.is_busy j ≡ true
    all_busy k h busy j lt =
        SameSlots-busy_slot s.is_busy s.th_work s.th_job p.thread_info j m.slots
          (let room = v.room in let most = v.most in omega arith)
        ∙ busy j (omega arith) lt

    busy_upto :
        AllBusy p.thread_info 0 p.cur_th_num → (j : ℕ) → j < s.cur_th_num → s.is_busy j ≡ true
    busy_upto busy j lt = all_busy p.cur_th_num (omega arith) busy j (rw m.cur at lt)

    below : p.cur_th_num < p.max_th_num → s.cur_th_num < s.max_th_num
    below h = rw (m.cur, m.max) h

    given :
        (k : ℕ)
        → SameSlots
            (put k true s.is_busy)
            (put k (some (worker t)) s.th_work)
            (put k (some (job t)) s.th_job)
            (with_job (worker t) (job t) k p.thread_info)
    given k =
        SameSlots-assign (put k true s.is_busy) s.th_work s.th_job (modify k set_busy p.thread_info)
          k (SameSlots-set_busy s.is_busy s.th_work s.th_job p.thread_info k m.slots) (worker t)
          (job t)

    Submitted-Returns :
        (creates : Creates) {thread : ℕ} (q : Pool)
        → creates p.cur_th_num ≡ some thread
        → Submitted creates (worker t) (job t) p q
        → Returns q
    Submitted-Returns creates q made (inl g) =
        let most = v.most in
        let busy = all_busy g.slot (let u = g.upper in omega arith) g.first in
        let room : g.slot < length p.thread_info =
          (let u = g.upper in let r = v.room in omega arith) in
        let idle =
          SameSlots-busy_slot s.is_busy s.th_work s.th_job p.thread_info g.slot m.slots room
          ∙ g.idle in
        let l =
          idle-Left worker job t s at m.slot_locks m.pool_lock g.slot (rw m.cur g.upper) busy
            idle in
        let l' =
          subst
            (λ k.
              Left worker job t s k (put g.slot true s.is_busy)
                (put g.slot (some (worker t)) s.th_work) (put g.slot (some (job t)) s.th_job)
                g.slot)
            m.cur l in
        Left-Returns q l' m.max (given g.slot) g.after g.woken
    Submitted-Returns creates q made (inr (inl g)) =
        let l =
          new-Left worker job t s at m.slot_locks m.pool_lock (busy_upto g.all_busy)
            (below g.room) in
        let l' =
          subst
            (λ k.
              Left worker job t s (k + 1) (put k true s.is_busy) (put k (some (worker t)) s.th_work)
                (put k (some (job t)) s.th_job) k)
            m.cur l in
        let k = p.cur_th_num in
        Left-Returns q l' m.max
          (SameSlots-assign (put k true s.is_busy) s.th_work s.th_job _ k
            (SameSlots-thread (put k true s.is_busy) s.th_work s.th_job
              (modify k set_busy p.thread_info) k
              (SameSlots-set_busy s.is_busy s.th_work s.th_job p.thread_info k m.slots) g.thread)
            (worker t) (job t))
          g.after g.woken
    Submitted-Returns creates q made (inr (inr (inl g))) =
        absurd (let both = sym made ∙ g.failed in cc)
    Submitted-Returns creates q made (inr (inr (inr g))) =
        let full = g.full in
        let l =
          full-Left worker job t s at m.slot_locks m.pool_lock (busy_upto g.all_busy)
            (rw (m.cur, m.max) (omega arith)) in
        let l' = subst (λ k. Left worker job t s k s.is_busy s.th_work s.th_job k) m.cur l in
        Left-Returns q l' m.max m.slots g.after (g.woken ∙ ap (λ k. signal k ∷ g.older) (sym full))

    -- A submitter of a valid pool that makes the small steps of its call while nobody else moves, every
    -- mutex is free and a thread can be had if one is asked for returns, leaves the numbers and the slots of
    -- the pool as `tp_process_job` does as one step, and makes one signal, to the slot that
    -- `tp_process_job` signals last, whether it finds a thread idle, adds one or finds the pool full; the
    -- others stand where they stood, and every mutex is free again.
    pub tp_process_job-Returns :
        (creates : Creates) {thread : ℕ}
        → creates p.cur_th_num ≡ some thread
        → Returns (tp_process_job creates (worker t) (job t) p)
    tp_process_job-Returns creates made =
        Submitted-Returns creates (tp_process_job creates (worker t) (job t) p) made
          (tp_process_job_lem creates (worker t) (job t) p v)
