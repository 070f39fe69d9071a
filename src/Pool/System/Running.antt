-- ===== src/Pool/System/Running.antt =====
-- Runs of submitters, the manager and the workers: what they keep, and what they never repair.
use training.Base.{
  ℕ, ◌≤◌, ◌≡◌, refl, sym, ap, ◌∙◌, ◌≢◌, inl, inr, false, Option, some, arith, ◌==◌, Bool-cases,
  get_elem?, length-modify, get_elem?-modify_ne,
}
use training.Pool.{Info, Pool, busy_slot, take_work, finish_work, manage_round}
use training.Pool.Slots.{IsValid}
use training.Pool.Shrink.{Shrunk, Shrunk-refl, Shrunk-IsValid, manage_round_lem}
use training.Pool.System.{
  System, Phase, looping, waiting, woken, working, put, Step, submits, manages, waits, takes, ends,
  Run, stop, more,
}
use training.Pool.System.Phases.{put_old, put_other}
use training.Pool.System.Orderly.{Orderly, Keeps, keeps, Lost}
use training.Pool.System.Submits.{submit-Orderly, submit-Lost}

-- A round of the manager keeps the slots and gives up none that is busy.
manage_round-Shrunk : (p q : Pool) → IsValid p → manage_round p ≡ some q → Shrunk p q
manage_round-Shrunk p q v e =
    let (r, run, outcome) = manage_round_lem p v in
    let same : r ≡ q = let both = sym run ∙ e in cc in
    rw (← same)
      (elim outcome [ inl (_, idle) ↦ rw idle (Shrunk-refl p v) | inr (_, (shrunk, _)) ↦ shrunk ])

manages-Orderly :
    (s : System) (q : Pool)
    → Orderly s
    → manage_round s.pool ≡ some q
    → q.cur_th_num ≡ s.pool.cur_th_num
    → Orderly (record s { pool = q })
manages-Orderly s q o e kept_all =
    let shrunk = manage_round-Shrunk s.pool q o.valid e in
    let k : (j : ℕ) → Keeps s.pool q j =
      λ j. keeps s.pool q j (ap (λ xs. get_elem? xs j) shrunk.same) in
    record {
      valid = Shrunk-IsValid o.valid shrunk;
      unused = λ j h. o.unused j (omega arith);
      called = λ j c. (k j).stays ∙ o.called j c;
      running =
          λ j w b r. let (busy, has) = o.running j w b r in ((k j).stays ∙ busy, (k j).has ∙ has);
    }

waits-Orderly :
    (s : System) (i : ℕ)
    → Orderly s
    → s.phases i ≡ looping
    → Orderly (record s { phases = put i waiting s.phases })
waits-Orderly s i o e = record {
  valid = o.valid;
  unused = λ j h.
      put_other i j waiting s.phases
        (λ eq. let no_more = sym (o.unused j h) ∙ ap s.phases eq ∙ e in cc)
      ∙ o.unused j h;
  called = λ j c. o.called j (put_old i j waiting woken s.phases c (λ eq. cc)).0;
  running = λ j w b r. o.running j w b (put_old i j waiting (working w b) s.phases r (λ eq. cc)).0;
}

takes-Orderly :
    (s : System) (i : ℕ) (worker job : Option ℕ)
    → Orderly s
    → s.phases i ≡ woken
    → take_work i s.pool ≡ some (worker, job)
    → Orderly (record s { phases = put i (working worker job) s.phases })
takes-Orderly s i worker job o e got = record {
  valid = o.valid;
  unused = λ j h.
      put_other i j (working worker job) s.phases
        (λ eq. let no_more = sym (o.unused j h) ∙ ap s.phases eq ∙ e in cc)
      ∙ o.unused j h;
  called = λ j c. o.called j (put_old i j (working worker job) woken s.phases c (λ eq. cc)).0;
  running = λ j w b r. elim (Bool-cases (j == i)) [
    | inl here ↦
        let at : j ≡ i = ground arith in
        let same : working worker job ≡ working w b = rw here at r in
        (
          ap (busy_slot s.pool.thread_info) at ∙ o.called i e,
          ap (λ x. take_work x s.pool) at ∙ got ∙ (let eq = same in cc),
        )
    | inr other ↦ o.running j w b (rw other at r)
  ];
}

finish_work-kept : (i j : ℕ) (p : Pool) → j ≢ i → Keeps p (finish_work i p) j
unfolding finish_work
finish_work-kept i j p h =
    keeps p (finish_work i p) j
      (get_elem?-modify_ne i j (λ t. record t { is_busy = false }) p.thread_info (λ eq. h (sym eq)))

finish_work-IsValid : (i : ℕ) (p : Pool) → IsValid p → IsValid (finish_work i p)
unfolding finish_work
finish_work-IsValid i p v = record {
  least = v.least;
  most = v.most;
  room = length-modify i (λ (t : Info). record t { is_busy = false }) p.thread_info ∙ v.room;
}

finish_work_used : (i : ℕ) (p : Pool) → (finish_work i p).cur_th_num ≡ p.cur_th_num
unfolding finish_work
finish_work_used i p = refl

ends-Orderly :
    (s : System) (i : ℕ) (worker job : Option ℕ)
    → Orderly s
    → s.phases i ≡ working worker job
    → Orderly (record { pool = finish_work i s.pool; phases = put i looping s.phases })
ends-Orderly s i worker job o e = record {
  valid = finish_work-IsValid i s.pool o.valid;
  unused = λ j h.
      let h' : s.pool.cur_th_num ≤ j = omega (arith, h, finish_work_used i s.pool) in
      put_other i j looping s.phases
        (λ eq. let no_more = sym (o.unused j h') ∙ ap s.phases eq ∙ e in cc)
      ∙ o.unused j h';
  called = λ j c.
      let (old, ne) = put_old i j looping woken s.phases c (λ eq. cc) in
      (finish_work-kept i j s.pool ne).stays ∙ o.called j old;
  running = λ j w b r.
      let (old, ne) = put_old i j looping (working w b) s.phases r (λ eq. cc) in
      let k = finish_work-kept i j s.pool ne in
      let (busy, has) = o.running j w b old in (k.stays ∙ busy, k.has ∙ has);
}

pub Step-Orderly : {s t : System} → Step s t → Orderly s → Orderly t
Step-Orderly {s} (submits creates worker job made) o = submit-Orderly creates worker job s o
Step-Orderly {s} (manages q e kept_all) o = manages-Orderly s q o e kept_all
Step-Orderly {s} (waits i e) o = waits-Orderly s i o e
Step-Orderly {s} (takes i worker job e got) o = takes-Orderly s i worker job o e got
Step-Orderly {s} (ends i worker job e) o = ends-Orderly s i worker job o e

-- However submitters, the manager and the workers take turns, where each call is a whole step, a thread
-- can be had whenever one is asked for and the manager gives up none: the pool stays within its limits,
-- no worker stands in a slot that is not in use, a worker that was woken has a busy slot, and the slot of
-- one that works is busy and keeps the job that it works on.
pub Run-Orderly : {s t : System} → Run s t → Orderly s → Orderly t
Run-Orderly stop o = o
Run-Orderly (more step rest) o = Run-Orderly rest (Step-Orderly step o)

-- A worker that waits is the worker of another slot than one in another phase.
phases-ne : (s : System) (i j : ℕ) (a b : Phase) → s.phases i ≡ a → s.phases j ≡ b → a ≢ b → i ≢ j
phases-ne s i j a b ea eb ne eq = ne (sym ea ∙ ap s.phases eq ∙ eb)

put-Lost :
    (s : System) (i k : ℕ) (a b : Phase)
    → s.phases k ≡ b
    → waiting ≢ b
    → Lost i s
    → put k a s.phases i ≡ waiting
put-Lost s i k a b e ne l =
    put_other k i a s.phases (phases-ne s i k waiting b l.waits e ne) ∙ l.waits

manages-Lost :
    (s : System) (q : Pool) (i : ℕ)
    → Orderly s
    → manage_round s.pool ≡ some q
    → Lost i s
    → Lost i (record s { pool = q })
manages-Lost s q i o e l =
    let shrunk = manage_round-Shrunk s.pool q o.valid e in
    record { waits = l.waits; busy = ap (λ xs. busy_slot xs i) shrunk.same ∙ l.busy }

Step-Lost : {s t : System} (i : ℕ) → Step s t → Orderly s → Lost i s → Lost i t
Step-Lost {s} i (submits creates worker job made) o l = submit-Lost creates worker job s o i l
Step-Lost {s} i (manages q e kept_all) o l = manages-Lost s q i o e l
Step-Lost {s} i (waits k e) o l = record {
  waits = put-Lost s i k waiting looping e (λ eq. cc) l;
  busy = l.busy;
}
Step-Lost {s} i (takes k worker job e got) o l = record {
  waits = put-Lost s i k (working worker job) woken e (λ eq. cc) l;
  busy = l.busy;
}
Step-Lost {s} i (ends k worker job e) o l =
    let ne = phases-ne s i k waiting (working worker job) l.waits e (λ eq. cc) in
    record {
      waits = put-Lost s i k looping (working worker job) e (λ eq. cc) l;
      busy = (finish_work-kept k i s.pool ne).stays ∙ l.busy;
    }

-- Where a wait ends by a signal only, calls of tp_process_job do not overlap, a thread can be had whenever
-- one is asked for and the manager gives up none, a signal that came before the wait is never made up
-- for: a worker that waits in a busy slot waits on in it through every run, since no submission chooses a
-- busy slot.
pub Run-Lost : {s t : System} (i : ℕ) → Run s t → Orderly s → Lost i s → Lost i t
Run-Lost i stop o l = l
Run-Lost i (more step rest) o l = Run-Lost i rest (Step-Orderly step o) (Step-Lost i step o l)
