-- ===== src/Pool/Calls/Steps.antt =====
-- No two calls of tp_process_job take the same slot, and no worker gets the halves of two jobs, however
-- the calls interleave with each other and with the workers, as long as no call finds the pool full.
use training.Base.{
  ℕ, ◌≡◌, sym, ap, ◌∙◌, ◌≢◌, inl, inr, [], Bool, true, false, Option, none, some, arith, ◌==◌,
  Bool-cases,
}
use training.Pool.Calls.{
  Place, scanning, locked, claimed, leaving, growing, marked, filling, worked, filled, refused,
  done, Shared, put, Step, locks, skips, claims, unlocks, writes_work, writes_job, signals,
  signals_nobody, ends_scan, locks_pool, finds_full, gives_up, marks, creates, unlocks_pool, waits,
  frees, Run, stop, then,
}
use training.Pool.Calls.Exclusive.{Fits, Exclusive, fit, none-some}
use training.Pool.Calls.Claims.{
  locks-Exclusive, skips-Exclusive, claims-Exclusive, unlocks-Exclusive,
}
use training.Pool.Calls.Filling.{
  writes_work-Exclusive, writes_job-Exclusive, signals-Exclusive, signals_nobody-Exclusive,
}
use training.Pool.Calls.Growing.{
  ends_scan-Exclusive, locks_pool-Exclusive, marks-Exclusive, creates-Exclusive,
  unlocks_pool-Exclusive,
}

module _ (worker job : ℕ → ℕ) where
  same-Fits :
      (s : Shared) (busy : ℕ → Bool) (running : ℕ → Option ℕ) (waiting : ℕ → Bool)
      (owner : ℕ → Option ℕ) (u : ℕ) (p : Place)
      → Fits worker job s owner u p
      → Fits worker job
          (record s { is_busy = busy; running = running; waiting = waiting })
          owner
          u
          p
  same-Fits s busy running waiting owner u (scanning i) h = h
  same-Fits s busy running waiting owner u (locked i) h = h
  same-Fits s busy running waiting owner u (claimed i) h = h
  same-Fits s busy running waiting owner u (marked i) h = h
  same-Fits s busy running waiting owner u (filling i true) h = h
  same-Fits s busy running waiting owner u (filling i false) h = h
  same-Fits s busy running waiting owner u (worked i true) h = h
  same-Fits s busy running waiting owner u (worked i false) h = h
  same-Fits s busy running waiting owner u (filled i true) h = h
  same-Fits s busy running waiting owner u (filled i false) h = h
  same-Fits s busy running waiting owner u (growing i) h = h
  same-Fits s busy running waiting owner u done h = h
  same-Fits s busy running waiting owner u (leaving i) h = h
  same-Fits s busy running waiting owner u (refused i pool) h = h

  frees-Exclusive :
      {s : Shared} (x : Exclusive worker job s) (i t : ℕ)
      → s.running i ≡ some t
      → Exclusive worker job
          (record s { is_busy = put i false s.is_busy; running = put i none s.running })
  frees-Exclusive {s} x i t e =
      let free = (x.runs i t e).0 in
      record {
        owner = x.owner;
        fits = λ u.
            same-Fits s (put i false s.is_busy) (put i none s.running) s.waiting x.owner u
              (s.place u) (x.fits u);
        bounded = x.bounded;
        taken = λ k u o. elim (Bool-cases (k == i)) [
          | inl same ↦
              let here : k ≡ i = ground arith in absurd (none-some free (sym (ap x.owner here) ∙ o))
          | inr other ↦ rw other (x.taken k u o)
        ];
        runs = λ k u r. elim (Bool-cases (k == i)) [
          | inl same ↦ absurd (let no_one = rw same at r in cc)
          | inr other ↦ rw other (x.runs k u (rw other at r))
        ];
      }

  waits-Exclusive :
      {s : Shared} (x : Exclusive worker job s) (i : ℕ)
      → Exclusive worker job (record s { waiting = put i true s.waiting })
  waits-Exclusive {s} x i = record {
    owner = x.owner;
    fits = λ u.
        same-Fits s s.is_busy s.running (put i true s.waiting) x.owner u (s.place u) (x.fits u);
    bounded = x.bounded;
    taken = x.taken;
    runs = x.runs;
  }

  -- The step is not that of a submitter that finds the pool full.
  abbrev pub HasRoom : {s u : Shared} → Step worker job s u → Type 0
  HasRoom (finds_full _ _ _ _) = ⊥
  HasRoom _ = Unit {0}

  -- No submitter finds the pool full.
  abbrev pub AllRoom : {s u : Shared} → Run worker job s u → Type 0
  AllRoom stop = Unit {0}
  AllRoom (then before step) = AllRoom before × HasRoom step

  not_refused :
      {s : Shared} (x : Exclusive worker job s) (t i : ℕ) (pool : Bool) → s.place t ≢ refused i pool
  not_refused x t i pool at = fit worker job x t (refused i pool) at

  Step-Exclusive :
      {s u : Shared} (step : Step worker job s u)
      → HasRoom step
      → Exclusive worker job s
      → Exclusive worker job u
  Step-Exclusive (locks t i at lt free) h x = locks-Exclusive worker job x t i at lt free
  Step-Exclusive (skips t i at busy) h x = skips-Exclusive worker job x t i at
  Step-Exclusive (claims t i at idle) h x = claims-Exclusive worker job x t i at idle
  Step-Exclusive (unlocks t i at) h x = unlocks-Exclusive worker job x t i at
  Step-Exclusive (writes_work t i pool at) h x = writes_work-Exclusive worker job x t i pool at
  Step-Exclusive (writes_job t i pool at) h x = writes_job-Exclusive worker job x t i pool at
  Step-Exclusive (signals t i (inl at) _) h x = signals-Exclusive worker job x t i at
  Step-Exclusive (signals t i (inr at) _) h x = absurd (not_refused x t i false at)
  Step-Exclusive (signals_nobody t i (inl at) _) h x = signals_nobody-Exclusive worker job x t i at
  Step-Exclusive (signals_nobody t i (inr at) _) h x = absurd (not_refused x t i false at)
  Step-Exclusive (ends_scan t i at le) h x = ends_scan-Exclusive worker job x t i at
  Step-Exclusive (locks_pool t i at free) h x = locks_pool-Exclusive worker job x t i at free
  Step-Exclusive (finds_full t i at le) h x = absurd h
  Step-Exclusive (gives_up t i at) h x = absurd (not_refused x t i true at)
  Step-Exclusive (marks t i at lt) h x = marks-Exclusive worker job x t i at
  Step-Exclusive (creates t i at) h x = creates-Exclusive worker job x t i at
  Step-Exclusive (unlocks_pool t i at) h x = unlocks_pool-Exclusive worker job x t i at
  Step-Exclusive (waits i lt e) h x = waits-Exclusive x i
  Step-Exclusive (frees i t e free) h x = frees-Exclusive x i t e

  Run-Exclusive :
      {s u : Shared} (run : Run worker job s u)
      → AllRoom run
      → Exclusive worker job s
      → Exclusive worker job u
  Run-Exclusive stop h x = x
  Run-Exclusive (then before step) (h, room) x = Step-Exclusive step room (Run-Exclusive before h x)

-- Submitters that all begin their calls, on a pool with any slots busy and no worker signalled yet.
abbrev pub begun :
    (cur_th_num max_th_num : ℕ) (is_busy waiting : ℕ → Bool) (th_work th_job : ℕ → Option ℕ)
    → Shared
begun cur_th_num max_th_num is_busy waiting th_work th_job = record {
  cur_th_num = cur_th_num;
  max_th_num = max_th_num;
  is_busy = is_busy;
  th_work = th_work;
  th_job = th_job;
  thread_lock = λ i. none;
  tp_lock = none;
  waiting = waiting;
  running = λ i. none;
  signalled = [];
  place = λ t. scanning 0;
}

-- The slot that a submitter has marked busy and not yet signalled.
abbrev pub slot_of : Place → Option ℕ
slot_of (claimed i) = some i
slot_of (marked i) = some i
slot_of (filling i pool) = some i
slot_of (worked i pool) = some i
slot_of (filled i pool) = some i
slot_of _ = none

module _ (worker job : ℕ → ℕ) where
  module _ (cur_th_num max_th_num : ℕ) (is_busy waiting : ℕ → Bool) (th_work th_job : ℕ → Option ℕ)
      (u : Shared)
      (run : Run worker job (begun cur_th_num max_th_num is_busy waiting th_work th_job) u)
      (room : AllRoom worker job run) where
    Run-begun : Exclusive worker job u
    Run-begun = Run-Exclusive worker job run room (record {
      owner = λ i. none;
      fits = λ t. tt;
      bounded = λ i t e. cc;
      taken = λ i t e. cc;
      runs = λ i t e. cc;
    })

    -- However many calls of tp_process_job begin on a pool with no worker signalled yet, with no manager and
    -- no tp_close, every thread created that is asked for, and as long as no call finds the pool full: a
    -- worker that was signalled while it waited has a busy slot with both halves of the job of the
    -- submitter that signalled it, until it marks the slot idle.
    pub Run-running :
        (i t : ℕ)
        → u.running i ≡ some t
        → (u.is_busy i ≡ true) × (u.th_work i ≡ some (worker t)) × (u.th_job i ≡ some (job t))
    Run-running i t e = let (no_one, busy, within, w, j) = Run-begun.runs i t e in (busy, w, j)
