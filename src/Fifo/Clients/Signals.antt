-- ===== src/Fifo/Clients/Signals.antt =====
-- Every write that the fifo of ch9 accepts sends a SIGIO to a program that has asked for it.
use training.Base.{
  ℕ, suc, ◌+◌, ◌≡◌, refl, ap, ◌∙◌, inl, inr, List, [], ◌∷◌, Bool, true, false, Option, some, arith,
  Bool-cases, ◌==◌, get_elem?,
}
use training.Kernel.{
  mutex_lock, add_wait_queue, w_wait, Call, kill_fasync, Copy, copied, faulted, Ret, ret, St,
}
use training.Fifo.{
  Fifo, Env, Wakeup, Waited, ready, out, out2, asleep, globalfifo_size, wait_while, leave_out,
  leave_out2, write_ready, finish_write,
}
use training.Fifo
use training.Fifo.Waiting.{
  wait_while_ready, wait_while_nonblock, wait_while_asleep, wait_while_signal, wait_while_woken,
  woken,
}
use training.Fifo.Ch9
use training.Fifo.Clients.{sleeps, sigio_main}

-- The number of signals sent.
abbrev pub signals : List Call → ℕ
signals [] = 0
signals (kill_fasync ∷ rest) = suc (signals rest)
signals (_ ∷ rest) = signals rest

-- Somebody is in the queue of SIGIO receivers.
abbrev pub Listened : Fifo → Type 0
Listened d = (filp : ℕ) × (rest : List ℕ) × (d.async_queue ≡ filp ∷ rest)

abbrev pub AllListened : List Wakeup → Type 0
AllListened [] = Unit {0}
AllListened (w ∷ rest) = Listened w.found × AllListened rest

-- No signal was sent from `s` to `t`, and the queue is not empty.
abbrev Quiet : St Fifo → St Fifo → Type 0
Quiet s t = (signals t.calls ≡ signals s.calls) × Listened t.dev

module _ (blocked : ℕ → Bool) where
  wait_while-Quiet :
      (nonblock : Bool) (ws : List Wakeup) (s : St Fifo)
      → Listened s.dev
      → AllListened ws
      → Quiet s (wait_while blocked nonblock ws s).1
  wait_while-Quiet true ws s h all = elim (Bool-cases (blocked s.dev.current_len)) [
    | inr free ↦ rw (wait_while_ready blocked true ws s free) (refl, h)
    | inl full ↦ rw (wait_while_nonblock blocked ws s full) (refl, h)
  ]
  wait_while-Quiet false [] s h all = elim (Bool-cases (blocked s.dev.current_len)) [
    | inr free ↦ rw (wait_while_ready blocked false [] s free) (refl, h)
    | inl full ↦ rw (wait_while_asleep blocked s full) (refl, h)
  ]
  wait_while-Quiet false (w ∷ ws) s h (here, all) = elim (Bool-cases (blocked s.dev.current_len)) [
    | inr free ↦ rw (wait_while_ready blocked false (w ∷ ws) s free) (refl, h)
    | inl full ↦ elim (Bool-cases w.signal_pending) [
      | inl pending ↦ rw (wait_while_signal blocked w ws s full pending) (refl, h)
      | inr quiet ↦
          rw (wait_while_woken blocked w ws s full quiet)
            (wait_while-Quiet false ws (woken s w) here all)
    ]
  ]

-- What was accepted of a write, as a number of signals.
abbrev pub accepted : Option Ret → ℕ
accepted (some (ret n)) = 1
accepted _ = 0

-- A call sent as many signals as it accepted writes, and the queue is not empty.
abbrev Sends : St Fifo → Option Ret × St Fifo → Type 0
Sends s (r, t) = (signals t.calls ≡ accepted r + signals s.calls) × Listened t.dev

write_ready-Sends :
    (copy : Copy) (buf : List ℕ) (size : ℕ) (s : St Fifo)
    → Listened s.dev
    → let (r, t) = write_ready copy buf size s in Sends s (some r, t)
unfolding write_ready
write_ready-Sends (faulted landed) buf size s h = (ground arith, h)
write_ready-Sends copied buf size s (filp, rest, e) = rw e (omega arith, (filp, rest, refl))

finish_write-Sends :
    (copy : Copy) (buf : List ℕ) (size : ℕ) (w : Waited) (s : St Fifo)
    → Listened s.dev
    → Sends s (finish_write copy buf size w s)
unfolding finish_write leave_out leave_out2
finish_write-Sends copy buf size asleep s h = (ground arith, h)
finish_write-Sends copy buf size (out2 e) s h = (ground arith, h)
finish_write-Sends copy buf size (out e) s h = (ground arith, h)
finish_write-Sends copy buf size ready s h = write_ready-Sends copy buf size s h

write-Sends :
    (env : Env) (buf : List ℕ) (size : ℕ) (s : St Fifo)
    → Listened s.dev
    → AllListened env.wakeups
    → Sends s (Ch9.write env buf size s)
unfolding Ch9.write Fifo.write
write-Sends env buf size s h all =
    let s0 : St Fifo = record s { calls = add_wait_queue w_wait ∷ mutex_lock ∷ s.calls } in
    let blocked : ℕ → Bool = λ len. len == globalfifo_size in
    let (w, t) = wait_while blocked env.nonblock env.wakeups s0 in
    let (same, queued) = wait_while-Quiet blocked env.nonblock env.wakeups s0 h all in
    let (sent, still) = finish_write-Sends env.copy buf size w t queued in
    let r = (finish_write env.copy buf size w t).0 in (sent ∙ ap (λ n. accepted r + n) same, still)

-- A call of `write` by some task.
pub record WriteCall : Type 0 where
  pub env : Env
  pub buf : List ℕ
  pub size : ℕ

-- Calls one after another, with the number of those that were accepted.
pub write_all : List WriteCall → St Fifo → ℕ × St Fifo
write_all [] s = (0, s)
write_all (w ∷ rest) s =
    let (r, t) = Ch9.write w.env w.buf w.size s in
    let (n, u) = write_all rest t in (accepted r + n, u)

-- The queue is not empty in any device that the calls find when they wake up.
abbrev pub KeepListened : List WriteCall → Type 0
KeepListened [] = Unit {0}
KeepListened (w ∷ rest) = AllListened w.env.wakeups × KeepListened rest

write_all-signals :
    (writes : List WriteCall) (s : St Fifo)
    → Listened s.dev
    → KeepListened writes
    → let (n, t) = write_all writes s in signals t.calls ≡ n + signals s.calls
unfolding write_all
write_all-signals [] s h keep = omega arith
write_all-signals (w ∷ rest) s h (here, keep) =
    let (r, t) = Ch9.write w.env w.buf w.size s in
    let (sent, still) = write-Sends w.env w.buf w.size s h here in
    let more = write_all-signals rest t still keep in omega (arith, sent, more)

listed_some :
    (queue : List ℕ) (i filp : ℕ)
    → get_elem? queue i ≡ some filp
    → (x : ℕ) × (rest : List ℕ) × (queue ≡ x ∷ rest)
listed_some [] i filp e = cc
listed_some (x ∷ rest) i filp e = (x, rest, refl)

module _ (fasync_helper : Option ℕ → ℕ → Bool → List ℕ → Ret × List ℕ) where
  -- What `fasync_helper` is relied on for: with the mode on, the file is in the queue behind it.
  abbrev pub Enlists : Type 0
  Enlists =
      (fd : Option ℕ) (filp : ℕ) (queue : List ℕ)
      → (i : ℕ) × (get_elem? (fasync_helper fd filp true queue).1 i ≡ some filp)

  -- Once `main` of globalfifo_test.c (or sigio.c) has asked for SIGIO, with a device that could be
  -- opened and a `fasync_helper` that does what it is relied on for, the driver of ch9 sends one signal
  -- for each later write that it accepts and none for one that it refuses or that sleeps, whatever the
  -- kernel answers, as long as the other tasks leave the queue of receivers with somebody in it.
  pub sigio_main-signals :
      (fd filp : ℕ) (writes : List WriteCall) (s : St Fifo)
      → Enlists
      → KeepListened writes
      → let (next, t) = sigio_main fasync_helper (some fd) filp s in
        let (n, u) = write_all writes t in (next ≡ sleeps) × (signals u.calls ≡ n + signals s.calls)
  unfolding sigio_main Ch9.fasync Fifo.fasync
  sigio_main-signals fd filp writes s enlists keep =
      let (i, e) = enlists (some fd) filp s.dev.async_queue in
      let t = (sigio_main fasync_helper (some fd) filp s).1 in
      let listened = listed_some t.dev.async_queue i filp e in
      (refl, write_all-signals writes t listened keep)
