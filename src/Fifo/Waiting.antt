-- ===== src/Fifo/Waiting.antt =====
-- The wait loops of globalfifo_read and globalfifo_write: how they are left, in which state of the
-- mutex, and when they are left at all.
use training.Base.{ℕ, ◌≡◌, refl, ◌≢◌, ◌⊎◌, inl, inr, List, [], ◌∷◌, Bool, true, false, Bool-cases}
use training.Kernel.{
  eagain, erestartsys, St, schedule, mutex_lock, mutex_unlock, set_current_state,
  task_interruptible, load, Call,
}
use training.Kernel.Locks.{Lock, locked, unlocked, lock_after}
use training.Fifo.{Fifo, Wakeup, Waited, ready, out, out2, asleep, wait_while}

-- `d` is the device at the start, or what some wake-up found.
abbrev pub Seen : Fifo → List Wakeup → Fifo → Type 0
Seen start [] d = d ≡ start
Seen start (w ∷ ws) d = (d ≡ start) ⊎ Seen w.found ws d

Seen-start : (start : Fifo) (ws : List Wakeup) → Seen start ws start
Seen-start start [] = refl
Seen-start start (w ∷ ws) = inl refl

-- No wake-up brings a signal.
abbrev pub Silent : List Wakeup → Type 0
Silent [] = Unit {0}
Silent (w ∷ ws) = (w.signal_pending ≡ false) × Silent ws

-- The first wake-up that brings a signal comes to a task that saw the device `d` last.
abbrev pub Interrupted : Fifo → List Wakeup → Fifo → Type 0
Interrupted start [] d = ⊥
Interrupted start (w ∷ ws) d =
    ((d ≡ start) × (w.signal_pending ≡ true))
    ⊎ ((w.signal_pending ≡ false) × Interrupted w.found ws d)

-- What holds of the device `d` when the loop is left, which was entered with `start`.
abbrev pub Left : (ℕ → Bool) → Bool → Fifo → List Wakeup → Waited → Fifo → Type 0
Left blocked nonblock start ws ready d = blocked d.current_len ≡ false
Left blocked nonblock start ws (out e) d =
    (e ≡ eagain) × (nonblock ≡ true) × (blocked d.current_len ≡ true)
Left blocked nonblock start ws (out2 e) d =
    (e ≡ erestartsys) × (nonblock ≡ false) × (blocked d.current_len ≡ true) × Interrupted start ws d
Left blocked nonblock start ws asleep d =
    (nonblock ≡ false) × (blocked d.current_len ≡ true) × Silent ws

-- The device that is seen behind a wake-up.
Left-woken :
    (blocked : ℕ → Bool) (start : Fifo) (w : Wakeup) (ws : List Wakeup) (how : Waited) (d : Fifo)
    → w.signal_pending ≡ false
    → Left blocked false w.found ws how d
    → Left blocked false start (w ∷ ws) how d
Left-woken blocked start w ws ready d e h = h
Left-woken blocked start w ws (out er) d e h = h
Left-woken blocked start w ws (out2 er) d e (a, b, c, i) = (a, b, c, inr (e, i))
Left-woken blocked start w ws asleep d e (a, b, c) = (a, b, (e, c))

-- The loop is left with the mutex held, but by a signal or in sleep.
abbrev pub lock_left : Waited → Lock
lock_left ready = locked
lock_left (out _) = locked
lock_left _ = unlocked

-- The trace of a task that has gone to sleep.
abbrev pub asleep_in : St Fifo → List Call
asleep_in s = schedule ∷ mutex_unlock ∷ set_current_state task_interruptible ∷ load ∷ s.calls

-- The state in which the loop goes on after a wake-up.
abbrev pub woken : St Fifo → Wakeup → St Fifo
woken s w = record { dev = w.found; calls = mutex_lock ∷ asleep_in s }

module _ (blocked : ℕ → Bool) where
  pub wait_while_ready :
      (nonblock : Bool) (ws : List Wakeup) (s : St Fifo)
      → blocked s.dev.current_len ≡ false
      → wait_while blocked nonblock ws s ≡ (ready, record s { calls = load ∷ s.calls })
  unfolding wait_while
  wait_while_ready nonblock [] s h = rw h
  wait_while_ready nonblock (w ∷ ws) s h = rw h

  pub wait_while_nonblock :
      (ws : List Wakeup) (s : St Fifo)
      → blocked s.dev.current_len ≡ true
      → wait_while blocked true ws s ≡ (out eagain, record s { calls = load ∷ s.calls })
  unfolding wait_while
  wait_while_nonblock [] s h = rw h
  wait_while_nonblock (w ∷ ws) s h = rw h

  pub wait_while_asleep :
      (s : St Fifo)
      → blocked s.dev.current_len ≡ true
      → wait_while blocked false [] s ≡ (asleep, record s { calls = asleep_in s })
  unfolding wait_while
  wait_while_asleep s h = rw h

  pub wait_while_signal :
      (w : Wakeup) (ws : List Wakeup) (s : St Fifo)
      → blocked s.dev.current_len ≡ true
      → w.signal_pending ≡ true
      → wait_while blocked false (w ∷ ws) s ≡ (out2 erestartsys, record s { calls = asleep_in s })
  unfolding wait_while
  wait_while_signal w ws s h e = rw h (rw e)

  -- After a wake-up with no signal the test is made again, under the mutex.
  pub wait_while_woken :
      (w : Wakeup) (ws : List Wakeup) (s : St Fifo)
      → blocked s.dev.current_len ≡ true
      → w.signal_pending ≡ false
      → wait_while blocked false (w ∷ ws) s ≡ wait_while blocked false ws (woken s w)
  unfolding wait_while
  wait_while_woken w ws s h e = rw h (rw e)

  -- How the loop is left, over the device that it left behind, and in which state of the mutex.
  abbrev Exits : Bool → List Wakeup → St Fifo → Waited × St Fifo → Type 0
  Exits nonblock ws s (w, s') =
      Seen s.dev ws s'.dev
      × Left blocked nonblock s.dev ws w s'.dev
      × ((l : Lock) → lock_after l s.calls ≡ locked → lock_after l s'.calls ≡ lock_left w)

  Exits-ready :
      (nonblock : Bool) (ws : List Wakeup) (s : St Fifo)
      → blocked s.dev.current_len ≡ false
      → Exits nonblock ws s (wait_while blocked nonblock ws s)
  Exits-ready nonblock ws s free =
      rw (wait_while_ready nonblock ws s free) (Seen-start s.dev ws, free, λ l h. rw h)

  pub wait_while_lem :
      (nonblock : Bool) (ws : List Wakeup) (s : St Fifo)
      → Exits nonblock ws s (wait_while blocked nonblock ws s)
  wait_while_lem true ws s = elim (Bool-cases (blocked s.dev.current_len)) [
    | inl full ↦
        rw (wait_while_nonblock ws s full) (Seen-start s.dev ws, (refl, refl, full), λ l h. rw h)
    | inr free ↦ Exits-ready true ws s free
  ]
  wait_while_lem false [] s = elim (Bool-cases (blocked s.dev.current_len)) [
    | inl full ↦ rw (wait_while_asleep s full) (refl, (refl, full, tt), λ l h. rw h)
    | inr free ↦ Exits-ready false [] s free
  ]
  wait_while_lem false (w ∷ ws) s = elim (Bool-cases (blocked s.dev.current_len)) [
    | inl full ↦ elim (Bool-cases w.signal_pending) [
      | inl sig ↦
          rw (wait_while_signal w ws s full sig)
            (inl refl, (refl, refl, full, inl (refl, sig)), λ l h. rw h)
      | inr none ↦
          let (seen, left, lock) = wait_while_lem false ws (woken s w) in
          rw (wait_while_woken w ws s full none) (
            inr seen,
            Left-woken blocked s.dev w ws (wait_while blocked false ws (woken s w)).0
                (wait_while blocked false ws (woken s w)).1.dev none left,
            λ l h. lock l (rw h),
          )
    ]
    | inr free ↦ Exits-ready false (w ∷ ws) s free
  ]

  -- Some wake-up brings a signal, or finds the queue no longer blocked.
  abbrev pub Awakens : List Wakeup → Type 0
  Awakens [] = ⊥
  Awakens (w ∷ ws) = (w.signal_pending ≡ true) ⊎ (blocked w.found.current_len ≡ false) ⊎ Awakens ws

  -- Then the loop is left.
  pub Awakens-ne-asleep :
      (nonblock : Bool) (ws : List Wakeup) (s : St Fifo)
      → Awakens ws
      → (wait_while blocked nonblock ws s).0 ≢ asleep
  Awakens-ne-asleep true ws s h = elim (Bool-cases (blocked s.dev.current_len)) [
    | inl full ↦ rw (wait_while_nonblock ws s full) (λ e. cc)
    | inr free ↦ rw (wait_while_ready true ws s free) (λ e. cc)
  ]
  Awakens-ne-asleep false [] s h = absurd h
  Awakens-ne-asleep false (w ∷ ws) s h = elim (Bool-cases (blocked s.dev.current_len)) [
    | inl full ↦ elim (Bool-cases w.signal_pending) [
      | inl sig ↦ rw (wait_while_signal w ws s full sig) (λ e. cc)
      | inr silent ↦ rw (wait_while_woken w ws s full silent) (elim h [
        | inl sig ↦ cc
        | inr (inl free) ↦ rw (wait_while_ready false ws (woken s w) free) (λ e. cc)
        | inr (inr later) ↦ Awakens-ne-asleep false ws (woken s w) later
      ])
    ]
    | inr free ↦ rw (wait_while_ready false (w ∷ ws) s free) (λ e. cc)
  ]
