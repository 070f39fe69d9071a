-- ===== src/Fifo/Locking.antt =====
-- The mutex of the fifo: read, write, ioctl and poll touch the device under it only, sleep without it,
-- and have released it when they return or sleep; fasync and release do not take it.
use training.Base.{ℕ, ◌≡◌, List, ◌∷◌, Bool, Option, ◌==◌, inl, inr, arith, Bool-cases}
use training.Kernel.{Ret, Copy, copied, faulted, St, mutex_lock, add_wait_queue, r_wait, w_wait}
use training.Kernel.Locks.{Lock, locked, unlocked, broken, lock_after}
use training.Fifo.{
  Fifo, globalfifo_size, fifo_clear, Env, Waited, ready, out, out2, asleep, wait_while, read_ready,
  write_ready, leave_out, leave_out2, finish_read, read, finish_write, write, ioctl, poll, fasync,
  release,
}
use training.Fifo.Waiting.{lock_left, wait_while_lem}
use training.Fifo.Requests.{Request, reads, writes, ioctls, polls, fasyncs, releases, serve}

-- The state of the mutex behind a request that found it free.
abbrev pub lock_behind : Request → Lock
lock_behind (fasyncs _ _ _) = broken
lock_behind (releases _) = broken
lock_behind _ = unlocked

module _ (l : Lock) where
  abbrev Holds : Lock → St Fifo → Type 0
  Holds m s = lock_after l s.calls ≡ m

  read_ready-locked :
      (copy : Copy) (size : ℕ) (s : St Fifo)
      → Holds locked s
      → Holds locked (read_ready copy size s).1
  unfolding read_ready
  read_ready-locked copied size s h = rw h
  read_ready-locked (faulted landed) size s h = rw h

  write_ready-locked :
      (copy : Copy) (buf : List ℕ) (size : ℕ) (s : St Fifo)
      → Holds locked s
      → Holds locked (write_ready copy buf size s).1
  unfolding write_ready
  write_ready-locked copied buf size s h = ground arith
  write_ready-locked (faulted landed) buf size s h = rw h

  leave_out-unlocked : (s : St Fifo) → Holds locked s → Holds unlocked (leave_out s).1
  unfolding leave_out
  leave_out-unlocked s h = rw h

  finish_read-unlocked :
      (copy : Copy) (size : ℕ) (w : Waited) (s : St Fifo)
      → Holds (lock_left w) s
      → Holds unlocked (finish_read copy size w s).1
  unfolding finish_read leave_out2
  finish_read-unlocked copy size asleep s h = h
  finish_read-unlocked copy size (out2 e) s h = rw h
  finish_read-unlocked copy size (out e) s h = leave_out-unlocked s h
  finish_read-unlocked copy size ready s h =
      leave_out-unlocked (read_ready copy size s).1 (read_ready-locked copy size s h)

  finish_write-unlocked :
      (copy : Copy) (buf : List ℕ) (size : ℕ) (w : Waited) (s : St Fifo)
      → Holds (lock_left w) s
      → Holds unlocked (finish_write copy buf size w s).1
  unfolding finish_write leave_out2
  finish_write-unlocked copy buf size asleep s h = h
  finish_write-unlocked copy buf size (out2 e) s h = rw h
  finish_write-unlocked copy buf size (out e) s h = leave_out-unlocked s h
  finish_write-unlocked copy buf size ready s h =
      leave_out-unlocked (write_ready copy buf size s).1 (write_ready-locked copy buf size s h)

  read-unlocked :
      (env : Env) (size : ℕ) (s : St Fifo) → Holds unlocked s → Holds unlocked (read env size s).1
  unfolding read
  read-unlocked env size s h =
      let s0 : St Fifo = record s { calls = add_wait_queue r_wait ∷ mutex_lock ∷ s.calls } in
      let (w, t) = wait_while (λ len. len == 0) env.nonblock env.wakeups s0 in
      finish_read-unlocked env.copy size w t
        ((wait_while_lem (λ len. len == 0) env.nonblock env.wakeups s0).2 l (rw h))

  write-unlocked :
      (env : Env) (buf : List ℕ) (size : ℕ) (s : St Fifo)
      → Holds unlocked s
      → Holds unlocked (write env buf size s).1
  unfolding write
  write-unlocked env buf size s h =
      let s0 : St Fifo = record s { calls = add_wait_queue w_wait ∷ mutex_lock ∷ s.calls } in
      let (w, t) = wait_while (λ len. len == globalfifo_size) env.nonblock env.wakeups s0 in
      finish_write-unlocked env.copy buf size w t
        ((wait_while_lem (λ len. len == globalfifo_size) env.nonblock env.wakeups s0).2 l (rw h))

  ioctl-unlocked : (cmd : ℕ) (s : St Fifo) → Holds unlocked s → Holds unlocked (ioctl cmd s).1
  unfolding ioctl
  ioctl-unlocked cmd s h = elim (Bool-cases (cmd == fifo_clear)) [
    | inl e ↦ rw e (rw h)
    | inr e ↦ rw e h
  ]

  poll-unlocked : (s : St Fifo) → Holds unlocked s → Holds unlocked (poll s).1
  unfolding poll
  poll-unlocked s h = rw h

  -- Every read, write, ioctl and poll that starts with the mutex free keeps the discipline, on every path,
  -- errors and sleep included, and ends with the mutex free; fasync and release break it: they change the
  -- queue of SIGIO receivers, which write tests under the mutex, with the mutex free.
  pub serve-unlocked :
      (helper : Option ℕ → ℕ → Bool → List ℕ → Ret × List ℕ) (r : Request) (s : St Fifo)
      → lock_after l s.calls ≡ unlocked
      → lock_after l (serve helper r s).calls ≡ lock_behind r
  unfolding serve fasync release
  serve-unlocked helper (reads env size) s h = read-unlocked env size s h
  serve-unlocked helper (writes env buf size) s h = write-unlocked env buf size s h
  serve-unlocked helper (ioctls cmd) s h = ioctl-unlocked cmd s h
  serve-unlocked helper polls s h = poll-unlocked s h
  serve-unlocked helper (fasyncs fd filp mode) s h = rw h
  serve-unlocked helper (releases filp) s h = rw h
