-- ===== src/Fifo/WaitQueues.antt =====
-- The wait queues and SIGIO: which of their calls the handlers of globalfifo.c make, in what order.
use training.Base.{
  ℕ, ◌≡◌, inl, inr, List, [], ◌∷◌, Bool, true, false, Option, none, some, arith, Bool-cases, ◌==◌,
}
use training.Kernel.{
  Ret, ret, err, Copy, copied, faulted, St, Call, mutex_lock, add_wait_queue, remove_wait_queue,
  wake_up_interruptible, kill_fasync, r_wait, w_wait,
}
use training.Fifo.{
  Fifo, globalfifo_size, Env, Wakeup, Waited, ready, out, out2, asleep, Reply, wait_while,
  read_ready, write_ready, leave_out, leave_out2, finish_read, read, finish_write, write,
}
use training.Fifo.Waiting.{
  wait_while_ready, wait_while_nonblock, wait_while_asleep, wait_while_signal, wait_while_woken,
  woken,
}

-- The calls of a trace that concern who waits and who is woken.
abbrev pub queue_calls : List Call → List Call
queue_calls [] = []
queue_calls (add_wait_queue q ∷ older) = add_wait_queue q ∷ queue_calls older
queue_calls (remove_wait_queue q ∷ older) = remove_wait_queue q ∷ queue_calls older
queue_calls (wake_up_interruptible q ∷ older) = wake_up_interruptible q ∷ queue_calls older
queue_calls (kill_fasync ∷ older) = kill_fasync ∷ queue_calls older
queue_calls (_ ∷ older) = queue_calls older

abbrev signals : St Fifo → List Call
signals s = queue_calls s.calls

wait_while_quiet :
    (blocked : ℕ → Bool) (nonblock : Bool) (ws : List Wakeup) (s : St Fifo)
    → signals (wait_while blocked nonblock ws s).1 ≡ signals s
wait_while_quiet blocked true ws s = elim (Bool-cases (blocked s.dev.current_len)) [
  | inl full ↦ rw (wait_while_nonblock blocked ws s full)
  | inr free ↦ rw (wait_while_ready blocked true ws s free)
]
wait_while_quiet blocked false [] s = elim (Bool-cases (blocked s.dev.current_len)) [
  | inl full ↦ rw (wait_while_asleep blocked s full)
  | inr free ↦ rw (wait_while_ready blocked false [] s free)
]
wait_while_quiet blocked false (w ∷ ws) s = elim (Bool-cases (blocked s.dev.current_len)) [
  | inl full ↦ elim (Bool-cases w.signal_pending) [
    | inl sig ↦ rw (wait_while_signal blocked w ws s full sig)
    | inr silent ↦
        rw (wait_while_woken blocked w ws s full silent)
          (wait_while_quiet blocked false ws (woken s w))
  ]
  | inr free ↦ rw (wait_while_ready blocked false (w ∷ ws) s free)
]

-- What a read that gives this reply adds to the calls made before it, the newest first.
abbrev pub read_protocol : Option Reply → List Call → List Call
read_protocol none older = add_wait_queue r_wait ∷ older
read_protocol (some (ret n, bytes)) older =
    remove_wait_queue w_wait ∷ (wake_up_interruptible w_wait ∷ (add_wait_queue r_wait ∷ older))
read_protocol (some (err e, bytes)) older =
    remove_wait_queue w_wait ∷ (add_wait_queue r_wait ∷ older)

finish_read_protocol :
    (copy : Copy) (size : ℕ) (w : Waited) (s : St Fifo) (older : List Call)
    → signals s ≡ add_wait_queue r_wait ∷ older
    → signals (finish_read copy size w s).1 ≡ read_protocol (finish_read copy size w s).0 older
unfolding finish_read read_ready leave_out leave_out2
finish_read_protocol copy size asleep s older h = h
finish_read_protocol copy size (out2 e) s older h = rw h
finish_read_protocol copy size (out e) s older h = rw h
finish_read_protocol copied size ready s older h = rw h
finish_read_protocol (faulted landed) size ready s older h = rw h

-- A read joins the queue of readers, wakes the writers exactly when it returns a count, 0 included, and
-- is removed through the queue of writers, on every path on which it returns; one that sleeps on has only
-- joined the queue of readers.
pub read_protocol_lem :
    (env : Env) (size : ℕ) (s : St Fifo)
    → queue_calls (read env size s).1.calls
      ≡ read_protocol (read env size s).0 (queue_calls s.calls)
unfolding read
read_protocol_lem env size s =
    let s0 : St Fifo = record s { calls = add_wait_queue r_wait ∷ (mutex_lock ∷ s.calls) } in
    let (w, t) = wait_while (λ len. len == 0) env.nonblock env.wakeups s0 in
    finish_read_protocol env.copy size w t (signals s)
      (wait_while_quiet (λ len. len == 0) env.nonblock env.wakeups s0)

abbrev pub sigio : List ℕ → List Call → List Call
sigio [] older = older
sigio (_ ∷ _) older = kill_fasync ∷ older

-- The same of a write that left the queue of SIGIO receivers `files`.
abbrev pub write_protocol : List ℕ → Option Ret → List Call → List Call
write_protocol files none older = add_wait_queue w_wait ∷ older
write_protocol files (some (ret n)) older =
    remove_wait_queue w_wait
    ∷ sigio files (wake_up_interruptible r_wait ∷ (add_wait_queue w_wait ∷ older))
write_protocol files (some (err e)) older =
    remove_wait_queue w_wait ∷ (add_wait_queue w_wait ∷ older)

finish_write_protocol :
    (copy : Copy) (buf : List ℕ) (size : ℕ) (w : Waited) (s : St Fifo) (older : List Call)
    → signals s ≡ add_wait_queue w_wait ∷ older
    → signals (finish_write copy buf size w s).1
      ≡ write_protocol
          (finish_write copy buf size w s).1.dev.async_queue
          (finish_write copy buf size w s).0
          older
unfolding finish_write write_ready leave_out leave_out2
finish_write_protocol copy buf size asleep s older h = h
finish_write_protocol copy buf size (out2 e) s older h = rw h
finish_write_protocol copy buf size (out e) s older h = rw h
finish_write_protocol copied buf size ready s older h = ground arith
finish_write_protocol (faulted landed) buf size ready s older h = rw h

-- A write joins and leaves the queue of writers; it wakes the readers exactly when it returns a count,
-- and then sends SIGIO exactly when some file asked for it.
pub write_protocol_lem :
    (env : Env) (buf : List ℕ) (size : ℕ) (s : St Fifo)
    → queue_calls (write env buf size s).1.calls
      ≡ write_protocol
          (write env buf size s).1.dev.async_queue
          (write env buf size s).0
          (queue_calls s.calls)
unfolding write
write_protocol_lem env buf size s =
    let s0 : St Fifo = record s { calls = add_wait_queue w_wait ∷ (mutex_lock ∷ s.calls) } in
    let (w, t) = wait_while (λ len. len == globalfifo_size) env.nonblock env.wakeups s0 in
    finish_write_protocol env.copy buf size w t (signals s)
      (wait_while_quiet (λ len. len == globalfifo_size) env.nonblock env.wakeups s0)
