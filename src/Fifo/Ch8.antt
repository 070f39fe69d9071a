-- ===== src/Fifo/Ch8.antt =====
-- driver/globalfifo/ch8/globalfifo.c: the fifo behind a char device, without SIGIO. The labels and
-- the shift of the memory read as in ch12, and are its definitions.
pub mod Loop
pub mod Same
use training.Base.{
  ℕ, ◌+◌, ◌%◌, ◌^◌, List, [], ◌∷◌, Bool, not, Option, none, some, ltb, ◌==◌, if◌then◌else◌, take,
  write_at,
}
use training.Kernel.{
  efault, eagain, erestartsys, einval, Ret, ret, err, r_wait, w_wait, task_running,
  task_interruptible, mutex_lock, mutex_unlock, schedule, add_wait_queue, remove_wait_queue,
  wake_up_interruptible, poll_wait, set_current_state, Copy, copied, faulted, M, pure, ◌>>=◌, ◌>>◌,
  call, reads, writes,
}
use training.Fifo.{
  globalfifo_size, fifo_clear, sub32, memcpy_down, zeroed, Waited, ready, asleep, out, out2, Reply,
  Mask,
}

-- The data of `struct globalfifo_dev`.
pub record Dev : Type 0 where
  pub current_len : ℕ
  pub mem : List ℕ

-- What a sleeping task finds when `schedule` returns, as in ch12.
pub record Wakeup : Type 0 where
  pub signal_pending : Bool
  pub found : Dev

pub record Env : Type 0 where
  pub nonblock : Bool
  pub wakeups : List Wakeup
  pub copy : Copy

-- `while (blocked) { … }`, entered with the mutex held.
pub wait_while : (ℕ → Bool) → Bool → List Wakeup → M Dev Waited
wait_while blocked nonblock [] = do
  len ← reads (λ dev. dev.current_len)
  if not (blocked len) then pure ready else if nonblock then pure (out eagain) else do
    call (set_current_state task_interruptible)
    call mutex_unlock
    call schedule
    pure asleep
wait_while blocked nonblock (w ∷ ws) =
    let again = wait_while blocked nonblock ws in
    do
      len ← reads (λ dev. dev.current_len)
      if not (blocked len) then pure ready else if nonblock then pure (out eagain) else do
        call (set_current_state task_interruptible)
        call mutex_unlock
        call schedule
        if w.signal_pending
            then pure (out2 erestartsys)
            else do call mutex_lock; λ s. again (record s { dev = w.found })

-- The code behind the labels.
pub leave_out2 : M Dev (Unit {0})
leave_out2 = do call (remove_wait_queue w_wait); call (set_current_state task_running)

pub leave_out : M Dev (Unit {0})
unfolding leave_out2
leave_out = do call mutex_unlock; leave_out2

-- `globalfifo_read` behind its wait loop, under the mutex.
pub read_ready : Copy → ℕ → M Dev Reply
read_ready copy size = do
  len ← reads (λ dev. dev.current_len)
  let count = if ltb len size then len else size
  mem ← reads (λ dev. dev.mem)
  elim copy [
    | faulted _ ↦ pure (err efault, [])
    | copied ↦ do
      writes (λ dev. record dev { mem = memcpy_down count (sub32 len count) 0 dev.mem })
      writes (λ dev. record dev { current_len = sub32 dev.current_len count })
      call (wake_up_interruptible w_wait)
      pure (ret count, take count mem)
  ]

pub finish_read : Copy → ℕ → Waited → M Dev (Option Reply)
unfolding leave_out
finish_read copy size asleep = pure none
finish_read copy size (out2 e) = do leave_out2; pure (some (err e, []))
finish_read copy size (out e) = do leave_out; pure (some (err e, []))
finish_read copy size ready = do reply ← read_ready copy size; leave_out; pure (some reply)

-- `globalfifo_read`
pub read : Env → ℕ → M Dev (Option Reply)
unfolding wait_while finish_read
read env size = do
  call mutex_lock
  call (add_wait_queue r_wait)
  waited ← wait_while (λ len. len == 0) env.nonblock env.wakeups
  finish_read env.copy size waited

-- `globalfifo_write` behind its wait loop, under the mutex.
pub write_ready : Copy → List ℕ → ℕ → M Dev Ret
write_ready copy buf size = do
  len ← reads (λ dev. dev.current_len)
  let room = sub32 globalfifo_size len
  let count = if ltb room size then room else size
  elim copy [
    | faulted landed ↦ do
      writes (λ dev. record dev { mem = write_at len (take count landed) dev.mem })
      pure (err efault)
    | copied ↦ do
      writes (λ dev. record dev { mem = write_at len (take count buf) dev.mem })
      writes (λ dev. record dev { current_len = (dev.current_len + count) % 2 ^ 32 })
      call (wake_up_interruptible r_wait)
      pure (ret count)
  ]

pub finish_write : Copy → List ℕ → ℕ → Waited → M Dev (Option Ret)
unfolding leave_out
finish_write copy buf size asleep = pure none
finish_write copy buf size (out2 e) = do leave_out2; pure (some (err e))
finish_write copy buf size (out e) = do leave_out; pure (some (err e))
finish_write copy buf size ready = do r ← write_ready copy buf size; leave_out; pure (some r)

-- `globalfifo_write`
pub write : Env → List ℕ → ℕ → M Dev (Option Ret)
unfolding wait_while finish_write
write env buf size = do
  call mutex_lock
  call (add_wait_queue w_wait)
  waited ← wait_while (λ len. len == globalfifo_size) env.nonblock env.wakeups
  finish_write env.copy buf size waited

-- `globalfifo_ioctl`
unfoldable pub ioctl : ℕ → M Dev Ret
ioctl cmd = if not (cmd == fifo_clear) then pure (err einval) else do
  call mutex_lock
  writes (λ dev. record dev { current_len = 0 })
  writes (λ dev. record dev { mem = zeroed })
  call mutex_unlock
  pure (ret 0)

-- `globalfifo_poll`
unfoldable pub poll : M Dev Mask
poll = do
  call mutex_lock
  call (poll_wait r_wait)
  call (poll_wait w_wait)
  len_r ← reads (λ dev. dev.current_len)
  len_w ← reads (λ dev. dev.current_len)
  call mutex_unlock
  pure (record { readable = not (len_r == 0); writable = not (len_w == globalfifo_size) })
