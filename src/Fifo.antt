-- ===== src/Fifo.antt =====
-- driver/globalfifo/ch12/globalfifo.c: a byte queue behind a misc device, with blocking reads and
-- writes, poll and SIGIO. A handler runs over the device and a trace of its kernel calls.
pub mod Memory
pub mod Invariant
pub mod Waiting
pub mod Handlers
pub mod Requests
pub mod Locking
pub mod WaitQueues
pub mod Stream
pub mod Progress
pub mod Ch8
pub mod Ch9
pub mod Clients
mod Tests
use training.Base.{
  ℕ, zero, suc, ◌+◌, ◌-◌, ◌%◌, ◌^◌, List, [], ◌∷◌, Bool, true, false, not, Option, none, some, ltb,
  ◌==◌, if◌then◌else◌, get_elem?, set, take, replicate, write_at,
}
use training.Kernel.{
  Errno, efault, eagain, erestartsys, einval, Ret, ret, err, r_wait, w_wait, task_running,
  task_interruptible, mutex_lock, mutex_unlock, schedule, add_wait_queue, remove_wait_queue,
  wake_up_interruptible, poll_wait, set_current_state, kill_fasync, store_queue, Copy, copied,
  faulted, M, pure, ◌>>=◌, ◌>>◌, call, reads, reads_queue, writes,
}

-- GLOBALFIFO_SIZE
abbrev pub globalfifo_size : ℕ
globalfifo_size = 0x1000

-- FIFO_CLEAR
abbrev pub fifo_clear : ℕ
fifo_clear = 1

-- The fields of `struct globalfifo_dev` that hold data; `async_queue` lists the files in it.
pub record Fifo : Type 0 where
  pub current_len : ℕ
  pub mem : List ℕ
  pub async_queue : List ℕ

-- `unsigned int` subtraction.
abbrev pub sub32 : ℕ → ℕ → ℕ
sub32 a b = (a + 2 ^ 32 - b) % 2 ^ 32

-- `memcpy(mem, mem + from, n)` from byte `i` on, in the order of rising addresses.
pub memcpy_down : ℕ → ℕ → ℕ → List ℕ → List ℕ
memcpy_down from zero i mem = mem
memcpy_down from (suc n) i mem =
    memcpy_down from n (i + 1)
      (elim (get_elem? mem (from + i)) [ none ↦ mem | some v ↦ set mem i v ])

-- What a sleeping task finds when `schedule` returns: whether a signal is pending, and the device
-- as the other tasks left it by the time that it holds the mutex again.
pub record Wakeup : Type 0 where
  pub signal_pending : Bool
  pub found : Fifo

-- What the kernel answers to one call of `read` or `write`.
pub record Env : Type 0 where
  pub nonblock : Bool
  pub wakeups : List Wakeup
  pub copy : Copy

-- How the wait loop is left: by its test, by `goto out`, by `goto out2`, or not yet.
pub data Waited : Type 0 where
  ready asleep : Waited
  out out2 : Errno → Waited

-- `while (blocked) { … }`, entered with the mutex held.
pub wait_while : (ℕ → Bool) → Bool → List Wakeup → M Fifo Waited
wait_while blocked nonblock [] = do
  len ← reads (λ dev. dev.current_len)
  if not (blocked len) then pure ready else if nonblock then pure (out eagain) else do
    call (set_current_state task_interruptible)
    call mutex_unlock
    call schedule
    pure asleep
wait_while blocked nonblock (w ∷ ws) =
    let again = wait_while blocked nonblock ws in
    do
      len ← reads (λ dev. dev.current_len)
      if not (blocked len) then pure ready else if nonblock then pure (out eagain) else do
        call (set_current_state task_interruptible)
        call mutex_unlock
        call schedule
        if w.signal_pending
            then pure (out2 erestartsys)
            else do call mutex_lock; λ s. again (record s { dev = w.found })

-- The code behind the labels: `out` releases the mutex, `out2` leaves the wait queue.
pub leave_out2 : M Fifo (Unit {0})
leave_out2 = do call (remove_wait_queue w_wait); call (set_current_state task_running)

pub leave_out : M Fifo (Unit {0})
unfolding leave_out2
leave_out = do call mutex_unlock; leave_out2

-- What the caller gets: the returned value, and the bytes that a successful read brought.
abbrev pub Reply : Type 0
Reply = Ret × List ℕ

-- The part of `globalfifo_read` behind its wait loop, under the mutex.
pub read_ready : Copy → ℕ → M Fifo Reply
unfolding memcpy_down
read_ready copy size = do
  len ← reads (λ dev. dev.current_len)
  let count = if ltb len size then len else size
  mem ← reads (λ dev. dev.mem)
  elim copy [
    | faulted _ ↦ pure (err efault, [])
    | copied ↦ do
      writes (λ dev. record dev { mem = memcpy_down count (sub32 len count) 0 dev.mem })
      writes (λ dev. record dev { current_len = sub32 dev.current_len count })
      call (wake_up_interruptible w_wait)
      pure (ret count, take count mem)
  ]

-- `globalfifo_read` from the end of its wait loop on.
pub finish_read : Copy → ℕ → Waited → M Fifo (Option Reply)
unfolding leave_out
finish_read copy size asleep = pure none
finish_read copy size (out2 e) = do leave_out2; pure (some (err e, []))
finish_read copy size (out e) = do leave_out; pure (some (err e, []))
finish_read copy size ready = do reply ← read_ready copy size; leave_out; pure (some reply)

-- `globalfifo_read`; `none` is a task that still sleeps.
pub read : Env → ℕ → M Fifo (Option Reply)
unfolding wait_while finish_read
read env size = do
  call mutex_lock
  call (add_wait_queue r_wait)
  waited ← wait_while (λ len. len == 0) env.nonblock env.wakeups
  finish_read env.copy size waited

-- The part of `globalfifo_write` behind its wait loop, under the mutex.
pub write_ready : Copy → List ℕ → ℕ → M Fifo Ret
write_ready copy buf size = do
  len ← reads (λ dev. dev.current_len)
  let room = sub32 globalfifo_size len
  let count = if ltb room size then room else size
  elim copy [
    | faulted landed ↦ do
      writes (λ dev. record dev { mem = write_at len (take count landed) dev.mem })
      pure (err efault)
    | copied ↦ do
      writes (λ dev. record dev { mem = write_at len (take count buf) dev.mem })
      writes (λ dev. record dev { current_len = (dev.current_len + count) % 2 ^ 32 })
      call (wake_up_interruptible r_wait)
      queue ← reads_queue (λ dev. dev.async_queue)
      elim queue [ [] ↦ pure (ret count) | _ ∷ _ ↦ do call kill_fasync; pure (ret count) ]
  ]

-- `globalfifo_write` from the end of its wait loop on.
pub finish_write : Copy → List ℕ → ℕ → Waited → M Fifo (Option Ret)
unfolding leave_out
finish_write copy buf size asleep = pure none
finish_write copy buf size (out2 e) = do leave_out2; pure (some (err e))
finish_write copy buf size (out e) = do leave_out; pure (some (err e))
finish_write copy buf size ready = do r ← write_ready copy buf size; leave_out; pure (some r)

-- `globalfifo_write`; `none` is a task that still sleeps.
pub write : Env → List ℕ → ℕ → M Fifo (Option Ret)
unfolding wait_while finish_write
write env buf size = do
  call mutex_lock
  call (add_wait_queue w_wait)
  waited ← wait_while (λ len. len == globalfifo_size) env.nonblock env.wakeups
  finish_write env.copy buf size waited

-- `memset(mem, 0, GLOBALFIFO_SIZE)`
pub zeroed : List ℕ
zeroed = replicate globalfifo_size 0

-- `globalfifo_ioctl`
pub ioctl : ℕ → M Fifo Ret
ioctl cmd = if not (cmd == fifo_clear) then pure (err einval) else do
  call mutex_lock
  writes (λ dev. record dev { current_len = 0 })
  writes (λ dev. record dev { mem = zeroed })
  call mutex_unlock
  pure (ret 0)

-- The bits of a poll mask: POLLIN | POLLRDNORM, and POLLOUT | POLLWRNORM.
pub record Mask : Type 0 where
  pub readable : Bool
  pub writable : Bool

-- `globalfifo_poll`
pub poll : M Fifo Mask
poll = do
  call mutex_lock
  call (poll_wait r_wait)
  call (poll_wait w_wait)
  len_r ← reads (λ dev. dev.current_len)
  len_w ← reads (λ dev. dev.current_len)
  call mutex_unlock
  pure (record { readable = not (len_r == 0); writable = not (len_w == globalfifo_size) })

-- `fasync_helper` is the kernel's: the file descriptor (`none` for -1), the file, the mode and the
-- queue give its answer and the new queue.
module _ (fasync_helper : Option ℕ → ℕ → Bool → List ℕ → Ret × List ℕ) where
  -- `globalfifo_fasync`
  pub fasync : Option ℕ → ℕ → Bool → M Fifo Ret
  fasync fd filp mode s =
      let (r, queue) = fasync_helper fd filp mode s.dev.async_queue in
      (r, record { dev = record s.dev { async_queue = queue }; calls = store_queue ∷ s.calls })

  -- `globalfifo_release`
  pub release : ℕ → M Fifo Ret
  unfolding fasync
  release filp = do _ ← fasync none filp false; pure (ret 0)
