-- ===== src/Fifo/Clients.antt =====
-- The programs that use the fifo drivers, over the drivers' handlers: ch9/globalfifo_test.c and
-- io/io-models/sigio.c, whose code is the same, ch8/globalfifo_poll.c and ch8/globalfifo_epoll.c. A
-- system call is the driver's handler that the kernel calls for it.
pub mod Signals
pub mod Monitor
mod Tests
use training.Base.{
  ℕ, List, [], ◌∷◌, ◌++◌, Bool, true, false, not, ◌&&◌, Option, none, some, if◌then◌else◌,
}
use training.Kernel.{Ret, ret, err, St, M, pure, ◌>>=◌, ◌>>◌}
use training.Fifo.{Fifo, fifo_clear, Mask}
use training.Fifo.Ch9
use training.Fifo.Ch8
use training.Fifo.Ch8.{Dev}

-- What the programs print.
pub data Line : Type 0 where
  open_failure ioctl_failed : Line
  can_be_read can_be_written : Line
  epoll_create_error epoll_add_error epoll_wait_error epoll_delete_error : Line
  no_data not_empty : Line

-- How `main` of sigio.c goes on.
pub data Then : Type 0 where
  failed : Then
  sleeps : Then

-- In it, `fcntl(fd, F_SETFL, oflags | FASYNC)` is a call of the driver's fasync with the mode on, since the
-- file was opened without FASYNC. `opened` is what `open` gives, `none` for -1.
module _ (fasync_helper : Option ℕ → ℕ → Bool → List ℕ → Ret × List ℕ) where
  pub sigio_main : (opened : Option ℕ) → (filp : ℕ) → M Fifo Then
  sigio_main none filp = pure failed
  sigio_main (some fd) filp = do _ ← Ch9.fasync fasync_helper (some fd) filp true; pure sleeps

  -- `main` of globalfifo_test.c, which reads the same.
  pub test_main : (opened : Option ℕ) → (filp : ℕ) → M Fifo Then
  test_main = sigio_main

-- The lines for a result of `select`.
pub report : Mask → List Line
report mask =
    (if mask.readable then can_be_read ∷ [] else [])
    ++ (if mask.writable then can_be_written ∷ [] else [])

-- `while (1)` of globalfifo_poll.c, a round for each state that the other tasks have brought the device
-- to by then. `select` polls the device, and does not return with neither bit set.
pub monitor : List Dev → M Dev (Option (List Line))
monitor [] s = (some [], s)
monitor (found ∷ rest) s =
    let (mask, t) = Ch8.poll (record s { dev = found }) in
    let (more, u) = monitor rest t in
    if not mask.readable && not mask.writable
    then (none, t)
    else (elim more [ none ↦ none | some lines ↦ some (report mask ++ lines) ], u)

-- `main` of globalfifo_poll.c.
pub poll_main : (opened : Bool) → List Dev → M Dev (Option (List Line))
poll_main false found s = (some (open_failure ∷ []), s)
poll_main true found s =
    let (r, t) = Ch8.ioctl fifo_clear s in
    let (lines, u) = monitor found t in
    (
      elim r [
        | ret _ ↦ lines
        | err _ ↦ elim lines [ none ↦ none | some l ↦ some (ioctl_failed ∷ l) ]
      ],
      u,
    )

-- What the kernel answers to globalfifo_epoll.c.
pub record EpollEnv : Type 0 where
  pub create_fails : Bool
  pub add_fails : Bool
  pub wait_fails : Bool
  pub delete_fails : Bool

-- `epoll_wait` for EPOLLIN, over the states that the other tasks bring the device to in its 15 seconds:
-- it returns when a poll finds the device readable.
pub epoll_wait : List Dev → M Dev Bool
epoll_wait [] s = (false, s)
epoll_wait (found ∷ rest) s =
    let (mask, t) = Ch8.poll (record s { dev = found }) in
    let later = epoll_wait rest t in if mask.readable then (true, t) else later

-- From `epoll_wait` on.
pub epoll_rest : EpollEnv → List Dev → M Dev (List Line)
epoll_rest env found s =
    let (some_data, t) = epoll_wait found s in
    (
      (if env.wait_fails then epoll_wait_error else if some_data then not_empty else no_data)
          ∷ (if env.delete_fails then epoll_delete_error ∷ [] else []),
      t,
    )

-- `main` of globalfifo_epoll.c.
pub epoll_main : (opened : Bool) → EpollEnv → List Dev → M Dev (List Line)
epoll_main false env found s = (open_failure ∷ [], s)
epoll_main true env found s =
    let (r, t) = Ch8.ioctl fifo_clear s in
    let first : List Line = elim r [ ret _ ↦ [] | err _ ↦ ioctl_failed ∷ [] ] in
    if env.create_fails
    then (first ++ epoll_create_error ∷ [], t)
    else if env.add_fails
    then (first ++ epoll_add_error ∷ [], t)
    else let (lines, u) = epoll_rest env found t in (first ++ lines, u)
