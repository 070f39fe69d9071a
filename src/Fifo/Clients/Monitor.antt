-- ===== src/Fifo/Clients/Monitor.antt =====
-- What the monitors of the fifo of ch8 report is what the fifo holds.
use training.Base.{
  ◌≡◌, refl, inl, inr, List, [], ◌∷◌, ◌++◌, Bool, true, false, not, ◌||◌, some, arith, ◌==◌,
  if◌then◌else◌, Bool-cases,
}
use training.Kernel.{St}
use training.Fifo.{globalfifo_size, fifo_clear}
use training.Fifo.Ch8
use training.Fifo.Ch8.{Dev}
use training.Fifo.Clients.{
  Line, can_be_read, can_be_written, not_empty, no_data, report, monitor, poll_main, EpollEnv,
  epoll_wait, epoll_rest, epoll_main,
}

-- The lines that the state of the fifo calls for.
abbrev pub lines_for : Dev → List Line
lines_for d =
    if d.current_len == 0
    then can_be_written ∷ []
    else if d.current_len == globalfifo_size
    then can_be_read ∷ []
    else can_be_read ∷ can_be_written ∷ []

abbrev pub all_lines : List Dev → List Line
all_lines [] = []
all_lines (d ∷ rest) = lines_for d ++ all_lines rest

monitor_round :
    (found : Dev) (rest : List Dev) (s : St Dev)
    → (lines : List Line) → ((t : St Dev) → (monitor rest t).0 ≡ some lines)
    → (monitor (found ∷ rest) s).0 ≡ some (lines_for found ++ lines)
unfolding monitor report Ch8.poll
monitor_round found rest s lines h =
    let later = h (Ch8.poll (record s { dev = found })).1 in
    elim (Bool-cases (found.current_len == 0)) [
      | inl empty ↦ ground (arith, later)
      | inr some_in ↦ elim (Bool-cases (found.current_len == globalfifo_size)) [
        | inl full ↦ ground (arith, later)
        | inr room ↦ ground (arith, later)
      ]
    ]

monitor_lem : (found : List Dev) (s : St Dev) → (monitor found s).0 ≡ some (all_lines found)
unfolding monitor
monitor_lem [] s = refl
monitor_lem (d ∷ rest) s = monitor_round d rest s (all_lines rest) (monitor_lem rest)

-- The loop of globalfifo_poll.c never sleeps in `select`: in each round, whatever the other tasks did to
-- the fifo of ch8 before it, it prints that the fifo can be written only, if it is empty, that it can
-- be read only, if it is full, and both otherwise. A first round right behind the FIFO_CLEAR prints
-- that it can be written only.
pub poll_main_lem :
    (found : List Dev) (s : St Dev)
    → (poll_main true ((Ch8.ioctl fifo_clear s).1.dev ∷ found) s).0
      ≡ some (can_be_written ∷ all_lines found)
unfolding poll_main Ch8.ioctl
poll_main_lem found s =
    monitor_lem ((Ch8.ioctl fifo_clear s).1.dev ∷ found) (Ch8.ioctl fifo_clear s).1

-- Some of the states has a byte in it.
abbrev pub holds_bytes : List Dev → Bool
holds_bytes [] = false
holds_bytes (d ∷ rest) = not (d.current_len == 0) || holds_bytes rest

epoll_wait_lem : (found : List Dev) (s : St Dev) → (epoll_wait found s).0 ≡ holds_bytes found
unfolding epoll_wait Ch8.poll
epoll_wait_lem [] s = refl
epoll_wait_lem (d ∷ rest) s =
    let later = epoll_wait_lem rest (Ch8.poll (record s { dev = d })).1 in ground (arith, later)

-- Where epoll_create, epoll_ctl and epoll_wait do not fail, globalfifo_epoll.c prints that the fifo of
-- ch8 is not empty if it held a byte in one of the states that the wait came upon, and otherwise that
-- there was no data.
pub epoll_main_lem :
    (env : EpollEnv) (found : List Dev) (s : St Dev)
    → env.create_fails ≡ false
    → env.add_fails ≡ false
    → env.wait_fails ≡ false
    → env.delete_fails ≡ false
    → (epoll_main true env found s).0 ≡ (if holds_bytes found then not_empty else no_data) ∷ []
unfolding epoll_main epoll_rest Ch8.ioctl
epoll_main_lem env found s c a w d =
    let waits = epoll_wait_lem found (Ch8.ioctl fifo_clear s).1 in rw (c, a, w, d, waits) refl
