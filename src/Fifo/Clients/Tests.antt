-- ===== src/Fifo/Clients/Tests.antt =====
-- The programs on a fifo that other tasks write to.
use training.Base.{ℕ, ◌+◌, ◌≡◌, refl, List, [], ◌∷◌, Bool, true, false, Option, some}
use training.Kernel.{Ret, ret, St, copied}
use training.Fifo.{Fifo, zeroed}
use training.Fifo.Ch8
use training.Fifo.Ch8.{Dev}
use training.Fifo.Clients.{
  can_be_written, not_empty, poll_main, EpollEnv, epoll_wait, epoll_rest, epoll_main, sleeps,
  sigio_main,
}
use training.Fifo.Clients.Signals.{WriteCall, write_all, signals, sigio_main-signals}
use training.Fifo.Clients.Monitor.{all_lines, poll_main_lem}

-- A `fasync_helper` that puts the file at the front.
abbrev helper : Option ℕ → ℕ → Bool → List ℕ → Ret × List ℕ
helper fd filp true queue = (ret 1, filp ∷ queue)
helper fd filp false queue = (ret 0, queue)

abbrev empty : St Fifo
empty = record { dev = record { current_len = 0; mem = zeroed; async_queue = [] }; calls = [] }

abbrev two_bytes : WriteCall
two_bytes = record {
  env = record { nonblock = true; wakeups = []; copy = copied };
  buf = 7 ∷ 8 ∷ [];
  size = 2;
}

sigio_main-signals_example :
    let (next, t) = sigio_main helper (some 3) 5 empty in
    let (n, u) = write_all (two_bytes ∷ two_bytes ∷ []) t in
    (next ≡ sleeps) × (signals u.calls ≡ n + signals empty.calls)
sigio_main-signals_example =
    sigio_main-signals helper 3 5 (two_bytes ∷ two_bytes ∷ []) empty (λ fd filp queue. (0, refl))
      (tt, (tt, tt))

abbrev dev : ℕ → St Dev
dev len = record { dev = record { current_len = len; mem = zeroed }; calls = [] }

poll_main_lem_example :
    (poll_main true ((Ch8.ioctl 1 (dev 5)).1.dev ∷ (dev 2).dev ∷ []) (dev 5)).0
    ≡ some (can_be_written ∷ all_lines ((dev 2).dev ∷ []))
poll_main_lem_example = poll_main_lem ((dev 2).dev ∷ []) (dev 5)

abbrev works : EpollEnv
works = record { create_fails = false; add_fails = false; wait_fails = false; delete_fails = false }

sees_data : (epoll_main true works ((dev 0).dev ∷ (dev 2).dev ∷ []) (dev 5)).0 ≡ not_empty ∷ []
unfolding epoll_main epoll_rest epoll_wait Ch8.poll Ch8.ioctl
sees_data = refl
