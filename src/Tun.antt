-- ===== src/Tun.antt =====
-- virt/mytun.c: a program that sets up a tun device and reads packets from it. The descriptors that it
-- has open are its state; what `open`, `ioctl` and `read` return is an argument.
pub mod Descriptors
mod Tests
use training.Base.{ℕ, List, [], ◌∷◌, Option, none, some}
use training.Base.Int.{ℤ, pos, negsuc}

-- `tun_alloc`: what it returns, and the descriptors that it leaves open.
pub tun_alloc : (opened set_iff : ℤ) → ℤ × List ℕ
tun_alloc (negsuc e) set_iff = (negsuc e, [])
tun_alloc (pos fd) (negsuc e) = (negsuc e, [])
tun_alloc (pos fd) (pos r) = (pos fd, fd ∷ [])

-- Where `main` stands: the packets that it has reported, what is open, and the code of its `exit`.
pub record Run : Type 0 where
  pub packets : List ℕ
  pub open_fds : List ℕ
  pub exit_code : Option ℕ

abbrev packet : ℕ → Run → Run
packet n r = record r { packets = n ∷ r.packets }

-- `while (1)` of `main`, over what the reads return. An `exit` behind a failed read closes the device.
pub read_packets : (tun_fd : ℕ) → List ℤ → Run
read_packets tun_fd [] = record { packets = []; open_fds = tun_fd ∷ []; exit_code = none }
read_packets tun_fd (negsuc e ∷ rest) = record { packets = []; open_fds = []; exit_code = some 1 }
read_packets tun_fd (pos nread ∷ rest) = packet nread (read_packets tun_fd rest)

pub main : (opened set_iff : ℤ) → List ℤ → Run
main opened set_iff reads =
    let (tun_fd, open_fds) = tun_alloc opened set_iff in
    elim tun_fd [
      | negsuc e ↦ record { packets = []; open_fds = open_fds; exit_code = some 1 }
      | pos fd ↦ read_packets fd reads
    ]
