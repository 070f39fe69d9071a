-- ===== src/Tun/Descriptors.antt =====
-- The device of virt/mytun.c is open exactly as long as the program reads from it.
use training.Base.{ℕ, ◌≡◌, refl, ap, ◌⊎◌, inl, inr, List, [], ◌∷◌, none, some}
use training.Base.Int.{ℤ, pos, negsuc}
use training.Tun.{tun_alloc, Run, read_packets, main}

-- The packets up to the first read that fails.
abbrev pub good : List ℤ → List ℕ
good [] = []
good (negsuc e ∷ rest) = []
good (pos n ∷ rest) = n ∷ good rest

-- The program reads on with just the device open, or has left with code 1 and nothing open.
abbrev pub Tidy : (opened : ℤ) → Run → Type 0
Tidy opened r =
    ((fd : ℕ) × (opened ≡ pos fd) × (r.exit_code ≡ none) × (r.open_fds ≡ fd ∷ []))
    ⊎ ((r.exit_code ≡ some 1) × (r.open_fds ≡ []))

read_packets-Tidy :
    (fd : ℕ) (reads : List ℤ)
    → Tidy (pos fd) (read_packets fd reads) × ((read_packets fd reads).packets ≡ good reads)
unfolding read_packets
read_packets-Tidy fd [] = (inl (fd, refl, refl, refl), refl)
read_packets-Tidy fd (negsuc e ∷ rest) = (inr (refl, refl), refl)
read_packets-Tidy fd (pos n ∷ rest) =
    let (tidy, same) = read_packets-Tidy fd rest in (tidy, ap (◌∷◌ n) same)

-- Whatever `open`, `ioctl` and `read` return, mytun.c either reads on and has just the tun device open,
-- or has left with exit code 1 and has nothing open; and it has reported every packet up to the first
-- read that fails, or none and has left.
pub main-Tidy :
    (opened set_iff : ℤ) (reads : List ℤ)
    → Tidy opened (main opened set_iff reads)
      × (((main opened set_iff reads).packets ≡ good reads)
          ⊎ (((main opened set_iff reads).packets ≡ [])
              × ((main opened set_iff reads).exit_code ≡ some 1)))
unfolding main tun_alloc
main-Tidy (negsuc e) set_iff reads = (inr (refl, refl), inr (refl, refl))
main-Tidy (pos fd) (negsuc e) reads = (inr (refl, refl), inr (refl, refl))
main-Tidy (pos fd) (pos r) reads = let (tidy, same) = read_packets-Tidy fd reads in (tidy, inl same)
