-- ===== src/Tun/Tests.antt =====
-- A device on which two packets come before a read fails, and one that cannot be set up.
use training.Base.{◌≡◌, refl, [], ◌∷◌, some}
use training.Base.Int.{pos, negsuc}
use training.Tun.{tun_alloc, read_packets, main}

two_packets :
    main (pos 3) (pos 0) (pos 84 ∷ pos 60 ∷ negsuc 4 ∷ [])
    ≡ record { packets = 84 ∷ 60 ∷ []; open_fds = []; exit_code = some 1 }
unfolding main tun_alloc read_packets
two_packets = refl

no_tun : main (pos 3) (negsuc 0) [] ≡ record { packets = []; open_fds = []; exit_code = some 1 }
unfolding main tun_alloc
no_tun = refl
