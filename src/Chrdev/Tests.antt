-- ===== src/Chrdev/Tests.antt =====
-- Loads and unloads of the char drivers.
use training.Base.{◌≡◌, ◌≢◌, ◌⊎◌, true, false, none, some}
use training.Kernel.{ebusy, ret}
use training.Chrdev.{Answers}
use training.Chrdev.Drivers.{
  ch6_init, ch6_exit, multi_init, multi_exit, ch7_init, ch7_exit, ch8_init, ch8_exit, ch9_init,
  ch9_exit,
}
use training.Chrdev.Lifecycle.{all_added, Clean, drivers-Clean}
use training.Chrdev.Platform.{probe, remove, dev_init, dev_exit, HoldsMisc, nothing, platform_lem}
use training.Chrdev.Platform

abbrev good : Answers
good = all_added none 254 true

drivers-Clean_example :
    Clean (ch6_init good 0) (ch6_exit (ch6_init good 0))
    × Clean (multi_init good 0) (multi_exit (multi_init good 0))
    × Clean (ch7_init good 0) (ch7_exit (ch7_init good 0))
    × Clean (ch8_init good 0) (ch8_exit (ch8_init good 0))
    × Clean (ch9_init good 0) (ch9_exit (ch9_init good 0))
drivers-Clean_example = drivers-Clean none 254 true 0

abbrev not_added : Answers
not_added = record { region = none; chosen = 254; kzalloc_ok = true; added = λ i. false }

platform_lem_example :
    (((probe true (some ebusy)).0 ≡ ret 0)
        × HoldsMisc true (probe true (some ebusy)).1
        × HoldsMisc false (remove (probe true (some ebusy)).1).1
      ⊎ ((probe true (some ebusy)).0 ≢ ret 0) × HoldsMisc false (probe true (some ebusy)).1)
    × (((dev_init true (some ebusy)).0 ≡ ret 0)
          × (Platform.held (dev_exit (dev_init true (some ebusy)).1) ≡ some nothing)
        ⊎ ((dev_init true (some ebusy)).0 ≢ ret 0)
          × (Platform.held (dev_init true (some ebusy)).1 ≡ some nothing))
platform_lem_example = platform_lem true (some ebusy)
