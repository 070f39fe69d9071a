-- ===== src/Fifo/Ch9.antt =====
-- driver/globalfifo/ch9/globalfifo.c: the fifo behind a char device, with SIGIO. Its handlers read
-- word for word as those of ch12, and are its definitions.
use training.Base.{ℕ, List, Bool, Option}
use training.Kernel.{Ret, M}
use training.Fifo.{Fifo, Env, Reply, Mask}
use training.Fifo

-- `globalfifo_read`
pub read : Env → ℕ → M Fifo (Option Reply)
unfolding Fifo.read
read = Fifo.read

-- `globalfifo_write`
unfoldable pub write : Env → List ℕ → ℕ → M Fifo (Option Ret)
unfolding Fifo.write
write = Fifo.write

-- `globalfifo_ioctl`
pub ioctl : ℕ → M Fifo Ret
unfolding Fifo.ioctl
ioctl = Fifo.ioctl

-- `globalfifo_poll`
pub poll : M Fifo Mask
unfolding Fifo.poll
poll = Fifo.poll

module _ (fasync_helper : Option ℕ → ℕ → Bool → List ℕ → Ret × List ℕ) where
  -- `globalfifo_fasync`
  unfoldable pub fasync : Option ℕ → ℕ → Bool → M Fifo Ret
  unfolding Fifo.fasync
  fasync = Fifo.fasync fasync_helper

  -- `globalfifo_release`
  pub release : ℕ → M Fifo Ret
  unfolding Fifo.release
  release = Fifo.release fasync_helper
