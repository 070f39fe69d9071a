-- ===== src/Fifo/Requests.antt =====
-- `globalfifo_fops` of driver/globalfifo/ch12/globalfifo.c: the handler of each file operation.
use training.Base.{ℕ, List, Bool, Option}
use training.Kernel.{Ret, St}
use training.Fifo.{Fifo, Env, read, write, ioctl, poll, fasync, release}

pub data Request : Type 0 where
  reads : Env → (size : ℕ) → Request
  writes : Env → (buf : List ℕ) → (size : ℕ) → Request
  ioctls : (cmd : ℕ) → Request
  polls : Request
  fasyncs : (fd : Option ℕ) → (filp : ℕ) → (mode : Bool) → Request
  releases : (filp : ℕ) → Request

-- The device and the trace after a request.
unfoldable pub serve : (Option ℕ → ℕ → Bool → List ℕ → Ret × List ℕ) → Request → St Fifo → St Fifo
serve helper (reads env size) s = (read env size s).1
serve helper (writes env buf size) s = (write env buf size s).1
serve helper (ioctls cmd) s = (ioctl cmd s).1
serve helper polls s = (poll s).1
serve helper (fasyncs fd filp mode) s = (fasync helper fd filp mode s).1
serve helper (releases filp) s = (release helper filp s).1
