-- ===== src/Kernel.antt =====
-- What the char drivers of driver/globalfifo and driver/globalmem see of the kernel. The kernel is
-- not modelled: a handler leaves a trace of its kernel calls and of its accesses to the shared
-- device, and each answer that it depends on (a fault of a copy, a wake-up, a signal) is an argument.
pub mod Locks
use training.Base.{ℕ, suc, List, [], ◌∷◌, Bool}

-- The error numbers that the drivers return, negated, in the C code.
pub data Errno : Type 0 where
  einval efault eagain enomem erestartsys ebusy : Errno

-- What a handler returns: a count or a position, or an error.
pub data Ret : Type 0 where
  ret : ℕ → Ret
  err : Errno → Ret

-- The two wait queues of a fifo.
pub data Queue : Type 0 where
  r_wait w_wait : Queue

pub data TaskState : Type 0 where
  task_running task_interruptible : TaskState

-- A kernel call, or an access to the fields that the mutex of the device protects; the test and
-- the change of the queue of SIGIO receivers are accesses of their own.
pub data Call : Type 0 where
  mutex_lock mutex_unlock schedule : Call
  load store load_queue store_queue : Call
  add_wait_queue remove_wait_queue wake_up_interruptible poll_wait : Queue → Call
  set_current_state : TaskState → Call
  kill_fasync : Call

-- A copy between the user's buffer and the device. A copy to the device that faults may have
-- brought some bytes already.
pub data Copy : Type 0 where
  copied : Copy
  faulted : (landed : List ℕ) → Copy

-- The device, and the calls made so far, the newest first.
pub record St {ℓ} (D : Type ℓ) : Type ℓ where
  pub dev : D
  pub calls : List Call

-- A handler is a function on that state with a result.
abbrev pub M {ℓ κ} : Type ℓ → Type κ → Type (ℓ ⊔ κ)
M D A = St D → A × St D

abbrev pub pure {ℓ κ} : {D : Type ℓ} {A : Type κ} → A → M D A
pure a s = (a, s)

infixl 5 ◌>>=◌ ◌>>◌
abbrev pub ◌>>=◌ {ℓ κ ι} : {D : Type ℓ} {A : Type κ} {B : Type ι} → M D A → (A → M D B) → M D B
◌>>=◌ m f s = let (a, s') = m s in f a s'

abbrev pub ◌>>◌ {ℓ ι} : {D : Type ℓ} {B : Type ι} → M D (Unit {0}) → M D B → M D B
m >> k = m >>= λ _. k

abbrev pub call {ℓ} : {D : Type ℓ} → Call → M D (Unit {0})
call c s = (tt, record s { calls = c ∷ s.calls })

-- A read of the shared device.
abbrev pub reads {ℓ κ} : {D : Type ℓ} {A : Type κ} → (D → A) → M D A
reads f s = (f s.dev, record s { calls = load ∷ s.calls })

-- A read of its queue of SIGIO receivers.
abbrev pub reads_queue {ℓ κ} : {D : Type ℓ} {A : Type κ} → (D → A) → M D A
reads_queue f s = (f s.dev, record s { calls = load_queue ∷ s.calls })

-- A write to it.
abbrev pub writes {ℓ} : {D : Type ℓ} → (D → D) → M D (Unit {0})
writes f s = (tt, record { dev = f s.dev; calls = store ∷ s.calls })
