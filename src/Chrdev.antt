-- ===== src/Chrdev.antt =====
-- How the char drivers are loaded and unloaded: driver/globalmem/ch6/globalmem.c, and over its
-- skeleton ch6/multi_globalmem.c, ch7/globalmem.c and driver/globalfifo/ch8 and ch9. The kernel's
-- answers are arguments; what is acquired and released is in the trace of the calls.
pub mod Drivers
pub mod Held
pub mod Lifecycle
pub mod Late
pub mod Platform
mod Tests
use training.Base.{
  ℕ, zero, suc, ◌+◌, List, [], ◌∷◌, Bool, Option, none, some, not, ◌==◌, true, false, if◌then◌else◌,
}
use training.Kernel.{Errno, enomem, Ret, ret, err, Queue}

-- Calls on regions of device numbers, memory, char devices, mutexes and wait queues. A call that may
-- fail has its success with it.
pub data Call : Type 0 where
  register_chrdev_region alloc_chrdev_region : (major count : ℕ) → (ok : Bool) → Call
  unregister_chrdev_region : (major count : ℕ) → Call
  kzalloc : (ok : Bool) → Call
  kfree mutex_init : Call
  cdev_add : (index : ℕ) → (ok : Bool) → Call
  cdev_del : (index : ℕ) → Call
  init_waitqueue_head : Queue → Call

-- What the kernel answers: an error of the registration, the major number that it chooses, whether
-- there is memory, and whether each char device can be added.
pub record Answers : Type 0 where
  pub region : Option Errno
  pub chosen : ℕ
  pub kzalloc_ok : Bool
  pub added : ℕ → Bool

-- The value of the init function, the major number, and the calls, the newest first.
pub record Loaded : Type 0 where
  pub value : Ret
  pub major : ℕ
  pub calls : List Call

-- `globalmem_setup_cdev`, which reports an error in the log only.
pub setup_cdev : Answers → (index : ℕ) → List Call → List Call
setup_cdev answers index calls = cdev_add index (answers.added index) ∷ calls

-- The set-up of `n` devices from `index` on; a driver of one device has one.
pub setup_cdevs : Answers → (n index : ℕ) → List Call → List Call
unfolding setup_cdev
setup_cdevs answers zero index calls = calls
setup_cdevs answers (suc n) index calls =
    setup_cdevs answers n (index + 1) (setup_cdev answers index calls)

-- The registration of `count` numbers: those that the module parameter asks for, or, where it is 0,
-- those that the kernel chooses.
pub claim : Answers → (ok : Bool) → (count major : ℕ) → ℕ × Call
claim answers ok count major =
    if not (major == 0)
    then (major, register_chrdev_region major count ok)
    else (answers.chosen, alloc_chrdev_region answers.chosen count ok)

-- An init function for `count` devices, with what the driver sets up behind `kzalloc`.
pub load : (setup : List Call → List Call) → (count : ℕ) → Answers → (major : ℕ) → Loaded
unfolding claim
load setup count answers major = elim answers.region [
  | some e ↦
      let (major', region) = claim answers false count major in
      record { value = err e; major = major'; calls = region ∷ [] }
  | none ↦
      let (major', region) = claim answers true count major in
      if not answers.kzalloc_ok
      then record {
        value = err enomem;
        major = major';
        calls = unregister_chrdev_region major' count ∷ (kzalloc false ∷ (region ∷ []));
      }
      else record { value = ret 0; major = major'; calls = setup (kzalloc true ∷ (region ∷ [])) }
]

-- The removal of `n` devices from `index` on.
pub del_cdevs : (n index : ℕ) → List Call → List Call
del_cdevs zero index calls = calls
del_cdevs (suc n) index calls = del_cdevs n (index + 1) (cdev_del index ∷ calls)

-- An exit function for `count` devices.
pub unload : (count : ℕ) → Loaded → List Call
unfolding del_cdevs
unload count loaded =
    unregister_chrdev_region loaded.major count ∷ (kfree ∷ del_cdevs count 0 loaded.calls)
