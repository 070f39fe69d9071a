-- ===== src/Chrdev/Platform.antt =====
-- driver/globalfifo/ch12/globalfifo.c and globalfifo-dev.c: how the platform device is made and how
-- the misc device of the driver is bound to it.
use training.Base.{
  ◌≡◌, refl, ◌≢◌, ◌⊎◌, inl, inr, List, [], ◌∷◌, Bool, true, false, ◌&&◌, Option, none, some, not,
  if◌then◌else◌,
}
use training.Kernel.{Errno, enomem, Ret, ret, err, Queue, r_wait, w_wait}

pub data Call : Type 0 where
  devm_kzalloc : (ok : Bool) → Call
  mutex_init platform_set_drvdata : Call
  init_waitqueue_head : Queue → Call
  misc_register : (ok : Bool) → Call
  misc_deregister : Call
  platform_device_alloc platform_device_add : (ok : Bool) → Call
  platform_device_put platform_device_unregister : Call

-- An error, or 0.
abbrev pub is_ok : Option Errno → Bool
is_ok none = true
is_ok (some _) = false

-- `globalfifo_probe`
pub probe : (kzalloc_ok : Bool) → (registered : Option Errno) → Ret × List Call
probe kzalloc_ok registered =
    let calls : List Call =
      misc_register (is_ok registered)
      ∷ (platform_set_drvdata
          ∷ (init_waitqueue_head w_wait
              ∷ (init_waitqueue_head r_wait ∷ (mutex_init ∷ (devm_kzalloc true ∷ []))))) in
    if not kzalloc_ok
    then (err enomem, devm_kzalloc false ∷ [])
    else elim registered [ some e ↦ (err e, calls) | none ↦ (ret 0, calls) ]

-- `globalfifo_remove`
pub remove : List Call → Ret × List Call
remove calls = (ret 0, misc_deregister ∷ calls)

-- `globalfifodev_init`
pub dev_init : (alloc_ok : Bool) → (added : Option Errno) → Ret × List Call
dev_init alloc_ok added =
    if not alloc_ok then (err enomem, platform_device_alloc false ∷ []) else elim added [
      | some e ↦ (
        err e,
        platform_device_put ∷ (platform_device_add false ∷ (platform_device_alloc true ∷ [])),
      )
      | none ↦ (ret 0, platform_device_add true ∷ (platform_device_alloc true ∷ []))
    ]

-- `globalfifodev_exit`
pub dev_exit : List Call → List Call
dev_exit calls = platform_device_unregister ∷ calls

-- What a trace holds: references to the platform device, whether it and the misc device are
-- registered, and which locks of the driver are set up. `none` is a call that is wrong there: a
-- misc device that is registered without its mutex and wait queues, or a release of what is not held.
pub record Held : Type 0 where
  pub device : Bool
  pub added : Bool
  pub misc : Bool
  pub mutex : Bool
  pub readers : Bool
  pub writers : Bool

abbrev pub nothing : Held
nothing = record {
  device = false;
  added = false;
  misc = false;
  mutex = false;
  readers = false;
  writers = false;
}

abbrev pub hold : Held → Call → Option Held
hold h (devm_kzalloc ok) = some h
hold h platform_set_drvdata = some h
hold h mutex_init = some (record h { mutex = true })
hold h (init_waitqueue_head r_wait) = some (record h { readers = true })
hold h (init_waitqueue_head w_wait) = some (record h { writers = true })
hold h (misc_register false) = some h
hold h (misc_register true) =
    if h.mutex && (h.readers && h.writers) then some (record h { misc = true }) else none
hold h misc_deregister = if h.misc then some (record h { misc = false }) else none
hold h (platform_device_alloc ok) = if h.device then none else some (record h { device = ok })
hold h (platform_device_add ok) = if h.device then some (record h { added = ok }) else none
hold h platform_device_put =
    if h.device && not h.added then some (record h { device = false }) else none
hold h platform_device_unregister =
    if h.device && h.added then some (record h { device = false; added = false }) else none

abbrev pub held : List Call → Option Held
held [] = some nothing
held (c ∷ older) = elim (held older) [ none ↦ none | some h ↦ hold h c ]

-- The misc device is registered or not, as `b` says, and nothing else is held.
abbrev pub HoldsMisc : Bool → List Call → Type 0
HoldsMisc b calls = (h : Held) × (held calls ≡ some h) × (h.misc ≡ b) × (h.device ≡ false)

-- The driver registers its misc device after its mutex and wait queues only, exactly when the probe
-- succeeds, and removes it again; the device module keeps its platform device exactly when it loads,
-- and gives it back once, at its exit or when it fails.
pub platform_lem :
    (ok : Bool) (answer : Option Errno)
    → (((probe ok answer).0 ≡ ret 0)
          × HoldsMisc true (probe ok answer).1
          × HoldsMisc false (remove (probe ok answer).1).1
        ⊎ ((probe ok answer).0 ≢ ret 0) × HoldsMisc false (probe ok answer).1)
      × (((dev_init ok answer).0 ≡ ret 0) × (held (dev_exit (dev_init ok answer).1) ≡ some nothing)
          ⊎ ((dev_init ok answer).0 ≢ ret 0) × (held (dev_init ok answer).1 ≡ some nothing))
unfolding probe remove dev_init dev_exit
platform_lem true none =
    (inl (refl, (_, refl, refl, refl), (_, refl, refl, refl)), inl (refl, refl))
platform_lem true (some e) = (inr (λ eq. cc, (_, refl, refl, refl)), inr (λ eq. cc, refl))
platform_lem false answer = (inr (λ eq. cc, (_, refl, refl, refl)), inr (λ eq. cc, refl))
