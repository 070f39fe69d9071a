-- ===== src/Chrdev/Late.antt =====
-- Which device is live before its mutex is.
use training.Base.{
  ℕ, ◌≡◌, refl, List, [], ◌∷◌, Bool, true, false, ◌&&◌, ◌||◌, not, none, inl, inr, Bool-cases, ◌==◌,
}
use training.Chrdev.{Call, cdev_add, mutex_init, Answers, load, claim, setup_cdev, setup_cdevs}
use training.Chrdev.Drivers.{ch7_init, ch8_init, ch9_init}

-- A char device was added.
abbrev pub live : List Call → Bool
live [] = false
live (cdev_add i true ∷ older) = true
live (_ ∷ older) = live older

abbrev pub has_mutex : List Call → Bool
has_mutex [] = false
has_mutex (mutex_init ∷ older) = true
has_mutex (_ ∷ older) = has_mutex older

-- At some moment of the trace a device was live, and the mutex that its handlers take was not.
abbrev pub exposed : List Call → Bool
exposed [] = false
exposed (c ∷ older) = (live (c ∷ older) && not (has_mutex (c ∷ older))) || exposed older

-- The drivers of globalmem ch7 and globalfifo ch8 and ch9, when they load, expose their device to
-- callers before they set up its mutex.
pub load-exposed :
    (answers : Answers) (major : ℕ)
    → answers.region ≡ none
    → answers.kzalloc_ok ≡ true
    → answers.added 0 ≡ true
    → (exposed (ch7_init answers major).calls ≡ true)
      × (exposed (ch8_init answers major).calls ≡ true)
      × (exposed (ch9_init answers major).calls ≡ true)
unfolding ch7_init ch8_init ch9_init load claim setup_cdevs setup_cdev
load-exposed answers major region ok good = elim (Bool-cases (major == 0)) [
  | inl z ↦ rw (region, ok) (rw (good, z) (refl, refl, refl))
  | inr z ↦ rw (region, ok) (rw (good, z) (refl, refl, refl))
]
