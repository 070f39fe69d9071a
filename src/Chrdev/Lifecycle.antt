-- ===== src/Chrdev/Lifecycle.antt =====
-- What the init functions leave when they fail, and the exit functions when they succeed.
use training.Base.{
  ℕ, ◌≡◌, refl, ◌≢◌, ◌⊎◌, inl, inr, List, [], ◌∷◌, Bool, true, false, Option, none, some, arith,
  ◌==◌, Bool-cases,
}
use training.Kernel.{Errno, ret}
use training.Chrdev.{
  Call, unregister_chrdev_region, kfree, kzalloc, mutex_init, register_chrdev_region,
  alloc_chrdev_region, Answers, Loaded, load, unload, claim, setup_cdev, setup_cdevs, del_cdevs,
}
use training.Chrdev.Drivers.{
  ch6_init, ch6_exit, multi_init, multi_exit, ch7_init, ch7_exit, ch8_init, ch8_exit, ch9_init,
  ch9_exit, device_num, fifo_setup,
}
use training.Chrdev.Held.{Held, held, nothing}

-- Answers under which every char device can be added.
abbrev pub all_added : (region : Option Errno) → (chosen : ℕ) → (kzalloc_ok : Bool) → Answers
all_added region chosen kzalloc_ok = record {
  region = region;
  chosen = chosen;
  kzalloc_ok = kzalloc_ok;
  added = λ i. true;
}

-- A driver that loads holds nothing any more after its exit, and one that fails to load holds nothing.
abbrev pub Clean : Loaded → (after_exit : List Call) → Type 0
Clean loaded after_exit =
    ((loaded.value ≡ ret 0) × (held after_exit ≡ some nothing))
    ⊎ ((loaded.value ≢ ret 0) × (held loaded.calls ≡ some nothing))

abbrev Cleans : (Answers → ℕ → Loaded) → (Loaded → List Call) → Answers → ℕ → Type 0
Cleans init exit answers major = Clean (init answers major) (exit (init answers major))

same : (n : ℕ) → (n == n) ≡ true
same n = ground arith

module _ (setup : List Call → List Call) (count : ℕ) where
  -- What the exit leaves of a driver whose region was got by the call `c`.
  abbrev after : (major : ℕ) → Call → Option Held
  after major c = held (
      unregister_chrdev_region major count
      ∷ (kfree ∷ del_cdevs count 0 (setup (kzalloc true ∷ (c ∷ [])))))

  load-Clean :
      (region : Option Errno) (chosen : ℕ) (ok : Bool) (major : ℕ)
      → ((m : ℕ)
          → (after m (register_chrdev_region m count true) ≡ some nothing)
            × (after m (alloc_chrdev_region m count true) ≡ some nothing))
      → Cleans (load setup count) (unload count) (all_added region chosen ok) major
  unfolding load unload claim
  load-Clean (some e) chosen ok major works = elim (Bool-cases (major == 0)) [
    | inl z ↦ rw z (inr (λ eq. cc, refl))
    | inr z ↦ rw z (inr (λ eq. cc, refl))
  ]
  load-Clean none chosen false major works = elim (Bool-cases (major == 0)) [
    | inl z ↦ rw z (inr (λ eq. cc, rw (same chosen) (rw (same count) refl)))
    | inr z ↦ rw z (inr (λ eq. cc, rw (same major) (rw (same count) refl)))
  ]
  load-Clean none chosen true major works = elim (Bool-cases (major == 0)) [
    | inl z ↦ rw z (inl (refl, (works chosen).1))
    | inr z ↦ rw z (inl (refl, (works major).0))
  ]

-- Each of the five char drivers gives back all that it took, in an order that never frees what is
-- live, and under the numbers that it was given: at its exit if it has loaded, and by itself if it
-- fails to load; where all its char devices can be added.
pub drivers-Clean :
    (region : Option Errno) (chosen : ℕ) (ok : Bool) (major : ℕ)
    → let answers = all_added region chosen ok in
      Cleans ch6_init ch6_exit answers major
      × Cleans multi_init multi_exit answers major
      × Cleans ch7_init ch7_exit answers major
      × Cleans ch8_init ch8_exit answers major
      × Cleans ch9_init ch9_exit answers major
unfolding ch6_init ch6_exit multi_init multi_exit ch7_init ch7_exit ch8_init ch8_exit ch9_init
    ch9_exit setup_cdevs setup_cdev del_cdevs
drivers-Clean region chosen ok major =
    let answers = all_added region chosen ok in
    (
      load-Clean (setup_cdevs answers 1 0) 1 region chosen ok major
          (λ m. (rw (same m) refl, rw (same m) refl)),
      load-Clean (setup_cdevs answers device_num 0) device_num region chosen ok major
          (λ m. (rw (same m) refl, rw (same m) refl)),
      load-Clean (λ calls. mutex_init ∷ setup_cdevs answers 1 0 calls) 1 region chosen ok major
          (λ m. (rw (same m) refl, rw (same m) refl)),
      load-Clean (fifo_setup answers) 1 region chosen ok major
          (λ m. (rw (same m) refl, rw (same m) refl)),
      load-Clean (fifo_setup answers) 1 region chosen ok major
          (λ m. (rw (same m) refl, rw (same m) refl)),
    )

-- Where the char device cannot be added the init function succeeds all the same, and the exit
-- function removes a device that is not there.
pub cdev_add_unchecked :
    (major : ℕ) (answers : Answers)
    → answers.region ≡ none
    → answers.kzalloc_ok ≡ true
    → answers.added 0 ≡ false
    → ((ch6_init answers major).value ≡ ret 0) × (held (ch6_exit (ch6_init answers major)) ≡ none)
unfolding ch6_init ch6_exit load unload claim setup_cdevs setup_cdev del_cdevs
cdev_add_unchecked major answers region ok bad = elim (Bool-cases (major == 0)) [
  | inl z ↦ rw (region, ok) (rw (bad, z) (refl, refl))
  | inr z ↦ rw (region, ok) (rw (bad, z) (refl, refl))
]
