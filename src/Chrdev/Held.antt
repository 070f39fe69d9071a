-- ===== src/Chrdev/Held.antt =====
-- What a trace of calls holds: a region of device numbers, a block of memory, and the char devices
-- that are live.
use training.Base.{
  ℕ, List, [], ◌∷◌, Bool, true, false, ◌&&◌, Option, none, some, ◌==◌, if◌then◌else◌,
}
use training.Chrdev.{
  Call, register_chrdev_region, alloc_chrdev_region, unregister_chrdev_region, kzalloc, kfree,
  cdev_add, cdev_del,
}

pub record Held : Type 0 where
  pub region : Option (ℕ × ℕ)
  pub memory : Bool
  pub cdevs : List ℕ

abbrev pub nothing : Held
nothing = record { region = none; memory = false; cdevs = [] }

-- The list without an index, or nothing if it has not got it.
abbrev pub without : ℕ → List ℕ → Option (List ℕ)
without i [] = none
without i (j ∷ rest) =
    if i == j
    then some rest
    else elim (without i rest) [ none ↦ none | some others ↦ some (j ∷ others) ]

-- The region given back is the one held, with its size.
abbrev pub gives_back : (major count : ℕ) → Option (ℕ × ℕ) → Bool
gives_back major count none = false
gives_back major count (some (m, n)) = (major == m) && (count == n)

-- A call on what is held; `none` is a call that is wrong there: a second region or block, a release
-- of what is not held, or the release of the memory or of the numbers of a live device.
abbrev pub hold : Held → Call → Option Held
hold h (register_chrdev_region m n true) = elim h.region [
  | none ↦ some (record h { region = some (m, n) })
  | some _ ↦ none
]
hold h (alloc_chrdev_region m n true) = elim h.region [
  | none ↦ some (record h { region = some (m, n) })
  | some _ ↦ none
]
hold h (unregister_chrdev_region m n) = elim h.cdevs [
  | [] ↦ if gives_back m n h.region then some (record h { region = none }) else none
  | _ ∷ _ ↦ none
]
hold h (kzalloc true) = if h.memory then none else some (record h { memory = true })
hold h kfree = elim h.cdevs [
  | [] ↦ if h.memory then some (record h { memory = false }) else none
  | _ ∷ _ ↦ none
]
hold h (cdev_add i true) = if h.memory then some (record h { cdevs = i ∷ h.cdevs }) else none
hold h (cdev_del i) = elim (without i h.cdevs) [
  | none ↦ none
  | some rest ↦ some (record h { cdevs = rest })
]
hold h _ = some h

-- What is held after a trace, the newest call first.
abbrev pub held : List Call → Option Held
held [] = some nothing
held (c ∷ older) = elim (held older) [ none ↦ none | some h ↦ hold h c ]
