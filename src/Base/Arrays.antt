-- ===== src/Base/Arrays.antt =====
-- Writes to C arrays: memcpy into a list, and the change of one element.
use Prim.Native.Nat.{ℕ, zero, suc, ◌+◌, ◌-◌, ◌≤◌, ◌<◌}
use mathlib.Core.Path.{◌≡◌, refl, ap, ◌∙◌}
use mathlib.Core.Logic.{◌≢◌, ◌⊎◌, inl, inr}
use mathlib.Core.List.{List, [], ◌∷◌, ◌++◌}
use mathlib.Core.Option
use mathlib.Core.Option.{Option, none, some}
use training.Base.Tests.{ltb, if◌then◌else◌}
use native.Mathlib.Omega.{arith}
use training.Base.Lists.{
  drop, drop-append_left, get_elem?, length, length-append, length-drop, length-take, take,
  take-append-drop, take-append_left,
}

-- `memcpy(array + at, src, length src)`: the bytes from `at` on are replaced by those of `src`.
abbrev pub write_at : ℕ → List ℕ → List ℕ → List ℕ
write_at at src array = take at array ++ (src ++ drop (at + length src) array)

pub length-write_at :
    (at : ℕ) (src array : List ℕ)
    → at + length src ≤ length array
    → length (write_at at src array) ≡ length array
length-write_at at src array h = omega (
  arith,
  length-append (take at array) (src ++ drop (at + length src) array),
  length-append src (drop (at + length src) array),
  length-take at array,
  length-drop (at + length src) array,
)

-- Reading back what was written.
pub take-drop-write_at :
    (at n : ℕ) (src array : List ℕ)
    → at ≤ length array
    → length src ≡ n
    → take n (drop at (write_at at src array)) ≡ src
take-drop-write_at at n src array h e =
    rw
      (drop-append_left (take at array) (src ++ drop (at + length src) array) at
        (omega (arith, length-take at array)))
      (take-append_left src (drop (at + length src) array) n e)

-- The bytes before the written ones stay.
pub take-write_at :
    (at : ℕ) (src array : List ℕ)
    → at ≤ length array
    → take at (write_at at src array) ≡ take at array
take-write_at at src array h =
    take-append_left (take at array) (src ++ drop (at + length src) array) at
      (omega (arith, length-take at array))

module _ {ℓ} {A : Type ℓ} where
  -- Two lists with the same elements at each index are one.
  pub ext_get_elem? : (xs ys : List A) → ((j : ℕ) → get_elem? xs j ≡ get_elem? ys j) → xs ≡ ys
  ext_get_elem? [] [] h = refl
  ext_get_elem? [] (y ∷ ys) h = let e = h 0 in cc
  ext_get_elem? (x ∷ xs) [] h = let e = h 0 in cc
  ext_get_elem? (x ∷ xs) (y ∷ ys) h =
      let e = h 0 in let rest = ext_get_elem? xs ys (λ j. h (suc j)) in cc

  pub get_elem?-take :
      (n : ℕ) (xs : List A) (j : ℕ)
      → get_elem? (take n xs) j ≡ (if ltb j n then get_elem? xs j else none)
  get_elem?-take zero xs zero = ground arith
  get_elem?-take zero xs (suc j) = ground arith
  get_elem?-take (suc n) [] j = ground arith
  get_elem?-take (suc n) (x ∷ xs) zero = ground arith
  get_elem?-take (suc n) (x ∷ xs) (suc j) = ground (arith, get_elem?-take n xs j)

  pub get_elem?-drop :
      (n : ℕ) (xs : List A) (j : ℕ) → get_elem? (drop n xs) j ≡ get_elem? xs (n + j)
  get_elem?-drop zero xs j = let e : j ≡ 0 + j = omega arith in ap (get_elem? xs) e
  get_elem?-drop (suc n) [] j = refl
  get_elem?-drop (suc n) (x ∷ xs) j =
      let e : suc (n + j) ≡ suc n + j = omega arith in
      get_elem?-drop n xs j ∙ ap (get_elem? (x ∷ xs)) e

  pub get_elem?-some : (xs : List A) (i : ℕ) → i < length xs → (v : A) × (get_elem? xs i ≡ some v)
  get_elem?-some [] i h = elim h [ ]
  get_elem?-some (x ∷ xs) zero h = (x, refl)
  get_elem?-some (x ∷ xs) (suc i) h = get_elem?-some xs i (omega arith)

  pub get_elem?-none : (xs : List A) (i : ℕ) → length xs ≤ i → get_elem? xs i ≡ none
  get_elem?-none [] i h = refl
  get_elem?-none (x ∷ xs) zero h = absurd (omega arith)
  get_elem?-none (x ∷ xs) (suc i) h = get_elem?-none xs i (omega arith)

module _ {ℓ} {A : Type ℓ} where
  pub get_elem?-append :
      (xs ys : List A) (j : ℕ)
      → get_elem? (xs ++ ys) j
        ≡ (if ltb j (length xs) then get_elem? xs j else get_elem? ys (j - length xs))
  get_elem?-append [] ys j = ground arith
  get_elem?-append (x ∷ xs) ys zero = ground arith
  get_elem?-append (x ∷ xs) ys (suc j) = ground (arith, get_elem?-append xs ys j)

-- The bytes outside the written range stay.
pub get_elem?-write_at :
    (at : ℕ) (src array : List ℕ) (j : ℕ)
    → at + length src ≤ length array
    → ((j < at) ⊎ (at + length src ≤ j))
    → get_elem? (write_at at src array) j ≡ get_elem? array j
get_elem?-write_at at src array j h (inl before) = ground (
  arith,
  get_elem?-append (take at array) (src ++ drop (at + length src) array) j,
  length-take at array,
  get_elem?-take at array j,
)
get_elem?-write_at at src array j h (inr after) =
    let e : at + length src + (j - at - length src) ≡ j = omega arith in
    ground (
      arith,
      get_elem?-append (take at array) (src ++ drop (at + length src) array) j,
      length-take at array,
      get_elem?-append src (drop (at + length src) array) (j - at),
      get_elem?-drop (at + length src) array (j - at - length src),
      e,
    )

module _ {ℓ} {A : Type ℓ} where
  -- `array[i].field = …`; out of range nothing changes.
  unfoldable pub modify : ℕ → (A → A) → List A → List A
  modify i f [] = []
  modify zero f (x ∷ xs) = f x ∷ xs
  modify (suc i) f (x ∷ xs) = x ∷ modify i f xs

  pub length-modify : (i : ℕ) (f : A → A) (xs : List A) → length (modify i f xs) ≡ length xs
  unfolding modify
  length-modify i f [] = refl
  length-modify zero f (x ∷ xs) = refl
  length-modify (suc i) f (x ∷ xs) = ap suc (length-modify i f xs)

  pub get_elem?-modify_self :
      (i : ℕ) (f : A → A) (xs : List A) {x : A}
      → get_elem? xs i ≡ some x
      → get_elem? (modify i f xs) i ≡ some (f x)
  unfolding modify
  get_elem?-modify_self i f [] e = cc
  get_elem?-modify_self zero f (x ∷ xs) e = ap (λ o. Option.map f o) e
  get_elem?-modify_self (suc i) f (x ∷ xs) e = get_elem?-modify_self i f xs e

  pub get_elem?-modify_ne :
      (i j : ℕ) (f : A → A) (xs : List A) → i ≢ j → get_elem? (modify i f xs) j ≡ get_elem? xs j
  unfolding modify
  get_elem?-modify_ne i j f [] h = refl
  get_elem?-modify_ne zero zero f (x ∷ xs) h = absurd (h refl)
  get_elem?-modify_ne zero (suc j) f (x ∷ xs) h = refl
  get_elem?-modify_ne (suc i) zero f (x ∷ xs) h = refl
  get_elem?-modify_ne (suc i) (suc j) f (x ∷ xs) h =
      get_elem?-modify_ne i j f xs (λ e. h (ap suc e))

-- Every byte of an array that was written to.
pub get_elem?-write_at_if :
    (at : ℕ) (src array : List ℕ) (j : ℕ)
    → at + length src ≤ length array
    → get_elem? (write_at at src array) j ≡ (
        if ltb j at
        then get_elem? array j
        else if ltb j (at + length src)
        then get_elem? src (j - at)
        else get_elem? array j)
get_elem?-write_at_if at src array j h =
    let e : length src ≤ j - at → at ≤ j → at + length src + (j - at - length src) ≡ j =
      λ p q. omega arith in
    ground (
      arith,
      get_elem?-append (take at array) (src ++ drop (at + length src) array) j,
      length-take at array,
      get_elem?-take at array j,
      get_elem?-append src (drop (at + length src) array) (j - at),
      get_elem?-drop (at + length src) array (j - at - length src),
      e,
    )

-- Two writes one behind the other are one.
pub write_at-write_at :
    (at : ℕ) (xs ys array : List ℕ)
    → at + length xs + length ys ≤ length array
    → write_at (at + length xs) ys (write_at at xs array) ≡ write_at at (xs ++ ys) array
write_at-write_at at xs ys array h = ext_get_elem? _ _ λ j. ground (
  arith,
  get_elem?-write_at_if (at + length xs) ys (write_at at xs array) j,
  length-write_at at xs array,
  get_elem?-write_at_if at xs array j,
  get_elem?-write_at_if at (xs ++ ys) array j,
  length-append xs ys,
  get_elem?-append xs ys (j - at),
)

pub write_at-nil : (at : ℕ) (array : List ℕ) → write_at at [] array ≡ array
write_at-nil at array =
    let e : at + 0 ≡ at = omega arith in
    ap (λ k. take at array ++ drop k array) e ∙ take-append-drop at array
