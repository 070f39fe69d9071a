-- ===== src/Proc/Decimal.antt =====
-- Decimal digits, as the kernel prints and parses them.
use training.Base.{
  ℕ, ◌^◌, ◌<◌, ◌+◌, ◌-◌, ◌*◌, ◌≡◌, refl, List, [], ◌∷◌, ◌++◌, Bool, true, false, ◌&&◌, ltb,
}

abbrev pub is_digit : ℕ → Bool
is_digit c = ltb 47 c && ltb c 58

abbrev pub Digits : List ℕ → Type 0
Digits [] = Unit {0}
Digits (c ∷ rest) = (is_digit c ≡ true) × Digits rest

abbrev pub value_from : ℕ → List ℕ → ℕ
value_from n [] = n
value_from n (c ∷ rest) = value_from (n * 10 + (c - 48)) rest

-- The number that digits stand for.
abbrev pub value : List ℕ → ℕ
value = value_from 0

-- What `%u` is relied on for, and `simple_strtoul`, on numbers that an `unsigned int` holds, and so an
-- `unsigned long` too: the one prints digits of the number, the other gives the number of the digits that
-- the memory begins with. Of larger numbers nothing is said.
pub record Decimal (print_u : ℕ → List ℕ) (simple_strtoul : List ℕ → ℕ) : Type 0 where
  pub prints : (n : ℕ) → n < 2 ^ 32 → Digits (print_u n) × (value (print_u n) ≡ n)
  pub parses :
      (ds : List ℕ) (c : ℕ) (rest : List ℕ)
      → Digits ds
      → is_digit c ≡ false
      → value ds < 2 ^ 32
      → simple_strtoul (ds ++ c ∷ rest) ≡ value ds

pub Digits-append : (xs ys : List ℕ) → Digits xs → Digits ys → Digits (xs ++ ys)
Digits-append [] ys h g = g
Digits-append (c ∷ rest) ys (d, h) g = (d, Digits-append rest ys h g)

value_from-append :
    (n : ℕ) (xs : List ℕ) (c : ℕ) → value_from n (xs ++ c ∷ []) ≡ value_from n xs * 10 + (c - 48)
value_from-append n [] c = refl
value_from-append n (x ∷ rest) c = value_from-append (n * 10 + (x - 48)) rest c

pub value-append : (xs : List ℕ) (c : ℕ) → value (xs ++ c ∷ []) ≡ value xs * 10 + (c - 48)
value-append xs c = value_from-append 0 xs c
