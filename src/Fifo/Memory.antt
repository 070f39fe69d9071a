-- ===== src/Fifo/Memory.antt =====
-- The `memcpy` of driver/globalfifo/ch12/globalfifo.c:135, whose source and target overlap.
use training.Base.{
  ℕ, zero, suc, ◌+◌, ◌≤◌, ◌<◌, ◌≡◌, refl, ◌∙◌, inl, inr, List, none, some, arith, ltb, ◌==◌,
  if◌then◌else◌, ◌&&◌, not, Bool-cases, length, get_elem?, set, take, drop, length-set,
  get_elem?-set_self, get_elem?-set_ne, get_elem?-some, get_elem?-take, get_elem?-drop,
  ext_get_elem?,
}
use training.Fifo.{memcpy_down}

abbrev step : ℕ → ℕ → List ℕ → List ℕ
step from i mem = elim (get_elem? mem (from + i)) [ none ↦ mem | some v ↦ set mem i v ]

length-step : (from i : ℕ) (mem : List ℕ) → length (step from i mem) ≡ length mem
length-step from i mem =
    elim (get_elem? mem (from + i))
      as (λ o. length (elim o [ none ↦ mem | some v ↦ set mem i v ]) ≡ length mem) [
        | none ↦ refl
        | some v ↦ length-set mem i v
      ]

-- One round: the byte `i` becomes the byte `from + i`, and no other changes.
get_elem?-step :
    (from i : ℕ) (mem : List ℕ) (j : ℕ)
    → from + i < length mem
    → get_elem? (step from i mem) j ≡ (if i == j then get_elem? mem (from + i) else get_elem? mem j)
get_elem?-step from i mem j h =
    let (v, e) = get_elem?-some mem (from + i) h in
    rw e (elim (Bool-cases (i == j)) [
      | inl same ↦ ground (arith, get_elem?-set_self mem i v)
      | inr other ↦ ground (arith, get_elem?-set_ne mem {i = i} {j = j} v)
    ])

pub length-memcpy_down :
    (from n i : ℕ) (mem : List ℕ) → length (memcpy_down from n i mem) ≡ length mem
unfolding memcpy_down
length-memcpy_down from zero i mem = refl
length-memcpy_down from (suc n) i mem =
    length-memcpy_down from n (i + 1) (step from i mem) ∙ length-step from i mem

-- In rising order no byte is overwritten before it is read.
pub get_elem?-memcpy_down :
    (from n i : ℕ) (mem : List ℕ) (j : ℕ)
    → from + i + n ≤ length mem
    → get_elem? (memcpy_down from n i mem) j
      ≡ (if not (ltb j i) && ltb j (i + n) then get_elem? mem (from + j) else get_elem? mem j)
unfolding memcpy_down
get_elem?-memcpy_down from zero i mem j h = ground arith
get_elem?-memcpy_down from (suc n) i mem j h = ground (
  arith,
  get_elem?-memcpy_down from n (i + 1) (step from i mem) j,
  get_elem?-step from i mem j,
  get_elem?-step from i mem (from + j),
  length-step from i mem,
)

-- What the copy is for: the first `n` bytes are those that stood from `from` on.
pub take-memcpy_down :
    (from n : ℕ) (mem : List ℕ)
    → from + n ≤ length mem
    → take n (memcpy_down from n 0 mem) ≡ take n (drop from mem)
take-memcpy_down from n mem h = ext_get_elem? _ _ λ j. ground (
  arith,
  get_elem?-take n (memcpy_down from n 0 mem) j,
  get_elem?-take n (drop from mem) j,
  get_elem?-drop from mem j,
  get_elem?-memcpy_down from n 0 mem j,
)
