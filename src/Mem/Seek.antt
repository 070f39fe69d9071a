-- ===== src/Mem/Seek.antt =====
-- globalmem_llseek: where a file position may go.
use training.Base.{
  ℕ, ◌+◌, ◌*◌, ◌%◌, ◌^◌, ◌≤◌, ◌<◌, ◌≡◌, refl, ◌⊎◌, inl, inr, arith, ltb, ◌==◌, Bool-cases,
}
use training.Base.Int.{ℤ, pos, negsuc, ◌+ℤ◌, Is64, add64}
use training.Mem.{globalmem_size, at, refused, seek_set, seek_cur, llseek}

-- A position inside the memory or just behind it.
abbrev pub InMemory : ℤ → Type 0
InMemory (pos n) = n ≤ globalmem_size
InMemory (negsuc n) = ⊥

-- Where the true sum of two `long long` values is one, the machine's sum is it.
pub add64-small :
    (p : ℕ) (offset : ℤ)
    → p ≤ globalmem_size
    → Is64 offset
    → InMemory (pos p +ℤ offset)
    → add64 (pos p) offset ≡ pos p +ℤ offset
add64-small p (pos n) h k i = ground arith
add64-small p (negsuc n) h k i = ground arith

add64-range : (a b : ℤ) → Is64 (add64 a b)
add64-range a b = ground arith

-- Where the machine's sum is a position, so is the true sum.
add64-InMemory :
    (p : ℕ) (offset : ℤ)
    → p ≤ globalmem_size
    → Is64 offset
    → InMemory (add64 (pos p) offset)
    → InMemory (pos p +ℤ offset)
add64-InMemory p (pos n) h k i = ground arith
add64-InMemory p (negsuc n) h k i = ground arith

seek_set-InMemory : (offset f_pos : ℤ) → InMemory f_pos → InMemory (seek_set offset f_pos).1
unfolding seek_set
seek_set-InMemory (pos n) f_pos h = elim (Bool-cases (ltb globalmem_size (n % 2 ^ 64 % 2 ^ 32))) [
  | inl far ↦ rw far h
  | inr near ↦ rw near (ground arith)
]
seek_set-InMemory (negsuc n) f_pos h = h

seek_cur_cases :
    (sum f_pos : ℤ)
    → (InMemory sum × (seek_cur sum f_pos ≡ (at sum, sum)))
      ⊎ ((¬ InMemory sum) × (seek_cur sum f_pos ≡ (refused, f_pos)))
unfolding seek_cur
seek_cur_cases (pos n) f_pos = elim (Bool-cases (ltb globalmem_size n)) [
  | inl far ↦ inr (ground arith, rw far)
  | inr near ↦ inl (ground arith, rw near)
]
seek_cur_cases (negsuc n) f_pos = inr ((λ i. i), refl)

seek_cur-InMemory : (sum f_pos : ℤ) → InMemory f_pos → InMemory (seek_cur sum f_pos).1
seek_cur-InMemory sum f_pos h = elim (seek_cur_cases sum f_pos) [
  | inl (i, e) ↦ rw e i
  | inr (i, e) ↦ rw e h
]

-- A position that is in the memory, or just behind it, stays so, whatever the offset and the mode.
pub llseek-InMemory :
    (offset : ℤ) (orig : ℕ) (f_pos : ℤ) → InMemory f_pos → InMemory (llseek offset orig f_pos).1
unfolding llseek
llseek-InMemory offset orig f_pos h = elim (Bool-cases (orig == 0)) [
  | inl set ↦ rw set (seek_set-InMemory offset f_pos h)
  | inr other ↦ rw other (elim (Bool-cases (orig == 1)) [
    | inl cur ↦ rw cur (seek_cur-InMemory (add64 f_pos offset) f_pos h)
    | inr bad ↦ rw bad h
  ])
]

-- From a position in the memory or just behind it, a relative seek goes to the true sum of position and offset if that is in the memory or just
-- behind it, and is refused otherwise; the wrapping sum of the code hides no case.
pub llseek_cur :
    (p : ℕ) (offset : ℤ)
    → p ≤ globalmem_size
    → Is64 offset
    → (InMemory (pos p +ℤ offset)
        × (llseek offset 1 (pos p) ≡ (at (pos p +ℤ offset), pos p +ℤ offset)))
      ⊎ ((¬ InMemory (pos p +ℤ offset)) × (llseek offset 1 (pos p) ≡ (refused, pos p)))
unfolding llseek
llseek_cur p offset h k = elim (seek_cur_cases (add64 (pos p) offset) (pos p)) [
  | inl (i, e) ↦
      let j = add64-InMemory p offset h k i in inl (j, rw (← add64-small p offset h k j) e)
  | inr (i, e) ↦ inr ((λ j. i (rw (add64-small p offset h k j) j)), e)
]

-- An absolute seek reads only the low 32 bits of its offset: whatever multiple of 2^32 is added to a
-- position in the memory, the seek succeeds and goes to that position.
pub llseek_set_truncates :
    (k r : ℕ) (f_pos : ℤ)
    → r ≤ globalmem_size
    → k * 2 ^ 32 + r < 2 ^ 63
    → llseek (pos (k * 2 ^ 32 + r)) 0 f_pos ≡ (at (pos r), pos r)
unfolding llseek seek_set
llseek_set_truncates k r f_pos h fits =
    let e : (k * 2 ^ 32 + r) % 2 ^ 64 % 2 ^ 32 ≡ r = omega arith in rw e (ground arith)
