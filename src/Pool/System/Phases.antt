-- ===== src/Pool/System/Phases.antt =====
-- What the changes of the phases leave.
use training.Base.{
  ℕ, ◌≤◌, ◌≡◌, refl, sym, ◌≢◌, ◌⊎◌, inl, inr, Bool, true, false, Option, none, some, arith, ltb,
  ◌==◌, Bool-cases,
}
use training.Pool.System.{Phase, gone, looping, waiting, woken, working, put, wake, start, cut}

pub put_self : (k : ℕ) (a : Phase) (f : ℕ → Phase) → put k a f k ≡ a
put_self k a f = let e : (k == k) ≡ true = ground arith in rw e

pub put_other : (k j : ℕ) (a : Phase) (f : ℕ → Phase) → j ≢ k → put k a f j ≡ f j
put_other k j a f h = let e : (j == k) ≡ false = ground arith in rw e

-- A phase that `put` did not put was there.
pub put_old :
    (k j : ℕ) (a b : Phase) (f : ℕ → Phase) → put k a f j ≡ b → a ≢ b → (f j ≡ b) × (j ≢ k)
put_old k j a b f h ne = elim (Bool-cases (j == k)) [
  | inl e ↦ let same : a ≡ b = rw e at h in absurd (ne same)
  | inr e ↦ (rw e at h, λ eq. ground arith)
]

-- A wake changes only a waiting worker.
pub wake_cases :
    (k : ℕ) (f : ℕ → Phase)
    → ((f k ≡ waiting) × ((j : ℕ) → wake k f j ≡ put k woken f j)) ⊎ ((j : ℕ) → wake k f j ≡ f j)
wake_cases k f = go (f k) refl
  where
    go :
        (a : Phase)
        → f k ≡ a
        → ((f k ≡ waiting) × ((j : ℕ) → wake k f j ≡ put k woken f j))
          ⊎ ((j : ℕ) → wake k f j ≡ f j)
    go waiting e = inl (e, λ j. rw (e, wake) refl)
    go gone e = inr (λ j. rw (e, wake) refl)
    go looping e = inr (λ j. rw (e, wake) refl)
    go woken e = inr (λ j. rw (e, wake) refl)
    go (working w b) e = inr (λ j. rw (e, wake) refl)

-- A start changes only the phase of the new thread.
pub start_cases :
    (k : ℕ) (grown : Bool) (made : Option ℕ) (f : ℕ → Phase) (j : ℕ)
    → (start k grown made f j ≡ f j)
      ⊎ ((start k grown made f j ≡ looping) × (j ≡ k) × (grown ≡ true))
start_cases k false made f j = inl refl
start_cases k true none f j = inl refl
start_cases k true (some tid) f j = elim (Bool-cases (j == k)) [
  | inl e ↦ inr (rw e refl, ground arith, refl)
  | inr e ↦ inl (rw e refl)
]

pub cut_old : (used j : ℕ) (f : ℕ → Phase) (b : Phase) → cut used f j ≡ b → b ≢ gone → f j ≡ b
cut_old used j f b h ne = elim (Bool-cases (ltb j used)) [
  | inl e ↦ rw e at h
  | inr e ↦ let no : gone ≡ b = rw e at h in absurd (ne (sym no))
]

pub cut_gone : (used j : ℕ) (f : ℕ → Phase) → used ≤ j → cut used f j ≡ gone
cut_gone used j f h = let e : ltb j used ≡ false = ground arith in rw e
