-- ===== src/Pool/Calls/Exclusive.antt =====
-- What the small steps of the submitters keep: a slot belongs to one submitter from the mark to the
-- signal.
use training.Base.{
  ℕ, ◌≤◌, ◌<◌, ◌≡◌, sym, ap, ◌∙◌, ◌≢◌, ◌⊎◌, inl, inr, Bool, true, false, Option, none, some, arith,
  ◌==◌, Bool-cases,
}
use training.Pool.Calls.{
  Place, scanning, locked, claimed, leaving, growing, marked, filling, worked, filled, refused,
  done, Shared, put,
}

module _ (worker job : ℕ → ℕ) where
  -- What holds of a submitter by its place, as long as none has found the pool full; `owner` says to whom each slot belongs.
  abbrev pub HoldsPool : Shared → (t : ℕ) → Bool → Type 0
  HoldsPool s t true = s.tp_lock ≡ some t
  HoldsPool s t false = Unit {0}

  abbrev pub Fits : Shared → (ℕ → Option ℕ) → (t : ℕ) → Place → Type 0
  Fits s owner t (scanning i) = Unit {0}
  Fits s owner t (locked i) = (s.thread_lock i ≡ some t) × (i < s.cur_th_num)
  Fits s owner t (claimed i) = (s.thread_lock i ≡ some t) × (owner i ≡ some t) × (i < s.cur_th_num)
  Fits s owner t (marked i) = (s.tp_lock ≡ some t) × (owner i ≡ some t) × (i ≡ s.cur_th_num)
  Fits s owner t (filling i pool) = HoldsPool s t pool × (owner i ≡ some t) × (i < s.cur_th_num)
  Fits s owner t (worked i pool) =
      HoldsPool s t pool × (owner i ≡ some t) × (i < s.cur_th_num) × (s.th_work i ≡ some (worker t))
  Fits s owner t (filled i pool) =
      HoldsPool s t pool
      × (owner i ≡ some t)
      × (i < s.cur_th_num)
      × (s.th_work i ≡ some (worker t))
      × (s.th_job i ≡ some (job t))
  Fits s owner t (leaving i) = Unit {0}
  Fits s owner t (growing i) = s.tp_lock ≡ some t
  Fits s owner t (refused i pool) = ⊥
  Fits s owner t done = Unit {0}

  pub HoldsPool-same :
      (t : ℕ) (s s' : Shared)
      → s'.tp_lock ≡ s.tp_lock
      → (pool : Bool) → HoldsPool s t pool
      → HoldsPool s' t pool
  HoldsPool-same t s s' e true h = e ∙ h
  HoldsPool-same t s s' e false h = tt

  pub record Exclusive (s : Shared) : Type 0 where
    pub owner : ℕ → Option ℕ
    pub fits : (t : ℕ) → Fits s owner t (s.place t)
    pub taken : (i t : ℕ) → owner i ≡ some t → s.is_busy i ≡ true
    pub bounded : (i t : ℕ) → owner i ≡ some t → (i < s.cur_th_num) ⊎ (s.place t ≡ marked i)
    -- A worker works on the pair of the submitter that signalled it, and nobody owns its slot.
    pub runs :
        (i t : ℕ)
        → s.running i ≡ some t
        → (owner i ≡ none)
          × (s.is_busy i ≡ true)
          × (i < s.cur_th_num)
          × (s.th_work i ≡ some (worker t))
          × (s.th_job i ≡ some (job t))

  -- What a step may do as far as the submitter `u` is concerned.
  pub record Respects (s s' : Shared) (owner owner' : ℕ → Option ℕ) (u : ℕ) : Type 0 where
    pub owns : (i : ℕ) → owner i ≡ some u → owner' i ≡ some u
    pub locks : (i : ℕ) → s.thread_lock i ≡ some u → s'.thread_lock i ≡ some u
    pub pool : s.tp_lock ≡ some u → (s'.tp_lock ≡ some u) × (s'.cur_th_num ≡ s.cur_th_num)
    pub grows : s.cur_th_num ≤ s'.cur_th_num
    pub work : (i : ℕ) → owner i ≡ some u → s'.th_work i ≡ s.th_work i
    pub job_kept : (i : ℕ) → owner i ≡ some u → s'.th_job i ≡ s.th_job i

  module _ {s s' : Shared} {owner owner' : ℕ → Option ℕ} {u : ℕ}
      (r : Respects s s' owner owner' u) where
    HoldsPool-Respects : (pool : Bool) → HoldsPool s u pool → HoldsPool s' u pool
    HoldsPool-Respects true h = (r.pool h).0
    HoldsPool-Respects false h = tt

    Fits-Respects : (p : Place) → Fits s owner u p → Fits s' owner' u p
    Fits-Respects (scanning i) h = tt
    Fits-Respects (locked i) (l, lt) = (r.locks i l, omega (arith, r.grows))
    Fits-Respects (claimed i) (l, o, lt) = (r.locks i l, r.owns i o, omega (arith, r.grows))
    Fits-Respects (marked i) (l, o, e) = ((r.pool l).0, r.owns i o, e ∙ sym (r.pool l).1)
    Fits-Respects (filling i pool) (l, o, lt) =
        (HoldsPool-Respects pool l, r.owns i o, omega (arith, r.grows))
    Fits-Respects (worked i pool) (l, o, lt, w) =
        (HoldsPool-Respects pool l, r.owns i o, omega (arith, r.grows), r.work i o ∙ w)
    Fits-Respects (filled i pool) (l, o, lt, w, j) = (
      HoldsPool-Respects pool l,
      r.owns i o,
      omega (arith, r.grows),
      r.work i o ∙ w,
      r.job_kept i o ∙ j,
    )
    Fits-Respects (leaving i) h = tt
    Fits-Respects (growing i) h = (r.pool h).0
    Fits-Respects (refused i pool) h = absurd h
    Fits-Respects done h = tt

  -- The submitter `t` goes to the place `p`, and the step respects the others.
  pub put-Fits :
      (s s' : Shared) (owner owner' : ℕ → Option ℕ) (t : ℕ) (p : Place)
      → ((u : ℕ) → Fits s owner u (s.place u))
      → Fits s' owner' t p
      → ((u : ℕ) → u ≢ t → Respects s s' owner owner' u)
      → (u : ℕ) → Fits s' owner' u (put t p s.place u)
  put-Fits s s' owner owner' t p old new others u = elim (Bool-cases (u == t)) [
    | inl same ↦ let at : u ≡ t = ground arith in rw (same, at) new
    | inr other ↦ rw other (Fits-Respects (others u (λ eq. ground arith)) (s.place u) (old u))
  ]

  -- What is known of a submitter at a place.
  pub fit : {s : Shared} (x : Exclusive s) (t : ℕ) (p : Place) → s.place t ≡ p → Fits s x.owner t p
  fit {s} x t p e = let h = x.fits t in rw e at h

  -- A step from a place where no slot is marked.
  pub bounded_keep :
      {s : Shared} (x : Exclusive s) (t : ℕ) (p : Place) {q : Place}
      → s.place t ≡ q
      → ((k : ℕ) → q ≢ marked k)
      → (k u : ℕ) → x.owner k ≡ some u
      → (k < s.cur_th_num) ⊎ (put t p s.place u ≡ marked k)
  bounded_keep {s} x t p at unmarked k u e = elim (x.bounded k u e) [
    | inl lt ↦ inl lt
    | inr m ↦ elim (Bool-cases (u == t)) [
      | inl same ↦
          let here : u ≡ t = ground arith in
          absurd (unmarked k (sym at ∙ ap s.place (sym here) ∙ m))
      | inr other ↦ inr (rw other m)
    ]
  ]

-- A lock that is free, or another's, is not one's own.
pub none-some : {o : Option ℕ} {u : ℕ} → o ≡ none → o ≢ some u
none-some e f = cc

pub some-other : {o : Option ℕ} {t u : ℕ} → o ≡ some t → u ≢ t → o ≢ some u
some-other e ne f = ne (let same = sym e ∙ f in cc)

-- A function that is changed at one place.
module _ {ℓ} {A : Type ℓ} (k : ℕ) (a : A) (f : ℕ → A) where
  pub put_self : put k a f k ≡ a
  put_self = ground arith

  pub put_keeps : {y : A} (j : ℕ) → f j ≡ y → f k ≢ y → put k a f j ≡ y
  put_keeps j e ne = elim (Bool-cases (j == k)) [
    | inl same ↦ let at : j ≡ k = ground arith in absurd (ne (sym (ap f at) ∙ e))
    | inr other ↦ rw other e
  ]
