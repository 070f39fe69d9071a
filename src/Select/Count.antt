-- ===== src/Select/Count.antt =====
-- How many descriptors of a set are ready, counted over the set as `select` does it and over the table
-- of the clients.
use training.Base.{
  ℕ, zero, suc, ◌+◌, ◌*◌, ◌≤◌, ◌<◌, ◌≡◌, refl, sym, ap, ◌∙◌, inl, inr, List, [], ◌∷◌, Bool, true,
  false, none, some, arith, ltb, ◌==◌, if◌then◌else◌, Bool-cases, length,
}
use training.Select.{Slot, fd_setsize, Server, free_slot}
use training.Select.Table.{Holds, IsValid, free_slot_full, free_slot-le}

abbrev pub sum : ℕ → (ℕ → ℕ) → ℕ
sum zero f = 0
sum (suc n) f = sum n f + f n

-- The number of descriptors below FD_SETSIZE that a set holds.
abbrev pub set_num : (ℕ → Bool) → ℕ
set_num fds = sum fd_setsize (λ x. if fds x then 1 else 0)

sum-ext : (n : ℕ) (f g : ℕ → ℕ) → ((x : ℕ) → x < n → f x ≡ g x) → sum n f ≡ sum n g
sum-ext zero f g h = refl
sum-ext (suc n) f g h = omega (arith, sum-ext n f g (λ x lt. h x (omega arith)), h n (omega arith))

sum_mono : (n : ℕ) (f g : ℕ → ℕ) → ((x : ℕ) → x < n → f x ≤ g x) → sum n f ≤ sum n g
sum_mono zero f g h = omega arith
sum_mono (suc n) f g h =
    omega (arith, sum_mono n f g (λ x lt. h x (omega arith)), h n (omega arith))

sum_add : (n : ℕ) (f g : ℕ → ℕ) → sum n (λ x. f x + g x) ≡ sum n f + sum n g
sum_add zero f g = refl
sum_add (suc n) f g = omega (arith, sum_add n f g)

sum_zero : (n : ℕ) (f : ℕ → ℕ) → ((x : ℕ) → x < n → f x ≡ 0) → sum n f ≡ 0
sum_zero zero f h = refl
sum_zero (suc n) f h = omega (arith, sum_zero n f (λ x lt. h x (omega arith)), h n (omega arith))

sum_single : (n fd : ℕ) (w : ℕ → ℕ) → fd < n → sum n (λ x. if x == fd then w x else 0) ≡ w fd
sum_single zero fd w h = absurd (omega arith)
sum_single (suc n) fd w h = elim (Bool-cases (n == fd)) [
  | inl e ↦
      let none_before = sum_zero n (λ x. if x == fd then w x else 0) (λ x lt. ground arith) in
      ground arith
  | inr e ↦ let before = sum_single n fd w (ground arith) in ground arith
]

-- In how many entries a descriptor stands.
abbrev hits : List Slot → ℕ → ℕ
hits [] x = 0
hits (none ∷ rest) x = hits rest x
hits (some fd ∷ rest) x = (if x == fd then 1 else 0) + hits rest x

abbrev pub weight : (ℕ → ℕ) → List Slot → ℕ
weight w [] = 0
weight w (none ∷ rest) = weight w rest
weight w (some fd ∷ rest) = w fd + weight w rest

hits_none : (l : List Slot) (x : ℕ) → ((i : ℕ) → ¬ Holds l i x) → hits l x ≡ 0
hits_none [] x h = refl
hits_none (none ∷ rest) x h = hits_none rest x (λ i. h (suc i))
hits_none (some fd ∷ rest) x h =
    let later = hits_none rest x (λ i. h (suc i)) in
    elim (Bool-cases (x == fd)) [
      | inl e ↦ let same : fd ≡ x = ground arith in absurd (h 0 (rw same refl))
      | inr e ↦ ground arith
    ]

hits_some : (l : List Slot) (x i : ℕ) → Holds l i x → 1 ≤ hits l x
hits_some [] x i h = cc
hits_some (none ∷ rest) x zero h = cc
hits_some (none ∷ rest) x (suc i) h = hits_some rest x i h
hits_some (some fd ∷ rest) x zero h = ground arith
hits_some (some fd ∷ rest) x (suc i) h = ground (arith, hits_some rest x i h)

abbrev Distinct : List Slot → Type 0
Distinct l = (i j fd : ℕ) → Holds l i fd → Holds l j fd → i ≡ j

hits-Distinct : (l : List Slot) (x : ℕ) → Distinct l → hits l x ≤ 1
hits-Distinct [] x d = omega arith
hits-Distinct (none ∷ rest) x d =
    hits-Distinct rest x (λ i j fd h g. omega (arith, d (suc i) (suc j) fd h g))
hits-Distinct (some fd ∷ rest) x d =
    let later = hits-Distinct rest x (λ i j y h g. omega (arith, d (suc i) (suc j) y h g)) in
    elim (Bool-cases (x == fd)) [
      | inl e ↦
          let same : fd ≡ x = ground arith in
          let gone = hits_none rest x (λ i h. omega (arith, d 0 (suc i) x (rw same refl) h)) in
          ground arith
      | inr e ↦ ground arith
    ]

-- A weight over the table is one over the descriptors.
weight-sum :
    (w : ℕ → ℕ) (l : List Slot) (n : ℕ)
    → ((i fd : ℕ) → Holds l i fd → fd < n)
    → weight w l ≡ sum n (λ x. w x * hits l x)
weight-sum w [] n h = sym (sum_zero n (λ x. w x * 0) (λ x lt. omega arith))
weight-sum w (none ∷ rest) n h = weight-sum w rest n (λ i. h (suc i))
weight-sum w (some fd ∷ rest) n h =
    let later = weight-sum w rest n (λ i. h (suc i)) in
    let here = sum_single n fd w (h 0 fd refl) in
    let both = sum_add n (λ x. if x == fd then w x else 0) (λ x. w x * hits rest x) in
    let split =
      sum-ext n (λ x. w x * ((if x == fd then 1 else 0) + hits rest x))
        (λ x. (if x == fd then w x else 0) + w x * hits rest x) (λ x lt. ground arith) in
    omega (arith, later, here, both, split)

-- A client stands in one entry, and the listening descriptor in none.
hits_of :
    (s : Server) (fds : ℕ → Bool) (x : ℕ)
    → IsValid s
    → ((fd : ℕ) → fds fd ≡ true → s.allset fd ≡ true)
    → fds x ≡ true
    → (x == s.listenfd) ≡ false
    → hits s.client x ≡ 1
hits_of s fds x v sub e ne = elim (v.listed x (sub x e)) [
  | inl is ↦ absurd (ground arith)
  | inr (i, h) ↦ omega (arith, hits_some s.client x i h, hits-Distinct s.client x v.distinct)
]

set_num_of :
    (s : Server) (fds : ℕ → Bool) (x : ℕ)
    → IsValid s
    → ((fd : ℕ) → fds fd ≡ true → s.allset fd ≡ true)
    → (if fds x then 1 else 0)
      ≡ (if x == s.listenfd then (if fds x then 1 else 0) else 0)
        + (if fds x then 1 else 0) * hits s.client x
set_num_of s fds x v sub = elim (Bool-cases (fds x)) [
  | inr e ↦ rw e (ground arith)
  | inl e ↦ elim (Bool-cases (x == s.listenfd)) [
    | inl eq ↦
        let same : s.listenfd ≡ x = ground arith in
        let gone = hits_none s.client s.listenfd v.apart in
        rw (e, eq) (omega (arith, ap (hits s.client) same))
    | inr ne ↦ let one = hits_of s fds x v sub e ne in rw (e, ne) (omega arith)
  ]
]

sum_const : (n : ℕ) → sum n (λ x. 1) ≡ n
sum_const zero = refl
sum_const (suc n) = omega (arith, sum_const n)

one_each :
    (s : Server) (x : ℕ) → IsValid s → (if x == s.listenfd then 1 else 0) + 1 * hits s.client x ≤ 1
one_each s x v = elim (Bool-cases (x == s.listenfd)) [
  | inl eq ↦
      let same : s.listenfd ≡ x = ground arith in
      let gone = hits_none s.client s.listenfd v.apart in
      rw eq (omega (arith, ap (hits s.client) same))
  | inr ne ↦ rw ne (omega (arith, hits-Distinct s.client x v.distinct))
]

less : {a b c d e n : ℕ} → a ≤ e → a ≡ b + c → b ≡ 1 → d ≡ c → e ≡ n → d < n
less f p h c t = omega arith

-- The members of a set of descriptors that holds the listening one and clients are counted by entry.
pub set_num_lem :
    (s : Server) (fds : ℕ → Bool)
    → IsValid s
    → ((fd : ℕ) → fds fd ≡ true → s.allset fd ≡ true)
    → set_num fds
      ≡ (if fds s.listenfd then 1 else 0) + weight (λ x. if fds x then 1 else 0) s.client
set_num_lem s fds v sub =
    let w : ℕ → ℕ = λ x. if fds x then 1 else 0 in
    let mine : ℕ → ℕ = λ x. if x == s.listenfd then w x else 0 in
    let theirs : ℕ → ℕ = λ x. w x * hits s.client x in
    sum-ext fd_setsize w (λ x. mine x + theirs x) (λ x lt. set_num_of s fds x v sub)
    ∙ sum_add fd_setsize mine theirs
    ∙ ap (λ a. a + sum fd_setsize theirs)
        (sum_single fd_setsize s.listenfd w (v.highest s.listenfd v.listening).1)
    ∙ ap (λ a. w s.listenfd + a)
        (sym (weight-sum w s.client fd_setsize (λ i fd h. (v.highest fd (v.watched i fd h)).1)))

weight_full :
    (l : List Slot)
    → ((i : ℕ) → i < length l → (fd : ℕ) × Holds l i fd)
    → weight (λ x. 1) l ≡ length l
weight_full [] h = refl
weight_full (none ∷ rest) h = let first = h 0 (omega arith) in let e = first.1 in cc
weight_full (some fd ∷ rest) h = omega (arith, weight_full rest (λ i lt. h (suc i) (omega arith)))

-- There are fewer descriptors for clients than FD_SETSIZE.
weight_lt : (s : Server) → IsValid s → weight (λ x. 1) s.client < fd_setsize
weight_lt s v =
    let one : ℕ → ℕ = λ x. 1 in
    let mine : ℕ → ℕ = λ x. if x == s.listenfd then one x else 0 in
    let theirs : ℕ → ℕ = λ x. one x * hits s.client x in
    let total = sum_const fd_setsize in
    let fewer = sum_mono fd_setsize (λ x. mine x + theirs x) one (λ x lt. one_each s x v) in
    let parts = sum_add fd_setsize mine theirs in
    let here = sum_single fd_setsize s.listenfd one (v.highest s.listenfd v.listening).1 in
    let clients =
      weight-sum one s.client fd_setsize (λ i fd h. (v.highest fd (v.watched i fd h)).1) in
    less fewer parts here clients total

-- The table is never full: there are fewer descriptors for clients than entries.
pub room : (s : Server) → IsValid s → free_slot s.client < fd_setsize
room s v = elim (Bool-cases (ltb (free_slot s.client) fd_setsize)) [
  | inl e ↦ ground arith
  | inr e ↦
      let full : free_slot s.client ≡ length s.client =
        ground (arith, free_slot-le s.client, v.size) in
      let all = weight_full s.client (free_slot_full s.client full) in
      absurd (omega (arith, all, weight_lt s v, v.size))
]
