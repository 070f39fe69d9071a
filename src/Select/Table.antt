-- ===== src/Select/Table.antt =====
-- What the variables of the select server keep true, and what select and accept are relied on for.
use training.Base.{
  ℕ, zero, suc, ◌≤◌, ◌<◌, ◌≡◌, refl, ◌≢◌, sym, ap, ◌∙◌, ◌⊎◌, inl, inr, List, [], ◌∷◌, true, false,
  none, some, arith, ◌==◌, Bool-cases, length, get_elem?, set, length-set, get_elem?-set_self,
  get_elem?-set_ne, length-replicate, replicate,
}
use training.Select.{Slot, Server, fd_setsize, start, free_slot, admit}

-- Entry `i` of the table is the client `fd`.
abbrev pub Holds : List Slot → (i fd : ℕ) → Type 0
Holds client i fd = get_elem? client i ≡ some (some fd)

pub record IsValid (s : Server) : Type 0 where
  pub size : length s.client ≡ fd_setsize
  pub bound : s.used ≤ fd_setsize
  -- `maxi` is not below any client.
  pub within : (i fd : ℕ) → Holds s.client i fd → i < s.used
  pub distinct : (i j fd : ℕ) → Holds s.client i fd → Holds s.client j fd → i ≡ j
  -- The set holds the listening descriptor and the clients, and nothing else.
  pub listening : s.allset s.listenfd ≡ true
  pub watched : (i fd : ℕ) → Holds s.client i fd → s.allset fd ≡ true
  pub listed : (fd : ℕ) → s.allset fd ≡ true → (fd ≡ s.listenfd) ⊎ ((i : ℕ) × Holds s.client i fd)
  pub apart : (i : ℕ) → ¬ Holds s.client i s.listenfd
  -- `select(maxfd + 1, …)` looks at all of it.
  pub highest : (fd : ℕ) → s.allset fd ≡ true → (fd ≤ s.maxfd) × (fd < fd_setsize)

Holds-start : (n i fd : ℕ) → ¬ Holds (replicate n none) i fd
Holds-start zero i fd h = cc
Holds-start (suc n) zero fd h = cc
Holds-start (suc n) (suc i) fd h = Holds-start n i fd h

-- The server starts with an empty table.
pub start-IsValid : (listenfd : ℕ) → listenfd < fd_setsize → IsValid (start listenfd)
unfolding start
start-IsValid listenfd h = record {
  size = length-replicate {A = Slot} fd_setsize none;
  bound = omega arith;
  within = λ i fd e. absurd (Holds-start fd_setsize i fd e);
  distinct = λ i j fd e f. absurd (Holds-start fd_setsize i fd e);
  listening = ground arith;
  watched = λ i fd e. absurd (Holds-start fd_setsize i fd e);
  listed = λ fd e. inl (ground arith);
  apart = λ i e. Holds-start fd_setsize i listenfd e;
  highest = λ fd e. ground arith;
}

-- The entry that a new client gets is free.
pub free_slot_free :
    (client : List Slot)
    → free_slot client < length client
    → get_elem? client (free_slot client) ≡ some none
unfolding free_slot
free_slot_free [] h = absurd (omega arith)
free_slot_free (none ∷ rest) h = refl
free_slot_free (some fd ∷ rest) h = free_slot_free rest (omega arith)

-- Where there is none, every entry is a client.
pub free_slot_full :
    (client : List Slot)
    → free_slot client ≡ length client
    → (i : ℕ) → i < length client
    → (fd : ℕ) × Holds client i fd
unfolding free_slot
free_slot_full [] h i lt = absurd (omega arith)
free_slot_full (none ∷ rest) h i lt = absurd (omega arith)
free_slot_full (some fd ∷ rest) h zero lt = (fd, refl)
free_slot_full (some fd ∷ rest) h (suc i) lt = free_slot_full rest (omega arith) i (omega arith)

pub free_slot-le : (client : List Slot) → free_slot client ≤ length client
unfolding free_slot
free_slot-le [] = omega arith
free_slot-le (none ∷ rest) = omega arith
free_slot-le (some fd ∷ rest) = omega (arith, free_slot-le rest)

-- Who is in the table after an entry was given to a client.
Holds-set :
    (client : List Slot) (i fd j x : ℕ)
    → i < length client
    → Holds (set client i (some fd)) j x
    → ((j ≡ i) × (x ≡ fd)) ⊎ ((j ≢ i) × Holds client j x)
Holds-set client i fd j x lt h = elim (Bool-cases (j == i)) [
  | inl e ↦
      let same : j ≡ i = ground arith in
      let new = get_elem?-set_self client i (some fd) lt in inl (same, ground arith)
  | inr e ↦
      let other : j ≢ i = λ eq. ground arith in
      inr (other, sym (get_elem?-set_ne client (some fd) (λ eq. other (sym eq))) ∙ h)
]

-- What is in the table stays there when another entry is given away, and the new client is there.
pub set-Holds :
    (client : List Slot) (i fd j x : ℕ)
    → get_elem? client i ≡ some none
    → Holds client j x
    → Holds (set client i (some fd)) j x
set-Holds client i fd j x free h =
    let other : i ≢ j = λ eq. ground (arith, ap (get_elem? client) eq) in
    get_elem?-set_ne client (some fd) other ∙ h

-- A new connection, with a descriptor that is not in the set, keeps the invariant.
pub admit-IsValid :
    (fd : ℕ) (s : Server)
    → IsValid s
    → free_slot s.client < fd_setsize
    → fd < fd_setsize
    → s.allset fd ≡ false
    → IsValid (admit fd (free_slot s.client) s)
unfolding admit
admit-IsValid fd s v lt small fresh =
    let i = free_slot s.client in
    let inside : i < length s.client = omega (arith, v.size) in
    let free = free_slot_free s.client inside in
    let back = λ (j : ℕ) (x : ℕ). Holds-set s.client i fd j x inside in
    let mine = get_elem?-set_self s.client i (some fd) inside in
    let new : (j : ℕ) → ¬ Holds s.client j fd = λ j h. ground (arith, v.watched j fd h) in
    let not_listening : fd ≢ s.listenfd = λ eq. ground (arith, ap s.allset eq, v.listening) in
    record {
      size = length-set s.client i (some fd) ∙ v.size;
      bound = ground (arith, v.bound);
      within = λ j x h. elim (back j x h) [
        | inl (at, is) ↦ ground arith
        | inr (off, old) ↦ ground (arith, v.within j x old)
      ];
      distinct = λ j k x h g. elim (back j x h) [
        | inl (at, is) ↦ elim (back k x g) [
          | inl (at', is') ↦ at ∙ sym at'
          | inr (off', old') ↦ absurd (new k (old' ∙ ap (λ y. some (some y)) is))
        ]
        | inr (off, old) ↦ elim (back k x g) [
          | inl (at', is') ↦ absurd (new j (old ∙ ap (λ y. some (some y)) is'))
          | inr (off', old') ↦ v.distinct j k x old old'
        ]
      ];
      listening = ground (arith, v.listening);
      watched = λ j x h. elim (back j x h) [
        | inl (at, is) ↦ ground arith
        | inr (off, old) ↦ ground (arith, v.watched j x old)
      ];
      listed = λ x e. elim (Bool-cases (x == fd)) [
        | inl eq ↦
            let same : x ≡ fd = ground arith in inr (i, mine ∙ ap (λ y. some (some y)) (sym same))
        | inr ne ↦ elim (v.listed x (ground arith)) [
          | inl is ↦ inl is
          | inr (j, h) ↦ inr (j, set-Holds s.client i fd j x free h)
        ]
      ];
      apart = λ j h. elim (back j s.listenfd h) [
        | inl (at, is) ↦ not_listening (sym is)
        | inr (off, old) ↦ v.apart j old
      ];
      highest = λ x e. elim (Bool-cases (x == fd)) [
        | inl eq ↦ ground arith
        | inr ne ↦ ground (arith, v.highest x)
      ];
    }
