-- ===== src/Echo/Stream.antt =====
-- The bytes of a connection, and the descriptors of the parent.
use training.Base.{
  ℕ, ◌≡◌, refl, sym, ap, ◌∙◌, inl, inr, List, [], ◌∷◌, ◌++◌, true, false, none, some, arith,
  Bool-cases, Option-cases, if◌then◌else◌, append_assoc,
}
use training.Select.{Output, echoed, closed, Read, failed, bytes, toupper, capitals}
use training.Echo.{Accept, close, parent, child}

-- Reads that bring bytes.
abbrev pub Bytes : List Read → Type 0
Bytes [] = Unit {0}
Bytes (bytes (b ∷ more) ∷ rest) = Bytes rest
Bytes (_ ∷ rest) = ⊥

-- The bytes that came in, and those that went out.
abbrev pub received : List Read → List ℕ
received [] = []
received (bytes l ∷ rest) = l ++ received rest
received (failed ∷ rest) = received rest

abbrev pub sent : List Output → List ℕ
sent [] = []
sent (echoed fd l ∷ rest) = l ++ sent rest
sent (_ ∷ rest) = sent rest

capitals-append : (xs ys : List ℕ) → capitals (xs ++ ys) ≡ capitals xs ++ capitals ys
unfolding capitals
capitals-append [] ys = refl
capitals-append (x ∷ xs) ys = ap (◌∷◌ (toupper x)) (capitals-append xs ys)

capitals-nil : capitals [] ≡ []
unfolding capitals
capitals-nil = refl

-- Outputs that send bytes back on the connection and do nothing else.
abbrev pub Echoes : (connfd : ℕ) → List Output → Type 0
Echoes connfd [] = Unit {0}
Echoes connfd (echoed fd l ∷ rest) = (fd ≡ connfd) × Echoes connfd rest
Echoes connfd (_ ∷ rest) = ⊥

-- A child that reads bytes and then the end of the connection sends them back on it in capitals, every
-- byte once and in order, however the reads cut them; then it closes the connection, which is the last
-- thing it does, and ends.
pub child_lem :
    (reads rest : List Read) (connfd : ℕ)
    → Bytes reads
    → (out : List Output) × ((child (reads ++ bytes [] ∷ rest) connfd).out
        ≡ out ++ closed connfd ∷ [])
      × Echoes connfd out
      × (sent out ≡ capitals (received reads))
      × ((child (reads ++ bytes [] ∷ rest) connfd).ended ≡ true)
unfolding child
child_lem [] rest connfd h = ([], refl, tt, sym capitals-nil, refl)
child_lem (bytes [] ∷ reads) rest connfd h = absurd h
child_lem (bytes (b ∷ more) ∷ reads) rest connfd h =
    let (out, all, echoes, same, ended) = child_lem reads rest connfd h in
    (
      echoed connfd (capitals (b ∷ more)) ∷ out,
      ap (◌∷◌ (echoed connfd (capitals (b ∷ more)))) all,
      (refl, echoes),
      ap (λ l. capitals (b ∷ more) ++ l) same ∙ sym (capitals-append (b ∷ more) (received reads)),
      ended,
    )
child_lem (failed ∷ reads) rest connfd h = absurd h

-- The connections that no child got.
abbrev pub stray : List Accept → List ℕ
stray [] = []
stray (a ∷ rest) = elim a.connfd [
  | none ↦ stray rest
  | some fd ↦ if a.fork_fails then stray rest ++ fd ∷ [] else stray rest
]

close_head : (fd : ℕ) (rest : List ℕ) → close fd (fd ∷ rest) ≡ rest
unfolding close
close_head fd rest = ground arith

module _ (a : Accept) (rest : List Accept) (open_fds : List ℕ) where
  parent_refused : a.connfd ≡ none → parent (a ∷ rest) open_fds ≡ parent rest open_fds
  unfolding parent
  parent_refused e = ground arith

  module _ {fd : ℕ} (e : a.connfd ≡ some fd) where
    parent_kept : a.fork_fails ≡ true → parent (a ∷ rest) open_fds ≡ parent rest (fd ∷ open_fds)
    unfolding parent
    parent_kept f = ground arith

    parent_closed :
        a.fork_fails ≡ false → parent (a ∷ rest) open_fds ≡ parent rest (close fd (fd ∷ open_fds))
    unfolding parent
    parent_closed f = ground arith

-- After any rounds the parent has open, on top of what it had, the connections for which `fork` failed
-- and no other.
pub parent_lem :
    (rounds : List Accept) (open_fds : List ℕ) → parent rounds open_fds ≡ stray rounds ++ open_fds
unfolding parent
parent_lem [] open_fds = refl
parent_lem (a ∷ rest) open_fds = elim (Option-cases a.connfd) [
  | inl e ↦ parent_refused a rest open_fds e ∙ parent_lem rest open_fds ∙ ground (arith, e)
  | inr (fd, e) ↦ elim (Bool-cases a.fork_fails) [
    | inl fails ↦
        parent_kept a rest open_fds e fails
        ∙ parent_lem rest (fd ∷ open_fds)
        ∙ sym (append_assoc (stray rest) (fd ∷ []) open_fds)
        ∙ ground (arith, e)
    | inr works ↦
        parent_closed a rest open_fds e works
        ∙ ap (parent rest) (close_head fd open_fds)
        ∙ parent_lem rest open_fds
        ∙ ground (arith, e)
  ]
]
