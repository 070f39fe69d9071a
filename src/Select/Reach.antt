-- ===== src/Select/Reach.antt =====
-- The states that the select server reaches, and how it can stop.
use training.Base.{
  ℕ, zero, suc, ◌≡◌, refl, sym, ap, ◌∙◌, inl, inr, List, [], ◌∷◌, Bool, true, false, ◌&&◌, Option,
  none, some, arith, ltb, ◌==◌, Bool-cases, length, ◌<◌,
}
use training.Base.Int.{ℤ, negsuc}
use training.Select.{
  Slot, Server, Round, Outcome, goes_on, exits, undefined, fd_setsize, start, accept_client,
  after_accept, round,
}
use training.Select.Table.{Holds, IsValid, start-IsValid, admit-IsValid}
use training.Select.Count.{room}
use training.Select.Sweep.{ends, swept, ended, sweep}
use training.Select.Rounds.{
  Honest, sweep_after, plain_round, round_lem, plain_fails, plain_quiet, plain_new, accept_none,
  accept_some, accept_large,
}

module _ (env : Round) where
  -- The client is ready and its connection ends.
  abbrev pub leaves : ℕ → Bool
  leaves fd = env.ready fd && ends (env.reads fd)

  length-swept : (l : List Slot) → length (swept env l) ≡ length l
  length-swept [] = refl
  length-swept (slot ∷ rest) = ap suc (length-swept rest)

  -- The clients behind a sweep are those that do not leave in it.
  swept-Holds :
      (l : List Slot) (i fd : ℕ) → Holds (swept env l) i fd → Holds l i fd × (leaves fd ≡ false)
  swept-Holds [] i fd h = cc
  swept-Holds (none ∷ rest) zero fd h = cc
  swept-Holds (some x ∷ rest) zero fd h = elim (Bool-cases (leaves x)) [
    | inl e ↦ absurd (ground arith)
    | inr e ↦
        let same : x ≡ fd = ground arith in (ap (λ y. some (some y)) same, ap leaves (sym same) ∙ e)
  ]
  swept-Holds (slot ∷ rest) (suc i) fd h = swept-Holds rest i fd h

  pub Holds-swept :
      (l : List Slot) (i fd : ℕ) → Holds l i fd → leaves fd ≡ false → Holds (swept env l) i fd
  Holds-swept [] i fd h e = cc
  Holds-swept (none ∷ rest) zero fd h e = cc
  Holds-swept (some x ∷ rest) zero fd h e = let same : x ≡ fd = ground arith in rw (same, e) refl
  Holds-swept (slot ∷ rest) (suc i) fd h e = Holds-swept rest i fd h e

  ended_some :
      (l : List Slot) (x : ℕ) → ended env l x ≡ true → ((i : ℕ) × Holds l i x) × (leaves x ≡ true)
  ended_some [] x h = cc
  ended_some (none ∷ rest) x h = let old = ended_some rest x h in ((suc old.0.0, old.0.1), old.1)
  ended_some (some fd ∷ rest) x h = elim (Bool-cases (x == fd && leaves fd)) [
    | inl e ↦
        let same : fd ≡ x = ground arith in
        ((0, ap (λ y. some (some y)) same), ap leaves (sym same) ∙ ground arith)
    | inr e ↦ let old = ended_some rest x (ground arith) in ((suc old.0.0, old.0.1), old.1)
  ]

  ended_of : (l : List Slot) (i x : ℕ) → Holds l i x → leaves x ≡ true → ended env l x ≡ true
  ended_of [] i x h e = cc
  ended_of (none ∷ rest) zero x h e = cc
  ended_of (none ∷ rest) (suc i) x h e = ended_of rest i x h e
  ended_of (some fd ∷ rest) zero x h e =
      let same : fd ≡ x = ground arith in rw (same, e) (ground arith)
  ended_of (some fd ∷ rest) (suc i) x h e = ground (arith, ended_of rest i x h e)

  not_ended :
      (l : List Slot) (x : ℕ)
      → (leaves x ≡ true → ¬ ((i : ℕ) × Holds l i x))
      → ended env l x ≡ false
  not_ended l x h = elim (Bool-cases (ended env l x)) [
    | inl e ↦ let found = ended_some l x e in absurd (h found.1 found.0)
    | inr e ↦ e
  ]

  pub sweep-IsValid : (s : Server) → IsValid s → IsValid (sweep env s)
  sweep-IsValid s v =
      let l = s.client in
      let stays : (i fd : ℕ) → Holds (swept env l) i fd → ended env l fd ≡ false =
        λ i fd h. not_ended l fd (λ e p. ground (arith, (swept-Holds l i fd h).1)) in
      record {
        size = length-swept l ∙ v.size;
        bound = v.bound;
        within = λ i fd h. v.within i fd (swept-Holds l i fd h).0;
        distinct =
            λ i j fd h g. v.distinct i j fd (swept-Holds l i fd h).0 (swept-Holds l j fd g).0;
        listening = ground (arith, v.listening, not_ended l s.listenfd (λ e p. v.apart p.0 p.1));
        watched = λ i fd h. ground (arith, stays i fd h, v.watched i fd (swept-Holds l i fd h).0);
        listed = λ fd e. elim (v.listed fd (ground arith)) [
          | inl is ↦ inl is
          | inr (i, h) ↦ inr (
            i,
            Holds-swept l i fd h (elim (Bool-cases (leaves fd)) [
              | inl gone ↦ absurd (ground (arith, ended_of l i fd h gone))
              | inr here ↦ here
            ]),
          )
        ];
        apart = λ i h. v.apart i (swept-Holds l i s.listenfd h).0;
        highest = λ fd e. v.highest fd (ground arith);
      }

-- What an outcome may be: a valid server, or the exit of a failed `select`.
abbrev Orderly : Round → Outcome → Type 0
Orderly env (goes_on t) = IsValid t
Orderly env (exits code t) = (env.select_fails ≡ true) × (code ≡ negsuc 0)
Orderly env undefined = Unit {0}

module _ (env : Round) where
  sweep_after-Orderly : (o : Outcome) → Orderly env o → Orderly env (sweep_after env o)
  sweep_after-Orderly (goes_on t) v = sweep-IsValid env t v
  sweep_after-Orderly (exits code t) h = h
  sweep_after-Orderly undefined h = tt

  goes_on-IsValid : (o : Outcome) (t : Server) → o ≡ goes_on t → Orderly env o → IsValid t
  goes_on-IsValid (goes_on u) t e v = let same : t ≡ u = cc in rw same v
  goes_on-IsValid (exits code u) t e v = cc
  goes_on-IsValid undefined t e v = cc

  exits-fails :
      (o : Outcome) (code : ℤ) (t : Server)
      → o ≡ exits code t
      → Orderly env o
      → (env.select_fails ≡ true) × (code ≡ negsuc 0)
  exits-fails (goes_on u) code t e v = cc
  exits-fails (exits c u) code t e v = let same : code ≡ c = cc in (v.0, same ∙ v.1)
  exits-fails undefined code t e v = cc

  module _ (s : Server) (v : IsValid s) (h : Honest env s) where
    accept-Orderly :
        (connected : Option ℕ) → env.connected ≡ connected → Orderly env (accept_client connected s)
    accept-Orderly none e = rw (accept_none s (room s v)) tt
    accept-Orderly (some fd) e = elim (Bool-cases (ltb fd fd_setsize)) [
      | inl small ↦
          let lt : fd < fd_setsize = ground arith in
          rw (accept_some s (room s v) fd lt) (admit-IsValid fd s v (room s v) lt (h.fresh fd e))
      | inr large ↦ rw (accept_large s (room s v) fd (ground arith)) tt
    ]

    plain_round-Orderly : Orderly env (plain_round env s)
    plain_round-Orderly = elim (Bool-cases env.select_fails) [
      | inl fails ↦ rw (plain_fails env s fails) (fails, refl)
      | inr works ↦ elim (Bool-cases (env.ready s.listenfd)) [
        | inr quiet ↦ rw (plain_quiet env s works quiet) (sweep-IsValid env s v)
        | inl ready ↦ rw (plain_new env s works ready) (
            sweep_after-Orderly (accept_client env.connected s) (accept-Orderly env.connected refl))
      ]
    ]

    round-Orderly : Orderly env (round env s)
    round-Orderly = rw (round_lem env s v h) plain_round-Orderly

after_undefined : (env : Round) → after_accept env undefined ≡ undefined
unfolding after_accept
after_undefined env = refl

-- The states of the loop: the first, and those that rounds lead to.
pub data Reached (listenfd : ℕ) : Server → Type 0 where
  begin : listenfd < fd_setsize → Reached listenfd (start listenfd)
  next :
      {s : Server} (env : Round) (t : Server)
      → Reached listenfd s
      → Honest env s
      → round env s ≡ goes_on t
      → Reached listenfd t

-- In every state that the loop of the select server reaches, where `select` and `accept` do what they
-- are relied on for and the listening descriptor is below FD_SETSIZE, the table has FD_SETSIZE
-- entries, each client stands in one of them and not above `maxi`, `allset` holds the listening
-- descriptor and the clients and nothing else, and all of it lies below FD_SETSIZE and not above
-- `maxfd`, so that `select(maxfd + 1, …)` looks at every client.
pub Reached-IsValid : (listenfd : ℕ) (s : Server) → Reached listenfd s → IsValid s
Reached-IsValid listenfd _ (begin small) = start-IsValid listenfd small
Reached-IsValid listenfd _ (next {s = s} env t before h e) =
    goes_on-IsValid env (round env s) t e
      (round-Orderly env s (Reached-IsValid listenfd s before) h)

-- The select server, where `select` and `accept` do what they are relied on for, stops by an `exit` only
-- when `select` fails, and with -1, so that the exit for too many clients is never taken.
pub exits_lem :
    (listenfd : ℕ) (env : Round) (code : ℤ) (s t : Server)
    → Reached listenfd s
    → Honest env s
    → round env s ≡ exits code t
    → (env.select_fails ≡ true) × (code ≡ negsuc 0)
exits_lem listenfd env code s t reached h e =
    exits-fails env (round env s) code t e
      (round-Orderly env s (Reached-IsValid listenfd s reached) h)
