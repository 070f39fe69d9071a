-- ===== src/Echo/Same.antt =====
-- For one client the select server and the server of a process for each client do the same.
use training.Base.{
  ℕ, zero, suc, ◌<◌, ◌≡◌, refl, sym, ap, ◌∙◌, inl, inr, List, [], ◌∷◌, ◌++◌, true, false, Option,
  none, some, arith, ltb, ◌==◌, Bool-cases, if◌then◌else◌, append_assoc, append-nil,
}
use training.Select.{
  Slot, Server, Round, Outcome, goes_on, exits, undefined, Output, accepted, closed, echoed,
  misused, Read, failed, bytes, fd_setsize, free_slot, admit, accept_client, round,
}
use training.Select.Table.{Holds, IsValid, admit-IsValid, set-Holds, free_slot_free}
use training.Select.Count.{room}
use training.Select.Sweep.{reply, ends, replies, sweep}
use training.Select.Rounds.{
  Honest, sweep_after, plain_round, round_lem, plain_fails, plain_quiet, plain_new, accept_none,
  accept_some, accept_large,
}
use training.Select.Reach.{leaves, Holds-swept, sweep-IsValid}
use training.Echo.{child}

-- What a server has sent to a client, and whether it has closed its connection.
abbrev pub outputs_of : ℕ → List Output → List Output
outputs_of fd [] = []
outputs_of fd (accepted x ∷ rest) = outputs_of fd rest
outputs_of fd (closed x ∷ rest) =
    if x == fd then closed x ∷ outputs_of fd rest else outputs_of fd rest
outputs_of fd (echoed x l ∷ rest) =
    if x == fd then echoed x l ∷ outputs_of fd rest else outputs_of fd rest
outputs_of fd (misused x ∷ rest) =
    if x == fd then misused x ∷ outputs_of fd rest else outputs_of fd rest

outputs_of-append :
    (fd : ℕ) (xs ys : List Output) → outputs_of fd (xs ++ ys) ≡ outputs_of fd xs ++ outputs_of fd ys
outputs_of-append fd [] ys = refl
outputs_of-append fd (accepted x ∷ rest) ys = outputs_of-append fd rest ys
outputs_of-append fd (closed x ∷ rest) ys = ground (arith, outputs_of-append fd rest ys)
outputs_of-append fd (echoed x l ∷ rest) ys = ground (arith, outputs_of-append fd rest ys)
outputs_of-append fd (misused x ∷ rest) ys = ground (arith, outputs_of-append fd rest ys)

reply_self :
    (r : Read) (fd : ℕ) (rest : List Output)
    → outputs_of fd (reply r fd ∷ rest) ≡ reply r fd ∷ outputs_of fd rest
reply_self failed fd rest = ground arith
reply_self (bytes []) fd rest = ground arith
reply_self (bytes (b ∷ more)) fd rest = ground arith

reply_other :
    (r : Read) (x fd : ℕ) (rest : List Output)
    → (x == fd) ≡ false
    → outputs_of fd (reply r x ∷ rest) ≡ outputs_of fd rest
reply_other failed x fd rest e = ground arith
reply_other (bytes []) x fd rest e = ground arith
reply_other (bytes (b ∷ more)) x fd rest e = ground arith

module _ (env : Round) (fd : ℕ) where
  -- What the sweep sends to one client.
  abbrev answer : List Output
  answer = if env.ready fd then reply (env.reads fd) fd ∷ [] else []

  replies_absent : (l : List Slot) → ((i : ℕ) → ¬ Holds l i fd) → outputs_of fd (replies env l) ≡ []
  replies_absent [] h = refl
  replies_absent (none ∷ rest) h = replies_absent rest (λ i. h (suc i))
  replies_absent (some x ∷ rest) h =
      let later = replies_absent rest (λ i. h (suc i)) in
      let other : (x == fd) ≡ false = elim (Bool-cases (x == fd)) [
        | inl e ↦ let same : x ≡ fd = ground arith in absurd (h 0 (ap (λ y. some (some y)) same))
        | inr e ↦ e
      ] in
      elim (Bool-cases (env.ready x)) [
        | inl e ↦ rw e (reply_other (env.reads x) x fd (replies env rest) other ∙ later)
        | inr e ↦ rw e later
      ]

  replies_present :
      (l : List Slot) (i : ℕ)
      → ((i j : ℕ) → Holds l i fd → Holds l j fd → i ≡ j)
      → Holds l i fd
      → outputs_of fd (replies env l) ≡ answer
  replies_present [] i d h = cc
  replies_present (none ∷ rest) zero d h = cc
  replies_present (none ∷ rest) (suc i) d h =
      replies_present rest i (λ j k g f. omega (arith, d (suc j) (suc k) g f)) h
  replies_present (some x ∷ rest) zero d h =
      let same : x ≡ fd = ground arith in
      let later = replies_absent rest (λ j g. omega (arith, d 0 (suc j) h g)) in
      elim (Bool-cases (env.ready fd)) [
        | inl e ↦
            rw (same, e)
              (reply_self (env.reads fd) fd (replies env rest)
                ∙ ap (◌∷◌ (reply (env.reads fd) fd)) later)
        | inr e ↦ rw (same, e) later
      ]
  replies_present (some x ∷ rest) (suc i) d h =
      let later = replies_present rest i (λ j k g f. omega (arith, d (suc j) (suc k) g f)) h in
      let other : (x == fd) ≡ false = elim (Bool-cases (x == fd)) [
        | inl e ↦
            let same : x ≡ fd = ground arith in
            absurd (omega (arith, d 0 (suc i) (ap (λ y. some (some y)) same) h))
        | inr e ↦ e
      ] in
      elim (Bool-cases (env.ready x)) [
        | inl e ↦ rw e (reply_other (env.reads x) x fd (replies env rest) other ∙ later)
        | inr e ↦ rw e later
      ]

-- From `s` to `u` at most a new client has come.
record Admitted (s u : Server) : Type 0 where
  valid : IsValid u
  stays : (i fd : ℕ) → Holds s.client i fd → Holds u.client i fd
  same : (fd : ℕ) → outputs_of fd u.out ≡ outputs_of fd s.out

-- A round that goes on is the sweep behind at most a new client.
abbrev SweptAfter : Round → Server → Outcome → Type 0
SweptAfter env s (goes_on t) = (u : Server) × Admitted s u × (t ≡ sweep env u)
SweptAfter env s _ = Unit {0}

module _ (env : Round) (s : Server) (v : IsValid s) (h : Honest env s) where
  admit-Admitted :
      (fd : ℕ)
      → fd < fd_setsize
      → s.allset fd ≡ false
      → Admitted s (admit fd (free_slot s.client) s)
  unfolding admit
  admit-Admitted fd small fresh =
      let place = room s v in
      let free = free_slot_free s.client (omega (arith, place, v.size)) in
      record {
        valid = admit-IsValid fd s v place small fresh;
        stays = λ i x. set-Holds s.client (free_slot s.client) fd i x free;
        same = λ x. outputs_of-append x s.out (accepted fd ∷ []) ∙ append-nil (outputs_of x s.out);
      }

  accept-SweptAfter :
      (connected : Option ℕ)
      → env.connected ≡ connected
      → SweptAfter env s (sweep_after env (accept_client connected s))
  accept-SweptAfter none e = rw (accept_none s (room s v)) tt
  accept-SweptAfter (some fd) e = elim (Bool-cases (ltb fd fd_setsize)) [
    | inl small ↦
        let lt : fd < fd_setsize = ground arith in
        rw (accept_some s (room s v) fd lt)
          (admit fd (free_slot s.client) s, admit-Admitted fd lt (h.fresh fd e), refl)
    | inr large ↦ rw (accept_large s (room s v) fd (ground arith)) tt
  ]

  plain_round-SweptAfter : SweptAfter env s (plain_round env s)
  plain_round-SweptAfter = elim (Bool-cases env.select_fails) [
    | inl fails ↦ rw (plain_fails env s fails) tt
    | inr works ↦ elim (Bool-cases (env.ready s.listenfd)) [
      | inr quiet ↦
          rw (plain_quiet env s works quiet)
            (s, record { valid = v; stays = λ i fd g. g; same = λ fd. refl }, refl)
      | inl ready ↦ rw (plain_new env s works ready) (accept-SweptAfter env.connected refl)
    ]
  ]

  round_goes :
      (t : Server) → round env s ≡ goes_on t → (u : Server) × Admitted s u × (t ≡ sweep env u)
  round_goes t e = go (plain_round env s) (sym (round_lem env s v h) ∙ e) plain_round-SweptAfter
    where
      go :
          (o : Outcome)
          → o ≡ goes_on t
          → SweptAfter env s o
          → (u : Server) × Admitted s u × (t ≡ sweep env u)
      go (goes_on x) eq (u, a, is) = let same : t ≡ x = cc in (u, a, same ∙ is)
      go (exits code x) eq w = cc
      go undefined eq w = cc

-- Rounds of the select server in which it stays with a client, and what it reads from it in them. The
-- client may leave in the last one.
pub data Rounds (fd : ℕ) : Server → List Read → Server → Type 0 where
  stop : {s : Server} → Rounds fd s [] s
  idle :
      {s t u : Server} {reads : List Read} (env : Round)
      → Honest env s
      → round env s ≡ goes_on t
      → env.ready fd ≡ false
      → Rounds fd t reads u
      → Rounds fd s reads u
  serves :
      {s t u : Server} {reads : List Read} (env : Round)
      → Honest env s
      → round env s ≡ goes_on t
      → env.ready fd ≡ true
      → ends (env.reads fd) ≡ false
      → Rounds fd t reads u
      → Rounds fd s (env.reads fd ∷ reads) u
  last :
      {s t : Server} (env : Round)
      → Honest env s
      → round env s ≡ goes_on t
      → env.ready fd ≡ true
      → ends (env.reads fd) ≡ true
      → Rounds fd s (env.reads fd ∷ []) t

-- One round, for one client.
module _ (env : Round) (fd i : ℕ) (s t : Server) (v : IsValid s) (h : Honest env s)
    (e : round env s ≡ goes_on t) (here : Holds s.client i fd) where
  round-answer : outputs_of fd t.out ≡ outputs_of fd s.out ++ answer env fd
  round-answer =
      let (u, a, is) = round_goes env s v h t e in
      ap (λ x. outputs_of fd x.out) is
      ∙ outputs_of-append fd u.out (replies env u.client)
      ∙ ap (λ l. l ++ outputs_of fd (replies env u.client)) (a.same fd)
      ∙ ap (◌++◌ (outputs_of fd s.out))
          (replies_present env fd u.client i (λ j k. a.valid.distinct j k fd) (a.stays i fd here))

  round-IsValid : IsValid t
  round-IsValid = let (u, a, is) = round_goes env s v h t e in rw is (sweep-IsValid env u a.valid)

  round_stays : leaves env fd ≡ false → Holds t.client i fd
  round_stays stays =
      let (u, a, is) = round_goes env s v h t e in
      rw is (Holds-swept env u.client i fd (a.stays i fd here) stays)

child_step :
    (r : Read) (reads : List Read) (fd : ℕ)
    → ends r ≡ false
    → (child (r ∷ reads) fd).out ≡ reply r fd ∷ (child reads fd).out
unfolding child
child_step failed reads fd e = refl
child_step (bytes []) reads fd e = cc
child_step (bytes (b ∷ more)) reads fd e = refl

child_last : (r : Read) (fd : ℕ) → ends r ≡ true → (child (r ∷ []) fd).out ≡ reply r fd ∷ []
unfolding child
child_last failed fd e = cc
child_last (bytes []) fd e = refl
child_last (bytes (b ∷ more)) fd e = cc

child_none : (fd : ℕ) → (child [] fd).out ≡ []
unfolding child
child_none fd = refl

-- Through any rounds in which the select server, in a state that its invariant describes and with `select`
-- and `accept` that do what they are relied on for, stays with a client, up to the one in which the
-- client leaves, it sends to it, and closes, exactly what a child of the server with a process for each
-- client does on the same reads, whatever the other clients do.
pub serves-child :
    (fd : ℕ) (s u : Server) (reads : List Read) (i : ℕ)
    → Rounds fd s reads u
    → IsValid s
    → Holds s.client i fd
    → outputs_of fd u.out ≡ outputs_of fd s.out ++ (child reads fd).out
serves-child fd s _ _ i stop v here =
    sym (append-nil (outputs_of fd s.out)) ∙ ap (◌++◌ (outputs_of fd s.out)) (sym (child_none fd))
serves-child fd s u reads i (idle {t = t} env h e quiet rest) v here =
    let one = round-answer env fd i s t v h e here in
    let nothing : answer env fd ≡ [] = rw quiet refl in
    let there = round_stays env fd i s t v h e here (ground arith) in
    serves-child fd t u reads i rest (round-IsValid env fd i s t v h e here) there
    ∙ ap (λ l. l ++ (child reads fd).out)
        (one ∙ ap (◌++◌ (outputs_of fd s.out)) nothing ∙ append-nil (outputs_of fd s.out))
serves-child fd s u _ i (serves {t = t} {reads = reads} env h e ready stays rest) v here =
    let r = env.reads fd in
    let one = round-answer env fd i s t v h e here in
    let reply_is : answer env fd ≡ reply r fd ∷ [] = rw ready refl in
    let there = round_stays env fd i s t v h e here (ground arith) in
    serves-child fd t u reads i rest (round-IsValid env fd i s t v h e here) there
    ∙ ap (λ l. l ++ (child reads fd).out) (one ∙ ap (◌++◌ (outputs_of fd s.out)) reply_is)
    ∙ append_assoc (outputs_of fd s.out) (reply r fd ∷ []) (child reads fd).out
    ∙ ap (◌++◌ (outputs_of fd s.out)) (sym (child_step r reads fd stays))
serves-child fd s _ _ i (last {t = t} env h e ready over) v here =
    let r = env.reads fd in
    let reply_is : answer env fd ≡ reply r fd ∷ [] = rw ready refl in
    round-answer env fd i s t v h e here
    ∙ ap (◌++◌ (outputs_of fd s.out)) (reply_is ∙ sym (child_last r fd over))
