-- ===== src/Select/Rounds.antt =====
-- A round of the select server is what a plain server without `maxi` and `nready` does in it.
use training.Base.{
  ℕ, zero, suc, ◌+◌, ◌-◌, ◌≤◌, ◌<◌, ◌≡◌, refl, sym, ap, ◌∙◌, inl, inr, List, [], ◌∷◌, true, false,
  Option, none, some, arith, ltb, ◌==◌, if◌then◌else◌, Bool-cases, get_elem?, set,
}
use training.Base.Int.{negsuc}
use training.Select.{
  Slot, Server, Round, Outcome, goes_on, exits, undefined, fd_setsize, free_slot, admit,
  accept_client, scan, after_accept, round,
}
use training.Select.Table.{IsValid, free_slot_free, admit-IsValid}
use training.Select.Count.{set_num, set_num_lem, room}
use training.Select.Scan.{scan-sweep}
use training.Select.Sweep.{sweep, sweep_idle, ready_num-weight, ready_num}

-- What `select` and `accept` are relied on for. `select` reports descriptors of the set it was given,
-- and returns their number; `accept` returns a descriptor that is not in use.
pub record Honest (env : Round) (s : Server) : Type 0 where
  pub sound : (fd : ℕ) → env.ready fd ≡ true → s.allset fd ≡ true
  pub counted : env.nready ≡ set_num env.ready
  pub fresh : (fd : ℕ) → env.connected ≡ some fd → s.allset fd ≡ false

abbrev pub sweep_after : Round → Outcome → Outcome
sweep_after env (goes_on t) = goes_on (sweep env t)
sweep_after env (exits code t) = exits code t
sweep_after env undefined = undefined

-- A round without the shortcuts: a new connection is always followed by the sweep.
abbrev pub plain_round : Round → Server → Outcome
plain_round env s =
    if env.select_fails
    then exits (negsuc 0) s
    else sweep_after env (if env.ready s.listenfd then accept_client env.connected s else goes_on s)

-- A client that was just accepted is not served in the same round.
ready_num-set :
    (env : Round) (l : List Slot) (i fd : ℕ)
    → get_elem? l i ≡ some none
    → env.ready fd ≡ false
    → ready_num env (set l i (some fd)) ≡ ready_num env l
ready_num-set env [] i fd free e = refl
ready_num-set env (slot ∷ rest) zero fd free e =
    let gone : slot ≡ none = cc in rw (gone, e) (omega arith)
ready_num-set env (none ∷ rest) (suc i) fd free e = ready_num-set env rest i fd free e
ready_num-set env (some x ∷ rest) (suc i) fd free e =
    omega (arith, ready_num-set env rest i fd free e)

is_one : (n : ℕ) → (n == 1) ≡ true → n ≡ 1
is_one n e = ground arith

-- What a new connection comes to, where an entry is free.
module _ (s : Server) (lt : free_slot s.client < fd_setsize) where
  pub accept_none : accept_client none s ≡ undefined
  unfolding accept_client
  accept_none = ground arith

  module _ (fd : ℕ) where
    pub accept_some :
        fd < fd_setsize → accept_client (some fd) s ≡ goes_on (admit fd (free_slot s.client) s)
    unfolding accept_client
    accept_some small = ground arith

    pub accept_large : fd_setsize ≤ fd → accept_client (some fd) s ≡ undefined
    unfolding accept_client
    accept_large large = ground arith

module _ (env : Round) (s : Server) where
  round_fails : env.select_fails ≡ true → round env s ≡ exits (negsuc 0) s
  unfolding round
  round_fails e = ground arith

  pub plain_fails : env.select_fails ≡ true → plain_round env s ≡ exits (negsuc 0) s
  plain_fails e = ground arith

  module _ (works : env.select_fails ≡ false) where
    round_quiet :
        env.ready s.listenfd ≡ false → round env s ≡ goes_on (scan env s.used 0 env.nready s)
    unfolding round
    round_quiet e = ground arith

    pub plain_quiet : env.ready s.listenfd ≡ false → plain_round env s ≡ goes_on (sweep env s)
    plain_quiet e = ground arith

    pub round_new :
        env.ready s.listenfd ≡ true → round env s ≡ after_accept env (accept_client env.connected s)
    unfolding round
    round_new e = ground arith

    pub plain_new :
        env.ready s.listenfd ≡ true
        → plain_round env s ≡ sweep_after env (accept_client env.connected s)
    plain_new e = ground arith

module _ (env : Round) (t : Server) where
  after_accept_last : (env.nready == 1) ≡ true → after_accept env (goes_on t) ≡ goes_on t
  unfolding after_accept
  after_accept_last e = rw e refl

  after_accept_more :
      (env.nready == 1) ≡ false
      → after_accept env (goes_on t) ≡ goes_on (scan env t.used 0 (env.nready - 1) t)
  unfolding after_accept
  after_accept_more e = rw e refl

module _ (env : Round) (s : Server) (v : IsValid s) (h : Honest env s) where
  -- The value of `select` counts the listening descriptor and the clients.
  pub nready_lem : env.nready ≡ (if env.ready s.listenfd then 1 else 0) + ready_num env s.client
  nready_lem =
      h.counted
      ∙ set_num_lem s env.ready v h.sound
      ∙ ap (λ n. (if env.ready s.listenfd then 1 else 0) + n) (sym (ready_num-weight env s.client))

  -- The scan after an accepted connection is the sweep.
  after_admit :
      (fd : ℕ)
      → env.ready s.listenfd ≡ true
      → fd < fd_setsize
      → s.allset fd ≡ false
      → after_accept env (goes_on (admit fd (free_slot s.client) s))
        ≡ goes_on (sweep env (admit fd (free_slot s.client) s))
  unfolding admit
  after_admit fd ready small fresh =
      let t = admit fd (free_slot s.client) s in
      let unready : env.ready fd ≡ false = ground (arith, h.sound fd) in
      let free = free_slot_free s.client (omega (arith, room s v, v.size)) in
      let same : ready_num env t.client ≡ ready_num env s.client =
        ready_num-set env s.client (free_slot s.client) fd free unready in
      let count_lem : env.nready ≡ 1 + ready_num env s.client = ground (arith, nready_lem) in
      let valid = admit-IsValid fd s v (room s v) small fresh in
      elim (Bool-cases (env.nready == 1)) [
        | inl last ↦
            after_accept_last env t last
            ∙ ap goes_on (sweep_idle env t (omega (arith, same, count_lem, is_one env.nready last)))
        | inr more ↦
            let few : ready_num env t.client ≤ env.nready - 1 = omega (arith, same, count_lem) in
            after_accept_more env t more ∙ ap goes_on (scan-sweep env (env.nready - 1) t valid few)
      ]

  after_new :
      (connected : Option ℕ)
      → env.connected ≡ connected
      → env.ready s.listenfd ≡ true
      → after_accept env (accept_client connected s) ≡ sweep_after env (accept_client connected s)
  unfolding after_accept
  after_new none e ready = rw (accept_none s (room s v)) refl
  after_new (some fd) e ready = elim (Bool-cases (ltb fd fd_setsize)) [
    | inl small ↦
        let lt : fd < fd_setsize = ground arith in
        rw (accept_some s (room s v) fd lt) (after_admit fd ready lt (h.fresh fd e))
    | inr large ↦ rw (accept_large s (room s v) fd (ground arith)) refl
  ]

  -- A round of the select server, in a state that the invariant describes and where `select` and `accept`
  -- do what they are relied on for, is the round of a server that has neither `maxi` nor `nready`:
  -- after the new connection, if there is one, it goes over all FD_SETSIZE entries and serves each
  -- ready client once. The bound `maxi`, the count that stops the loop early, and the `continue`
  -- behind a lone new connection leave out no client.
  pub round_lem : round env s ≡ plain_round env s
  round_lem = elim (Bool-cases env.select_fails) [
    | inl fails ↦ round_fails env s fails ∙ sym (plain_fails env s fails)
    | inr works ↦ elim (Bool-cases (env.ready s.listenfd)) [
      | inr quiet ↦
          round_quiet env s works quiet
          ∙ ap goes_on (scan-sweep env env.nready s v (ground (arith, nready_lem)))
          ∙ sym (plain_quiet env s works quiet)
      | inl ready ↦
          round_new env s works ready
          ∙ after_new env.connected refl ready
          ∙ sym (plain_new env s works ready)
    ]
  ]
