-- ===== src/Select/Tests.antt =====
-- The theorems on the select server at a server with one client.
use training.Base.{◌≡◌, refl, List, [], ◌∷◌, true, false, none, some, arith, ◌==◌}
use training.Base.Int.{negsuc}
use training.Select
use training.Select.{
  Server, Round, Read, bytes, failed, Outcome, goes_on, exits, undefined, start, admit, round,
  Output, closed, echoed, accepted, fd_setsize,
}
use training.Select.Table.{IsValid}
use training.Select.Rounds.{Honest, plain_round, round_lem}
use training.Select.Reach.{Reached, begin, next, Reached-IsValid, exits_lem}

-- A new client on descriptor 4.
abbrev connects : Round
connects = record {
  select_fails = false;
  nready = 1;
  ready = λ fd. fd == 3;
  connected = some 4;
  reads = λ fd. failed;
}

abbrev first : Server
first = start 3

abbrev second : Server
second = admit 4 0 first

connects-Honest : Honest connects first
unfolding start
connects-Honest = record {
  sound = λ fd e. ground arith;
  counted = refl;
  fresh = λ fd e. ground arith;
}

accepts : round connects first ≡ goes_on second
unfolding round Select.accept_client Select.after_accept Select.free_slot start
accepts = refl

second-Reached : Reached 3 second
second-Reached = next connects second (begin (omega arith)) connects-Honest accepts

-- It writes.
abbrev writes : Round
writes = record {
  select_fails = false;
  nready = 1;
  ready = λ fd. fd == 4;
  connected = none;
  reads = λ fd. bytes (b'h' ∷ b'i' ∷ []);
}

writes-Honest : Honest writes second
unfolding start admit
writes-Honest = record { sound = λ fd e. ground arith; counted = refl; fresh = λ fd e. cc }

answer : Outcome → List Output
answer (goes_on t) = t.out
answer _ = []

writes_out : answer (round writes second) ≡ accepted 4 ∷ echoed 4 (b'H' ∷ b'I' ∷ []) ∷ []
unfolding answer round Select.scan Select.serve Select.capitals Select.toupper start admit
writes_out = refl

round_lem_example : round writes second ≡ plain_round writes second
round_lem_example = round_lem writes second (Reached-IsValid 3 second second-Reached) writes-Honest

Reached-IsValid_example : IsValid second
Reached-IsValid_example = Reached-IsValid 3 second second-Reached

-- `select` fails.
abbrev breaks : Round
breaks = record {
  select_fails = true;
  nready = 0;
  ready = λ fd. false;
  connected = none;
  reads = λ fd. failed;
}

breaks-Honest : Honest breaks second
breaks-Honest = record { sound = λ fd e. cc; counted = refl; fresh = λ fd e. cc }

breaks_off : round breaks second ≡ exits (negsuc 0) second
unfolding round
breaks_off = refl

exits_lem_example : (breaks.select_fails ≡ true) × (negsuc 0 ≡ negsuc 0)
exits_lem_example =
    exits_lem 3 breaks (negsuc 0) second second second-Reached breaks-Honest breaks_off
