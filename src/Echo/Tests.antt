-- ===== src/Echo/Tests.antt =====
-- A client of both servers that writes, and a parent that could not fork once.
use training.Base.{
  ℕ, ◌≡◌, refl, ◌∙◌, List, [], ◌∷◌, ◌++◌, true, false, none, some, arith, ◌==◌, get_elem?-set_self,
}
use training.Select.{
  Output, closed, Server, Round, goes_on, bytes, capitals, start, free_slot, admit, round,
}
use training.Select.Table.{IsValid, Holds, start-IsValid, admit-IsValid}
use training.Select.Count.{room}
use training.Select.Sweep.{sweep}
use training.Select.Rounds.{Honest, round_lem}
use training.Echo.{child, Accept, close, parent}
use training.Echo.Stream.{Echoes, received, sent, child_lem}
use training.Echo.Same.{stop, serves, outputs_of, serves-child}

child_lem_example :
    (out : List Output) × ((child
        ((bytes (b'h' ∷ []) ∷ bytes (b'i' ∷ []) ∷ []) ++ bytes [] ∷ [])
        4).out
      ≡ out ++ closed 4 ∷ [])
    × Echoes 4 out
    × (sent out ≡ capitals (received (bytes (b'h' ∷ []) ∷ bytes (b'i' ∷ []) ∷ [])))
    × ((child ((bytes (b'h' ∷ []) ∷ bytes (b'i' ∷ []) ∷ []) ++ bytes [] ∷ []) 4).ended ≡ true)
child_lem_example = child_lem (bytes (b'h' ∷ []) ∷ bytes (b'i' ∷ []) ∷ []) [] 4 tt

abbrev slot : ℕ
slot = free_slot (start 3).client

-- The select server with a client on descriptor 4.
abbrev server : Server
server = admit 4 slot (start 3)

first-IsValid : IsValid (start 3)
first-IsValid = start-IsValid 3 (omega arith)

server-IsValid : IsValid server
unfolding start
server-IsValid =
    admit-IsValid 4 (start 3) first-IsValid (room (start 3) first-IsValid) (omega arith) refl

here : Holds server.client slot 4
unfolding admit
here =
    get_elem?-set_self (start 3).client slot (some 4)
      (omega (arith, room (start 3) first-IsValid, first-IsValid.size))

abbrev writes : Round
writes = record {
  select_fails = false;
  nready = 1;
  ready = λ fd. fd == 4;
  connected = none;
  reads = λ fd. bytes (b'h' ∷ b'i' ∷ []);
}

writes-Honest : Honest writes server
unfolding start admit
writes-Honest = record { sound = λ fd e. ground arith; counted = refl; fresh = λ fd e. cc }

goes : round writes server ≡ goes_on (sweep writes server)
unfolding start admit
goes = round_lem writes server server-IsValid writes-Honest ∙ refl

serves-child_example :
    outputs_of 4 (sweep writes server).out
    ≡ outputs_of 4 server.out ++ (child (bytes (b'h' ∷ b'i' ∷ []) ∷ []) 4).out
serves-child_example =
    serves-child 4 server (sweep writes server) (bytes (b'h' ∷ b'i' ∷ []) ∷ []) slot
      (serves writes writes-Honest goes refl refl stop) server-IsValid here

-- Two connections, the first of which no child got.
abbrev rounds : List Accept
rounds =
    record { connfd = some 4; fork_fails = true }
    ∷ record { connfd = some 5; fork_fails = false }
    ∷ []

one_stray : parent rounds (3 ∷ []) ≡ 4 ∷ 3 ∷ []
unfolding parent close
one_stray = refl
