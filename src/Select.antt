-- ===== src/Select.antt =====
-- io/io-models/select-model.c: a server that sends back in capitals what its clients write, with one
-- `select` over all of them. What the kernel answers in a round of the loop is an argument; the calls
-- on connections are the server's output.
pub mod Table
pub mod Count
pub mod Sweep
pub mod Scan
pub mod Rounds
pub mod Reach
mod Tests
use training.Base.{
  ℕ, zero, suc, ◌+◌, ◌-◌, List, [], ◌∷◌, ◌++◌, Bool, true, false, not, ◌&&◌, Option, none, some,
  ltb, ◌==◌, if◌then◌else◌, get_elem?, set, replicate,
}
use training.Base.Int.{ℤ, pos, negsuc}

-- FD_SETSIZE
abbrev pub fd_setsize : ℕ
fd_setsize = 1024

-- An entry of `client[]`: a descriptor, or `none` for -1.
abbrev pub Slot : Type 0
Slot = Option ℕ

-- What the server does on a connection.
pub data Output : Type 0 where
  accepted closed : (fd : ℕ) → Output
  echoed : (fd : ℕ) → (bytes : List ℕ) → Output
  -- `write(sockfd, buf, n)` with `n` -1, after a `read` that failed.
  misused : (fd : ℕ) → Output

-- The variables of `main`: `used` is `maxi + 1`, and `allset` says which descriptors are in the set.
pub record Server : Type 0 where
  pub listenfd : ℕ
  pub client : List Slot
  pub used : ℕ
  pub maxfd : ℕ
  pub allset : ℕ → Bool
  pub out : List Output

-- What `read` answers.
pub data Read : Type 0 where
  failed : Read
  bytes : List ℕ → Read

-- What the kernel answers in a round: whether `select` fails, its value and its set, the descriptor
-- that `accept` gives (`none` for -1), and what there is to read.
pub record Round : Type 0 where
  pub select_fails : Bool
  pub nready : ℕ
  pub ready : ℕ → Bool
  pub connected : Option ℕ
  pub reads : ℕ → Read

-- How a round ends: in the next one, in an `exit`, or in a call that has no defined behaviour.
pub data Outcome : Type 0 where
  goes_on : Server → Outcome
  exits : (code : ℤ) → Server → Outcome
  undefined : Outcome

-- `FD_ZERO`, `FD_SET`, `FD_CLR`
abbrev pub fd_zero : ℕ → Bool
fd_zero x = false

abbrev pub fd_set : ℕ → (ℕ → Bool) → ℕ → Bool
fd_set fd fds x = if x == fd then true else fds x

abbrev pub fd_clr : ℕ → (ℕ → Bool) → ℕ → Bool
fd_clr fd fds x = if x == fd then false else fds x

-- The server before its first round.
unfoldable pub start : (listenfd : ℕ) → Server
start listenfd = record {
  listenfd = listenfd;
  client = replicate fd_setsize none;
  used = 0;
  maxfd = listenfd;
  allset = fd_set listenfd fd_zero;
  out = [];
}

-- `toupper` of the C locale.
pub toupper : ℕ → ℕ
toupper c = if ltb c b'a' then c else if ltb b'z' c then c else c - 32

unfoldable pub capitals : List ℕ → List ℕ
unfolding toupper
capitals [] = []
capitals (b ∷ rest) = toupper b ∷ capitals rest

-- The index of the first free entry, or the number of entries.
pub free_slot : List Slot → ℕ
free_slot [] = 0
free_slot (none ∷ rest) = 0
free_slot (some fd ∷ rest) = suc (free_slot rest)

-- `FD_SET` and what follows it, for the new descriptor in entry `i`.
unfoldable pub admit : (fd i : ℕ) → Server → Server
admit fd i s = record s {
  client = set s.client i (some fd);
  used = if ltb s.used (suc i) then suc i else s.used;
  maxfd = if ltb s.maxfd fd then fd else s.maxfd;
  allset = fd_set fd s.allset;
  out = s.out ++ (accepted fd ∷ []);
}

-- A new connection. The set has no place for -1, nor for descriptors from FD_SETSIZE on.
pub accept_client : Option ℕ → Server → Outcome
unfolding free_slot admit
accept_client connected s =
    let i = free_slot s.client in
    if not (ltb i fd_setsize) then exits (pos 1) s else elim connected [
      | none ↦ undefined
      | some fd ↦ if ltb fd fd_setsize then goes_on (admit fd i s) else undefined
    ]

-- What is done for a ready client, in entry `i`.
pub serve : Read → (i fd : ℕ) → Server → Server
unfolding capitals
serve failed i fd s = record s { out = s.out ++ (misused fd ∷ []) }
serve (bytes []) i fd s = record s {
  client = set s.client i none;
  allset = fd_clr fd s.allset;
  out = s.out ++ (closed fd ∷ []);
}
serve (bytes (b ∷ rest)) i fd s = record s { out = s.out ++ (echoed fd (capitals (b ∷ rest)) ∷ []) }

-- The loop over the clients, with `n` entries left from entry `i` and `k` in `nready`.
pub scan : Round → (n i k : ℕ) → Server → Server
unfolding serve
scan env zero i k s = s
scan env (suc n) i k s = elim (get_elem? s.client i) [
  | none ↦ s
  | some none ↦ scan env n (i + 1) k s
  | some (some fd) ↦ elim (env.ready fd) [
    | false ↦ scan env n (i + 1) k s
    | true ↦ elim (k == 1) [
      | true ↦ serve (env.reads fd) i fd s
      | false ↦ scan env n (i + 1) (k - 1) (serve (env.reads fd) i fd s)
    ]
  ]
]

-- The scan behind an accepted connection, which `continue` leaves out when nothing else is ready.
pub after_accept : Round → Outcome → Outcome
unfolding scan
after_accept env (goes_on t) =
    if env.nready == 1 then goes_on t else goes_on (scan env t.used 0 (env.nready - 1) t)
after_accept env (exits code t) = exits code t
after_accept env undefined = undefined

-- A round of `for ( ; ; )`.
pub round : Round → Server → Outcome
unfolding accept_client after_accept scan
round env s =
    if env.select_fails
    then exits (negsuc 0) s
    else if env.ready s.listenfd
    then after_accept env (accept_client env.connected s)
    else goes_on (scan env s.used 0 env.nready s)
