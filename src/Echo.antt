-- ===== src/Echo.antt =====
-- io/io-models/multi-process-model.c: a server that answers each client in a process of its own. What
-- it does for a client is the same as in select-model.c, and so are the reads and the outputs.
pub mod Stream
pub mod Same
mod Tests
use training.Base.{ℕ, List, [], ◌∷◌, Bool, true, false, Option, none, some, ◌==◌, if◌then◌else◌}
use training.Select.{Output, closed, echoed, misused, Read, failed, bytes, capitals}

-- What `accept` and `fork` answer in a round of the parent; `none` is -1.
pub record Accept : Type 0 where
  pub connfd : Option ℕ
  pub fork_fails : Bool

-- `close(fd)`, on the open descriptors.
pub close : ℕ → List ℕ → List ℕ
close fd [] = []
close fd (x ∷ rest) = let more = close fd rest in if fd == x then rest else x ∷ more

-- The parent's `while (1)`, over its open descriptors; it closes a connection that a child has.
pub parent : List Accept → (open_fds : List ℕ) → List ℕ
parent [] open_fds = open_fds
parent (a ∷ rest) open_fds = elim a.connfd [
  | none ↦ parent rest open_fds
  | some fd ↦ elim a.fork_fails [
    | true ↦ parent rest (fd ∷ open_fds)
    | false ↦ parent rest (close fd (fd ∷ open_fds))
  ]
]

-- What a child has done, and whether it has come to its `exit`.
pub record Child : Type 0 where
  pub out : List Output
  pub ended : Bool

abbrev pub output : Output → Child → Child
output o c = record c { out = o ∷ c.out }

-- The child's `while (1)`, over what its reads give. A read that fails is no end of it.
pub child : List Read → (connfd : ℕ) → Child
child [] connfd = record { out = []; ended = false }
child (bytes [] ∷ rest) connfd = record { out = closed connfd ∷ []; ended = true }
child (bytes (b ∷ more) ∷ rest) connfd =
    output (echoed connfd (capitals (b ∷ more))) (child rest connfd)
child (failed ∷ rest) connfd = output (misused connfd) (child rest connfd)
