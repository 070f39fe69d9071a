-- ===== src/Eintr.antt =====
-- io/io-models/eintr.c: a read that is made again when a signal interrupts it.
pub mod Retry
mod Tests
use training.Base.{ℕ, List, [], ◌∷◌, Bool, true, false, Option, none, some, ltb, if◌then◌else◌}
use training.Base.Int.{ℤ, pos, negsuc}

-- What `read` returns: a count, -1 with EINTR, or -1 with another error.
pub data Answer : Type 0 where
  got : (n : ℕ) → Answer
  eintr error : Answer

pub data Line : Type 0 where
  sigaction_failed retry_after_eintr : Line
  read_bytes : (n : ℕ) → Line

-- What is printed, and what `main` returns; `none` while it still reads.
pub record Run : Type 0 where
  pub lines : List Line
  pub result : Option ℤ

abbrev line : Line → Run → Run
line l r = record r { lines = l ∷ r.lines }

-- The loop and what follows it, over the answers of `read`.
pub retry : List Answer → Run
retry [] = record { lines = []; result = none }
retry (eintr ∷ rest) = line retry_after_eintr (retry rest)
retry (error ∷ rest) = record { lines = []; result = some (pos 0) }
retry (got n ∷ rest) = record {
  lines = if ltb 0 n then read_bytes n ∷ [] else [];
  result = some (pos 0);
}

pub main : (sigaction_fails : Bool) → List Answer → Run
main true answers = record { lines = sigaction_failed ∷ []; result = some (negsuc 0) }
main false answers = retry answers
