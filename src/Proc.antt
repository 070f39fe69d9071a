-- ===== src/Proc.antt =====
-- driver/proc/proc.c: a number behind an entry of /proc, for kernels before 3.10 and from it on. The
-- kernel's printing and parsing of a number are parameters.
pub mod Decimal
pub mod Values
mod Tests
use training.Base.{ℕ, ◌+◌, ◌%◌, ◌^◌, List, [], ◌∷◌, ◌++◌, Bool, true, false, if◌then◌else◌}
use training.Kernel.{Ret, ret, err, enomem}

-- What is in /proc: the directory "test_dir", and "test_rw" in it.
pub record Tree : Type 0 where
  pub test_dir : Bool
  pub test_rw : Bool

-- `test_proc_init`; the answers are whether `proc_mkdir` and the creation of the entry return NULL.
pub test_proc_init : (mkdir_fails create_fails : Bool) → Tree → Ret × Tree
test_proc_init true create_fails t = (err enomem, t)
test_proc_init false true t = (err enomem, record t { test_dir = true })
test_proc_init false false t = (ret 0, record { test_dir = true; test_rw = true })

-- `test_proc_cleanup`
pub test_proc_cleanup : Tree → Tree
test_proc_cleanup t = record { test_dir = false; test_rw = false }

-- `print_u` is `%u`, and `simple_strtoul` is given the memory from the buffer on, in base ten.
module _ (print_u : ℕ → List ℕ) (simple_strtoul : List ℕ → ℕ) where
  -- `test_proc_show`
  pub test_proc_show : (variable : ℕ) → List ℕ
  test_proc_show variable = print_u variable ++ b'\n' ∷ []

  -- `test_proc_write`: what it returns, and the `unsigned int` that it leaves in the variable.
  pub test_proc_write : (memory : List ℕ) → (count : ℕ) → ℕ × ℕ
  test_proc_write memory count = (count, simple_strtoul memory % 2 ^ 32)

  -- `test_proc_read` of the older kernels.
  pub test_proc_read : (variable : ℕ) → List ℕ
  test_proc_read variable =
      (b't' ∷ b'e' ∷ b's' ∷ b't' ∷ b'_' ∷ b'r' ∷ b'w' ∷ b' ' ∷ b'=' ∷ b' ' ∷ [])
      ++ (print_u variable ++ b'\n' ∷ [])
