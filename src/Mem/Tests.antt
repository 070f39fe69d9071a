-- ===== src/Mem/Tests.antt =====
-- Runs of driver/globalmem/ch6/globalmem.c and ch7/globalmem.c on small inputs.
use training.Base.{zero, suc, some, ◌≢◌, ℕ, ◌≡◌, refl, List, [], ◌∷◌, arith, length-replicate}
use training.Base.Int.{pos, negsuc}
use training.Kernel.{ret, copied, St}
use training.Mem.{Globalmem, globalmem_size, zeroed, read, write, ioctl, llseek}
use training.Mem.Seek.{InMemory, llseek-InMemory}
use training.Mem.Transfer.{IsValid, read-write}
use training.Mem.Ch7
use training.Mem.Multi.{File, Op, globalmem_open, writes, ioctls, step, read_file}
use training.Mem.Multi.Isolation.{run, read_file-write}
use training.Mem.Ch7.{Same, mutex_calls, handlers-Same, writers-unlocked}

abbrev blank : St Globalmem
blank = record { dev = record { mem = zeroed }; calls = [] }

blank-IsValid : IsValid blank.dev
unfolding zeroed
blank-IsValid = length-replicate {A = ℕ} globalmem_size 0

abbrev two : List ℕ
two = 5 ∷ (6 ∷ [])

read-write_example :
    (read copied 2 (pos 10) (write copied two 2 (pos 10) blank).1).0
    ≡ record { value = ret 2; ppos = pos 12; bytes = two }
read-write_example = read-write 2 10 (omega arith) two blank blank-IsValid (omega arith)

llseek-InMemory_example : InMemory (llseek (negsuc 4) 1 (pos 3)).1
llseek-InMemory_example = llseek-InMemory (negsuc 4) 1 (pos 3) (omega arith)

handlers-Same_example :
    Same (Ch7.read copied 2 (pos 10) blank) (read copied 2 (pos 10) blank)
    × Same (Ch7.write copied two 2 (pos 10) blank) (write copied two 2 (pos 10) blank)
    × Same (Ch7.ioctl 1 blank) (ioctl 1 blank)
handlers-Same_example = handlers-Same copied two 2 1 (pos 10) blank

abbrev at_ten : File
at_ten = record { private_data = 99; f_pos = pos 10 }

-- The device of minor number 2 is cleared between the write to that of 1 and the read of it.
abbrev clears : List Op
clears = ioctls (globalmem_open 2 at_ten) 1 ∷ []

abbrev devices : List Globalmem
devices = blank.dev ∷ (blank.dev ∷ (blank.dev ∷ []))

two-ne-one : suc (suc zero) ≢ suc zero
two-ne-one e = absurd (omega (arith, e))

elsewhere : (globalmem_open 2 at_ten).private_data ≢ 1
unfolding globalmem_open
elsewhere = two-ne-one

read_file-write_example :
    read_file
      (globalmem_open 1 at_ten)
      copied
      2
      (run clears (step (writes (globalmem_open 1 at_ten) copied two 2) devices))
    ≡ some (record { value = ret 2; ppos = pos 12; bytes = two })
unfolding globalmem_open
read_file-write_example =
    read_file-write 1 10 2 at_ten at_ten two clears devices blank.dev (omega arith) refl
      blank-IsValid (omega arith) (elsewhere, tt)
