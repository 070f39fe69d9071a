-- ===== src/Ptrace/Tests.antt =====
-- A child that opens a file and writes to it.
use training.Base.{◌≡◌, refl, ℕ, List, [], ◌∷◌, true, false}
use training.Base.Int.{pos}
use training.Ptrace.{Regs, Wait, exited, stopped, trace}
use training.Ptrace.Syscalls.{Call, Stops, ends, other, makes, report, trace_lem}

abbrev regs_of : (number first result : ℕ) → Regs
regs_of number first result = record {
  orig_eax = pos number;
  ebx = pos first;
  ecx = pos 7;
  edx = pos 2;
  eax = pos result;
}

abbrev opens : Call
opens = record { number = pos 5; first = pos 9; second = pos 7; third = pos 2; result = pos 3 }

abbrev writes : Call
writes = record { number = pos 4; first = pos 3; second = pos 7; third = pos 2; result = pos 2 }

abbrev waits : List Wait
waits =
    stopped (regs_of 11 0 0)
    ∷ stopped (regs_of 5 9 0)
    ∷ stopped (regs_of 5 9 3)
    ∷ stopped (regs_of 4 3 0)
    ∷ stopped (regs_of 4 3 2)
    ∷ exited
    ∷ []

waits-Stops : Stops (opens ∷ writes ∷ []) waits
waits-Stops = other (regs_of 11 0 0) refl (
    makes opens (regs_of 5 9 0) (regs_of 5 9 3) refl refl refl refl refl refl
      (makes writes (regs_of 4 3 0) (regs_of 4 3 2) refl refl refl refl refl refl ends))

trace_lem_example :
    trace waits false ≡ record { lines = report (opens ∷ writes ∷ []); ended = true }
trace_lem_example = trace_lem (opens ∷ writes ∷ []) waits waits-Stops
