-- ===== src/Ptrace.antt =====
-- tools/ptrace: trace2.c prints the calls of `write` that a child makes, debugger.c counts its
-- instructions. What the child does is seen through `wait` and `ptrace`, whose answers are arguments.
pub mod Syscalls
pub mod Steps
mod Tests
use training.Base.{
  ℕ, zero, suc, ◌+◌, ◌%◌, ◌^◌, List, [], ◌∷◌, ◌++◌, Bool, true, false, not, ltb, ◌==◌,
  if◌then◌else◌,
}
use training.Base.Int.{ℤ, pos, negsuc, is_negative}

-- SYS_write, where the registers are EAX, EBX, ECX and EDX.
abbrev pub sys_write : ℕ
sys_write = 4

-- What PTRACE_PEEKUSER gives for a child that is stopped.
pub record Regs : Type 0 where
  pub orig_eax : ℤ
  pub ebx : ℤ
  pub ecx : ℤ
  pub edx : ℤ
  pub eax : ℤ

-- What the status says after a `wait`.
pub data Wait : Type 0 where
  exited killed : Wait
  stopped : Regs → Wait

pub data Line : Type 0 where
  called : (a b c : ℤ) → Line
  returned : (value : ℤ) → Line

-- The lines that are printed, and whether the loop has ended.
pub record Trace : Type 0 where
  pub lines : List Line
  pub ended : Bool

abbrev pub is_write : ℤ → Bool
is_write (pos n) = n == sys_write
is_write (negsuc n) = false

abbrev pub line : Line → Trace → Trace
line l t = record t { lines = l ∷ t.lines }

-- `while (1)` of trace2.c. For a child that was killed, PTRACE_PEEKUSER fails with -1, which is no call.
pub trace : List Wait → (insyscall : Bool) → Trace
trace [] insyscall = record { lines = []; ended = false }
trace (exited ∷ rest) insyscall = record { lines = []; ended = true }
trace (killed ∷ rest) insyscall = trace rest insyscall
trace (stopped regs ∷ rest) insyscall = elim (is_write regs.orig_eax) [
  | false ↦ trace rest insyscall
  | true ↦ elim insyscall [
    | false ↦ line (called regs.ebx regs.ecx regs.edx) (trace rest true)
    | true ↦ line (returned regs.eax) (trace rest false)
  ]
]

-- What debugger.c prints. `fork` stands for the message of a fork that failed.
pub data Message : Type 0 where
  usage fork_error ptrace_error debugger_started target_started : Message
  instruction : (icounter ip instr : ℕ) → Message
  executed : (icounter : ℕ) → Message

-- A stop of the child: `regs.rip`, the word that PTRACE_PEEKTEXT finds there, and whether
-- PTRACE_SINGLESTEP is refused.
pub record Stop : Type 0 where
  pub rip : ℕ
  pub word : ℕ
  pub step_fails : Bool

-- The loop of `run_debugger`, over the stops up to the end of the child. `instr` is an `unsigned`, and
-- `%08x` prints as many bits of the address.
pub debug : List Stop → (icounter : ℕ) → List Message
debug [] icounter = executed icounter ∷ []
debug (stop ∷ rest) icounter =
    let count = (icounter + 1) % 2 ^ 32 in
    let shown = instruction count (stop.rip % 2 ^ 32) (stop.word % 2 ^ 32) in
    elim stop.step_fails [ true ↦ shown ∷ ptrace_error ∷ [] | false ↦ shown ∷ debug rest count ]

pub run_debugger : List Stop → List Message
unfolding debug
run_debugger stops = debugger_started ∷ debug stops 0

-- `run_target`, up to the program that takes its place.
pub run_target : (traceme_fails : Bool) → List Message
run_target true = target_started ∷ ptrace_error ∷ []
run_target false = target_started ∷ []

-- What `main` of debugger.c returns and prints, with the number of its arguments and what `fork` gives.
pub main : (argc : ℕ) → (child_pid : ℤ) → (traceme_fails : Bool) → List Stop → ℤ × List Message
unfolding run_debugger run_target
main argc child_pid traceme_fails stops =
    if ltb argc 2 then (negsuc 0, usage ∷ []) else elim child_pid [
      | negsuc n ↦ (negsuc 0, fork_error ∷ [])
      | pos zero ↦ (pos 0, run_target traceme_fails)
      | pos (suc n) ↦ (pos 0, run_debugger stops)
    ]
