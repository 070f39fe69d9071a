-- ===== src/Ptrace/Syscalls.antt =====
-- The tracer of tools/ptrace/trace2.c pairs the stops of a child with its calls of `write`.
use training.Base.{
  ◌≡◌, refl, ap, ◌∙◌, inl, inr, List, [], ◌∷◌, Bool, true, false, if◌then◌else◌, Bool-cases, arith,
}
use training.Base.Int.{ℤ}
use training.Ptrace.{Regs, Wait, exited, stopped, Line, called, returned, is_write, line, trace}

-- A system call that the child makes.
pub record Call : Type 0 where
  pub number : ℤ
  pub first : ℤ
  pub second : ℤ
  pub third : ℤ
  pub result : ℤ

-- What PTRACE_SYSCALL is relied on for: a child that makes these calls and then exits stops when it
-- enters and when it leaves each of them, with the number of the call in ORIG_EAX. It may stop for other
-- reasons outside of its calls, with no `write` in that register.
pub data Stops : List Call → List Wait → Type 0 where
  ends : Stops [] (exited ∷ [])
  other :
      {calls : List Call} {waits : List Wait} (regs : Regs)
      → is_write regs.orig_eax ≡ false
      → Stops calls waits
      → Stops calls (stopped regs ∷ waits)
  makes :
      {calls : List Call} {waits : List Wait} (c : Call) (enter leave : Regs)
      → enter.orig_eax ≡ c.number
      → enter.ebx ≡ c.first
      → enter.ecx ≡ c.second
      → enter.edx ≡ c.third
      → leave.orig_eax ≡ c.number
      → leave.eax ≡ c.result
      → Stops calls waits
      → Stops (c ∷ calls) (stopped enter ∷ stopped leave ∷ waits)

-- Two lines for each call of `write`, and nothing for the others.
abbrev pub report : List Call → List Line
report [] = []
report (c ∷ rest) =
    let more = report rest in
    if is_write c.number then called c.first c.second c.third ∷ returned c.result ∷ more else more

module _ (regs : Regs) (rest : List Wait) where
  trace_other :
      (insyscall : Bool)
      → is_write regs.orig_eax ≡ false
      → trace (stopped regs ∷ rest) insyscall ≡ trace rest insyscall
  unfolding trace
  trace_other insyscall e = rw (trace, e) refl

  trace_enter :
      is_write regs.orig_eax ≡ true
      → trace (stopped regs ∷ rest) false
        ≡ line (called regs.ebx regs.ecx regs.edx) (trace rest true)
  unfolding trace
  trace_enter e = rw (trace, e) refl

  trace_leave :
      is_write regs.orig_eax ≡ true
      → trace (stopped regs ∷ rest) true ≡ line (returned regs.eax) (trace rest false)
  unfolding trace
  trace_leave e = rw (trace, e) refl

-- For a child that makes some system calls and exits, which PTRACE_SYSCALL stops as it is relied on for,
-- the tracer of trace2.c prints two lines for each `write` among them and no other, in the order of
-- the calls, with the three parameters and with the result of that call, and ends.
pub trace_lem :
    (calls : List Call) (waits : List Wait)
    → Stops calls waits
    → trace waits false ≡ record { lines = report calls; ended = true }
unfolding trace
trace_lem _ _ ends = refl
trace_lem _ _ (other {calls = calls} {waits = waits} regs e s) =
    trace_other regs waits false e ∙ trace_lem calls waits s
trace_lem _ _ (makes {calls = calls} {waits = waits} c enter leave n f g h m r s) =
    let more = trace_lem calls waits s in
    elim (Bool-cases (is_write c.number)) [
      | inl e ↦
          trace_enter enter (stopped leave ∷ waits) (ap is_write n ∙ e)
          ∙ ap (line _) (trace_leave leave waits (ap is_write m ∙ e))
          ∙ ground (arith, more)
      | inr e ↦
          trace_other enter (stopped leave ∷ waits) false (ap is_write n ∙ e)
          ∙ trace_other leave waits false (ap is_write m ∙ e)
          ∙ ground (arith, more)
    ]
