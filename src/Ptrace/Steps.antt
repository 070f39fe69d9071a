-- ===== src/Ptrace/Steps.antt =====
-- The count of instructions of tools/ptrace/debugger.c.
use training.Base.{
  ℕ, suc, ◌+◌, ◌%◌, ◌^◌, ◌≡◌, refl, sym, ap, ◌∙◌, List, [], ◌∷◌, ◌++◌, true, false, arith, length,
  append-nil,
}
use training.Ptrace.{
  Stop, Message, instruction, executed, debugger_started, ptrace_error, debug, run_debugger,
}

-- The messages on stops, numbered from `n` on.
abbrev pub numbered : List Stop → (n : ℕ) → List Message
numbered [] n = []
numbered (stop ∷ rest) n =
    instruction (n % 2 ^ 32) (stop.rip % 2 ^ 32) (stop.word % 2 ^ 32) ∷ numbered rest (suc n)

abbrev pub Steps : List Stop → Type 0
Steps [] = Unit {0}
Steps (stop ∷ rest) = (stop.step_fails ≡ false) × Steps rest

count_next : (n : ℕ) → (n % 2 ^ 32 + 1) % 2 ^ 32 ≡ suc n % 2 ^ 32
count_next n = omega arith

debug-append :
    (stops more : List Stop) (n : ℕ)
    → Steps stops
    → debug (stops ++ more) (n % 2 ^ 32)
      ≡ numbered stops (suc n) ++ debug more ((n + length stops) % 2 ^ 32)
unfolding debug
debug-append [] more n h = ap (λ m. debug more (m % 2 ^ 32)) (omega arith)
debug-append (stop ∷ rest) more n (e, h) =
    let all : n + suc (length rest) ≡ suc n + length rest = omega arith in
    rw (debug, e, count_next n)
      (ap (◌∷◌ (instruction (suc n % 2 ^ 32) (stop.rip % 2 ^ 32) (stop.word % 2 ^ 32))) (
        debug-append rest more (suc n) h
        ∙ ap (λ m. numbered rest (suc (suc n)) ++ debug more (m % 2 ^ 32)) (sym all)))

debug_end : (n : ℕ) → debug [] n ≡ executed n ∷ []
unfolding debug
debug_end n = refl

debug_refused :
    (stop : Stop) (more : List Stop) (n : ℕ)
    → stop.step_fails ≡ true
    → debug (stop ∷ more) (n % 2 ^ 32) ≡ numbered (stop ∷ []) (suc n) ++ ptrace_error ∷ []
unfolding debug
debug_refused stop more n e = rw (debug, e, count_next n) refl

abbrev debug_from : List Stop → List Message
debug_from stops = debug stops 0

zero_add : (n : ℕ) → 0 + n ≡ n
zero_add n = omega arith

-- The debugger of debugger.c, on a child with steps that PTRACE_SINGLESTEP all makes, reports each stop
-- in order under its number, cut to 32 bits, and in the end the number of stops; where a step is
-- refused behind such steps, it reports the stops up to that one and then the error, and nothing more.
pub run_debugger_lem :
    (stops : List Stop) (stop : Stop) (more : List Stop)
    → Steps stops
    → stop.step_fails ≡ true
    → (run_debugger stops
        ≡ debugger_started ∷ (numbered stops 1 ++ executed (length stops % 2 ^ 32) ∷ []))
      × (run_debugger (stops ++ stop ∷ more)
          ≡ debugger_started
            ∷ (numbered stops 1
                ++ (numbered (stop ∷ []) (suc (length stops)) ++ ptrace_error ∷ [])))
unfolding run_debugger
run_debugger_lem stops stop more h e = (
  ap (◌∷◌ debugger_started) (
      ap debug_from (sym (append-nil stops))
      ∙ debug-append stops [] 0 h
      ∙ ap (λ m. numbered stops 1 ++ debug [] (m % 2 ^ 32)) (zero_add (length stops))
      ∙ ap (◌++◌ (numbered stops 1)) (debug_end (length stops % 2 ^ 32))),
  ap (◌∷◌ debugger_started) (
      debug-append stops (stop ∷ more) 0 h
      ∙ ap (λ m. numbered stops 1 ++ debug (stop ∷ more) (m % 2 ^ 32)) (zero_add (length stops))
      ∙ ap (◌++◌ (numbered stops 1)) (debug_refused stop more (length stops) e)),
)
