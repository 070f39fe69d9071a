-- ===== src/Fifo/Tests.antt =====
-- Runs of driver/globalfifo/ch12/globalfifo.c on small inputs.
use mathlib.Core.Logic.{◌↔◌}
use training.Base.{
  ℕ, ◌≡◌, refl, ◌≢◌, inl, inr, List, [], ◌∷◌, Bool, true, false, Option, none, some, arith,
}
use training.Kernel.{Ret, ret, err, eagain, copied, faulted, St}
use training.Kernel.Locks.{unlocked, lock_after}
use training.Fifo.{Fifo, Env, zeroed, read, write, ioctl, poll}
use training.Fifo.Invariant.{IsValid, length-zeroed}
use training.Fifo.Waiting.{Seen}
use training.Fifo.Handlers.{ReadOutcome, WriteOutcome, read_lem, write_lem}
use training.Fifo.Requests.{serve}
use training.Fifo.Requests
use training.Fifo.Locking.{serve-unlocked}
use training.Fifo.WaitQueues.{queue_calls, read_protocol, read_protocol_lem}
use training.Fifo.Stream.{System, InOrder, Attempt, reads, writes, clears, polls, run, run-InOrder}
use training.Fifo.Progress.{prompt, calls_return, poll_lem}
use training.Fifo.Ch8
use training.Fifo.Ch8.Loop.{Alike, forget_state}
use training.Fifo.Ch8.Same.{forget_env, handlers-Alike}

-- Three bytes in the queue, and one file that wants SIGIO.
abbrev three : Fifo
three = record { current_len = 3; mem = zeroed; async_queue = 7 ∷ [] }

abbrev empty : Fifo
empty = record { current_len = 0; mem = zeroed; async_queue = [] }

abbrev at : Fifo → St Fifo
at d = record { dev = d; calls = [] }

three-IsValid : IsValid three
three-IsValid = record { fits = omega arith; size = length-zeroed }

empty-IsValid : IsValid empty
empty-IsValid = record { fits = omega arith; size = length-zeroed }

-- A task that is woken once and finds three bytes.
abbrev woken_once : Env
woken_once = record {
  nonblock = false;
  wakeups = record { signal_pending = false; found = three } ∷ [];
  copy = copied;
}

abbrev fresh : System
fresh = record { state = at empty; delivered = []; accepted = [] }

abbrev attempts : List Attempt
attempts =
    writes false copied (1 ∷ (2 ∷ (3 ∷ []))) 3
    ∷ (reads false copied 2 ∷ (clears ∷ (polls ∷ (writes true (faulted (9 ∷ [])) (4 ∷ []) 1 ∷ []))))

run-InOrder_example : InOrder (run attempts fresh)
run-InOrder_example =
    run-InOrder attempts fresh (omega arith, (omega arith, tt))
      (record { valid = empty-IsValid; stream = refl })

read_lem_example :
    (d : Fifo) × Seen empty woken_once.wakeups d
    × ReadOutcome woken_once empty 2 d
        (read woken_once 2 (at empty)).0
        (read woken_once 2 (at empty)).1.dev
read_lem_example = read_lem woken_once 2 (at empty) empty-IsValid (three-IsValid, tt)

write_lem_example :
    (d : Fifo) × Seen three [] d
    × WriteOutcome prompt three
        (5 ∷ (6 ∷ []))
        2
        d
        (write prompt (5 ∷ (6 ∷ [])) 2 (at three)).0
        (write prompt (5 ∷ (6 ∷ [])) 2 (at three)).1.dev
write_lem_example = write_lem prompt (5 ∷ (6 ∷ [])) 2 (omega arith) (at three) three-IsValid tt

-- A `fasync_helper` that empties the queue when the mode is off.
abbrev helper : Option ℕ → ℕ → Bool → List ℕ → Ret × List ℕ
helper fd filp false files = (ret 0, [])
helper fd filp true files = (ret 1, filp ∷ files)

serve-unlocked_example :
    lock_after unlocked (serve helper (Requests.reads woken_once 2) (at empty)).calls ≡ unlocked
serve-unlocked_example =
    serve-unlocked unlocked helper (Requests.reads woken_once 2) (at empty) refl

calls_return_example :
    ((read woken_once 2 (at empty)).0 ≢ none) × ((write woken_once (5 ∷ []) 2 (at empty)).0 ≢ none)
calls_return_example =
    calls_return woken_once woken_once (5 ∷ []) 2 (at empty) (inr (inl refl)) (inr (inl refl))

poll_lem_example :
    (((poll (at empty)).0.readable ≡ false)
      ↔ ((read prompt 2 (at empty)).0 ≡ some (err eagain, [])))
    × (((poll (at empty)).0.writable ≡ false)
        ↔ ((write prompt (5 ∷ []) 2 (at empty)).0 ≡ some (err eagain)))
    × ((poll (at empty)).1.dev ≡ empty)
poll_lem_example = poll_lem (5 ∷ []) 2 (at empty)

read_protocol_lem_example :
    queue_calls (read prompt 2 (at three)).1.calls ≡ read_protocol (read prompt 2 (at three)).0 []
read_protocol_lem_example = read_protocol_lem prompt 2 (at three)

handlers-Alike_example :
    Alike
      (Ch8.read (forget_env woken_once) 2 (forget_state (at empty)))
      (read woken_once 2 (at empty))
    × Alike
        (Ch8.write (forget_env woken_once) (5 ∷ []) 2 (forget_state (at empty)))
        (write woken_once (5 ∷ []) 2 (at empty))
    × Alike (Ch8.ioctl 1 (forget_state (at empty))) (ioctl 1 (at empty))
    × Alike (Ch8.poll (forget_state (at empty))) (poll (at empty))
handlers-Alike_example = handlers-Alike woken_once (5 ∷ []) 2 1 (at empty)
