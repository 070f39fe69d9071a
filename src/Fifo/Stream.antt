-- ===== src/Fifo/Stream.antt =====
-- The fifo as a stream: tasks pass through the mutex one after another, in any order, and no byte
-- is lost, repeated or moved. An attempt is one pass of a handler under the mutex; a task that has
-- to sleep leaves the device alone and makes another attempt when it wakes.
use training.Base.{
  ℕ, ◌≤◌, ◌≡◌, refl, sym, ap, ◌∙◌, inl, inr, List, [], ◌∷◌, ◌++◌, Bool, Option, none, some, length,
  take, append_assoc, append-nil,
}
use training.Kernel.{Copy, Ret, ret, err, St}
use training.Fifo.{Fifo, fifo_clear, Env, read, write, ioctl, poll, Reply}
use training.Fifo.Invariant.{IsValid, contents, ioctl_lem}
use training.Fifo.Handlers.{ReadOutcome, WriteOutcome, read_lem, write_lem}

pub data Attempt : Type 0 where
  reads : (nonblock : Bool) → Copy → (size : ℕ) → Attempt
  writes : (nonblock : Bool) → Copy → (buf : List ℕ) → (size : ℕ) → Attempt
  clears polls : Attempt

-- The device with the bytes handed to readers and taken from writers since it was last cleared.
pub record System : Type 0 where
  pub state : St Fifo
  pub delivered : List ℕ
  pub accepted : List ℕ

abbrev pub attempt_env : Bool → Copy → Env
attempt_env nonblock copy = record { nonblock = nonblock; wakeups = []; copy = copy }

-- What a reader got.
abbrev pub got : Option Reply → List ℕ
got none = []
got (some (r, bytes)) = bytes

-- What was taken from a writer's buffer.
abbrev pub gave : List ℕ → Option Ret → List ℕ
gave buf (some (ret n)) = take n buf
gave buf _ = []

pub attempt : Attempt → System → System
attempt (reads nonblock copy size) s =
    let (r, t) = read (attempt_env nonblock copy) size s.state in
    record s { state = t; delivered = s.delivered ++ got r }
attempt (writes nonblock copy buf size) s =
    let (r, t) = write (attempt_env nonblock copy) buf size s.state in
    record s { state = t; accepted = s.accepted ++ gave buf r }
attempt clears s = record { state = (ioctl fifo_clear s.state).1; delivered = []; accepted = [] }
attempt polls s = record s { state = (poll s.state).1 }

pub run : List Attempt → System → System
run [] s = s
run (a ∷ rest) s = run rest (attempt a s)

-- The size that a writer passes is that of a buffer that it has.
abbrev pub AllLong : List Attempt → Type 0
AllLong [] = Unit {0}
AllLong (writes nonblock copy buf size ∷ rest) = (size ≤ length buf) × AllLong rest
AllLong (_ ∷ rest) = AllLong rest

pub record InOrder (s : System) : Type 0 where
  pub valid : IsValid s.state.dev
  pub stream : s.delivered ++ contents s.state.dev ≡ s.accepted

ReadOutcome-contents :
    (env : Env) (start : Fifo) (size : ℕ) (r : Option Reply) (d d' : Fifo)
    → IsValid d
    → ReadOutcome env start size d r d'
    → (got r ++ contents d' ≡ contents d) × IsValid d'
ReadOutcome-contents env start size none d d' v o = rw o.3 (refl, v)
ReadOutcome-contents env start size (some (ret n, bytes)) d d' v o = (o.3, o.4)
ReadOutcome-contents env start size (some (err e, bytes)) d d' v o = rw (o.1, o.2) (refl, v)

WriteOutcome-contents :
    (env : Env) (start : Fifo) (buf : List ℕ) (size : ℕ) (r : Option Ret) (d d' : Fifo)
    → IsValid d
    → WriteOutcome env start buf size d r d'
    → (contents d' ≡ contents d ++ gave buf r) × IsValid d'
WriteOutcome-contents env start buf size none d d' v o = rw o.3 (sym (append-nil (contents d)), v)
WriteOutcome-contents env start buf size (some (ret n)) d d' v o = (o.2, o.3)
WriteOutcome-contents env start buf size (some (err e)) d d' v o =
    (o.1 ∙ sym (append-nil (contents d)), o.2)

attempt-InOrder : (a : Attempt) (s : System) → AllLong (a ∷ []) → InOrder s → InOrder (attempt a s)
unfolding attempt poll
attempt-InOrder (reads nonblock copy size) s long i =
    let (d, seen, o) = read_lem (attempt_env nonblock copy) size s.state i.valid tt in
    let (r, t) = read (attempt_env nonblock copy) size s.state in
    let (bytes, valid) =
      ReadOutcome-contents (attempt_env nonblock copy) s.state.dev size r d t.dev (rw seen i.valid)
        o in
    record {
      valid = valid;
      stream =
          append_assoc s.delivered (got r) (contents t.dev)
          ∙ ap (◌++◌ s.delivered) (bytes ∙ ap contents seen)
          ∙ i.stream;
    }
attempt-InOrder (writes nonblock copy buf size) s long i =
    let (d, seen, o) = write_lem (attempt_env nonblock copy) buf size long.0 s.state i.valid tt in
    let (r, t) = write (attempt_env nonblock copy) buf size s.state in
    let (bytes, valid) =
      WriteOutcome-contents (attempt_env nonblock copy) s.state.dev buf size r d t.dev
        (rw seen i.valid) o in
    record {
      valid = valid;
      stream =
          ap (◌++◌ s.delivered) (bytes ∙ ap (λ x. contents x ++ gave buf r) seen)
          ∙ sym (append_assoc s.delivered (contents s.state.dev) (gave buf r))
          ∙ ap (λ x. x ++ gave buf r) i.stream;
    }
attempt-InOrder clears s long i = elim (ioctl_lem s.state fifo_clear) [
  | inl done ↦ record { valid = done.3; stream = done.2 }
  | inr other ↦ absurd (other.0 refl)
]
attempt-InOrder polls s long i = record { valid = i.valid; stream = i.stream }

AllLong-cons :
    (a : Attempt) (rest : List Attempt) → AllLong (a ∷ rest) → AllLong (a ∷ []) × AllLong rest
AllLong-cons (reads nonblock copy size) rest h = (tt, h)
AllLong-cons (writes nonblock copy buf size) rest h = ((h.0, tt), h.1)
AllLong-cons clears rest h = (tt, h)
AllLong-cons polls rest h = (tt, h)

-- Whatever the order in which readers, writers, clears and polls get the mutex, and whatever copies
-- fault, where a writer's size is at most that of its buffer: since the last clear, the bytes handed
-- out, followed by those in the queue, are the bytes taken in, in order; and the device stays valid.
pub run-InOrder :
    (attempts : List Attempt) (s : System) → AllLong attempts → InOrder s → InOrder (run attempts s)
unfolding run
run-InOrder [] s long i = i
run-InOrder (a ∷ rest) s long i =
    let (now, later) = AllLong-cons a rest long in
    run-InOrder rest (attempt a s) later (attempt-InOrder a s now i)
