-- ===== src/Fifo/Handlers.antt =====
-- globalfifo_read and globalfifo_write as wholes: what each returns and does to the queue.
use training.Base.{
  ℕ, ◌≤◌, ◌<◌, ◌≡◌, refl, ◌≢◌, ◌⊎◌, inl, inr, List, [], ◌∷◌, ◌++◌, true, false, Option, none, some,
  arith, ◌==◌, length, take, take-append-drop, length-take,
}
use training.Kernel.{
  Errno, efault, eagain, erestartsys, Ret, ret, err, Copy, copied, faulted, St, mutex_lock,
  add_wait_queue, r_wait, w_wait,
}
use training.Fifo.{
  Fifo, globalfifo_size, Wakeup, Env, Waited, ready, out, out2, asleep, wait_while, leave_out,
  leave_out2, finish_read, read, finish_write, write, Reply,
}
use training.Fifo.Invariant.{
  IsValid, contents, length-contents, taken, added, read_ready_reply, read_ready-contents,
  read_ready-IsValid, read_ready_faulted, write_ready_reply, write_ready-contents,
  write_ready-IsValid, write_ready_faulted,
}
use training.Fifo.Waiting.{Seen, Silent, Interrupted, Left, wait_while_lem}

-- The other tasks keep the device valid.
abbrev pub AllValid : List Wakeup → Type 0
AllValid [] = Unit {0}
AllValid (w ∷ ws) = IsValid w.found × AllValid ws

Seen-IsValid :
    (start : Fifo) (ws : List Wakeup) (d : Fifo)
    → IsValid start
    → AllValid ws
    → Seen start ws d
    → IsValid d
Seen-IsValid start [] d v vs e = rw e v
Seen-IsValid start (w ∷ ws) d v vs (inl e) = rw e v
Seen-IsValid start (w ∷ ws) d v vs (inr seen) = Seen-IsValid w.found ws d vs.0 vs.1 seen

-- Why a call that found the device `start` and saw `d` last returns an error; `blocked` is what it would
-- have waited on.
abbrev pub Refusal : Env → (start d : Fifo) → Errno → Type 0 → Type 0
Refusal env start d e blocked =
    ((e ≡ eagain) × (env.nonblock ≡ true) × blocked)
    ⊎ ((e ≡ erestartsys) × (env.nonblock ≡ false) × blocked × Interrupted start env.wakeups d)
    ⊎ ((e ≡ efault) × (env.copy ≢ copied))

-- A read that found the device `start`, saw `d` last before its transfer, and left `d'`.
abbrev pub ReadOutcome : Env → Fifo → ℕ → Fifo → Option Reply → Fifo → Type 0
ReadOutcome env start size d none d' =
    (env.nonblock ≡ false) × (d.current_len ≡ 0) × Silent env.wakeups × (d' ≡ d)
ReadOutcome env start size d (some (ret n, bytes)) d' =
    (0 < d.current_len)
    × (n ≡ taken d size)
    × (length bytes ≡ n)
    × (bytes ++ contents d' ≡ contents d)
    × IsValid d'
ReadOutcome env start size d (some (err e, bytes)) d' =
    Refusal env start d e (d.current_len ≡ 0) × (bytes ≡ []) × (d' ≡ d)

-- The same of a write.
abbrev pub WriteOutcome : Env → Fifo → List ℕ → ℕ → Fifo → Option Ret → Fifo → Type 0
WriteOutcome env start buf size d none d' =
    (env.nonblock ≡ false) × (d.current_len ≡ globalfifo_size) × Silent env.wakeups × (d' ≡ d)
WriteOutcome env start buf size d (some (ret n)) d' =
    (d.current_len < globalfifo_size)
    × (n ≡ added d size)
    × (contents d' ≡ contents d ++ take n buf)
    × IsValid d'
WriteOutcome env start buf size d (some (err e)) d' =
    Refusal env start d e (d.current_len ≡ globalfifo_size)
    × (contents d' ≡ contents d)
    × IsValid d'

finish_read_lem :
    (env : Env) (start : Fifo) (copy : Copy) (size : ℕ) (w : Waited) (s : St Fifo)
    → env.copy ≡ copy
    → IsValid s.dev
    → Left (λ len. len == 0) env.nonblock start env.wakeups w s.dev
    → ReadOutcome env start size s.dev
        (finish_read copy size w s).0
        (finish_read copy size w s).1.dev
unfolding finish_read leave_out leave_out2
finish_read_lem env start copy size asleep s e v left = ground arith
finish_read_lem env start copy size (out er) s e v left = ground arith
finish_read_lem env start copy size (out2 er) s e v left = ground arith
finish_read_lem env start copied size ready s e v left = rw (read_ready_reply s v size) (
  ground arith,
  refl,
  omega (arith, length-take (taken s.dev size) (contents s.dev), length-contents v),
  rw (read_ready-contents s v size) (take-append-drop (taken s.dev size) (contents s.dev)),
  read_ready-IsValid s v size,
)
finish_read_lem env start (faulted landed) size ready s e v left =
    let (reply, dev) = read_ready_faulted s v landed size in
    rw (reply, dev) (inr (inr (refl, ground arith)), refl, refl)

-- On a valid device that the other tasks keep valid, a read that does not sleep on either hands over
-- the oldest bytes of the queue that it saw last, as many as are asked for and there, and leaves the
-- rest in order; or it fails and changes nothing: with -EAGAIN where it may not block and saw the queue
-- empty, with -ERESTARTSYS where it may, saw it empty, and the next wake-up was the first one that
-- brought a signal, with -EFAULT where the copy faults. One that sleeps on is blocking, saw the queue
-- empty, got no signal and changes nothing.
pub read_lem :
    (env : Env) (size : ℕ) (s : St Fifo)
    → IsValid s.dev
    → AllValid env.wakeups
    → (d : Fifo) × Seen s.dev env.wakeups d
      × ReadOutcome env s.dev size d (read env size s).0 (read env size s).1.dev
unfolding read
read_lem env size s v vs =
    let s0 : St Fifo = record s { calls = add_wait_queue r_wait ∷ mutex_lock ∷ s.calls } in
    let (w, t) = wait_while (λ len. len == 0) env.nonblock env.wakeups s0 in
    let (seen, left, _) = wait_while_lem (λ len. len == 0) env.nonblock env.wakeups s0 in
    (
      t.dev,
      seen,
      finish_read_lem env s.dev env.copy size w t refl
          (Seen-IsValid s.dev env.wakeups t.dev v vs seen) left,
    )

module _ (env : Env) (buf : List ℕ) (size : ℕ) (long : size ≤ length buf) where
  finish_write_lem :
      (start : Fifo) (copy : Copy) (w : Waited) (s : St Fifo)
      → env.copy ≡ copy
      → IsValid s.dev
      → Left (λ len. len == globalfifo_size) env.nonblock start env.wakeups w s.dev
      → WriteOutcome env start buf size s.dev
          (finish_write copy buf size w s).0
          (finish_write copy buf size w s).1.dev
  unfolding finish_write leave_out leave_out2
  finish_write_lem start copy asleep s e v left = ground arith
  finish_write_lem start copy (out er) s e v left = ground arith
  finish_write_lem start copy (out2 er) s e v left = ground arith
  finish_write_lem start copied ready s e v left =
      rw (write_ready_reply s v buf size) (
        ground arith,
        refl,
        write_ready-contents s v buf size long,
        write_ready-IsValid s v buf size,
      )
  finish_write_lem start (faulted landed) ready s e v left =
      let (reply, bytes, valid) = write_ready_faulted s v landed size buf in
      rw reply (inr (inr (refl, ground arith)), bytes, valid)

  -- On a valid device that the other tasks keep valid, and with a buffer as long as its size, a write
  -- that does not sleep on appends the first bytes of the buffer that fit to the queue that it saw
  -- last, and reports their number; or it fails and the queue stays: with -EAGAIN where it may not block
  -- and saw the queue full, with -ERESTARTSYS where it may, saw it full, and the next wake-up was the
  -- first one that brought a signal, with -EFAULT where the copy faults. One that sleeps on is blocking,
  -- saw the queue full, got no signal and changes nothing.
  pub write_lem :
      (s : St Fifo)
      → IsValid s.dev
      → AllValid env.wakeups
      → (d : Fifo) × Seen s.dev env.wakeups d
        × WriteOutcome env s.dev buf size d (write env buf size s).0 (write env buf size s).1.dev
  unfolding write
  write_lem s v vs =
      let s0 : St Fifo = record s { calls = add_wait_queue w_wait ∷ mutex_lock ∷ s.calls } in
      let (w, t) = wait_while (λ len. len == globalfifo_size) env.nonblock env.wakeups s0 in
      let (seen, left, _) =
        wait_while_lem (λ len. len == globalfifo_size) env.nonblock env.wakeups s0 in
      (
        t.dev,
        seen,
        finish_write_lem s.dev env.copy w t refl (Seen-IsValid s.dev env.wakeups t.dev v vs seen)
            left,
      )
