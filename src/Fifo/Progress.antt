-- ===== src/Fifo/Progress.antt =====
-- When the calls of globalfifo.c return at all, and what poll promises about them.
use mathlib.Core.Logic.{◌↔◌}
use training.Base.{ℕ, ◌≡◌, refl, ◌≢◌, List, [], ◌∷◌, true, false, none, some, arith, ◌==◌}
use training.Kernel.{eagain, err, Copy, copied, St, mutex_lock, add_wait_queue, r_wait, w_wait}
use training.Fifo.{
  Fifo, globalfifo_size, Env, Waited, ready, out, out2, asleep, wait_while, read_ready, write_ready,
  leave_out, finish_read, read, finish_write, write, poll,
}
use training.Fifo.Waiting.{Awakens, Awakens-ne-asleep}

finish_read-ne-none :
    (copy : Copy) (size : ℕ) (w : Waited) (s : St Fifo)
    → w ≢ asleep
    → (finish_read copy size w s).0 ≢ none
unfolding finish_read
finish_read-ne-none copy size asleep s h = absurd (h refl)
finish_read-ne-none copy size (out e) s h = λ r. cc
finish_read-ne-none copy size (out2 e) s h = λ r. cc
finish_read-ne-none copy size ready s h = λ r. cc

finish_write-ne-none :
    (copy : Copy) (buf : List ℕ) (size : ℕ) (w : Waited) (s : St Fifo)
    → w ≢ asleep
    → (finish_write copy buf size w s).0 ≢ none
unfolding finish_write
finish_write-ne-none copy buf size asleep s h = absurd (h refl)
finish_write-ne-none copy buf size (out e) s h = λ r. cc
finish_write-ne-none copy buf size (out2 e) s h = λ r. cc
finish_write-ne-none copy buf size ready s h = λ r. cc

-- A read returns if some wake-up brings a signal or finds a byte in the queue.
pub read_returns :
    (env : Env) (size : ℕ) (s : St Fifo)
    → Awakens (λ len. len == 0) env.wakeups
    → (read env size s).0 ≢ none
unfolding read
read_returns env size s h =
    let s0 : St Fifo = record s { calls = add_wait_queue r_wait ∷ (mutex_lock ∷ s.calls) } in
    let (w, t) = wait_while (λ len. len == 0) env.nonblock env.wakeups s0 in
    finish_read-ne-none env.copy size w t
      (Awakens-ne-asleep (λ len. len == 0) env.nonblock env.wakeups s0 h)

-- A write returns if some wake-up brings a signal or finds room in the queue.
pub write_returns :
    (env : Env) (buf : List ℕ) (size : ℕ) (s : St Fifo)
    → Awakens (λ len. len == globalfifo_size) env.wakeups
    → (write env buf size s).0 ≢ none
unfolding write
write_returns env buf size s h =
    let s0 : St Fifo = record s { calls = add_wait_queue w_wait ∷ (mutex_lock ∷ s.calls) } in
    let (w, t) = wait_while (λ len. len == globalfifo_size) env.nonblock env.wakeups s0 in
    finish_write-ne-none env.copy buf size w t
      (Awakens-ne-asleep (λ len. len == globalfifo_size) env.nonblock env.wakeups s0 h)

-- A read returns if some wake-up brings a signal or finds a byte in the queue, and a write if some
-- wake-up brings a signal or finds room in it.
pub calls_return :
    (env wenv : Env) (buf : List ℕ) (size : ℕ) (s : St Fifo)
    → Awakens (λ len. len == 0) env.wakeups
    → Awakens (λ len. len == globalfifo_size) wenv.wakeups
    → ((read env size s).0 ≢ none) × ((write wenv buf size s).0 ≢ none)
calls_return env wenv buf size s h g = (read_returns env size s h, write_returns wenv buf size s g)

-- A call on a file opened with O_NONBLOCK, whose copy does not fault.
abbrev pub prompt : Env
prompt = record { nonblock = true; wakeups = []; copy = copied }

read_refused :
    (size : ℕ) (s : St Fifo)
    → ((poll s).0.readable ≡ false) ↔ ((read prompt size s).0 ≡ some (err eagain, []))
unfolding poll read wait_while finish_read leave_out read_ready
read_refused size s = (λ h. ground arith, λ h. ground arith)

write_refused :
    (buf : List ℕ) (size : ℕ) (s : St Fifo)
    → ((poll s).0.writable ≡ false) ↔ ((write prompt buf size s).0 ≡ some (err eagain))
unfolding poll write wait_while finish_write leave_out write_ready
write_refused buf size s = (λ h. ground arith, λ h. ground arith)

-- Poll reports a file as readable, or writable, exactly when a call that must not block and whose
-- copy does not fault would not be put off with EAGAIN; and it leaves the device as it was.
pub poll_lem :
    (buf : List ℕ) (size : ℕ) (s : St Fifo)
    → (((poll s).0.readable ≡ false) ↔ ((read prompt size s).0 ≡ some (err eagain, [])))
      × (((poll s).0.writable ≡ false) ↔ ((write prompt buf size s).0 ≡ some (err eagain)))
      × ((poll s).1.dev ≡ s.dev)
unfolding poll
poll_lem buf size s = (read_refused size s, write_refused buf size s, refl)
