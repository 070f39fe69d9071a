-- ===== src/Fifo/Ch8/Same.antt =====
-- The handlers of ch8 are those of ch12 without SIGIO.
use training.Base.{[], ℕ, refl, List, ◌∷◌, inl, inr, Bool-cases, ◌==◌, ap, ◌∙◌}
use training.Kernel.{St, Call, Copy, copied, faulted, mutex_lock, add_wait_queue, r_wait, w_wait}
use training.Fifo.{Fifo, globalfifo_size, fifo_clear, Waited, ready, asleep, out, out2}
use training.Fifo
use training.Fifo.Ch8.{
  Env, read_ready, finish_read, read, write_ready, finish_write, write, ioctl, poll, leave_out,
  leave_out2,
}
use training.Fifo.Ch8.Loop.{forget_wakeups, forget_state, Alike, wait_while-Alike}

abbrev pub forget_env : Fifo.Env → Env
forget_env env = record {
  nonblock = env.nonblock;
  wakeups = forget_wakeups env.wakeups;
  copy = env.copy;
}

finish_read-Alike :
    (copy : Copy) (size : ℕ) (w : Waited) (s : St Fifo)
    → Alike (finish_read copy size w (forget_state s)) (Fifo.finish_read copy size w s)
unfolding finish_read read_ready leave_out leave_out2 Fifo.finish_read Fifo.read_ready
    Fifo.leave_out Fifo.leave_out2
finish_read-Alike copy size asleep s = refl
finish_read-Alike copy size (out2 e) s = refl
finish_read-Alike copy size (out e) s = refl
finish_read-Alike copied size ready s = refl
finish_read-Alike (faulted landed) size ready s = refl

abbrev state : (len : ℕ) → (mem files : List ℕ) → List Call → St Fifo
state len mem files calls = record {
  dev = record { current_len = len; mem = mem; async_queue = files };
  calls = calls;
}

finish_write-copied :
    (buf : List ℕ) (size len : ℕ) (mem files : List ℕ) (calls : List Call)
    → let s = state len mem files calls in
      Alike
        (finish_write copied buf size ready (forget_state s))
        (Fifo.finish_write copied buf size ready s)
unfolding finish_write write_ready leave_out leave_out2 Fifo.finish_write Fifo.write_ready
    Fifo.leave_out Fifo.leave_out2
finish_write-copied buf size len mem [] calls = refl
finish_write-copied buf size len mem (_ ∷ _) calls = refl

finish_write-Alike :
    (copy : Copy) (buf : List ℕ) (size : ℕ) (w : Waited) (s : St Fifo)
    → Alike (finish_write copy buf size w (forget_state s)) (Fifo.finish_write copy buf size w s)
unfolding finish_write write_ready leave_out leave_out2 Fifo.finish_write Fifo.write_ready
    Fifo.leave_out Fifo.leave_out2
finish_write-Alike copy buf size asleep s = refl
finish_write-Alike copy buf size (out2 e) s = refl
finish_write-Alike copy buf size (out e) s = refl
finish_write-Alike copied buf size ready s =
    finish_write-copied buf size s.dev.current_len s.dev.mem s.dev.async_queue s.calls
finish_write-Alike (faulted landed) buf size ready s = refl

read-Alike :
    (env : Fifo.Env) (size : ℕ) (s : St Fifo)
    → Alike (read (forget_env env) size (forget_state s)) (Fifo.read env size s)
unfolding read Fifo.read
read-Alike env size s =
    let s0 : St Fifo = record s { calls = add_wait_queue r_wait ∷ (mutex_lock ∷ s.calls) } in
    let r = Fifo.wait_while (λ len. len == 0) env.nonblock env.wakeups s0 in
    ap (λ q. finish_read env.copy size q.0 q.1)
      (wait_while-Alike (λ len. len == 0) env.nonblock env.wakeups s0)
    ∙ finish_read-Alike env.copy size r.0 r.1

write-Alike :
    (env : Fifo.Env) (buf : List ℕ) (size : ℕ) (s : St Fifo)
    → Alike (write (forget_env env) buf size (forget_state s)) (Fifo.write env buf size s)
unfolding write Fifo.write
write-Alike env buf size s =
    let s0 : St Fifo = record s { calls = add_wait_queue w_wait ∷ (mutex_lock ∷ s.calls) } in
    let r = Fifo.wait_while (λ len. len == globalfifo_size) env.nonblock env.wakeups s0 in
    ap (λ q. finish_write env.copy buf size q.0 q.1)
      (wait_while-Alike (λ len. len == globalfifo_size) env.nonblock env.wakeups s0)
    ∙ finish_write-Alike env.copy buf size r.0 r.1

ioctl-Alike : (cmd : ℕ) (s : St Fifo) → Alike (ioctl cmd (forget_state s)) (Fifo.ioctl cmd s)
unfolding ioctl Fifo.ioctl
ioctl-Alike cmd s = elim (Bool-cases (cmd == fifo_clear)) [ inl e ↦ rw e refl | inr e ↦ rw e refl ]

-- The driver of ch12 refines that of ch8: over the same kernel answers read, write, ioctl and poll of
-- both return the same, leave the same length and memory, and make the same kernel calls and accesses in
-- the same order, but that ch12 tests its queue of SIGIO receivers and may send SIGIO.
pub handlers-Alike :
    (env : Fifo.Env) (buf : List ℕ) (size cmd : ℕ) (s : St Fifo)
    → Alike (read (forget_env env) size (forget_state s)) (Fifo.read env size s)
      × Alike (write (forget_env env) buf size (forget_state s)) (Fifo.write env buf size s)
      × Alike (ioctl cmd (forget_state s)) (Fifo.ioctl cmd s)
      × Alike (poll (forget_state s)) (Fifo.poll s)
unfolding poll Fifo.poll
handlers-Alike env buf size cmd s =
    (read-Alike env size s, write-Alike env buf size s, ioctl-Alike cmd s, refl)
