-- ===== src/Fifo/Invariant.antt =====
-- What globalfifo.c keeps true of its device, and what the code under the mutex does to the bytes
-- in the queue.
use Prim.Native.Nat.{min}
use mathlib.Core.Path.{ap₂}
use training.Base.{
  ℕ, ◌+◌, ◌-◌, ◌^◌, ◌≤◌, ◌<◌, ◌≡◌, sym, ap, ◌∙◌, ◌≢◌, ◌⊎◌, inl, inr, List, [], ◌++◌, arith, ◌==◌,
  length, take, drop, write_at, length-take, length-write_at, take-drop-write_at, take-write_at,
  take-add, length-replicate, Bool-cases, drop-take, take-take,
}
use training.Kernel.{efault, einval, ret, err, copied, faulted, St}
use training.Fifo.{
  Fifo, globalfifo_size, sub32, fifo_clear, zeroed, read_ready, write_ready, ioctl, memcpy_down,
}
use training.Fifo.Memory.{length-memcpy_down, take-memcpy_down}

pub record IsValid (d : Fifo) : Type 0 where
  pub fits : d.current_len ≤ globalfifo_size
  pub size : length d.mem ≡ globalfifo_size

-- The bytes in the queue, the oldest first.
abbrev pub contents : Fifo → List ℕ
contents d = take d.current_len d.mem

pub length-contents : {d : Fifo} → IsValid d → length (contents d) ≡ d.current_len
length-contents {d} v = omega (arith, length-take d.current_len d.mem)

pub sub32-le : (a b : ℕ) → b ≤ a → a < 2 ^ 32 → sub32 a b ≡ a - b
sub32-le a b h k = omega arith

-- The number of bytes that a read of `n` takes.
abbrev pub taken : Fifo → ℕ → ℕ
taken d n = min n d.current_len

-- The number of bytes that a write of `n` adds.
abbrev pub added : Fifo → ℕ → ℕ
added d n = min n (globalfifo_size - d.current_len)

module _ (s : St Fifo) (v : IsValid s.dev) (size : ℕ) where
  abbrev n : ℕ
  n = taken s.dev size

  abbrev after_read : Fifo
  after_read = (read_ready copied size s).1.dev

  read_ready_state :
      (after_read.current_len ≡ s.dev.current_len - n)
      × (after_read.mem ≡ memcpy_down n (s.dev.current_len - n) 0 s.dev.mem)
  unfolding read_ready
  read_ready_state = ground (arith, v, sub32-le s.dev.current_len n)

  -- A read under the mutex takes the oldest bytes, as many as are asked for and there.
  pub read_ready_reply : (read_ready copied size s).0 ≡ (ret n, take n (contents s.dev))
  unfolding read_ready
  read_ready_reply = ground (arith, v, take-take n s.dev.current_len s.dev.mem)

  pub read_ready-contents : contents after_read ≡ drop n (contents s.dev)
  read_ready-contents =
      ap₂ take read_ready_state.0 read_ready_state.1
      ∙ take-memcpy_down n (s.dev.current_len - n) s.dev.mem (omega arith)
      ∙ sym (drop-take n s.dev.current_len s.dev.mem (omega arith))

  pub read_ready-IsValid : IsValid after_read
  read_ready-IsValid = omega (
    arith,
    read_ready_state,
    ap length read_ready_state.1,
    length-memcpy_down n (s.dev.current_len - n) 0 s.dev.mem,
  )

module _ (s : St Fifo) (v : IsValid s.dev) (buf : List ℕ) (size : ℕ) where
  abbrev k : ℕ
  k = added s.dev size

  abbrev after_write : Fifo
  after_write = (write_ready copied buf size s).1.dev

  write_ready_state :
      (after_write.current_len ≡ s.dev.current_len + k)
      × (after_write.mem ≡ write_at s.dev.current_len (take k buf) s.dev.mem)
  unfolding write_ready
  write_ready_state = ground (arith, v, sub32-le globalfifo_size s.dev.current_len)

  -- A write under the mutex reports how many of its bytes fit.
  pub write_ready_reply : (write_ready copied buf size s).0 ≡ ret k
  unfolding write_ready
  write_ready_reply = ground (arith, v, sub32-le globalfifo_size s.dev.current_len)

  module _ (long : size ≤ length buf) where
    length-chunk : length (take k buf) ≡ k
    length-chunk = omega (arith, length-take k buf)

    pub write_ready-contents : contents after_write ≡ contents s.dev ++ take k buf
    write_ready-contents =
        ap₂ take write_ready_state.0 write_ready_state.1
        ∙ take-add s.dev.current_len (s.dev.current_len + k) _ (omega arith)
        ∙ ap₂ ◌++◌ (take-write_at s.dev.current_len (take k buf) s.dev.mem (omega arith)) (
            let e : s.dev.current_len + k - s.dev.current_len ≡ k = omega arith in
            rw e (
              take-drop-write_at s.dev.current_len k (take k buf) s.dev.mem (omega arith)
                length-chunk))

  pub write_ready-IsValid : IsValid after_write
  write_ready-IsValid = omega (
    arith,
    write_ready_state,
    ap length write_ready_state.1,
    length-take k buf,
    length-write_at s.dev.current_len (take k buf) s.dev.mem,
  )

-- A copy that faults moves nothing in or out of the queue, whatever it left in the free space.
module _ (s : St Fifo) (v : IsValid s.dev) (landed : List ℕ) (size : ℕ) where
  pub read_ready_faulted :
      ((read_ready (faulted landed) size s).0 ≡ (err efault, []))
      × ((read_ready (faulted landed) size s).1.dev ≡ s.dev)
  unfolding read_ready
  read_ready_faulted = ground arith

  module _ (buf : List ℕ) where
    abbrev after_fault : Fifo
    after_fault = (write_ready (faulted landed) buf size s).1.dev

    write_ready_fault_state :
        (after_fault.current_len ≡ s.dev.current_len)
        × (after_fault.mem ≡ write_at s.dev.current_len (take (added s.dev size) landed) s.dev.mem)
    unfolding write_ready
    write_ready_fault_state = ground (arith, v, sub32-le globalfifo_size s.dev.current_len)

    pub write_ready_faulted :
        ((write_ready (faulted landed) buf size s).0 ≡ err efault)
        × (contents after_fault ≡ contents s.dev)
        × IsValid after_fault
    unfolding write_ready
    write_ready_faulted = (
      ground arith,
      ap₂ take write_ready_fault_state.0 write_ready_fault_state.1
          ∙ take-write_at s.dev.current_len _ s.dev.mem (omega arith),
      omega (
        arith,
        write_ready_fault_state,
        ap length write_ready_fault_state.1,
        length-take (added s.dev size) landed,
        length-write_at s.dev.current_len (take (added s.dev size) landed) s.dev.mem,
      ),
    )

pub length-zeroed : length zeroed ≡ globalfifo_size
unfolding zeroed
length-zeroed = length-replicate {A = ℕ} globalfifo_size 0

-- FIFO_CLEAR empties the queue and the memory; any other command is refused and changes nothing.
pub ioctl_lem :
    (s : St Fifo) (cmd : ℕ)
    → ((cmd ≡ fifo_clear)
        × ((ioctl cmd s).0 ≡ ret 0)
        × (contents (ioctl cmd s).1.dev ≡ [])
        × IsValid (ioctl cmd s).1.dev)
      ⊎ ((cmd ≢ fifo_clear) × ((ioctl cmd s).0 ≡ err einval) × ((ioctl cmd s).1 ≡ s))
unfolding ioctl
ioctl_lem s cmd = elim (Bool-cases (cmd == fifo_clear)) [
  | inl e ↦ inl (ground arith, ground arith, ground arith, ground (arith, length-zeroed))
  | inr e ↦ inr (ground arith, ground arith, ground arith)
]
