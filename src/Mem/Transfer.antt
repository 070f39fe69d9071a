-- ===== src/Mem/Transfer.antt =====
-- globalmem_read and globalmem_write: which bytes they move, and where the position goes.
use Prim.Native.Nat.{min}
use training.Base.{
  ℕ, ◌+◌, ◌-◌, ◌%◌, ◌^◌, ◌≤◌, ◌<◌, ◌≡◌, refl, ◌∙◌, ◌⊎◌, List, [], true, false, arith, ltb, not,
  length, take, drop, get_elem?, write_at, length-take, length-write_at, take-drop-write_at,
  get_elem?-write_at,
}
use training.Base.Int.{ℤ, pos, to_u64}
use training.Kernel.{ret, err, efault, Copy, copied, faulted, St}
use training.Mem.{Globalmem, globalmem_size, clip, read, write}

abbrev pub IsValid : Globalmem → Type 0
IsValid d = length d.mem ≡ globalmem_size

-- How many bytes a transfer of `size` moves at the position `p`: `size` is cut to 32 bits.
abbrev pub moved : ℕ → ℕ → ℕ
moved size p = min (size % 2 ^ 32) (globalmem_size - p)

clip_lem : (size p : ℕ) → clip size p ≡ moved size p
unfolding clip
clip_lem size p = ground arith

module _ (size p : ℕ) (inside : p < globalmem_size) where
  abbrev n : ℕ
  n = moved size p

  position : to_u64 (pos p) ≡ p
  position = omega arith

  on_time : not (ltb p globalmem_size) ≡ false
  on_time = ground arith

  read_copied :
      (s : St Globalmem)
      → ((read copied size (pos p) s).0
          ≡ record { value = ret n; ppos = pos (p + n); bytes = take n (drop p s.dev.mem) })
        × ((read copied size (pos p) s).1.dev ≡ s.dev)
  unfolding read
  read_copied s = rw (position, on_time) (rw (clip_lem size p) (ground arith, refl))

  write_copied :
      (buf : List ℕ) (s : St Globalmem)
      → ((write copied buf size (pos p) s).0
          ≡ record { value = ret n; ppos = pos (p + n); bytes = [] })
        × ((write copied buf size (pos p) s).1.dev.mem ≡ write_at p (take n buf) s.dev.mem)
  unfolding write
  write_copied buf s = rw (position, on_time) (rw (clip_lem size p) (ground arith, refl))

  -- At a position in the memory a read hands over the bytes from there on, as many as are asked for
  -- and there, moves the position behind them and changes no byte; a fault moves nothing.
  pub read_inside_lem :
      (s : St Globalmem) (landed : List ℕ)
      → ((read copied size (pos p) s).0
          ≡ record { value = ret n; ppos = pos (p + n); bytes = take n (drop p s.dev.mem) })
        × ((read copied size (pos p) s).1.dev ≡ s.dev)
        × ((read (faulted landed) size (pos p) s).0
            ≡ record { value = err efault; ppos = pos p; bytes = [] })
        × ((read (faulted landed) size (pos p) s).1.dev ≡ s.dev)
  unfolding read
  read_inside_lem s landed = (
    (read_copied s).0,
    (read_copied s).1,
    rw (position, on_time) refl,
    rw (position, on_time) refl,
  )

  -- At a position in the memory, and with a buffer as long as the size, a write that does not fault puts
  -- the first bytes of the buffer that fit at the position, reports their number and
  -- moves the position behind them; every other byte stays, and so does the size of the memory.
  pub write_inside_lem :
      (buf : List ℕ) (s : St Globalmem)
      → IsValid s.dev
      → size % 2 ^ 32 ≤ length buf
      → ((write copied buf size (pos p) s).0
          ≡ record { value = ret n; ppos = pos (p + n); bytes = [] })
        × (take n (drop p (write copied buf size (pos p) s).1.dev.mem) ≡ take n buf)
        × ((j : ℕ)
            → (j < p) ⊎ (p + n ≤ j)
            → get_elem? (write copied buf size (pos p) s).1.dev.mem j ≡ get_elem? s.dev.mem j)
        × IsValid (write copied buf size (pos p) s).1.dev
  write_inside_lem buf s v long =
      let e = (write_copied buf s).1 in
      let len : length (take n buf) ≡ n = omega (arith, length-take n buf) in
      (
        (write_copied buf s).0,
        rw e (take-drop-write_at p n (take n buf) s.dev.mem (omega arith) len),
        (λ j out.
            rw e (get_elem?-write_at p (take n buf) s.dev.mem j (omega arith) (rw (← len) at out))),
        rw e (length-write_at p (take n buf) s.dev.mem (omega arith) ∙ v),
      )

  -- What was written at a position in the memory, from a buffer as long as the size, is what a read of
  -- the same size finds there, where neither copy faults.
  pub read-write :
      (buf : List ℕ) (s : St Globalmem)
      → IsValid s.dev
      → size % 2 ^ 32 ≤ length buf
      → (read copied size (pos p) (write copied buf size (pos p) s).1).0
        ≡ record { value = ret n; ppos = pos (p + n); bytes = take n buf }
  read-write buf s v long =
      let t = (write copied buf size (pos p) s).1 in
      (read_copied t).0 ∙ rw ((write_inside_lem buf s v long).1) refl

-- Outside the memory, negative positions included, both calls do nothing and return 0.
pub transfer_outside :
    (copy : Copy) (buf : List ℕ) (size : ℕ) (ppos : ℤ) (s : St Globalmem)
    → globalmem_size ≤ to_u64 ppos
    → (read copy size ppos s ≡ (record { value = ret 0; ppos = ppos; bytes = [] }, s))
      × (write copy buf size ppos s ≡ (record { value = ret 0; ppos = ppos; bytes = [] }, s))
unfolding read write
transfer_outside copy buf size ppos s h =
    let late : not (ltb (to_u64 ppos) globalmem_size) ≡ true = ground arith in rw late (refl, refl)
