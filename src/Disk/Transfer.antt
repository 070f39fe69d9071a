-- ===== src/Disk/Transfer.antt =====
-- vmem_disk_transfer: which bytes of the data array it may touch.
use training.Base.{
  ℕ, ◌+◌, ◌-◌, ◌*◌, ◌^◌, ◌≤◌, ◌<◌, ◌≡◌, refl, ◌∙◌, ◌⊎◌, inl, inr, List, Bool, true, false, Option,
  none, some, arith, ltb, Bool-cases, length, take, drop, get_elem?, write_at, length-take,
  length-write_at, take-drop-write_at, get_elem?-write_at,
}
use training.Disk.{Dev, Moved, Access, transfer, u64}

-- The data array has the size that the device says.
abbrev pub IsValid : Dev → Type 0
IsValid d = length d.bytes ≡ d.size

-- The request is one that `unsigned long` can count in bytes.
abbrev pub Countable : (sector nsect : ℕ) → Type 0
Countable sector nsect = sector + nsect < 2 ^ 55

module _ (dev : Dev) (sector nsect : ℕ) (buffer : List ℕ) where
  abbrev from : ℕ
  from = sector * 512

  abbrev count : ℕ
  count = nsect * 512

  transfer_beyond :
      (write : Bool)
      → Countable sector nsect
      → dev.size < from + count
      → transfer dev sector nsect buffer write
        ≡ record { dev = dev; buffer = buffer; access = none }
  unfolding transfer
  transfer_beyond write small beyond =
      let e : ltb dev.size (u64 (u64 from + u64 count)) ≡ true = ground arith in rw e

  abbrev inside : Option Access
  inside = some (record { offset = from; count = count })

  pub transfer_write :
      Countable sector nsect
      → from + count ≤ dev.size
      → transfer dev sector nsect buffer true ≡ record {
        dev = record dev { bytes = write_at from (take count buffer) dev.bytes };
        buffer = buffer;
        access = inside;
      }
  unfolding transfer
  transfer_write small fits =
      let e : ltb dev.size (u64 (u64 from + u64 count)) ≡ false = ground arith in
      let o : u64 from ≡ from = omega arith in
      let n : u64 count ≡ count = omega arith in rw e (rw (o, n))

  pub transfer_read :
      Countable sector nsect
      → from + count ≤ dev.size
      → transfer dev sector nsect buffer false ≡ record {
        dev = dev;
        buffer = write_at 0 (take count (drop from dev.bytes)) buffer;
        access = inside;
      }
  unfolding transfer
  transfer_read small fits =
      let e : ltb dev.size (u64 (u64 from + u64 count)) ≡ false = ground arith in
      let o : u64 from ≡ from = omega arith in
      let n : u64 count ≡ count = omega arith in rw e (rw (o, n))

-- What a transfer may do: touch a range inside the array, or, beyond its end, nothing.
abbrev pub Safe : Dev → (sector nsect : ℕ) → (buffer : List ℕ) → Moved → Type 0
Safe dev sector nsect buffer m =
    IsValid m.dev
    × (((dev.size < from dev sector nsect buffer + count dev sector nsect buffer)
          × (m ≡ record { dev = dev; buffer = buffer; access = none }))
        ⊎ ((from dev sector nsect buffer + count dev sector nsect buffer ≤ length dev.bytes)
            × (m.access ≡ inside dev sector nsect buffer)))

-- On a valid device, and with a buffer that is long enough, a transfer that `unsigned long` can count
-- touches exactly the sectors that it names, all inside the
-- data array, and keeps the array's size; one that reaches beyond the end moves nothing.
pub transfer-Safe :
    (dev : Dev) (sector nsect : ℕ) (buffer : List ℕ) (write : Bool)
    → IsValid dev
    → Countable sector nsect
    → nsect * 512 ≤ length buffer
    → Safe dev sector nsect buffer (transfer dev sector nsect buffer write)
transfer-Safe dev sector nsect buffer write v small long =
    elim (Bool-cases (ltb dev.size (sector * 512 + nsect * 512))) [
      | inl beyond ↦
          let h : dev.size < sector * 512 + nsect * 512 = ground arith in
          rw (transfer_beyond dev sector nsect buffer write small h) (v, inl (h, refl))
      | inr fits ↦ within write (ground arith)
    ]
  where
    within :
        (w : Bool)
        → sector * 512 + nsect * 512 ≤ dev.size
        → Safe dev sector nsect buffer (transfer dev sector nsect buffer w)
    within true h = rw (transfer_write dev sector nsect buffer small h) (
      length-write_at (sector * 512) (take (nsect * 512) buffer) dev.bytes
            (omega (arith, length-take (nsect * 512) buffer))
          ∙ v,
      inr (omega arith, refl),
    )
    within false h = rw (transfer_read dev sector nsect buffer small h) (v, inr (omega arith, refl))

-- What was written to some sectors is what a read of them brings, whatever was in its buffer.
pub transfer-transfer :
    (dev : Dev) (sector nsect : ℕ) (source target : List ℕ)
    → IsValid dev
    → Countable sector nsect
    → sector * 512 + nsect * 512 ≤ dev.size
    → nsect * 512 ≤ length source
    → nsect * 512 ≤ length target
    → take
        (nsect * 512)
        (transfer (transfer dev sector nsect source true).dev sector nsect target false).buffer
      ≡ take (nsect * 512) source
transfer-transfer dev sector nsect source target v small fits long_source long_target =
    let n : ℕ = nsect * 512 in
    let written : List ℕ = write_at (sector * 512) (take n source) dev.bytes in
    let back : take n (drop (sector * 512) written) ≡ take n source =
      take-drop-write_at (sector * 512) n (take n source) dev.bytes (omega arith)
        (omega (arith, length-take n source)) in
    rw (transfer_write dev sector nsect source small fits) (
      rw (transfer_read (record dev { bytes = written }) sector nsect target small fits) (
        rw back (
          take-drop-write_at 0 n (take n source) target (omega arith)
            (omega (arith, length-take n source)))))

-- A write that `unsigned long` can count, of a buffer that is long enough, leaves every byte outside its sectors as it was.
pub transfer_outside_sectors :
    (dev : Dev) (sector nsect : ℕ) (source : List ℕ) (j : ℕ)
    → IsValid dev
    → Countable sector nsect
    → nsect * 512 ≤ length source
    → (j < sector * 512) ⊎ (sector * 512 + nsect * 512 ≤ j)
    → get_elem? (transfer dev sector nsect source true).dev.bytes j ≡ get_elem? dev.bytes j
transfer_outside_sectors dev sector nsect source j v small long out =
    elim (Bool-cases (ltb dev.size (sector * 512 + nsect * 512))) [
      | inl beyond ↦ rw (transfer_beyond dev sector nsect source true small (ground arith))
      | inr fits ↦
          let len : length (take (nsect * 512) source) ≡ nsect * 512 =
            omega (arith, length-take (nsect * 512) source) in
          let h : sector * 512 + nsect * 512 ≤ dev.size = ground arith in
          rw (transfer_write dev sector nsect source small h) (
            get_elem?-write_at (sector * 512) (take (nsect * 512) source) dev.bytes j (omega arith)
              (rw (← len) at out))
    ]

-- The check of the range wraps: `k` sectors that end where 64 bits end pass it, and the access made is
-- far behind the array.
pub transfer_wraps :
    (dev : Dev) (k : ℕ) (buffer : List ℕ) (write : Bool)
    → 0 < k
    → k < 2 ^ 54
    → (transfer dev (2 ^ 55 - k) k buffer write).access
      ≡ some (record { offset = 2 ^ 64 - k * 512; count = k * 512 })
unfolding transfer
transfer_wraps dev k buffer write pos small =
    let o : u64 ((2 ^ 55 - k) * 512) ≡ 2 ^ 64 - k * 512 = omega arith in
    let n : u64 (k * 512) ≡ k * 512 = omega arith in
    let sum : u64 (2 ^ 64 - k * 512 + k * 512) ≡ 0 = omega arith in
    rw (o, n) (rw sum (ground arith))
