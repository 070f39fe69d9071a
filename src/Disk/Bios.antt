-- ===== src/Disk/Bios.antt =====
-- vmem_disk_xfer_bio: the segments of a bio lie one behind the other on the disk, where they have one
-- length.
use training.Base.{
  ℕ, ◌+◌, ◌-◌, ◌*◌, ◌/◌, ◌%◌, ◌^◌, ◌≤◌, ◌<◌, ◌≡◌, refl, sym, ◌∙◌, ap, List, [], ◌∷◌, ◌++◌, true,
  false, arith, length, take, drop, write_at, length-append, take_all, take-add, length-take,
  length-drop, length-write_at, write_at-write_at, write_at-nil, drop-drop, drop_all, append-nil,
  take-drop-write_at,
}
use training.Disk.{Dev, Segment, xfer_segments, xfer_bio, u64}
use training.Disk.Transfer.{IsValid, transfer_write, transfer_read}

-- Each segment and its buffer are `n` bytes long.
abbrev pub AllLong : ℕ → List Segment → Type 0
AllLong n [] = Unit {0}
AllLong n (seg ∷ rest) = ((length seg.buffer ≡ n) × (seg.bv_len ≡ n)) × AllLong n rest

-- All segments have one length, which is a number of whole sectors.
abbrev pub AllWhole : ℕ → List Segment → Type 0
AllWhole n segs = (n % 512 ≡ 0) × AllLong n segs

-- The sectors of a list of segments of `n` bytes.
abbrev pub total : ℕ → List Segment → ℕ
total n [] = 0
total n (seg ∷ rest) = n / 512 + total n rest

-- Their bytes in order.
abbrev pub payload : List Segment → List ℕ
payload [] = []
payload (seg ∷ rest) = seg.buffer ++ payload rest

abbrev pub joined : List (List ℕ) → List ℕ
joined [] = []
joined (b ∷ rest) = b ++ joined rest

length-payload :
    (b : ℕ) (segs : List Segment) → AllWhole b segs → length (payload segs) ≡ total b segs * 512
length-payload b [] h = refl
length-payload b (seg ∷ rest) (w, (here, more)) =
    omega (arith, length-append seg.buffer (payload rest), length-payload b rest (w, more), w, here)

-- The segments lie on the disk, and `unsigned long` can count their bytes.
abbrev pub Fits : Dev → (sector b : ℕ) → List Segment → Type 0
Fits dev sector b segs =
    (sector * 512 + total b segs * 512 ≤ dev.size) × (sector + total b segs < 2 ^ 55)

xfer_write :
    (b : ℕ) (segs : List Segment) (dev : Dev) (sector : ℕ)
    → IsValid dev
    → AllWhole b segs
    → Fits dev sector b segs
    → (xfer_segments dev sector true b segs).0
      ≡ record dev { bytes = write_at (sector * 512) (payload segs) dev.bytes }
unfolding xfer_segments
xfer_write b [] dev sector v whole fits =
    sym (ap (λ l. record dev { bytes = l }) (write_at-nil (sector * 512) dev.bytes))
xfer_write b (seg ∷ rest) dev sector v (w, (here, more)) fits =
    let n : ℕ = b / 512 in
    let len : length seg.buffer ≡ n * 512 = omega (arith, w, here) in
    let chunk : take (n * 512) seg.buffer ≡ seg.buffer =
      take_all (n * 512) seg.buffer (omega arith) in
    let next : u64 (sector + n) ≡ sector + n = omega (arith, fits.1) in
    let at : (sector + n) * 512 ≡ sector * 512 + length seg.buffer = omega arith in
    let size = length-write_at (sector * 512) seg.buffer dev.bytes (omega (arith, fits.0)) in
    let room : sector * 512 + length seg.buffer + length (payload rest) ≤ length dev.bytes =
      omega (arith, fits.0, length-payload b rest (w, more)) in
    rw (transfer_write dev sector n seg.buffer (omega (arith, fits.1)) (omega (arith, fits.0))) (
      rw (chunk, next)
        (xfer_write b rest (record dev { bytes = write_at (sector * 512) seg.buffer dev.bytes })
            (sector + n) (size ∙ v) (w, more) (omega (arith, fits.0), omega (arith, fits.1))
          ∙ ap (λ l. record dev { bytes = l })
              (ap (λ k. write_at k (payload rest) (write_at (sector * 512) seg.buffer dev.bytes)) at
                ∙ write_at-write_at (sector * 512) seg.buffer (payload rest) dev.bytes room)))

-- A write bio puts the bytes of its segments on the disk, one behind the other from its first sector on,
-- and changes no other byte.
pub xfer_bio_write :
    (dev : Dev) (sector b : ℕ) (segs : List Segment)
    → IsValid dev
    → AllWhole b segs
    → Fits dev sector b segs
    → (xfer_bio dev (record { sector = sector; write = true; segments = segs })).0
      ≡ record dev { bytes = write_at (sector * 512) (payload segs) dev.bytes }
unfolding xfer_bio xfer_segments
xfer_bio_write dev sector b [] v whole fits = xfer_write 0 [] dev sector v (refl, tt) fits
xfer_bio_write dev sector b (seg ∷ rest) v whole fits =
    rw (whole.1.0.1) (xfer_write b (seg ∷ rest) dev sector v whole fits)

xfer_read :
    (b : ℕ) (segs : List Segment) (dev : Dev) (sector : ℕ)
    → IsValid dev
    → AllWhole b segs
    → Fits dev sector b segs
    → (joined (xfer_segments dev sector false b segs).1
        ≡ take (total b segs * 512) (drop (sector * 512) dev.bytes))
      × ((xfer_segments dev sector false b segs).0 ≡ dev)
unfolding xfer_segments
xfer_read b [] dev sector v whole fits = (refl, refl)
xfer_read b (seg ∷ rest) dev sector v (w, (here, more)) fits =
    let n : ℕ = b / 512 in
    let next : u64 (sector + n) ≡ sector + n = omega (arith, fits.1) in
    let (bytes, same) =
      xfer_read b rest dev (sector + n) v (w, more)
        (omega (arith, fits.0), omega (arith, fits.1)) in
    let slice : List ℕ = take (n * 512) (drop (sector * 512) dev.bytes) in
    let len : length slice ≡ n * 512 = omega (
      arith,
      fits.0,
      length-take (n * 512) (drop (sector * 512) dev.bytes),
      length-drop (sector * 512) dev.bytes,
    ) in
    let filled : write_at 0 slice seg.buffer ≡ slice =
      ap (◌++◌ slice) (drop_all (0 + length slice) seg.buffer (omega (arith, w, here)))
      ∙ append-nil slice in
    let left : (n + total b rest) * 512 - n * 512 ≡ total b rest * 512 = omega arith in
    let start : sector * 512 + n * 512 ≡ (sector + n) * 512 = omega arith in
    let all : List ℕ = drop (sector * 512) dev.bytes in
    let cut = take-add (n * 512) ((n + total b rest) * 512) all (omega arith) in
    let tail : take ((n + total b rest) * 512 - n * 512) (drop (n * 512) all)
        ≡ take (total b rest * 512) (drop ((sector + n) * 512) dev.bytes) =
      rw (left, drop-drop (n * 512) (sector * 512) dev.bytes) (rw start) in
    rw (transfer_read dev sector n seg.buffer (omega (arith, fits.1)) (omega (arith, fits.0)))
      (rw (filled, next) (ap (◌++◌ slice) (bytes ∙ sym tail) ∙ sym cut, same))

-- A read bio fills the buffers of its segments with the bytes of the disk from its first sector on, in
-- order, and leaves the disk as it was.
pub xfer_bio_read :
    (dev : Dev) (sector b : ℕ) (segs : List Segment)
    → IsValid dev
    → AllWhole b segs
    → Fits dev sector b segs
    → let (dev', buffers) =
        xfer_bio dev (record { sector = sector; write = false; segments = segs }) in
      (joined buffers ≡ take (total b segs * 512) (drop (sector * 512) dev.bytes)) × (dev' ≡ dev)
unfolding xfer_bio xfer_segments
xfer_bio_read dev sector b [] v whole fits = (refl, refl)
xfer_bio_read dev sector b (seg ∷ rest) v whole fits =
    rw (whole.1.0.1) (xfer_read b (seg ∷ rest) dev sector v whole fits)

-- What a write bio put on a valid disk, a read bio over as many sectors brings back, where all segments
-- of a bio have one length, which may differ between the two bios, is a number of whole sectors and fits
-- the buffers, and the segments lie on the disk.
pub xfer_bio_read-write :
    (dev : Dev) (sector n m : ℕ) (source target : List Segment)
    → IsValid dev
    → AllWhole n source
    → AllWhole m target
    → Fits dev sector n source
    → total m target ≡ total n source
    → let written =
        (xfer_bio dev (record { sector = sector; write = true; segments = source })).0 in
      joined (xfer_bio written (record { sector = sector; write = false; segments = target })).1
      ≡ payload source
xfer_bio_read-write dev sector n m source target v whole whole' fits same =
    let size : length (payload source) ≡ total n source * 512 = length-payload n source whole in
    let bytes : List ℕ = write_at (sector * 512) (payload source) dev.bytes in
    let valid : length bytes ≡ dev.size =
      length-write_at (sector * 512) (payload source) dev.bytes (omega (arith, fits.0)) ∙ v in
    rw (xfer_bio_write dev sector n source v whole fits) (
      (xfer_bio_read (record dev { bytes = bytes }) sector m target valid whole'
        (omega (arith, fits.0), omega (arith, fits.1))).0
      ∙ take-drop-write_at (sector * 512) (total m target * 512) (payload source) dev.bytes
          (omega (arith, fits.0)) (omega arith))
