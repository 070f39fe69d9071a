-- ===== src/Disk.antt =====
-- driver/vmem_disk/vmem_disk.c: four memory disks behind the block layer. The block layer, the
-- allocators and the registration calls are not modelled: their answers are arguments.
pub mod Transfer
pub mod Bios
pub mod Queue
pub mod Setup
mod Tests
use training.Base.{
  ℕ, zero, suc, ◌+◌, ◌-◌, ◌*◌, ◌/◌, ◌%◌, ◌^◌, List, [], ◌∷◌, ◌++◌, Bool, true, false, not, Option,
  none, some, ltb, ◌==◌, if◌then◌else◌, take, drop, write_at,
}

-- HARDSECT_SIZE, NSECTORS, NDEVICES, VMEM_DISK_MINORS, KERNEL_SECTOR_SIZE
abbrev pub hardsect_size : ℕ
hardsect_size = 512

abbrev pub nsectors : ℕ
nsectors = 1024

abbrev pub ndevices : ℕ
ndevices = 4

abbrev pub vmem_disk_minors : ℕ
vmem_disk_minors = 16

abbrev pub kernel_sector_size : ℕ
kernel_sector_size = 512

-- The size and the data array of `struct vmem_disk_dev`.
pub record Dev : Type 0 where
  pub size : ℕ
  pub bytes : List ℕ

-- `unsigned long` arithmetic.
abbrev pub u64 : ℕ → ℕ
u64 n = n % 2 ^ 64

-- A `memcpy` of `count` bytes at `offset` of the data array.
pub record Access : Type 0 where
  pub offset : ℕ
  pub count : ℕ

-- What a transfer leaves: the device, the buffer, and the access to the data array that it made.
pub record Moved : Type 0 where
  pub dev : Dev
  pub buffer : List ℕ
  pub access : Option Access

-- `vmem_disk_transfer`
pub transfer : Dev → (sector nsect : ℕ) → (buffer : List ℕ) → (write : Bool) → Moved
transfer dev sector nsect buffer write =
    let offset = u64 (sector * kernel_sector_size) in
    let nbytes = u64 (nsect * kernel_sector_size) in
    let access = some (record { offset = offset; count = nbytes }) in
    if ltb dev.size (u64 (offset + nbytes))
    then record { dev = dev; buffer = buffer; access = none }
    else if write
    then record {
      dev = record dev { bytes = write_at offset (take nbytes buffer) dev.bytes };
      buffer = buffer;
      access = access;
    }
    else record {
      dev = dev;
      buffer = write_at 0 (take nbytes (drop offset dev.bytes)) buffer;
      access = access;
    }

-- A segment of a bio: the memory that is mapped for it, and its length.
pub record Segment : Type 0 where
  pub buffer : List ℕ
  pub bv_len : ℕ

-- The first sector, the direction (`true` for WRITE), and the segments in order.
pub record Bio : Type 0 where
  pub sector : ℕ
  pub write : Bool
  pub segments : List Segment

-- `bio_cur_bytes(bio)` reads the iterator of the bio, which the loop over its segments does not move: it
-- is the length of the first segment in every round.
abbrev pub bio_cur_bytes : List Segment → ℕ
bio_cur_bytes [] = 0
bio_cur_bytes (seg ∷ rest) = seg.bv_len

-- The loop of `vmem_disk_xfer_bio`, where `bio_cur_bytes(bio)` is `cur_bytes`: the device, and the buffers
-- as the transfers leave them.
pub xfer_segments :
    Dev → (sector : ℕ) → (write : Bool) → (cur_bytes : ℕ) → List Segment → Dev × List (List ℕ)
xfer_segments dev sector write cur_bytes [] = (dev, [])
xfer_segments dev sector write cur_bytes (seg ∷ rest) =
    let nsect = cur_bytes / 512 in
    let m = transfer dev sector nsect seg.buffer write in
    let (dev', buffers) = xfer_segments m.dev (u64 (sector + nsect)) write cur_bytes rest in
    (dev', m.buffer ∷ buffers)

-- `vmem_disk_xfer_bio`; its status is always 0.
pub xfer_bio : Dev → Bio → Dev × List (List ℕ)
xfer_bio dev bio = xfer_segments dev bio.sector bio.write (bio_cur_bytes bio.segments) bio.segments

-- A request of the queue: whether its `cmd_type` is REQ_TYPE_FS, and its bios.
pub record BlockRequest : Type 0 where
  pub is_fs : Bool
  pub bios : List Bio

-- How a request was ended: with -EIO, or with 0 and the buffers of its bios.
pub data Ended : Type 0 where
  eio : Ended
  served : List (List (List ℕ)) → Ended

-- `__rq_for_each_bio`
pub xfer_bios : Dev → List Bio → Dev × List (List (List ℕ))
xfer_bios dev [] = (dev, [])
xfer_bios dev (bio ∷ rest) =
    let (dev', buffers) = xfer_bio dev bio in
    let (dev'', others) = xfer_bios dev' rest in (dev'', buffers ∷ others)

-- The body of the loop of `vmem_disk_request`.
pub serve_request : Dev → BlockRequest → Dev × Ended
serve_request dev req =
    let (dev', buffers) = xfer_bios dev req.bios in
    if not req.is_fs then (dev, eio) else (dev', served buffers)

-- `vmem_disk_request`: the requests of the queue in order, each ended once.
pub request : Dev → List BlockRequest → Dev × List Ended
request dev [] = (dev, [])
request dev (req ∷ rest) =
    let (dev', ended) = serve_request dev req in
    let (last, others) = request dev' rest in (last, ended ∷ others)

-- `vmem_disk_make_request`
pub make_request : Dev → Bio → Dev × Ended
make_request dev bio = let (dev', buffers) = xfer_bio dev bio in (dev', served (buffers ∷ []))

-- `struct hd_geometry`
pub record Geometry : Type 0 where
  pub cylinders : ℕ
  pub heads : ℕ
  pub sectors : ℕ
  pub start : ℕ

-- `vmem_disk_getgeo`; `(size & ~0x3f) >> 6` of a size that is not negative.
pub getgeo : Dev → Geometry
getgeo dev =
    let size = dev.size * (hardsect_size / kernel_sector_size) in
    record { cylinders = (size - size % 64) / 64; heads = 4; sectors = 16; start = 4 }
