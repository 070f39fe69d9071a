-- ===== src/Disk/Tests.antt =====
-- Runs of driver/vmem_disk/vmem_disk.c on small disks.
use training.Base.{
  zero, suc, ℕ, ◌≡◌, refl, List, [], ◌∷◌, true, false, arith, length, replicate, length-replicate,
}
use training.Base.Int.{ℤ, pos}
use training.Disk.{Dev, Segment, BlockRequest, transfer, xfer_bio, request}
use training.Disk.Transfer.{IsValid, Safe, transfer-Safe}
use training.Disk.Bios.{joined, payload, xfer_bio_read-write}
use training.Disk.Queue.{Refused, fs_only, request_lem}
use training.Disk.Setup.{
  queue, Answers, tally, frees, queues, queue_releases, disks, disk_releases, announced, withdrawn,
  life, Documented, life_lem,
}

-- Two sectors of zeros, and a sector of ones.
bytes : List ℕ
bytes = replicate 1024 0

ones : List ℕ
ones = replicate 512 1

abbrev disk : Dev
disk = record { size = 1024; bytes = bytes }

disk-IsValid : IsValid disk
unfolding bytes
disk-IsValid = length-replicate {A = ℕ} 1024 0

length-ones : length ones ≡ 512
unfolding ones
length-ones = length-replicate {A = ℕ} 512 1

abbrev whole : List Segment
whole = record { buffer = ones; bv_len = 512 } ∷ []

transfer-Safe_example : Safe disk 1 1 ones (transfer disk 1 1 ones true)
transfer-Safe_example =
    transfer-Safe disk 1 1 ones true disk-IsValid (omega arith) (omega (arith, length-ones))

xfer_bio_read-write_example :
    let written = (xfer_bio disk (record { sector = 1; write = true; segments = whole })).0 in
    joined (xfer_bio written (record { sector = 1; write = false; segments = whole })).1
    ≡ payload whole
xfer_bio_read-write_example =
    xfer_bio_read-write disk 1 512 512 whole whole disk-IsValid (refl, ((length-ones, refl), tt))
      (refl, ((length-ones, refl), tt)) (omega arith, omega arith) refl

-- A request of the file system behind one that is not.
abbrev requests : List BlockRequest
requests =
    record { is_fs = false; bios = record { sector = 0; write = true; segments = whole } ∷ [] }
    ∷ (record { is_fs = true; bios = record { sector = 1; write = true; segments = whole } ∷ [] }
        ∷ [])

request_lem_example :
    Refused requests (request disk requests).1
    × ((request disk requests).0 ≡ (request disk (fs_only requests)).0)
request_lem_example = request_lem disk requests

-- The data and the queue can be had, the disk cannot.
abbrev no_disk : Answers
no_disk = record { data_ok = true; queue_ok = true; disk_ok = false }

life_lem_example :
    (tally frees (life queue no_disk 0) ≡ 2)
    × ((true ≡ true)
        → tally queues (life queue no_disk 0) ≡ tally queue_releases (life queue no_disk 0))
    × ((false ≡ true)
        → tally disks (life queue no_disk 0) ≡ tally disk_releases (life queue no_disk 0))
    × (tally announced (life queue no_disk 0) ≡ tally withdrawn (life queue no_disk 0))
life_lem_example = life_lem queue no_disk 0

-- A `register_blkdev` that gives the number 254 when it is asked to choose.
abbrev register : ℕ → ℤ
register zero = pos 254
register (suc m) = pos 0

register-Documented : Documented register
register-Documented zero h = absurd (omega arith)
register-Documented (suc m) h = refl
