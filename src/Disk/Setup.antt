-- ===== src/Disk/Setup.antt =====
-- setup_device, vmem_disk_init and vmem_disk_exit: what is acquired, and what is released.
use training.Base.{
  ℕ, zero, suc, ◌+◌, ◌*◌, ◌/◌, ◌<◌, ◌≡◌, refl, ◌≢◌, List, [], ◌∷◌, Bool, true, false, not, ◌&&◌,
  Option, none, some, arith, if◌then◌else◌,
}
use training.Base.Int.{ℤ, is_above}
use training.Kernel.{Ret, ret, err, ebusy, enomem}
use training.Disk.{hardsect_size, nsectors, ndevices, vmem_disk_minors, kernel_sector_size}

-- The names under which the major number is registered and given back.
pub data Name : Type 0 where
  vmem_disk sbd : Name

-- Calls that acquire or release something.
pub data Call : Type 0 where
  vmalloc vfree blk_alloc_queue blk_init_queue kobject_put blk_cleanup_queue : Call
  alloc_disk add_disk del_gendisk put_disk kmalloc kfree : Call
  register_blkdev unregister_blkdev : Name → Call

-- The request modes VMEMD_QUEUE, VMEMD_NOQUEUE, and any other.
pub data Mode : Type 0 where
  queue noqueue other : Mode

-- Whether each allocation for a device succeeds.
pub record Answers : Type 0 where
  pub data_ok : Bool
  pub queue_ok : Bool
  pub disk_ok : Bool

-- What `setup_device` tells the disk of a device.
pub record Gendisk : Type 0 where
  pub first_minor : ℕ
  pub letter : ℕ
  pub capacity : ℕ

-- `struct vmem_disk_dev`: its size, and which of its pointers are not NULL.
pub record Slot : Type 0 where
  pub size : ℕ
  pub has_data : Bool
  pub has_queue : Bool
  pub gd : Option Gendisk

abbrev cleared : Slot
cleared = record { size = nsectors * hardsect_size; has_data = false; has_queue = false; gd = none }

abbrev pub gendisk : (which : ℕ) → Gendisk
gendisk which = record {
  first_minor = which * vmem_disk_minors;
  letter = which + b'a';
  capacity = nsectors * (hardsect_size / kernel_sector_size);
}

abbrev queue_call : Mode → Call
queue_call noqueue = blk_alloc_queue
queue_call _ = blk_init_queue

-- `setup_device`: the slot, and its calls after those in `calls`, the newest first.
pub setup_device : Mode → Answers → (which : ℕ) → List Call → Slot × List Call
setup_device mode answers which calls =
    if not answers.data_ok
    then (cleared, vmalloc ∷ calls)
    else if not answers.queue_ok
    then (record cleared { has_data = true }, vfree ∷ (queue_call mode ∷ (vmalloc ∷ calls)))
    else if not answers.disk_ok
    then (
      record cleared { has_data = true; has_queue = true },
      vfree ∷ (alloc_disk ∷ (queue_call mode ∷ (vmalloc ∷ calls))),
    )
    else (
      record cleared { has_data = true; has_queue = true; gd = some (gendisk which) },
      add_disk ∷ (alloc_disk ∷ (queue_call mode ∷ (vmalloc ∷ calls))),
    )

-- The loop of `vmem_disk_init`, with `n` rounds left from device `which`.
pub setup_devices : Mode → (ℕ → Answers) → (n which : ℕ) → List Call → List Slot × List Call
setup_devices mode answers zero which calls = ([], calls)
setup_devices mode answers (suc n) which calls =
    let (slot, calls') = setup_device mode (answers which) which calls in
    let (slots, calls'') = setup_devices mode answers n (which + 1) calls' in
    (slot ∷ slots, calls'')

-- What `vmem_disk_init` leaves: its value, the major number, the devices and the calls.
pub record Loaded : Type 0 where
  pub value : Ret
  pub major : ℤ
  pub devices : List Slot
  pub calls : List Call

-- `vmem_disk_init`, with the module parameter `major` and the answers of the kernel.
pub init : Mode → (major : ℕ) → (register : ℕ → ℤ) → (kmalloc_ok : Bool) → (ℕ → Answers) → Loaded
init mode major register kmalloc_ok answers =
    let new = register major in
    let calls = register_blkdev vmem_disk ∷ [] in
    let (slots, calls') = setup_devices mode answers ndevices 0 (kmalloc ∷ calls) in
    if not (is_above new 0)
    then record { value = err ebusy; major = new; devices = []; calls = calls }
    else if not kmalloc_ok
    then record {
      value = err enomem;
      major = new;
      devices = [];
      calls = unregister_blkdev sbd ∷ (kmalloc ∷ calls);
    }
    else record { value = ret 0; major = new; devices = slots; calls = calls' }

-- The body of the loop of `vmem_disk_exit`.
pub exit_device : Mode → Slot → List Call → List Call
exit_device mode slot calls =
    let disk : List Call = elim slot.gd [
      | none ↦ calls
      | some _ ↦ put_disk ∷ (del_gendisk ∷ calls)
    ] in
    let release : Call = elim mode [ noqueue ↦ kobject_put | _ ↦ blk_cleanup_queue ] in
    let queue = if slot.has_queue then release ∷ disk else disk in
    if slot.has_data then vfree ∷ queue else queue

pub exit_devices : Mode → List Slot → List Call → List Call
exit_devices mode [] calls = calls
exit_devices mode (slot ∷ rest) calls = exit_devices mode rest (exit_device mode slot calls)

-- `vmem_disk_exit`
pub exit : Mode → Loaded → List Call
exit mode loaded =
    kfree ∷ (unregister_blkdev vmem_disk ∷ exit_devices mode loaded.devices loaded.calls)

-- How often a trace calls what `f` marks by 1.
abbrev pub tally : (Call → ℕ) → List Call → ℕ
tally f [] = 0
tally f (c ∷ calls) = f c + tally f calls

abbrev pub frees : Call → ℕ
frees vfree = 1
frees _ = 0

-- Queues asked for, and released.
abbrev pub queues : Call → ℕ
queues blk_alloc_queue = 1
queues blk_init_queue = 1
queues _ = 0

abbrev pub queue_releases : Call → ℕ
queue_releases kobject_put = 1
queue_releases blk_cleanup_queue = 1
queue_releases _ = 0

-- Disks asked for, released, announced to the kernel, and withdrawn.
abbrev pub disks : Call → ℕ
disks alloc_disk = 1
disks _ = 0

abbrev pub disk_releases : Call → ℕ
disk_releases put_disk = 1
disk_releases _ = 0

abbrev pub announced : Call → ℕ
announced add_disk = 1
announced _ = 0

abbrev pub withdrawn : Call → ℕ
withdrawn del_gendisk = 1
withdrawn _ = 0

-- The life of one device: set up and taken down.
abbrev pub life : Mode → Answers → (which : ℕ) → List Call
life mode answers which =
    let (slot, calls) = setup_device mode answers which [] in exit_device mode slot calls

-- Where all its allocations succeed the memory of a device is freed once, and where there is none it is
-- not; but where the queue or the disk cannot be had, `setup_device` frees it and `vmem_disk_exit`
-- frees it again. A queue is released as often as it is asked for, where it can be had; a disk is released
-- as often as it is asked for, where it can be had, and withdrawn as often as it was announced.
pub life_lem :
    (mode : Mode) (answers : Answers) (which : ℕ)
    → (tally frees (life mode answers which)
        ≡ (if not answers.data_ok then 0 else if answers.queue_ok && answers.disk_ok then 1 else 2))
      × ((answers.queue_ok ≡ true)
          → tally queues (life mode answers which) ≡ tally queue_releases (life mode answers which))
      × ((answers.disk_ok ≡ true)
          → tally disks (life mode answers which) ≡ tally disk_releases (life mode answers which))
      × (tally announced (life mode answers which) ≡ tally withdrawn (life mode answers which))
unfolding setup_device exit_device
life_lem queue answers which = (ground arith, λ h. ground arith, λ h. ground arith, ground arith)
life_lem noqueue answers which = (ground arith, λ h. ground arith, λ h. ground arith, ground arith)
life_lem other answers which = (ground arith, λ h. ground arith, λ h. ground arith, ground arith)

-- What is known of `register_blkdev`: asked for a given major number it answers 0, or an error.
abbrev pub Documented : (ℕ → ℤ) → Type 0
Documented register = (m : ℕ) → 0 < m → is_above (register m) 0 ≡ false

-- With a major number given as the module parameter, and `register_blkdev` as documented, the driver never loads: it takes the answer 0 for a
-- failure, returns -EBUSY, sets up no device, and does not give the number back.
pub init_given_major :
    (mode : Mode) (major : ℕ) (register : ℕ → ℤ) (kmalloc_ok : Bool) (answers : ℕ → Answers)
    → Documented register
    → 0 < major
    → let loaded = init mode major register kmalloc_ok answers in
      (loaded.value ≡ err ebusy)
      × (loaded.devices ≡ [])
      × (loaded.calls ≡ register_blkdev vmem_disk ∷ [])
unfolding init
init_given_major mode major register kmalloc_ok answers doc h = rw (doc major h) (refl, refl, refl)

-- Without memory for the devices, the number that was registered as `vmem_disk` is given back as `sbd`.
pub init_no_memory :
    (mode : Mode) (major : ℕ) (register : ℕ → ℤ) (answers : ℕ → Answers)
    → is_above (register major) 0 ≡ true
    → let loaded = init mode major register false answers in
      (loaded.value ≡ err enomem)
      × (loaded.calls ≡ unregister_blkdev sbd ∷ (kmalloc ∷ (register_blkdev vmem_disk ∷ [])))
      × (sbd ≢ vmem_disk)
unfolding init
init_no_memory mode major register answers h = rw h (refl, refl, λ e. cc)
