-- ===== src/Mem/Multi.antt =====
-- driver/globalmem/ch6/multi_globalmem.c: ten memories in one array. The handlers read as those of
-- globalmem.c beside it; a file has its device from `open`, by the minor number.
pub mod Isolation
use training.Base.{ℕ, List, [], Option, none, some, get_elem?, modify}
use training.Base.Int.{ℤ}
use training.Kernel.{Ret, Copy, M, St}
use training.Mem.{Globalmem, Done, Sought}
use training.Mem

-- `globalmem_ioctl`
pub ioctl : ℕ → M Globalmem Ret
unfolding Mem.ioctl
ioctl = Mem.ioctl

-- `globalmem_read`
pub read : Copy → (size : ℕ) → (ppos : ℤ) → M Globalmem Done
unfolding Mem.read
read = Mem.read

-- `globalmem_write`
pub write : Copy → (buf : List ℕ) → (size : ℕ) → (ppos : ℤ) → M Globalmem Done
unfolding Mem.write
write = Mem.write

-- `globalmem_llseek`
pub llseek : (offset : ℤ) → (orig : ℕ) → (f_pos : ℤ) → Sought × ℤ
unfolding Mem.llseek
llseek = Mem.llseek

-- An open file: the device that its `private_data` is, as an index of the array, and its position.
pub record File : Type 0 where
  pub private_data : ℕ
  pub f_pos : ℤ

-- `globalmem_open` of the node with a minor number: `container_of` gives the device whose `cdev` it
-- is, which `globalmem_setup_cdev` put under the number of its index.
unfoldable pub globalmem_open : (minor : ℕ) → File → File
globalmem_open minor filp = record filp { private_data = minor }

-- What a handler leaves of the device `d`.
abbrev pub after {ℓ} : {A : Type ℓ} → M Globalmem A → Globalmem → Globalmem
after h d = (h (record { dev = d; calls = [] })).1.dev

-- What it returns.
abbrev pub value {ℓ} : {A : Type ℓ} → M Globalmem A → Globalmem → A
value h d = (h (record { dev = d; calls = [] })).0

-- A call on an open file.
pub data Op : Type 0 where
  reads : File → Copy → (size : ℕ) → Op
  writes : File → Copy → (buf : List ℕ) → (size : ℕ) → Op
  ioctls : File → (cmd : ℕ) → Op

abbrev pub file : Op → File
file (reads filp copy size) = filp
file (writes filp copy buf size) = filp
file (ioctls filp cmd) = filp

-- What a call does to its own device.
pub change : Op → Globalmem → Globalmem
change (reads filp copy size) = after (read copy size filp.f_pos)
change (writes filp copy buf size) = after (write copy buf size filp.f_pos)
change (ioctls filp cmd) = after (ioctl cmd)

-- The array after a call.
pub step : Op → List Globalmem → List Globalmem
step op devs = modify (file op).private_data (change op) devs

-- What a read of an open file returns; `none` is no device.
pub read_file : File → Copy → (size : ℕ) → List Globalmem → Option Done
read_file filp copy size devs = elim (get_elem? devs filp.private_data) [
  | none ↦ none
  | some d ↦ some (value (read copy size filp.f_pos) d)
]
