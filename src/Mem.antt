-- ===== src/Mem.antt =====
-- driver/globalmem/ch6/globalmem.c: a memory of 4096 bytes behind a char device, without a mutex.
pub mod Seek
pub mod Transfer
pub mod Ch7
pub mod Multi
mod Tests
use training.Base.{
  ℕ, ◌+◌, ◌-◌, ◌%◌, ◌^◌, List, [], Bool, not, ltb, ◌==◌, if◌then◌else◌, take, drop, replicate,
  write_at,
}
use training.Base.Int.{ℤ, pos, to_u64, add64, is_negative, is_above}
use training.Kernel.{
  efault, einval, Ret, ret, err, Copy, copied, faulted, M, pure, ◌>>=◌, ◌>>◌, reads, writes,
}

-- GLOBALMEM_SIZE
abbrev pub globalmem_size : ℕ
globalmem_size = 0x1000

-- MEM_CLEAR
abbrev pub mem_clear : ℕ
mem_clear = 1

-- The data of `struct globalmem_dev`.
pub record Globalmem : Type 0 where
  pub mem : List ℕ

-- `memset(mem, 0, GLOBALMEM_SIZE)`
pub zeroed : List ℕ
zeroed = replicate globalmem_size 0

-- `globalmem_ioctl`
unfoldable pub ioctl : ℕ → M Globalmem Ret
ioctl cmd =
    if not (cmd == mem_clear)
    then pure (err einval)
    else do writes (λ dev. record dev { mem = zeroed }); pure (ret 0)

-- What a transfer gives: the value returned, the new file position, and the bytes that a successful
-- read brought.
pub record Done : Type 0 where
  pub value : Ret
  pub ppos : ℤ
  pub bytes : List ℕ

-- `count`: the size as an `unsigned int`, cut to what lies behind `p`.
pub clip : (size p : ℕ) → ℕ
clip size p =
    let count = size % 2 ^ 32 in
    if ltb (globalmem_size - p) count then globalmem_size - p else count

-- `globalmem_read` at the file position `ppos`.
unfoldable pub read : Copy → (size : ℕ) → (ppos : ℤ) → M Globalmem Done
unfolding clip
read copy size ppos =
    let p = to_u64 ppos in
    let n = clip size p in
    if not (ltb p globalmem_size)
    then pure (record { value = ret 0; ppos = ppos; bytes = [] })
    else do
      mem ← reads (λ dev. dev.mem)
      elim copy [
        | faulted _ ↦ pure (record { value = err efault; ppos = ppos; bytes = [] })
        | copied ↦
            pure (record { value = ret n; ppos = add64 ppos (pos n); bytes = take n (drop p mem) })
      ]

-- `globalmem_write` of the first `size` bytes of `buf`.
unfoldable pub write : Copy → (buf : List ℕ) → (size : ℕ) → (ppos : ℤ) → M Globalmem Done
unfolding clip
write copy buf size ppos =
    let p = to_u64 ppos in
    let n = clip size p in
    if not (ltb p globalmem_size)
    then pure (record { value = ret 0; ppos = ppos; bytes = [] })
    else elim copy [
      | faulted landed ↦ do
        writes (λ dev. record dev { mem = write_at p (take n landed) dev.mem })
        pure (record { value = err efault; ppos = ppos; bytes = [] })
      | copied ↦ do
        writes (λ dev. record dev { mem = write_at p (take n buf) dev.mem })
        pure (record { value = ret n; ppos = add64 ppos (pos n); bytes = [] })
    ]

-- `globalmem_llseek`: the value returned (`loff_t`, an error as its number), and the new `f_pos`.
pub data Sought : Type 0 where
  at : ℤ → Sought
  refused : Sought

-- `case 0`: the offset from the start.
pub seek_set : (offset f_pos : ℤ) → Sought × ℤ
seek_set offset f_pos =
    let low = to_u64 offset % 2 ^ 32 in
    if is_negative offset
    then (refused, f_pos)
    else if ltb globalmem_size low
    then (refused, f_pos)
    else (at (pos low), pos low)

-- `case 1`: the sum of position and offset.
pub seek_cur : (sum f_pos : ℤ) → Sought × ℤ
seek_cur sum f_pos =
    if is_above sum globalmem_size
    then (refused, f_pos)
    else if is_negative sum
    then (refused, f_pos)
    else (at sum, sum)

unfoldable pub llseek : (offset : ℤ) → (orig : ℕ) → (f_pos : ℤ) → Sought × ℤ
unfolding seek_set seek_cur
llseek offset orig f_pos =
    if orig == 0
    then seek_set offset f_pos
    else if orig == 1
    then seek_cur (add64 f_pos offset) f_pos
    else (refused, f_pos)
