-- ===== src/Mem/Ch7.antt =====
-- driver/globalmem/ch7/globalmem.c: the memory of ch6 with a mutex. The handlers of ch6 with the
-- calls of the mutex where ch7 makes them; `llseek` is that of ch6.
use training.Base.{
  ℕ, ◌<◌, ◌≡◌, refl, inl, inr, List, [], ◌∷◌, Bool, false, not, arith, ltb, ◌==◌, if◌then◌else◌,
  Bool-cases, take, drop, write_at,
}
use training.Base.Int.{ℤ, pos, to_u64, add64}
use training.Kernel.{
  efault, einval, Ret, ret, err, Copy, copied, faulted, St, M, Call, mutex_lock, mutex_unlock, pure,
  ◌>>=◌, ◌>>◌, call, reads, writes,
}
use training.Kernel.Locks.{Lock, locked, unlocked, lock_after}
use training.Mem.{Globalmem, globalmem_size, mem_clear, zeroed, Done, Sought, clip}
use training.Mem

-- `globalmem_ioctl`
pub ioctl : ℕ → M Globalmem Ret
ioctl cmd = if not (cmd == mem_clear) then pure (err einval) else do
  call mutex_lock
  writes (λ dev. record dev { mem = zeroed })
  call mutex_unlock
  pure (ret 0)

-- `globalmem_read`, which releases the mutex and never takes it.
pub read : Copy → (size : ℕ) → (ppos : ℤ) → M Globalmem Done
read copy size ppos =
    let p = to_u64 ppos in
    let n = clip size p in
    if not (ltb p globalmem_size)
    then pure (record { value = ret 0; ppos = ppos; bytes = [] })
    else do
      mem ← reads (λ dev. dev.mem)
      elim copy [
        | faulted _ ↦ do
          call mutex_unlock
          pure (record { value = err efault; ppos = ppos; bytes = [] })
        | copied ↦ do
          call mutex_unlock
          pure (record { value = ret n; ppos = add64 ppos (pos n); bytes = take n (drop p mem) })
      ]

-- `globalmem_write`
pub write : Copy → (buf : List ℕ) → (size : ℕ) → (ppos : ℤ) → M Globalmem Done
write copy buf size ppos =
    let p = to_u64 ppos in
    let n = clip size p in
    if not (ltb p globalmem_size)
    then pure (record { value = ret 0; ppos = ppos; bytes = [] })
    else do
      call mutex_lock
      elim copy [
        | faulted landed ↦ do
          writes (λ dev. record dev { mem = write_at p (take n landed) dev.mem })
          call mutex_unlock
          pure (record { value = err efault; ppos = ppos; bytes = [] })
        | copied ↦ do
          writes (λ dev. record dev { mem = write_at p (take n buf) dev.mem })
          call mutex_unlock
          pure (record { value = ret n; ppos = add64 ppos (pos n); bytes = [] })
      ]

-- `globalmem_llseek`, which reads as that of ch6.
pub llseek : (offset : ℤ) → (orig : ℕ) → (f_pos : ℤ) → Sought × ℤ
unfolding Mem.llseek
llseek = Mem.llseek

-- The calls of the mutex in a trace.
abbrev pub mutex_calls : List Call → List Call
mutex_calls [] = []
mutex_calls (mutex_lock ∷ older) = mutex_lock ∷ mutex_calls older
mutex_calls (mutex_unlock ∷ older) = mutex_unlock ∷ mutex_calls older
mutex_calls (_ ∷ older) = mutex_calls older

-- The handlers of ch6 and of ch7 do the same to the device and return the same.
abbrev pub Same {ℓ} : {A : Type ℓ} → A × St Globalmem → A × St Globalmem → Type ℓ
Same r q = (r.0 ≡ q.0) × (r.1.dev ≡ q.1.dev)

abbrev late : ℤ → Bool
late ppos = not (ltb (to_u64 ppos) globalmem_size)

read-Same :
    (copy : Copy) (size : ℕ) (ppos : ℤ) (s : St Globalmem)
    → Same (read copy size ppos s) (Mem.read copy size ppos s)
unfolding read Mem.read
read-Same copied size ppos s = elim (Bool-cases (late ppos)) [
  | inl e ↦ rw e (refl, refl)
  | inr e ↦ rw e (refl, refl)
]
read-Same (faulted landed) size ppos s = elim (Bool-cases (late ppos)) [
  | inl e ↦ rw e (refl, refl)
  | inr e ↦ rw e (refl, refl)
]

write-Same :
    (copy : Copy) (buf : List ℕ) (size : ℕ) (ppos : ℤ) (s : St Globalmem)
    → Same (write copy buf size ppos s) (Mem.write copy buf size ppos s)
unfolding write Mem.write
write-Same copied buf size ppos s = elim (Bool-cases (late ppos)) [
  | inl e ↦ rw e (refl, refl)
  | inr e ↦ rw e (refl, refl)
]
write-Same (faulted landed) buf size ppos s = elim (Bool-cases (late ppos)) [
  | inl e ↦ rw e (refl, refl)
  | inr e ↦ rw e (refl, refl)
]

ioctl-Same : (cmd : ℕ) (s : St Globalmem) → Same (ioctl cmd s) (Mem.ioctl cmd s)
unfolding ioctl Mem.ioctl
ioctl-Same cmd s = elim (Bool-cases (not (cmd == mem_clear))) [
  | inl e ↦ rw e (refl, refl)
  | inr e ↦ rw e (refl, refl)
]

-- But for the mutex, the handlers of ch7 are those of ch6: they return the same and leave the same
-- bytes, on every path.
pub handlers-Same :
    (copy : Copy) (buf : List ℕ) (size cmd : ℕ) (ppos : ℤ) (s : St Globalmem)
    → Same (read copy size ppos s) (Mem.read copy size ppos s)
      × Same (write copy buf size ppos s) (Mem.write copy buf size ppos s)
      × Same (ioctl cmd s) (Mem.ioctl cmd s)
handlers-Same copy buf size cmd ppos s =
    (read-Same copy size ppos s, write-Same copy buf size ppos s, ioctl-Same cmd s)

write-unlocked :
    (l : Lock) (copy : Copy) (buf : List ℕ) (size : ℕ) (ppos : ℤ) (s : St Globalmem)
    → lock_after l s.calls ≡ unlocked
    → lock_after l (write copy buf size ppos s).1.calls ≡ unlocked
unfolding write
write-unlocked l copied buf size ppos s h = elim (Bool-cases (late ppos)) [
  | inl e ↦ rw e h
  | inr e ↦ rw e (rw h)
]
write-unlocked l (faulted landed) buf size ppos s h = elim (Bool-cases (late ppos)) [
  | inl e ↦ rw e h
  | inr e ↦ rw e (rw h)
]

ioctl-unlocked :
    (l : Lock) (cmd : ℕ) (s : St Globalmem)
    → lock_after l s.calls ≡ unlocked
    → lock_after l (ioctl cmd s).1.calls ≡ unlocked
unfolding ioctl
ioctl-unlocked l cmd s h = elim (Bool-cases (not (cmd == mem_clear))) [
  | inl e ↦ rw e h
  | inr e ↦ rw e (rw h)
]

-- A write and an ioctl that find the mutex free touch the memory under it only, and leave it free.
pub writers-unlocked :
    (l : Lock) (copy : Copy) (buf : List ℕ) (size cmd : ℕ) (ppos : ℤ) (s : St Globalmem)
    → lock_after l s.calls ≡ unlocked
    → (lock_after l (write copy buf size ppos s).1.calls ≡ unlocked)
      × (lock_after l (ioctl cmd s).1.calls ≡ unlocked)
writers-unlocked l copy buf size cmd ppos s h =
    (write-unlocked l copy buf size ppos s h, ioctl-unlocked l cmd s h)

-- Every read at a position in the memory releases the mutex and has not taken it: where another task
-- holds the mutex, the read takes it from that task.
pub read_unlocks :
    (l : Lock) (copy : Copy) (size : ℕ) (ppos : ℤ) (s : St Globalmem)
    → to_u64 ppos < globalmem_size
    → (mutex_calls (read copy size ppos s).1.calls ≡ mutex_unlock ∷ mutex_calls s.calls)
      × (lock_after l s.calls ≡ locked → lock_after l (read copy size ppos s).1.calls ≡ unlocked)
unfolding read
read_unlocks l copied size ppos s h =
    let e : late ppos ≡ false = ground arith in rw e (refl, λ held. rw held)
read_unlocks l (faulted landed) size ppos s h =
    let e : late ppos ≡ false = ground arith in rw e (refl, λ held. rw held)
