-- ===== src/Aio.antt =====
-- io/io-models/aio.c and driver/globalfifo/ch9/aior.c, which are one program: an asynchronous read of
-- a file, and what it releases on each way out. The answers of the C library and of libaio are
-- arguments.
mod Tests
use training.Base.{
  ℕ, zero, suc, ◌≡◌, refl, ◌≢◌, List, [], ◌∷◌, Bool, true, false, ◌&&◌, Option, none, some, not,
  arith, ltb, ◌==◌, if◌then◌else◌,
}
use training.Base.Int.{ℤ, pos, negsuc, is_negative}

-- The calls, with their success where they may fail.
pub data Call : Type 0 where
  open_file posix_memalign io_setup io_destroy : (ok : Bool) → Call
  memset io_submit io_getevents free close : Call

pub record Answers : Type 0 where
  pub fd : ℤ
  pub memalign : ℤ
  pub setup : ℤ
  pub submitted : ℤ
  pub reaped : ℤ
  pub res2 : ℤ
  pub destroyed : ℤ

abbrev pub is : ℕ → ℤ → Bool
is n (pos m) = n == m
is n (negsuc m) = false

-- The labels, from the last one on.
abbrev pub err1 : List Call → List Call
err1 calls = close ∷ calls

abbrev pub err2 : List Call → List Call
err2 calls = err1 (free ∷ calls)

abbrev pub err3 : Answers → List Call → List Call
err3 a calls = err2 (io_destroy (not (is_negative a.destroyed)) ∷ calls)

-- `main` behind `io_setup`.
pub transfer : Answers → List Call → ℤ × List Call
transfer a calls =
    let submitted : List Call = io_submit ∷ calls in
    let reaped : List Call = io_getevents ∷ submitted in
    let destroyed : List Call = io_destroy (not (is_negative a.destroyed)) ∷ reaped in
    if not (is 1 a.submitted)
    then (negsuc 0, err3 a submitted)
    else if not (is 1 a.reaped)
    then (negsuc 0, err3 a reaped)
    else if not (is 0 a.res2)
    then (negsuc 0, err3 a reaped)
    else if is_negative a.destroyed
    then (negsuc 0, err2 destroyed)
    else (pos 0, close ∷ (free ∷ destroyed))

-- `main` of aio.c with `argc` words on its command line: its value, and its calls, the newest first.
pub main : (argc : ℕ) → Answers → ℤ × List Call
unfolding transfer
main argc a =
    let opened : List Call = open_file true ∷ [] in
    let allocated : List Call = memset ∷ (posix_memalign (is 0 a.memalign) ∷ opened) in
    if ltb argc 2
    then (pos 1, [])
    else if is_negative a.fd
    then (negsuc 0, open_file false ∷ [])
    else if is_negative a.memalign
    then (negsuc 0, err1 (posix_memalign false ∷ opened))
    else if is_negative a.setup
    then (negsuc 0, err2 (io_setup false ∷ allocated))
    else transfer a (io_setup true ∷ allocated)

-- `main` of aior.c
pub aior_main : (argc : ℕ) → Answers → ℤ × List Call
unfolding main
aior_main = main

-- The descriptor, the buffer and the context that a trace holds; `none` is a use or a release of what
-- is not held.
pub record Held : Type 0 where
  pub fd : Bool
  pub buf : Bool
  pub ctx : Bool

abbrev pub hold : Held → Call → Option Held
hold h (open_file ok) = some (record h { fd = ok })
hold h (posix_memalign ok) = some (record h { buf = ok })
hold h memset = if h.buf then some h else none
hold h (io_setup ok) = some (record h { ctx = ok })
hold h io_submit = if h.ctx && h.fd then some h else none
hold h io_getevents = if h.ctx && h.buf then some h else none
hold h (io_destroy ok) = if h.ctx then some (record h { ctx = not ok }) else none
hold h free = if h.buf then some (record h { buf = false }) else none
hold h close = if h.fd then some (record h { fd = false }) else none

abbrev pub nothing : Held
nothing = record { fd = false; buf = false; ctx = false }

abbrev pub held : List Call → Option Held
held [] = some nothing
held (c ∷ older) = elim (held older) [ none ↦ none | some h ↦ hold h c ]

-- The program has set up a context that `io_destroy` then refuses to destroy.
abbrev pub keeps_context : (argc : ℕ) → Answers → Bool
keeps_context argc a =
    not (ltb argc 2)
    && not (is_negative a.fd)
    && not (is_negative a.memalign)
    && not (is_negative a.setup)
    && is_negative a.destroyed

-- On every way out, one behind a failed `io_destroy` included, the program uses and releases only what it
-- has, and has released everything but a context that `io_destroy` refused to destroy; where the buffer
-- could be had or `posix_memalign` is negative.
pub main_lem :
    (argc : ℕ) (a : Answers)
    → is 0 a.memalign ≡ not (is_negative a.memalign)
    → held (main argc a).1 ≡ some (record nothing { ctx = keeps_context argc a })
unfolding main transfer
main_lem argc a h = ground arith

-- `posix_memalign` reports its errors as numbers above 0, which the test of the program lets pass: it
-- then clears memory that it has not got.
pub memalign_unchecked :
    (argc e : ℕ) (a : Answers)
    → ltb argc 2 ≡ false
    → is_negative a.fd ≡ false
    → a.memalign ≡ pos (suc e)
    → held (main argc a).1 ≡ none
unfolding main transfer
memalign_unchecked argc e a h f m = ground arith
