-- ===== src/Mem/Multi/Isolation.antt =====
-- No call on one of the ten memories reaches another one.
use training.Base.{
  ℕ, ◌+◌, ◌%◌, ◌^◌, ◌≤◌, ◌<◌, ◌≡◌, refl, ap, ◌≢◌, ◌∙◌, List, [], ◌∷◌, some, length, take, get_elem?,
  get_elem?-modify_self, get_elem?-modify_ne,
}
use training.Base.Int.{pos}
use training.Kernel.{ret, Copy, copied}
use training.Mem.{Globalmem, globalmem_size}
use training.Mem.Transfer
use training.Mem.Multi.{
  File, globalmem_open, Op, writes, file, step, change, read, write, read_file, value,
}

pub run : List Op → List Globalmem → List Globalmem
run [] devs = devs
run (op ∷ rest) devs = run rest (step op devs)

-- None of the calls is on a file of device `j`.
abbrev pub Elsewhere : ℕ → List Op → Type 0
Elsewhere j [] = Unit {0}
Elsewhere j (op ∷ rest) = ((file op).private_data ≢ j) × Elsewhere j rest

-- A device is left alone by any number of calls on files of the other devices.
pub run-Elsewhere :
    (j : ℕ) (ops : List Op) (devs : List Globalmem)
    → Elsewhere j ops
    → get_elem? (run ops devs) j ≡ get_elem? devs j
unfolding run step
run-Elsewhere j [] devs h = refl
run-Elsewhere j (op ∷ rest) devs h =
    run-Elsewhere j rest (step op devs) h.1
    ∙ get_elem?-modify_ne (file op).private_data j (change op) devs h.0

read_file-some :
    (filp : File) (copy : Copy) (size : ℕ) (devs : List Globalmem) (d : Globalmem)
    → get_elem? devs filp.private_data ≡ some d
    → read_file filp copy size devs ≡ some (value (read copy size filp.f_pos) d)
unfolding read_file
read_file-some filp copy size devs d h = rw (h, read_file) refl

-- What was written through a file of a device is what another file of the same device reads at that
-- position in the memory, whatever was called on the other devices in between, where the copies do not
-- fault and the buffer is as long as the size.
pub read_file-write :
    (minor p size : ℕ) (one other : File) (buf : List ℕ) (ops : List Op) (devs : List Globalmem)
    (d : Globalmem)
    → p < globalmem_size
    → get_elem? devs minor ≡ some d
    → Transfer.IsValid d
    → size % 2 ^ 32 ≤ length buf
    → Elsewhere minor ops
    → read_file
        (record (globalmem_open minor other) { f_pos = pos p })
        copied
        size
        (run ops (
          step (writes (record (globalmem_open minor one) { f_pos = pos p }) copied buf size) devs))
      ≡ some (record {
        value = ret (Transfer.moved size p);
        ppos = pos (p + Transfer.moved size p);
        bytes = take (Transfer.moved size p) buf;
      })
unfolding read_file step change read write globalmem_open
read_file-write minor p size one other buf ops devs d inside here valid long away =
    let op = writes (record (globalmem_open minor one) { f_pos = pos p }) copied buf size in
    let e =
      run-Elsewhere minor ops (step op devs) away
      ∙ get_elem?-modify_self minor (change op) devs here in
    read_file-some (record (globalmem_open minor other) { f_pos = pos p }) copied size
      (run ops (step op devs)) (change op d) e
    ∙ ap some (
        (Transfer.read_inside_lem size p inside (record { dev = change op d; calls = [] }) []).0
        ∙ ap
            (λ bytes. record {
              value = ret (Transfer.moved size p);
              ppos = pos (p + Transfer.moved size p);
              bytes = bytes;
            })
            (Transfer.write_inside_lem size p inside buf (record { dev = d; calls = [] }) valid
              long).1)
