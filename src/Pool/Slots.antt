-- ===== src/Pool/Slots.antt =====
-- The slots of `thread_info`: what the pool keeps true of them, and the lookup by thread.
use training.Base.{
  ℕ, zero, suc, ◌+◌, ◌≤◌, ◌<◌, ◌≡◌, refl, inl, inr, List, true, false, Option, none, some, arith,
  ◌==◌, Bool-cases, length, get_elem?, get_elem?-some,
}
use training.Pool.{Info, Pool, find_thread, tp_get_thread_by_id, busy_slot}

-- The array has a slot for each thread that may be, and the numbers are in order.
pub record IsValid (p : Pool) : Type 0 where
  pub least : p.min_th_num ≤ p.cur_th_num
  pub most : p.cur_th_num ≤ p.max_th_num
  pub room : length p.thread_info ≡ p.max_th_num

-- Slot `i` has the thread `id`.
abbrev pub HasThread : ℕ → List Info → ℕ → Type 0
HasThread id infos i = (t : Info) × (get_elem? infos i ≡ some t) × (t.thread_id ≡ id)

-- What a search of the slots from `i` up to `upto` finds: the first slot of the thread, or that none
-- of them has it.
abbrev pub Finds : ℕ → List Info → (i upto : ℕ) → Option ℕ → Type 0
Finds id infos i upto none = (j : ℕ) → i ≤ j → j < upto → ¬ HasThread id infos j
Finds id infos i upto (some k) =
    (i ≤ k) × (k < upto) × HasThread id infos k × ((j : ℕ) → i ≤ j → j < k → ¬ HasThread id infos j)

not-HasThread :
    (id : ℕ) (infos : List Info) (i : ℕ) (t : Info)
    → get_elem? infos i ≡ some t
    → (id == t.thread_id) ≡ false
    → ¬ HasThread id infos i
not-HasThread id infos i t e ne (u, eu, same) = ground arith

Finds-step :
    (id : ℕ) (infos : List Info) (i upto : ℕ) (r : Option ℕ)
    → ¬ HasThread id infos i
    → i < upto
    → Finds id infos (i + 1) upto r
    → Finds id infos i upto r
Finds-step id infos i upto none miss lt f = λ j lo hi. elim (Bool-cases (j == i)) [
  | inl e ↦ let e' : j ≡ i = ground arith in rw e' miss
  | inr ne ↦ f j (ground arith) hi
]
Finds-step id infos i upto (some k) miss lt (lo, hi, here, before) = (
  omega arith,
  hi,
  here,
  λ j a b. elim (Bool-cases (j == i)) [
    | inl e ↦ let e' : j ≡ i = ground arith in rw e' miss
    | inr ne ↦ before j (ground arith) b
  ],
)

module _ (id n i : ℕ) (infos : List Info) (t : Info) (here : get_elem? infos i ≡ some t) where
  find_thread_hit : (id == t.thread_id) ≡ true → find_thread id (suc n) i infos ≡ some i
  unfolding find_thread
  find_thread_hit hit = ground arith

  find_thread_miss :
      (id == t.thread_id) ≡ false → find_thread id (suc n) i infos ≡ find_thread id n (i + 1) infos
  unfolding find_thread
  find_thread_miss miss = ground arith

find_thread_end : (id i : ℕ) (infos : List Info) → find_thread id 0 i infos ≡ none
unfolding find_thread
find_thread_end id i infos = refl

find_thread_lem :
    (id n i upto : ℕ) (infos : List Info)
    → i + n ≡ upto
    → upto ≤ length infos
    → Finds id infos i upto (find_thread id n i infos)
find_thread_lem id zero i upto infos e h =
    rw (find_thread_end id i infos) (λ j lo hi. absurd (omega arith))
find_thread_lem id (suc n) i upto infos e h =
    let (t, et) = get_elem?-some infos i (omega arith) in
    elim (Bool-cases (id == t.thread_id)) [
      | inl hit ↦
          rw (find_thread_hit id n i infos t et hit)
            (omega arith, omega arith, (t, et, ground arith), λ j lo hi. absurd (omega arith))
      | inr miss ↦ rw (find_thread_miss id n i infos t et miss) (
          Finds-step id infos i upto (find_thread id n (i + 1) infos)
            (not-HasThread id infos i t et miss) (omega arith)
            (find_thread_lem id n (i + 1) upto infos (omega arith) h))
    ]

-- In a valid pool a worker finds its own slot: the lookup gives the first slot in use that has the thread, and fails
-- exactly if no slot in use has it.
pub tp_get_thread_by_id_lem :
    (id : ℕ) (p : Pool)
    → IsValid p
    → Finds id p.thread_info 0 p.cur_th_num (tp_get_thread_by_id id p)
unfolding tp_get_thread_by_id
tp_get_thread_by_id_lem id p v =
    find_thread_lem id p.cur_th_num 0 p.cur_th_num p.thread_info (omega arith) (omega arith)

-- The slots from `a` up to `b` are busy.
abbrev pub AllBusy : List Info → (a b : ℕ) → Type 0
AllBusy infos a b = (j : ℕ) → a ≤ j → j < b → busy_slot infos j ≡ true
