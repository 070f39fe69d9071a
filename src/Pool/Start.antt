-- ===== src/Pool/Start.antt =====
-- creat_thread_pool and tp_init: the pool before its first job.
use training.Base.{
  ℕ, zero, suc, ◌+◌, ◌≤◌, ◌<◌, ◌≡◌, refl, sym, ◌∙◌, inl, inr, List, Bool, true, not, ◌&&◌, some,
  arith, ltb, ◌==◌, if◌then◌else◌, Bool-cases, length, get_elem?, length-modify,
  get_elem?-modify_self, get_elem?-modify_ne,
}
use training.Pool.{
  Info, Pool, Creates, emit, update_slot, cond_init, mutex_init, create, creat_thread_pool,
  init_workers, tp_init,
}
use training.Pool.Slots.{IsValid}

abbrev set_id : ℕ → Info → Info
set_id tid t = record t { thread_id = tid }

-- The slot `i` of a pool that was begun.
abbrev begun : ℕ → Pool → Pool
begun i p = emit (create i) (emit (mutex_init i) (emit (cond_init i) p))

abbrev pub got : (ids : ℕ → ℕ) → ℕ → Pool → Pool
got ids i p = update_slot i (set_id (ids i)) (begun i p)

module _ (ids : ℕ → ℕ) where
  -- Every `pthread_create` works, and gives slot `i` the thread `ids i`.
  abbrev pub all_created : Creates
  all_created i = some (ids i)

  pub init_workers_step :
      (n i : ℕ) (p : Pool)
      → init_workers all_created (suc n) i p ≡ init_workers all_created n (i + 1) (got ids i p)
  unfolding init_workers
  init_workers_step n i p = refl

  pub init_workers_end : (i : ℕ) (p : Pool) → init_workers all_created 0 i p ≡ (true, p)
  unfolding init_workers
  init_workers_end i p = refl

  -- What the loop leaves in each slot: the memory of `malloc`, with the thread set.
  pub record Started (n i : ℕ) (p : Pool) (r : Bool × Pool) : Type 0 where
    pub done : r.0 ≡ true
    pub numbers :
        (r.1.min_th_num ≡ p.min_th_num)
        × (r.1.cur_th_num ≡ p.cur_th_num)
        × (r.1.max_th_num ≡ p.max_th_num)
    pub size : length r.1.thread_info ≡ length p.thread_info
    pub slots :
        (j : ℕ) (t : Info)
        → get_elem? p.thread_info j ≡ some t
        → get_elem? r.1.thread_info j
          ≡ some (if not (ltb j i) && ltb j (i + n) then set_id (ids j) t else t)

  pub init_workers_lem : (n i : ℕ) (p : Pool) → Started n i p (init_workers all_created n i p)
  init_workers_lem zero i p = rw (init_workers_end i p) (record {
    done = refl;
    numbers = (refl, refl, refl);
    size = refl;
    slots = λ j t e. ground arith;
  })
  init_workers_lem (suc n) i p =
      let rest = init_workers_lem n (i + 1) (got ids i p) in
      rw (init_workers_step n i p) (record {
        done = rest.done;
        numbers = rest.numbers;
        size = rest.size ∙ length-modify i (set_id (ids i)) p.thread_info;
        slots = λ j t e. elim (Bool-cases (i == j)) [
          | inl same ↦
              let ij : i ≡ j = ground arith in
              let here : get_elem? (got ids i p).thread_info j ≡ some (set_id (ids j) t) =
                rw ij (get_elem?-modify_self j (set_id (ids j)) p.thread_info e) in
              ground (arith, rest.slots j (set_id (ids j) t) here)
          | inr other ↦
              let here : get_elem? (got ids i p).thread_info j ≡ some t =
                get_elem?-modify_ne i j (set_id (ids i)) p.thread_info (ground arith) ∙ e in
              ground (arith, rest.slots j t here)
        ];
      })

-- A pool whose threads could all be created is in its limits and has its minimum of threads, if the
-- minimum is not above the maximum; each of its slots has the thread, and for the rest, the mark of a
-- busy thread included, what `malloc` left in the memory.
pub start_lem :
    (ids : ℕ → ℕ) (manager min_num max_num : ℕ) (block : List Info)
    → min_num ≤ max_num
    → length block ≡ max_num
    → let (done, p) =
        tp_init (all_created ids) (some manager) (creat_thread_pool min_num max_num block) in
      (done ≡ true)
      × IsValid p
      × (p.cur_th_num ≡ min_num)
      × ((j : ℕ) (t : Info)
          → j < min_num
          → get_elem? block j ≡ some t
          → get_elem? p.thread_info j ≡ some (record t { thread_id = ids j }))
unfolding tp_init creat_thread_pool
start_lem ids manager min_num max_num block h room =
    let s = init_workers_lem ids min_num 0 (creat_thread_pool min_num max_num block) in
    rw s.done (
      refl,
      record {
        least = omega (arith, s.numbers);
        most = omega (arith, s.numbers);
        room = s.size ∙ room ∙ sym s.numbers.2;
      },
      s.numbers.1,
      λ j t lt e. ground (arith, s.slots j t e),
    )
