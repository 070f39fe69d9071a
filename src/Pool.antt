-- ===== src/Pool.antt =====
-- multi-thread/libthreadpool/src/thread-pool.c: a pool of worker threads that grows up to a maximum
-- and shrinks to a minimum. The C library's threads are not modelled: an operation leaves a trace of
-- its pthread calls, and the answers of `pthread_create` are an argument.
pub mod Slots
pub mod Scan
pub mod Submit
pub mod Shrink
pub mod Served
pub mod Start
pub mod Locks
pub mod System
pub mod Close
pub mod Calls
mod Tests
use training.Base.{
  ℕ, zero, suc, ◌+◌, ◌-◌, ◌*◌, List, [], ◌∷◌, Bool, true, false, not, Option, none, some, ltb, ◌==◌,
  if◌then◌else◌, get_elem?, modify,
}

-- `struct tp_thread_info_s`; pointers are numbers, NULL is `none`.
pub record Info : Type 0 where
  pub thread_id : ℕ
  pub is_busy : Bool
  pub th_work : Option ℕ
  pub th_job : Option ℕ

-- The calls that act on threads, on the locks and conditions of a slot of `thread_info`, and on the
-- memory.
pub data Call : Type 0 where
  cond_init mutex_init create lock unlock signal : (slot : ℕ) → Call
  mutex_destroy cond_destroy free_slot : (slot : ℕ) → Call
  kill : (thread : ℕ) → Call
  create_manager lock_pool unlock_pool destroy_pool_lock free_thread_info : Call

-- `struct tp_thread_pool_s` without its methods, and the calls made so far, the newest first.
pub record Pool : Type 0 where
  pub min_th_num : ℕ
  pub cur_th_num : ℕ
  pub max_th_num : ℕ
  pub manage_thread_id : ℕ
  pub thread_info : List Info
  pub calls : List Call

abbrev pub emit : Call → Pool → Pool
emit c p = record p { calls = c ∷ p.calls }

abbrev pub update_slot : ℕ → (Info → Info) → Pool → Pool
update_slot i f p = record p { thread_info = modify i f p.thread_info }

-- What `pthread_create` answers for a slot: the new thread, or an error.
abbrev pub Creates : Type 0
Creates = ℕ → Option ℕ

-- `creat_thread_pool`; `block` is the memory that `malloc` gave, with what was in it.
pub creat_thread_pool : (min_num max_num : ℕ) (block : List Info) → Pool
creat_thread_pool min_num max_num block = record {
  min_th_num = min_num;
  cur_th_num = min_num;
  max_th_num = max_num;
  manage_thread_id = 0;
  thread_info = block;
  calls = [];
}

-- The loop of `tp_init`, with `n` rounds left from slot `i`.
pub init_workers : Creates → (n i : ℕ) → Pool → Bool × Pool
init_workers creates zero i p = (true, p)
init_workers creates (suc n) i p =
    let q = emit (create i) (emit (mutex_init i) (emit (cond_init i) p)) in
    elim (creates i) [
      | none ↦ (false, q)
      | some tid ↦
          init_workers creates n (i + 1) (update_slot i (λ t. record t { thread_id = tid }) q)
    ]

-- `tp_init`; `manager` is the answer of the last `pthread_create`.
pub tp_init : Creates → (manager : Option ℕ) → Pool → Bool × Pool
unfolding init_workers
tp_init creates manager p =
    let (done, q) = init_workers creates p.min_th_num 0 p in
    if not done then (false, q) else elim manager [
      | none ↦ (false, emit create_manager q)
      | some tid ↦ (true, record (emit create_manager q) { manage_thread_id = tid })
    ]

-- The loop of `tp_close`, with `n` rounds left from slot `i`.
pub close_workers : (n i : ℕ) → Pool → Pool
close_workers zero i p = p
close_workers (suc n) i p = close_workers n (i + 1) (elim (get_elem? p.thread_info i) [
  | none ↦ p
  | some t ↦ emit (cond_destroy i) (emit (mutex_destroy i) (emit (kill t.thread_id) p))
])

-- `tp_close`
pub tp_close : Pool → Pool
unfolding close_workers
tp_close p =
    emit free_thread_info
      (emit destroy_pool_lock (emit (kill p.manage_thread_id) (close_workers p.cur_th_num 0 p)))

-- `tp_add_thread`. `free_slot` is `free` of the address of the slot, which C does not define, since malloc
-- gave the array as a whole: what the pool is behind it is what the code goes on with at best.
pub tp_add_thread : Creates → Pool → Bool × Pool
tp_add_thread creates p =
    let i = p.cur_th_num in
    if not (ltb i p.max_th_num)
    then (false, p)
    else let q =
        update_slot i (λ t. record t { is_busy = true })
          (emit (mutex_init i) (emit (cond_init i) p)) in
      let r = emit (create i) (record q { cur_th_num = i + 1 }) in
      elim (creates i) [
        | none ↦ (false, emit (free_slot i) r)
        | some tid ↦ (true, update_slot i (λ t. record t { thread_id = tid }) r)
      ]

abbrev pub assign : (worker job : ℕ) → Info → Info
assign worker job t = record t { th_work = some worker; th_job = some job }

-- The loop of `tp_process_job` over the slots from `i` on, `n` of them left: `true` when it found an
-- idle thread and returned.
pub give_idle : (worker job n i : ℕ) → Pool → Bool × Pool
give_idle worker job zero i p = (false, p)
give_idle worker job (suc n) i p =
    let q = emit (lock i) p in
    elim (get_elem? p.thread_info i) [
      | none ↦ (false, q)
      | some t ↦ elim t.is_busy [
        | false ↦ (
          true,
          emit (signal i) (
              update_slot i (assign worker job)
                (emit (unlock i) (update_slot i (λ u. record u { is_busy = true }) q))),
        )
        | true ↦ give_idle worker job n (i + 1) (emit (unlock i) q)
      ]
    ]

-- The rest of `tp_process_job`, when the loop ended with `i` at `cur_th_num`.
pub give_new : Creates → (worker job : ℕ) → Pool → Pool
give_new creates worker job p =
    let i = p.cur_th_num in
    let (added, q) = tp_add_thread creates (emit lock_pool p) in
    let last = q.cur_th_num - 1 in
    if added
    then emit (signal last) (emit unlock_pool (update_slot last (assign worker job) q))
    else emit (signal i) (emit unlock_pool q)

-- `tp_process_job`
pub tp_process_job : Creates → (worker job : ℕ) → Pool → Pool
tp_process_job creates worker job p =
    let (found, q) = give_idle worker job p.cur_th_num 0 p in
    if found then q else give_new creates worker job q

-- The loop of `tp_get_thread_by_id`; `none` stands for -1.
pub find_thread : (id n i : ℕ) → List Info → Option ℕ
find_thread id zero i infos = none
find_thread id (suc n) i infos = elim (get_elem? infos i) [
  | none ↦ none
  | some t ↦ elim (id == t.thread_id) [ true ↦ some i | false ↦ find_thread id n (i + 1) infos ]
]

-- `tp_get_thread_by_id`
pub tp_get_thread_by_id : (id : ℕ) → Pool → Option ℕ
unfolding find_thread
tp_get_thread_by_id id p = find_thread id p.cur_th_num 0 p.thread_info

abbrev pub busy_slot : List Info → ℕ → Bool
busy_slot infos i = elim (get_elem? infos i) [ none ↦ false | some t ↦ t.is_busy ]

-- `tp_delete_thread`
pub tp_delete_thread : Pool → Bool × Pool
tp_delete_thread p =
    let last = p.cur_th_num - 1 in
    if not (ltb p.min_th_num p.cur_th_num)
    then (false, p)
    else if busy_slot p.thread_info last
    then (false, p)
    else elim (get_elem? p.thread_info last) [
      | none ↦ (false, p)
      | some t ↦ (
        true,
        record (emit (cond_destroy last) (emit (mutex_destroy last) (emit (kill t.thread_id) p))) {
          cur_th_num = last;
        },
      )
    ]

-- The number of busy threads among the first `n`.
pub busy_num : List Info → ℕ → ℕ
busy_num infos zero = 0
busy_num infos (suc n) = busy_num infos n + (if busy_slot infos n then 1 else 0)

-- `tp_get_tp_status`: idle is 0. The quotient of the floats is below BUSY_THRESHOLD, one half, exactly
-- if twice the number of busy threads is below that of all; with no thread it is no number.
pub tp_get_tp_status : Pool → ℕ
tp_get_tp_status p = if ltb (2 * busy_num p.thread_info p.cur_th_num) p.cur_th_num then 0 else 1

-- The inner loop of `tp_manage_thread`, at most `fuel` times; `none` when that was too few.
pub delete_idle : (fuel : ℕ) → Pool → Option Pool
delete_idle zero p = none
delete_idle (suc fuel) p =
    let (done, q) = tp_delete_thread p in elim done [ false ↦ some q | true ↦ delete_idle fuel q ]

-- One round of `tp_manage_thread`.
pub manage_round : Pool → Option Pool
manage_round p = elim (tp_get_tp_status p == 0) [
  | true ↦ delete_idle (p.cur_th_num + 1) p
  | false ↦ some p
]

-- What `tp_work_thread` in slot `nseq` takes when it is woken.
pub take_work : (nseq : ℕ) → Pool → Option (Option ℕ × Option ℕ)
take_work nseq p = elim (get_elem? p.thread_info nseq) [
  | none ↦ none
  | some t ↦ some (t.th_work, t.th_job)
]

-- What it does when the work is over.
pub finish_work : (nseq : ℕ) → Pool → Pool
finish_work nseq p =
    emit (unlock nseq) (update_slot nseq (λ t. record t { is_busy = false }) (emit (lock nseq) p))
