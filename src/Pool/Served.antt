-- ===== src/Pool/Served.antt =====
-- What tp_process_job promises to the job that it is given and to those that are running.
use training.Base.{
  ℕ, ◌+◌, ◌≤◌, ◌<◌, ◌≡◌, refl, sym, ◌∙◌, ap, ◌≢◌, ◌⊎◌, inl, inr, List, ◌∷◌, true, false, some,
  arith, length, get_elem?, get_elem?-some, modify, length-modify, get_elem?-modify_self,
  get_elem?-modify_ne,
}
use training.Pool.{Info, Pool, Call, Creates, assign, signal, busy_slot, take_work, tp_process_job}
use training.Pool.Slots.{IsValid}
use training.Pool.Submit.{fields, Submitted, GaveIdle, with_job, tp_process_job_lem}

-- What every outcome says of the numbers and of the slots in use.
record Kept (p q : Pool) : Type 0 where
  valid : IsValid q
  running :
      (j : ℕ)
      → j < p.cur_th_num
      → busy_slot p.thread_info j ≡ true
      → get_elem? q.thread_info j ≡ get_elem? p.thread_info j

module _ (p q : Pool) (v : IsValid p) where
  -- A pool with `k` more threads and one changed slot behind those in use, or none.
  kept :
      (infos : List Info) (cur : ℕ)
      → fields q ≡ (p.min_th_num, cur, p.max_th_num, infos)
      → p.cur_th_num ≤ cur
      → cur ≤ p.max_th_num
      → length infos ≡ length p.thread_info
      → ((j : ℕ)
          → j < p.cur_th_num
          → busy_slot p.thread_info j ≡ true
          → get_elem? infos j ≡ get_elem? p.thread_info j)
      → Kept p q
  kept infos cur e lo hi len same =
      let e0 : q.min_th_num ≡ p.min_th_num = ap (λ d. d.0) e in
      let e1 : q.cur_th_num ≡ cur = ap (λ d. d.1) e in
      let e2 : q.max_th_num ≡ p.max_th_num = ap (λ d. d.2) e in
      let e3 : q.thread_info ≡ infos = ap (λ d. d.3) e in
      record {
        valid = record {
          least = omega arith;
          most = omega arith;
          room = ap length e3 ∙ len ∙ v.room ∙ sym e2;
        };
        running = λ j lt busy. ap (λ xs. get_elem? xs j) e3 ∙ same j lt busy;
      }

  modify_other :
      (i j : ℕ) (f g : Info → Info)
      → i ≢ j
      → get_elem? (modify i f (modify i g p.thread_info)) j ≡ get_elem? p.thread_info j
  modify_other i j f g h =
      get_elem?-modify_ne i j f (modify i g p.thread_info) h
      ∙ get_elem?-modify_ne i j g p.thread_info h

  length-modify_twice :
      (i : ℕ) (f g : Info → Info)
      → length (modify i f (modify i g p.thread_info)) ≡ length p.thread_info
  length-modify_twice i f g =
      length-modify i f (modify i g p.thread_info) ∙ length-modify i g p.thread_info

  Submitted-Kept :
      (creates : Creates) (worker job : ℕ) → Submitted creates worker job p q → Kept p q
  Submitted-Kept creates worker job (inl g) =
      kept (with_job worker job g.slot p.thread_info) p.cur_th_num g.after (omega arith) v.most
        (length-modify_twice g.slot _ _)
        (λ j lt busy. modify_other g.slot j _ _ (λ e. let i = g.idle in ground arith))
  Submitted-Kept creates worker job (inr (inl g)) =
      kept _ (p.cur_th_num + 1) g.after (omega arith) (omega (arith, g.room))
        (length-modify p.cur_th_num _ _ ∙ length-modify_twice p.cur_th_num _ _)
        (λ j lt busy.
          get_elem?-modify_ne p.cur_th_num j _ _ (omega arith)
          ∙ modify_other p.cur_th_num j _ _ (omega arith))
  Submitted-Kept creates worker job (inr (inr (inl g))) =
      kept _ (p.cur_th_num + 1) g.after (omega arith) (omega (arith, g.room))
        (length-modify p.cur_th_num _ _)
        (λ j lt busy. get_elem?-modify_ne p.cur_th_num j _ _ (omega arith))
  Submitted-Kept creates worker job (inr (inr (inr g))) =
      kept p.thread_info p.cur_th_num g.after (omega arith) v.most refl (λ j lt busy. refl)

-- On every path of a valid pool, failures included, a job that is running keeps its slot as it is, and the pool stays
-- within its limits.
pub tp_process_job-keeps :
    (creates : Creates) (worker job : ℕ) (p : Pool)
    → IsValid p
    → IsValid (tp_process_job creates worker job p)
      × ((j : ℕ)
          → j < p.cur_th_num
          → busy_slot p.thread_info j ≡ true
          → get_elem? (tp_process_job creates worker job p).thread_info j
            ≡ get_elem? p.thread_info j)
tp_process_job-keeps creates worker job p v =
    let k =
      Submitted-Kept p (tp_process_job creates worker job p) v creates worker job
        (tp_process_job_lem creates worker job p v) in
    (k.valid, k.running)

-- A slot in use has the job and is busy, and the last call is the signal to it.
pub record Serves (worker job : ℕ) (q : Pool) : Type 0 where
  pub slot : ℕ
  pub in_use : slot < q.cur_th_num
  pub takes : take_work slot q ≡ some (some worker, some job)
  pub busy : busy_slot q.thread_info slot ≡ true
  pub older : List Call
  pub woken : q.calls ≡ signal slot ∷ older

take_work-modify :
    (worker job k : ℕ) (q : Pool) (infos : List Info)
    → k < length infos
    → q.thread_info ≡ modify k (assign worker job) infos
    → busy_slot infos k ≡ true
    → (take_work k q ≡ some (some worker, some job)) × (busy_slot q.thread_info k ≡ true)
unfolding take_work
take_work-modify worker job k q infos lt e busy =
    let (t, here) = get_elem?-some infos k lt in
    let there = get_elem?-modify_self k (assign worker job) infos here in
    rw e (ground (arith, there, here))

busy_slot-modify :
    (k : ℕ) (f : Info → Info) (infos : List Info)
    → k < length infos
    → ((t : Info) → (f t).is_busy ≡ true)
    → busy_slot (modify k f infos) k ≡ true
busy_slot-modify k f infos lt h =
    let (t, here) = get_elem?-some infos k lt in
    ground (arith, get_elem?-modify_self k f infos here, h t)

module _ (worker job : ℕ) (p q : Pool) (v : IsValid p) where
  -- The slot has the job, and is busy.
  pub GaveIdle-slot :
      (g : GaveIdle worker job 0 p.cur_th_num p q)
      → (take_work g.slot q ≡ some (some worker, some job))
        × (busy_slot q.thread_info g.slot ≡ true)
  GaveIdle-slot g =
      let infos : List Info = modify g.slot (λ t. record t { is_busy = true }) p.thread_info in
      let len = length-modify g.slot (λ (t : Info). record t { is_busy = true }) p.thread_info in
      let lt : g.slot < length p.thread_info = omega (arith, g.upper) in
      let busy =
        busy_slot-modify g.slot (λ t. record t { is_busy = true }) p.thread_info lt (λ t. refl) in
      take_work-modify worker job g.slot q infos (omega arith) (ap (λ d. d.3) g.after) busy

-- Some thread is idle, or one more may be and `pthread_create` works.
abbrev pub CanServe : Creates → Pool → Type 0
CanServe creates p =
    ((j : ℕ) × (j < p.cur_th_num) × (busy_slot p.thread_info j ≡ false))
    ⊎ ((p.cur_th_num < p.max_th_num) × ((tid : ℕ) × (creates p.cur_th_num ≡ some tid)))
