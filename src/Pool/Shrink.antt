-- ===== src/Pool/Shrink.antt =====
-- tp_delete_thread, tp_get_tp_status and tp_manage_thread: which threads the pool gives up.
use training.Base.{
  ℕ, zero, suc, ◌+◌, ◌-◌, ◌*◌, ◌≤◌, ◌<◌, ◌≡◌, refl, ap, ◌∙◌, ◌⊎◌, inl, inr, ◌∷◌, Bool, true, false,
  Option, some, arith, ltb, Bool-cases, get_elem?, get_elem?-some,
}
use training.Pool.{
  Info, Pool, kill, mutex_destroy, cond_destroy, busy_slot, busy_num, tp_delete_thread,
  tp_get_tp_status, delete_idle, manage_round,
}
use training.Pool.Slots.{IsValid}

abbrev last : Pool → ℕ
last p = p.cur_th_num - 1

-- The pool without its last thread, `t`.
abbrev without_last : Pool → Info → Pool
without_last p t = record p {
  cur_th_num = last p;
  calls = cond_destroy (last p) ∷ (mutex_destroy (last p) ∷ (kill t.thread_id ∷ p.calls));
}

module _ (p : Pool) where
  pub delete_least : ltb p.min_th_num p.cur_th_num ≡ false → tp_delete_thread p ≡ (false, p)
  unfolding tp_delete_thread
  delete_least h = rw h

  pub delete_busy :
      ltb p.min_th_num p.cur_th_num ≡ true
      → busy_slot p.thread_info (last p) ≡ true
      → tp_delete_thread p ≡ (false, p)
  unfolding tp_delete_thread
  delete_busy h busy = ground arith

  pub delete_last :
      {t : Info}
      → ltb p.min_th_num p.cur_th_num ≡ true
      → busy_slot p.thread_info (last p) ≡ false
      → get_elem? p.thread_info (last p) ≡ some t
      → tp_delete_thread p ≡ (true, without_last p t)
  unfolding tp_delete_thread
  delete_last h idle here = ground arith

-- Why the pool gives up no more threads.
abbrev pub Settled : Pool → Type 0
Settled q = (q.cur_th_num ≡ q.min_th_num) ⊎ (busy_slot q.thread_info (q.cur_th_num - 1) ≡ true)

-- From `p` to `q` only idle threads at the end of the array were given up.
pub record Shrunk (p q : Pool) : Type 0 where
  pub fewer : q.cur_th_num ≤ p.cur_th_num
  pub enough : p.min_th_num ≤ q.cur_th_num
  pub limits : (q.min_th_num ≡ p.min_th_num) × (q.max_th_num ≡ p.max_th_num)
  pub same : q.thread_info ≡ p.thread_info
  pub idle : (j : ℕ) → q.cur_th_num ≤ j → j < p.cur_th_num → busy_slot p.thread_info j ≡ false

-- What `tp_delete_thread` does: it fails and changes nothing if the pool is at its minimum or its last
-- thread is busy, and otherwise gives up that thread, which is idle.
abbrev pub Deleted : Pool → Bool × Pool → Type 0
Deleted p (false, q) = (q ≡ p) × Settled p
Deleted p (true, q) = Shrunk p q × (q.cur_th_num + 1 ≡ p.cur_th_num)

pub tp_delete_thread_lem : (p : Pool) → IsValid p → Deleted p (tp_delete_thread p)
tp_delete_thread_lem p v = elim (Bool-cases (ltb p.min_th_num p.cur_th_num)) [
  | inr least ↦ rw (delete_least p least) (refl, inl (ground arith))
  | inl more ↦
      let h : p.min_th_num < p.cur_th_num = ground arith in
      elim (Bool-cases (busy_slot p.thread_info (last p))) [
        | inl busy ↦ rw (delete_busy p more busy) (refl, inr busy)
        | inr idle ↦
            let (t, here) = get_elem?-some p.thread_info (last p) (omega arith) in
            rw (delete_last p more idle here) (
              record {
                fewer = omega arith;
                enough = omega arith;
                limits = (refl, refl);
                same = refl;
                idle = λ j lo hi. let e : j ≡ last p = omega arith in rw e idle;
              },
              omega arith,
            )
      ]
]

pub Shrunk-refl : (p : Pool) → IsValid p → Shrunk p p
Shrunk-refl p v = record {
  fewer = omega arith;
  enough = v.least;
  limits = (refl, refl);
  same = refl;
  idle = λ j lo hi. absurd (omega arith);
}

Shrunk-trans : {p q r : Pool} → Shrunk p q → Shrunk q r → Shrunk p r
Shrunk-trans {p} {q} {r} a b = record {
  fewer = omega (arith, a.fewer, b.fewer);
  enough = omega (arith, b.enough, a.limits);
  limits = (omega (arith, a.limits, b.limits), omega (arith, a.limits, b.limits));
  same = ground (arith, a.same, b.same);
  idle = λ j lo hi. elim (Bool-cases (ltb j q.cur_th_num)) [
    | inl old ↦
        let i : busy_slot q.thread_info j ≡ false = b.idle j lo (ground arith) in rw a.same at i
    | inr new ↦ a.idle j (ground arith) hi
  ];
}

pub Shrunk-IsValid : {p q : Pool} → IsValid p → Shrunk p q → IsValid q
Shrunk-IsValid v s = record {
  least = omega (arith, s.enough, s.limits);
  most = omega (arith, s.fewer, s.limits, v.most);
  room = ground (arith, s.same, s.limits, v.room);
}

pub delete_idle_stop :
    (fuel : ℕ) (p q : Pool) → tp_delete_thread p ≡ (false, q) → delete_idle (suc fuel) p ≡ some q
unfolding delete_idle
delete_idle_stop fuel p q e =
    ap (λ (r : Bool × Pool). elim r.0 [ false ↦ some r.1 | true ↦ delete_idle fuel r.1 ]) e

pub delete_idle_more :
    (fuel : ℕ) (p q : Pool)
    → tp_delete_thread p ≡ (true, q)
    → delete_idle (suc fuel) p ≡ delete_idle fuel q
unfolding delete_idle
delete_idle_more fuel p q e =
    ap {B = Option Pool}
      (λ (r : Bool × Pool). elim r.0 [ false ↦ some r.1 | true ↦ delete_idle fuel r.1 ]) e

-- With more fuel than threads above the minimum the loop ends.
delete_idle_lem :
    (fuel : ℕ) (p : Pool)
    → IsValid p
    → p.cur_th_num - p.min_th_num < fuel
    → (q : Pool) × (delete_idle fuel p ≡ some q) × Shrunk p q × Settled q
delete_idle_lem zero p v h = elim h [ ]
delete_idle_lem (suc fuel) p v h =
    split (tp_delete_thread p) refl (tp_delete_thread_lem p v) (delete_idle_lem fuel)
  where
    split :
        (r : Bool × Pool)
        → tp_delete_thread p ≡ r
        → Deleted p r
        → ((q : Pool)
            → IsValid q
            → q.cur_th_num - q.min_th_num < fuel
            → (s : Pool) × (delete_idle fuel q ≡ some s) × Shrunk q s × Settled s)
        → (s : Pool) × (delete_idle (suc fuel) p ≡ some s) × Shrunk p s × Settled s
    split (false, q) e d rest = (p, delete_idle_stop fuel p q e ∙ ap some d.0, Shrunk-refl p v, d.1)
    split (true, q) e d rest =
        let (s, run, shrunk, settled) =
          rest q (Shrunk-IsValid v d.0) (omega (arith, d.0.limits, d.0.enough, d.1)) in
        (s, delete_idle_more fuel p q e ∙ run, Shrunk-trans d.0 shrunk, settled)

abbrev pub Managed : Pool → Pool → Type 0
Managed p q = Shrunk p q × Settled q

-- A round of the manager of a valid pool ends. With at least half of the threads busy it changes nothing. Otherwise it
-- gives up idle threads from the end of the array, none that is busy and none of the minimum, until the
-- pool is at its minimum or its last thread is busy.
pub manage_round_lem :
    (p : Pool)
    → IsValid p
    → (q : Pool) × (manage_round p ≡ some q)
      × (((p.cur_th_num ≤ 2 * busy_num p.thread_info p.cur_th_num) × (q ≡ p))
          ⊎ ((2 * busy_num p.thread_info p.cur_th_num < p.cur_th_num) × Managed p q))
unfolding manage_round tp_get_tp_status
manage_round_lem p v =
    elim (Bool-cases (ltb (2 * busy_num p.thread_info p.cur_th_num) p.cur_th_num)) [
      | inl idle ↦
          let (q, run, shrunk, settled) = delete_idle_lem (p.cur_th_num + 1) p v (omega arith) in
          (q, ground arith, inr (ground arith, (shrunk, settled)))
      | inr busy ↦ (p, ground arith, inl (ground arith, refl))
    ]
