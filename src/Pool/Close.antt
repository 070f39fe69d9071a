-- ===== src/Pool/Close.antt =====
-- tp_close, and the whole life of a pool: from tp_init through any run to tp_close.
use training.Base.{
  ℕ, zero, suc, ◌+◌, ◌≤◌, ◌<◌, ◌≡◌, refl, sym, ap, ◌∙◌, List, [], ◌∷◌, ◌++◌, true, false, not, ◌&&◌,
  some, arith, ltb, length, get_elem?, get_elem?-some, take, drop, append_assoc, append-nil,
}
use training.Pool.{
  Info, Pool, Call, kill, emit, cond_destroy, mutex_destroy, close_workers, tp_close,
  creat_thread_pool, init_workers, tp_init, Creates,
}
use training.Pool.Slots.{IsValid}
use training.Pool.Start.{
  all_created, got, init_workers_step, init_workers_end, init_workers_lem, start_lem,
}
use training.Pool.Locks.{
  alive, Proper, Alive, PoolAlive, init-Alive, tp_process_job-PoolAlive, manage_round-PoolAlive,
  finish_work-PoolAlive,
}
use training.Pool.System.{
  System, submit, woken, working, looping, cut, Step, submits, manages, waits, takes, ends, Run,
  stop, more,
}
use training.Pool.System.Orderly.{Orderly, used}
use training.Pool.System.Running.{Step-Orderly, Run-Orderly}
use training.Pool.System.Phases.{cut_old, cut_gone}

-- The numbers that `kill` was called with, in the order of the calls.
abbrev pub kills : List Call → List ℕ
kills [] = []
kills (kill t ∷ rest) = kills rest ++ t ∷ []
kills (_ ∷ rest) = kills rest

abbrev pub thread_ids : List Info → List ℕ
thread_ids [] = []
thread_ids (t ∷ rest) = t.thread_id ∷ thread_ids rest

drop_next :
    (infos : List Info) (i : ℕ) (t : Info)
    → get_elem? infos i ≡ some t
    → drop i infos ≡ t ∷ drop (suc i) infos
drop_next [] i t e = cc
drop_next (x ∷ rest) zero t e = let same : x ≡ t = cc in ap (λ y. y ∷ rest) same
drop_next (x ∷ rest) (suc i) t e = drop_next rest i t e

abbrev closed_slot : ℕ → Info → Pool → Pool
closed_slot i t p = emit (cond_destroy i) (emit (mutex_destroy i) (emit (kill t.thread_id) p))

close_workers_step :
    (n i : ℕ) (p : Pool) (t : Info)
    → get_elem? p.thread_info i ≡ some t
    → close_workers (suc n) i p ≡ close_workers n (i + 1) (closed_slot i t p)
unfolding close_workers
close_workers_step n i p t e = ground arith

close_workers_end : (i : ℕ) (p : Pool) → close_workers 0 i p ≡ p
unfolding close_workers
close_workers_end i p = refl

-- What the loop of `tp_close` does to the slots from `i` on.
record Closed (n i : ℕ) (p q : Pool) : Type 0 where
  proper : Proper q.calls
  mutexes : (j : ℕ) → alive q.calls j ≡ alive p.calls j && not (not (ltb j i) && ltb j (i + n))
  killed : kills q.calls ≡ kills p.calls ++ thread_ids (take n (drop i p.thread_info))
  manager : q.manage_thread_id ≡ p.manage_thread_id

close_workers_lem :
    (n i : ℕ) (p : Pool)
    → Proper p.calls
    → ((j : ℕ) → i ≤ j → j < i + n → alive p.calls j ≡ true)
    → i + n ≤ length p.thread_info
    → Closed n i p (close_workers n i p)
close_workers_lem zero i p proper up room = rw (close_workers_end i p) (record {
  proper = proper;
  mutexes = λ j. ground arith;
  killed = sym (append-nil (kills p.calls));
  manager = refl;
})
close_workers_lem (suc n) i p proper up room =
    let (t, e) = get_elem?-some p.thread_info i (omega arith) in
    let q = closed_slot i t p in
    let rest =
      close_workers_lem n (i + 1) q (up i (omega arith) (omega arith), proper)
        (λ j lo hi. ground (arith, up j (omega arith) (omega arith))) (omega arith) in
    let next : i + 1 ≡ suc i = omega arith in
    rw (close_workers_step n i p t e) (record {
      proper = rest.proper;
      mutexes = λ j. ground (arith, rest.mutexes j, up j);
      killed =
          rest.killed
          ∙ append_assoc (kills p.calls) (t.thread_id ∷ [])
              (thread_ids (take n (drop (i + 1) p.thread_info)))
          ∙ ap (λ l. kills p.calls ++ thread_ids (take (suc n) l))
              (sym (drop_next p.thread_info i t e ∙ ap (λ k. t ∷ drop k p.thread_info) (sym next)));
      manager = rest.manager;
    })

-- What is left when the pool is closed: the calls are proper, no mutex of a slot is left, and the last
-- calls of `kill` are with the threads of the slots in use, each once, and with the manager.
pub record Gone (p q : Pool) : Type 0 where
  pub proper : Proper q.calls
  pub mutexes : (j : ℕ) → alive q.calls j ≡ false
  pub killed :
      kills q.calls
      ≡ kills p.calls ++ (thread_ids (take p.cur_th_num p.thread_info) ++ p.manage_thread_id ∷ [])

tp_close_lem : (p : Pool) → IsValid p → PoolAlive p → Gone p (tp_close p)
unfolding tp_close
tp_close_lem p v a =
    let c =
      close_workers_lem p.cur_th_num 0 p a.proper (λ j lo hi. ground (arith, a.slots j))
        (omega (arith, v.most, v.room)) in
    record {
      proper = c.proper;
      mutexes = λ j. ground (arith, c.mutexes j, a.slots j);
      killed =
          ap (λ l. l ++ p.manage_thread_id ∷ []) c.killed
          ∙ append_assoc (kills p.calls) (thread_ids (take p.cur_th_num p.thread_info))
              (p.manage_thread_id ∷ []);
    }

init_workers-Alive :
    (ids : ℕ → ℕ) (n i : ℕ) (p : Pool)
    → Alive p.calls i
    → Alive (init_workers (all_created ids) n i p).1.calls (i + n)
init_workers-Alive ids zero i p a =
    let e : i ≡ i + 0 = omega arith in rw (init_workers_end ids i p) (rw (← e) a)
init_workers-Alive ids (suc n) i p a =
    let e : i + 1 + n ≡ i + suc n = omega arith in
    let new = init-Alive i p.calls a in
    rw (init_workers_step ids n i p, ← e)
      (init_workers-Alive ids n (i + 1) (got ids i p)
        (record { proper = new.proper; slots = new.slots }))

submit-PoolAlive :
    (creates : Creates) (worker job : ℕ) (s : System)
    → PoolAlive s.pool
    → PoolAlive (submit creates worker job s).pool
unfolding submit
submit-PoolAlive creates worker job s a = tp_process_job-PoolAlive creates worker job s.pool a

Step-PoolAlive : {s t : System} → Step s t → Orderly s → PoolAlive s.pool → PoolAlive t.pool
Step-PoolAlive {s} (submits creates worker job made) o a = submit-PoolAlive creates worker job s a
Step-PoolAlive {s} (manages q e kept_all) o a = manage_round-PoolAlive s.pool q a e
Step-PoolAlive {s} (waits i e) o a = a
Step-PoolAlive {s} (takes i worker job e got_it) o a = a
Step-PoolAlive {s} (ends i worker job e) o a =
    finish_work-PoolAlive i s.pool (used s o i (λ eq. let no_more = sym e ∙ eq in cc)) a

Run-PoolAlive : {s t : System} → Run s t → Orderly s → PoolAlive s.pool → PoolAlive t.pool
Run-PoolAlive stop o a = a
Run-PoolAlive (more step rest) o a =
    Run-PoolAlive rest (Step-Orderly step o) (Step-PoolAlive step o a)

-- A pool behind `tp_init`: its workers are on their way to their first wait.
abbrev pub begin : Pool → System
begin p = record { pool = p; phases = cut p.cur_th_num (λ i. looping) }

begin-Orderly : (p : Pool) → IsValid p → Orderly (begin p)
begin-Orderly p v = record {
  valid = v;
  unused = λ j h. cut_gone p.cur_th_num j (λ i. looping) h;
  called = λ j e. let old = cut_old p.cur_th_num j (λ i. looping) woken e (λ eq. cc) in cc;
  running =
      λ j w b e. let old = cut_old p.cur_th_num j (λ i. looping) (working w b) e (λ eq. cc) in cc;
}

module _ (ids : ℕ → ℕ) (manager min_num max_num : ℕ) (block : List Info) where
  abbrev pub initial : Pool
  initial = (tp_init (all_created ids) (some manager) (creat_thread_pool min_num max_num block)).1

  initial-PoolAlive : PoolAlive initial
  unfolding tp_init creat_thread_pool
  initial-PoolAlive =
      let p = creat_thread_pool min_num max_num block in
      let s = init_workers_lem ids min_num 0 p in
      let a =
        init_workers-Alive ids min_num 0 p (record { proper = tt; slots = λ i. ground arith }) in
      rw s.done (record { proper = a.proper; slots = λ i. ground (arith, a.slots i, s.numbers) })

  -- For a pool with a minimum not above its maximum and enough memory, and any run of submitters, manager
  -- and workers, in which each call is a whole step, every thread that is asked for can be had and the
  -- manager gives up none, with `tp_close` behind it: the mutex of a slot is set up only where there is
  -- none, and taken, released and destroyed only where there is one; none is left; and `tp_close` calls
  -- `kill` with the thread of each slot in use once, in their order, and then with the manager.
  pub run-Gone :
      min_num ≤ max_num
      → length block ≡ max_num
      → (t : System) → Run (begin initial) t
      → Gone t.pool (tp_close t.pool)
  run-Gone h room t run =
      let started = start_lem ids manager min_num max_num block h room in
      let orderly = begin-Orderly initial started.1 in
      tp_close_lem t.pool (Run-Orderly run orderly).valid
        (Run-PoolAlive run orderly initial-PoolAlive)
