-- ===== src/Pool/Calls/Manager.antt =====
-- tp_delete_thread of thread-pool.c in small steps, beside the calls of tp_process_job: the inner loop of
-- tp_manage_thread, which takes no mutex.
use training.Base.{
  ℕ, ◌+◌, ◌-◌, ◌≤◌, ◌<◌, ◌≡◌, refl, ap, sym, ◌∙◌, List, ◌∷◌, Bool, true, false, none, some, arith,
}
use training.Pool.Calls.{scanning, done, Shared, Step, Run, stop, then, put}
use training.Pool.Calls.Exclusive.{put_self}
use training.Pool.Calls.Alone.{idle-Left}

-- Where the manager is: before a call of tp_delete_thread, behind its two tests, behind the calls of `kill`
-- and those that destroy the mutex and the condition, or behind the inner loop.
pub data Manager : Type 0 where
  deleting tested destroying resting : Manager

-- `destroyed i` tells whether the mutex and the condition of slot `i` were destroyed.
pub record Managed : Type 0 where
  pub shared : Shared
  pub manager : Manager
  pub destroyed : ℕ → Bool

module _ (worker job : ℕ → ℕ) (min_th_num : ℕ) where
  -- A step of a submitter, of a worker or of the manager; `kill` of a pthread_t stops no worker.
  pub data ManagedStep (s : Managed) : Managed → Type 0 where
    other : {u : Shared} → Step worker job s.shared u → ManagedStep s (record s { shared = u })
    finds_least :
        s.manager ≡ deleting
        → s.shared.cur_th_num ≤ min_th_num
        → ManagedStep s (record s { manager = resting })
    finds_busy :
        s.manager ≡ deleting
        → min_th_num < s.shared.cur_th_num
        → s.shared.is_busy (s.shared.cur_th_num - 1) ≡ true
        → ManagedStep s (record s { manager = resting })
    finds_idle :
        s.manager ≡ deleting
        → min_th_num < s.shared.cur_th_num
        → s.shared.is_busy (s.shared.cur_th_num - 1) ≡ false
        → ManagedStep s (record s { manager = tested })
    destroys :
        s.manager ≡ tested
        → ManagedStep s (record s {
          manager = destroying;
          destroyed = put (s.shared.cur_th_num - 1) true s.destroyed;
        })
    counts :
        s.manager ≡ destroying
        → ManagedStep s (record s {
          shared = record s.shared { cur_th_num = s.shared.cur_th_num - 1 };
          manager = deleting;
        })

  pub data ManagedRun (s : Managed) : Managed → Type 0 where
    stay : ManagedRun s s
    go : {t u : Managed} → ManagedRun s t → ManagedStep t u → ManagedRun s u

  Run-ManagedRun :
      {r : Managed} {s u : Shared} (m : Manager) (d : ℕ → Bool)
      → ManagedRun r (record { shared = s; manager = m; destroyed = d })
      → Run worker job s u
      → ManagedRun r (record { shared = u; manager = m; destroyed = d })
  Run-ManagedRun m d first stop = first
  Run-ManagedRun m d first (then before step) = go (Run-ManagedRun m d first before) (other step)

  -- The slot `k` is busy and has both halves of the job of `t`, which has signalled it and returned, but
  -- `k` is no slot of the pool any more, and its mutex and condition are destroyed.
  pub record Stranded (t k : ℕ) (s : Managed) : Type 0 where
    pub returned : s.shared.place t ≡ done
    pub behind : s.shared.cur_th_num ≡ k
    pub busy : s.shared.is_busy k ≡ true
    pub halves : (s.shared.th_work k ≡ some (worker t)) × (s.shared.th_job k ≡ some (job t))
    pub destroyed : s.destroyed k ≡ true
    pub older : List ℕ
    pub signalled : s.shared.signalled ≡ k ∷ older

  -- Whenever the manager is in its inner loop, the mutexes are free, the last thread alone is idle and the
  -- pool is above its minimum, the manager can take away the slot that a submitter that begins a call is
  -- given: there is a run after which the call has returned, and its job is in a busy slot that is no more
  -- counted, and whose mutex and condition are destroyed.
  pub deletes_claimed :
      (s : Shared) (destroyed : ℕ → Bool) (t k : ℕ)
      → s.place t ≡ scanning 0
      → s.cur_th_num ≡ k + 1
      → min_th_num ≤ k
      → ((i : ℕ) → s.thread_lock i ≡ none)
      → s.tp_lock ≡ none
      → ((j : ℕ) → j < k → s.is_busy j ≡ true)
      → s.is_busy k ≡ false
      → (u : Managed) × ManagedRun
          (record { shared = s; manager = deleting; destroyed = destroyed })
          u
        × Stranded t k u
  deletes_claimed s destroyed t k at cur least free open_pool busy idle =
      let last : s.cur_th_num - 1 ≡ k = rw cur (omega arith) in
      let l = idle-Left worker job t s at free open_pool k (rw cur (omega arith)) busy idle in
      let (sc, sm, sb, sw, sj) = l.slots in
      let last' : l.state.cur_th_num - 1 ≡ k = ap (λ n. n - 1) sc ∙ last in
      let found = go stay (finds_idle refl (rw cur (omega arith)) (ap s.is_busy last ∙ idle)) in
      let run =
        go (go (Run-ManagedRun tested destroyed found l.run) (destroys refl)) (counts refl) in
      (
        _,
        run,
        record {
          returned = l.at;
          behind = last';
          busy = ap (λ f. f k) sb ∙ put_self k true s.is_busy;
          halves = (
            ap (λ f. f k) sw ∙ put_self k (some (worker t)) s.th_work,
            ap (λ f. f k) sj ∙ put_self k (some (job t)) s.th_job,
          );
          destroyed =
              sym (ap (put (l.state.cur_th_num - 1) true destroyed) last')
              ∙ put_self (l.state.cur_th_num - 1) true destroyed;
          older = s.signalled;
          signalled = l.signalled;
        },
      )
