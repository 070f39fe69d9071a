-- ===== src/Threads/Tests.antt =====
-- A run of helgrind/test.c up to its deadlock.
use training.Base.{ℕ, ◌≤◌, ◌≡◌, refl, ◌⊎◌, true, none, some}
use training.Threads.{Task, main_task, thread_task, State, start, step}
use training.Threads.Explore.{Run, stop, then}
use training.Threads.Deadlock.{deadlocked, deadlock_lem}

abbrev after : Task → State → State
unfolding step
after t s = elim (step t s) [ none ↦ s | some u ↦ u ]

-- The main task sets up, takes mutex b, and comes to the barrier; then the thread.
abbrev created : State
unfolding after
created = after main_task (after main_task (after main_task (after main_task start)))

abbrev both : State
unfolding created after
both = after thread_task (after main_task (after thread_task (after main_task created)))

run : Run start 8 both
unfolding both created after start step
run =
    then thread_task _
      (then main_task _
        (then thread_task _
          (then main_task _
            (then main_task _
              (then main_task _ (then main_task _ (then main_task _ stop refl) refl) refl) refl)
            refl)
          refl)
        refl)
      refl

deadlock_lem_example :
    (8 ≤ 8)
    × (((◌≡◌ {A = ℕ} 8 8) × (deadlocked both ≡ true) × ((t : Task) → step t both ≡ none))
        ⊎ ((t : Task) × (u : State) × (step t both ≡ some u)))
deadlock_lem_example = deadlock_lem 8 both run
