-- ===== src/Kernel/Locks.antt =====
-- The locking discipline of a trace: the mutex is taken before the device is touched, is released
-- by its holder only, and is not held across `schedule`.
use training.Base.{List, [], ◌∷◌}
use training.Kernel.{Call, mutex_lock, mutex_unlock, schedule, load, store, load_queue, store_queue}

pub data Lock : Type 0 where
  unlocked locked broken : Lock

abbrev pub lock_step : Lock → Call → Lock
lock_step broken c = broken
lock_step unlocked mutex_lock = locked
lock_step unlocked mutex_unlock = broken
lock_step unlocked load = broken
lock_step unlocked store = broken
lock_step unlocked load_queue = broken
lock_step unlocked store_queue = broken
lock_step unlocked c = unlocked
lock_step locked mutex_lock = broken
lock_step locked mutex_unlock = unlocked
lock_step locked schedule = broken
lock_step locked c = locked

-- The state of the mutex after a trace (newest call first) that began at `l`.
abbrev pub lock_after : Lock → List Call → Lock
lock_after l [] = l
lock_after l (c ∷ older) = lock_step (lock_after l older) c
