-- ===== src/Fifo/Ch8/Loop.antt =====
-- The wait loop of ch8 and that of ch12 over the same wake-ups.
use training.Base.{ℕ, ◌≡◌, refl, List, [], ◌∷◌, Bool, true, false, inl, inr, Bool-cases}
use training.Kernel.{St, Call, kill_fasync, load_queue}
use training.Fifo.{Fifo}
use training.Fifo
use training.Fifo.Waiting.{
  wait_while_ready, wait_while_nonblock, wait_while_asleep, wait_while_signal, wait_while_woken,
  woken,
}
use training.Fifo.Ch8.{Dev, Wakeup, wait_while}

-- A device of ch12 without the files that want SIGIO.
abbrev pub forget : Fifo → Dev
forget d = record { current_len = d.current_len; mem = d.mem }

abbrev pub forget_wakeups : List Fifo.Wakeup → List Wakeup
forget_wakeups [] = []
forget_wakeups (w ∷ ws) =
    record { signal_pending = w.signal_pending; found = forget w.found } ∷ forget_wakeups ws

-- A trace without what concerns the SIGIO receivers.
abbrev pub no_sigio : List Call → List Call
no_sigio [] = []
no_sigio (kill_fasync ∷ older) = no_sigio older
no_sigio (load_queue ∷ older) = no_sigio older
no_sigio (c ∷ older) = c ∷ no_sigio older

abbrev pub forget_state : St Fifo → St Dev
forget_state s = record { dev = forget s.dev; calls = no_sigio s.calls }

-- The two drivers return the same, and leave the same device and, SIGIO aside, the same trace.
abbrev pub Alike {ℓ} : {A : Type ℓ} → A × St Dev → A × St Fifo → Type ℓ
Alike r q = r ≡ (q.0, forget_state q.1)

pub wait_while-Alike :
    (blocked : ℕ → Bool) (nonblock : Bool) (ws : List Fifo.Wakeup) (s : St Fifo)
    → Alike
        (wait_while blocked nonblock (forget_wakeups ws) (forget_state s))
        (Fifo.wait_while blocked nonblock ws s)
unfolding wait_while
wait_while-Alike blocked true [] s = elim (Bool-cases (blocked s.dev.current_len)) [
  | inl full ↦ rw (wait_while_nonblock blocked [] s full) (rw full refl)
  | inr free ↦ rw (wait_while_ready blocked true [] s free) (rw free refl)
]
wait_while-Alike blocked true (w ∷ ws) s = elim (Bool-cases (blocked s.dev.current_len)) [
  | inl full ↦ rw (wait_while_nonblock blocked (w ∷ ws) s full) (rw full refl)
  | inr free ↦ rw (wait_while_ready blocked true (w ∷ ws) s free) (rw free refl)
]
wait_while-Alike blocked false [] s = elim (Bool-cases (blocked s.dev.current_len)) [
  | inl full ↦ rw (wait_while_asleep blocked s full) (rw full refl)
  | inr free ↦ rw (wait_while_ready blocked false [] s free) (rw free refl)
]
wait_while-Alike blocked false (w ∷ ws) s = elim (Bool-cases (blocked s.dev.current_len)) [
  | inl full ↦ elim (Bool-cases w.signal_pending) [
    | inl sig ↦ rw (wait_while_signal blocked w ws s full sig) (rw (full, sig) refl)
    | inr silent ↦
        rw (wait_while_woken blocked w ws s full silent)
          (rw (full, silent) (wait_while-Alike blocked false ws (woken s w)))
  ]
  | inr free ↦ rw (wait_while_ready blocked false (w ∷ ws) s free) (rw free refl)
]
