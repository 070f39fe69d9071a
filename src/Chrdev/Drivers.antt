-- ===== src/Chrdev/Drivers.antt =====
-- The init and exit functions of the five char drivers, and their open functions.
use training.Base.{ℕ, List, ◌∷◌}
use training.Kernel.{r_wait, w_wait}
use training.Chrdev.{
  Call, mutex_init, init_waitqueue_head, Answers, Loaded, setup_cdevs, load, unload,
}

-- driver/globalmem/ch6/globalmem.c
unfoldable pub ch6_init : Answers → (major : ℕ) → Loaded
unfolding load setup_cdevs
ch6_init answers = load (setup_cdevs answers 1 0) 1 answers

unfoldable pub ch6_exit : Loaded → List Call
unfolding unload
ch6_exit = unload 1

-- driver/globalmem/ch6/multi_globalmem.c: DEVICE_NUM devices.
abbrev pub device_num : ℕ
device_num = 10

unfoldable pub multi_init : Answers → (major : ℕ) → Loaded
unfolding load setup_cdevs
multi_init answers = load (setup_cdevs answers device_num 0) device_num answers

unfoldable pub multi_exit : Loaded → List Call
unfolding unload
multi_exit = unload device_num

-- driver/globalmem/ch7/globalmem.c: the mutex is set up behind the device.
unfoldable pub ch7_init : Answers → (major : ℕ) → Loaded
unfolding load setup_cdevs
ch7_init answers = load (λ calls. mutex_init ∷ setup_cdevs answers 1 0 calls) 1 answers

unfoldable pub ch7_exit : Loaded → List Call
unfolding unload
ch7_exit = unload 1

-- The mutex and the wait queues of a fifo.
abbrev pub fifo_setup : Answers → List Call → List Call
unfolding setup_cdevs
fifo_setup answers calls =
    init_waitqueue_head w_wait
    ∷ (init_waitqueue_head r_wait ∷ (mutex_init ∷ setup_cdevs answers 1 0 calls))

-- driver/globalfifo/ch8/globalfifo.c
unfoldable pub ch8_init : Answers → (major : ℕ) → Loaded
unfolding load
ch8_init answers = load (fifo_setup answers) 1 answers

unfoldable pub ch8_exit : Loaded → List Call
unfolding unload
ch8_exit = unload 1

-- driver/globalfifo/ch9/globalfifo.c
unfoldable pub ch9_init : Answers → (major : ℕ) → Loaded
unfolding load
ch9_init answers = load (fifo_setup answers) 1 answers

unfoldable pub ch9_exit : Loaded → List Call
unfolding unload
ch9_exit = unload 1
