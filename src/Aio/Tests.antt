-- ===== src/Aio/Tests.antt =====
-- Runs of io/io-models/aio.c.
use training.Base.{◌≡◌, refl, some, true}
use training.Base.Int.{pos, negsuc}
use training.Aio.{Answers, main, held, nothing, main_lem}

-- The read cannot be submitted, and then the context cannot be destroyed.
abbrev unsubmitted : Answers
unsubmitted = record {
  fd = pos 3;
  memalign = pos 0;
  setup = pos 0;
  submitted = negsuc 10;
  reaped = pos 0;
  res2 = pos 0;
  destroyed = negsuc 21;
}

main_lem_example : held (main 2 unsubmitted).1 ≡ some (record nothing { ctx = true })
main_lem_example = main_lem 2 unsubmitted refl

abbrev no_memory : Answers
no_memory = record unsubmitted { memalign = pos 12 }
