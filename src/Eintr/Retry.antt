-- ===== src/Eintr/Retry.antt =====
-- The loop of io/io-models/eintr.c ends with the first read that no signal interrupts.
use training.Base.{ℕ, zero, suc, ◌≡◌, refl, ap, ◌≢◌, List, [], ◌∷◌, ◌++◌, replicate, none, some}
use training.Base.Int.{pos}
use training.Eintr.{Answer, got, eintr, error, retry_after_eintr, retry}

-- Where `n` reads are interrupted and then one is not, the loop of eintr.c makes the read again each
-- time, says so `n` times, and returns with what it does on that one read alone, whatever would follow;
-- while all reads are interrupted it goes on.
pub retry_lem :
    (n : ℕ) (a : Answer) (rest : List Answer)
    → a ≢ eintr
    → ((retry (replicate n eintr)).result ≡ none)
      × ((retry (replicate n eintr ++ a ∷ rest)).lines
          ≡ replicate n retry_after_eintr ++ (retry (a ∷ [])).lines)
      × ((retry (replicate n eintr ++ a ∷ rest)).result ≡ some (pos 0))
unfolding retry
retry_lem zero (got n) rest h = (refl, refl, refl)
retry_lem zero error rest h = (refl, refl, refl)
retry_lem zero eintr rest h = absurd (h refl)
retry_lem (suc n) a rest h =
    let (goes_on, lines, result) = retry_lem n a rest h in
    (goes_on, ap (◌∷◌ retry_after_eintr) lines, result)
