-- ===== src/Eintr/Tests.antt =====
-- Two interrupted reads, and one that brings five bytes.
use training.Base.{◌≡◌, refl, [], ◌∷◌, some, false}
use training.Base.Int.{pos}
use training.Eintr.{got, eintr, retry_after_eintr, read_bytes, retry, main}

retried_twice : main false (eintr ∷ eintr ∷ got 5 ∷ []) ≡ record {
  lines = retry_after_eintr ∷ retry_after_eintr ∷ read_bytes 5 ∷ [];
  result = some (pos 0);
}
unfolding main retry
retried_twice = refl
