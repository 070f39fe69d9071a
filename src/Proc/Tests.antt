-- ===== src/Proc/Tests.antt =====
-- A printer and a parser that do what the kernel's do, and the theorems at them.
use training.Base.{
  ℕ, zero, suc, ◌+◌, ◌-◌, ◌*◌, ◌/◌, ◌%◌, ◌^◌, ◌<◌, ◌≡◌, refl, ap, ◌∙◌, inl, inr, List, [], ◌∷◌,
  ◌++◌, true, false, arith, ltb, if◌then◌else◌, Bool-cases,
}
use training.Proc.{test_proc_show, test_proc_write, test_proc_read}
use training.Proc.Decimal.{
  is_digit, Digits, value_from, value, Decimal, Digits-append, value-append,
}
use training.Proc.Values.{test_proc_write-show}

print_fuel : (fuel n : ℕ) → List ℕ
print_fuel zero n = []
print_fuel (suc fuel) n =
    let front = print_fuel fuel (n / 10) in
    if ltb n 10 then (n + 48) ∷ [] else front ++ (n % 10 + 48) ∷ []

parse_from : ℕ → List ℕ → ℕ
parse_from n [] = n
parse_from n (c ∷ rest) =
    let more = parse_from (n * 10 + (c - 48)) rest in if is_digit c then more else n

printed : (fuel n : ℕ) → n < fuel → Digits (print_fuel fuel n) × (value (print_fuel fuel n) ≡ n)
unfolding print_fuel
printed zero n h = absurd (omega arith)
printed (suc fuel) n h = elim (Bool-cases (ltb n 10)) [
  | inl small ↦ rw small ((ground arith, tt), omega arith)
  | inr large ↦
      let (digits, same) = printed fuel (n / 10) (ground arith) in
      let last : is_digit (n % 10 + 48) ≡ true = ground arith in
      rw large (
        Digits-append (print_fuel fuel (n / 10)) ((n % 10 + 48) ∷ []) digits (last, tt),
        value-append (print_fuel fuel (n / 10)) (n % 10 + 48)
            ∙ ap (λ m. m * 10 + (n % 10 + 48 - 48)) same
            ∙ omega arith,
      )
]

parsed_from :
    (n : ℕ) (ds : List ℕ) (c : ℕ) (rest : List ℕ)
    → Digits ds
    → is_digit c ≡ false
    → parse_from n (ds ++ c ∷ rest) ≡ value_from n ds
unfolding parse_from
parsed_from n [] c rest h e = rw e refl
parsed_from n (x ∷ ds) c rest (d, h) e = rw d (parsed_from (n * 10 + (x - 48)) ds c rest h e)

abbrev printer : ℕ → List ℕ
printer n = print_fuel (suc n) n

-- It wraps, as an `unsigned long` of 64 bits does.
abbrev parser : List ℕ → ℕ
parser memory = parse_from 0 memory % 2 ^ 64

decimals : Decimal printer parser
decimals = record {
  prints = λ n h. printed (suc n) n (omega arith);
  parses = λ ds c rest digits no_digit small.
      ap (λ n. n % 2 ^ 64) (parsed_from 0 ds c rest digits no_digit) ∙ omega arith;
}

test_proc_write-show_example :
    (test_proc_write printer parser (test_proc_show printer parser 42 ++ []) 3 ≡ (3, 42))
    × (test_proc_write printer parser (test_proc_read printer parser 42 ++ []) 3 ≡ (3, 0))
test_proc_write-show_example = test_proc_write-show printer parser decimals 42 3 [] (omega arith)

-- A write of one byte, with another digit behind it.
two_digits : test_proc_write printer parser (b'4' ∷ b'2' ∷ 0 ∷ []) 1 ≡ (1, 42)
unfolding test_proc_write parse_from
two_digits = refl
