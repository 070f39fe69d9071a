-- ===== src/Proc/Values.antt =====
-- What is written to /proc/test_dir/test_rw and what is read from it.
use training.Base.{
  ℕ, ◌%◌, ◌^◌, ◌<◌, ◌≡◌, refl, sym, ap, ◌∙◌, List, [], ◌∷◌, ◌++◌, true, false, arith, append_assoc,
}
use training.Kernel.{ret, err, enomem}
use training.Proc.{
  Tree, test_proc_init, test_proc_cleanup, test_proc_show, test_proc_write, test_proc_read,
}
use training.Proc.Decimal.{is_digit, Digits, value, Decimal, Digits-append}

module _ (print_u : ℕ → List ℕ) (simple_strtoul : List ℕ → ℕ)
    (d : Decimal print_u simple_strtoul) where
  -- With the kernel's decimal numbers, writing back what a read of test_rw showed, whatever stands behind
  -- it in the memory, leaves the same `unsigned int` in the variable, on a kernel from 3.10 on; on an
  -- older one it leaves 0, since the text that is read does not begin with the number.
  pub test_proc_write-show :
      (variable count : ℕ) (behind : List ℕ)
      → variable < 2 ^ 32
      → (test_proc_write print_u simple_strtoul
            (test_proc_show print_u simple_strtoul variable ++ behind)
            count
          ≡ (count, variable))
        × (test_proc_write print_u simple_strtoul
              (test_proc_read print_u simple_strtoul variable ++ behind)
              count
            ≡ (count, 0))
  unfolding test_proc_write test_proc_show test_proc_read
  test_proc_write-show variable count behind h =
      let (digits, same) = d.prints variable h in
      let all = append_assoc (print_u variable) (b'\n' ∷ []) behind in
      let parsed = d.parses (print_u variable) b'\n' behind digits refl (rw same h) in
      let fits : variable % 2 ^ 32 ≡ variable = omega arith in
      (
        ap (λ n. (count, n % 2 ^ 32)) (ap simple_strtoul all ∙ parsed ∙ same)
            ∙ ap (λ n. (count, n)) fits,
        ap (λ n. (count, n % 2 ^ 32)) (d.parses [] b't' _ tt refl (omega arith)),
      )

  -- With the kernel's decimal numbers, a write to test_rw takes the digits that stand behind the buffer in
  -- the memory for more digits of the number, where an `unsigned int` holds that: the count of the bytes written is not looked at.
  pub test_proc_write_unbounded :
      (buffer behind : List ℕ) (c count : ℕ) (rest : List ℕ)
      → Digits buffer
      → Digits behind
      → is_digit c ≡ false
      → value (buffer ++ behind) < 2 ^ 32
      → test_proc_write print_u simple_strtoul (buffer ++ (behind ++ c ∷ rest)) count
        ≡ (count, value (buffer ++ behind))
  unfolding test_proc_write
  test_proc_write_unbounded buffer behind c count rest h g e small =
      ap (λ n. (count, n % 2 ^ 32))
        (ap simple_strtoul (sym (append_assoc buffer behind (c ∷ rest)))
          ∙ d.parses (buffer ++ behind) c rest (Digits-append buffer behind h g) e small)
      ∙ (let fits : value (buffer ++ behind) % 2 ^ 32 ≡ value (buffer ++ behind) =
            omega (arith, small) in
          ap (λ n. (count, n)) fits)

-- A `test_proc_init` that works leaves both entries, and `test_proc_cleanup` takes them away; one that
-- cannot create test_rw reports -ENOMEM, with which no cleanup follows, and leaves the directory.
pub test_proc_init-cleanup :
    let nothing : Tree = record { test_dir = false; test_rw = false } in
    let (r, t) = test_proc_init false false nothing in
    let (e, u) = test_proc_init false true nothing in
    (r ≡ ret 0)
    × (test_proc_cleanup t ≡ nothing)
    × (e ≡ err enomem)
    × (u ≡ record nothing { test_dir = true })
unfolding test_proc_init test_proc_cleanup
test_proc_init-cleanup = (refl, refl, refl, refl)
