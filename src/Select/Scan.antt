-- ===== src/Select/Scan.antt =====
-- The loop over the clients against a plain sweep over all of them: the bound `maxi` and the count of
-- ready descriptors that the code stops by leave nothing out.
use training.Base.{
  ℕ, suc, ◌+◌, ◌-◌, ◌≤◌, take, drop, get_elem?-drop, take-append-drop, length-take, ◌≡◌, refl, sym,
  ap, ◌∙◌, inl, inr, List, [], ◌∷◌, ◌++◌, true, false, none, some, arith, ◌==◌, Bool-cases, length,
  get_elem?, set, append-nil, append_assoc, length-append,
}
use training.Select.{Slot, Server, Read, failed, bytes, Round, serve, scan}
use training.Select.Sweep.{
  ready_num, swept_slot, Swept, Swept-cons, Swept-append, Swept-sweep, idle-Swept, sweep,
  ready_num_append, ready_num_free,
}
use training.Select.Table.{IsValid}

get_elem?-middle :
    (before : List Slot) (slot : Slot) (rest : List Slot)
    → get_elem? (before ++ (slot ∷ rest)) (length before) ≡ some slot
get_elem?-middle [] slot rest = refl
get_elem?-middle (x ∷ before) slot rest = get_elem?-middle before slot rest

set-middle :
    (before : List Slot) (slot new : Slot) (rest : List Slot)
    → set (before ++ (slot ∷ rest)) (length before) new ≡ before ++ (new ∷ rest)
set-middle [] slot new rest = refl
set-middle (x ∷ before) slot new rest = ap (◌∷◌ x) (set-middle before slot new rest)

module _ (env : Round) (n i k : ℕ) (s : Server) where
  scan_free : get_elem? s.client i ≡ some none → scan env (suc n) i k s ≡ scan env n (i + 1) k s
  unfolding scan
  scan_free e = ground arith

  module _ (fd : ℕ) (here : get_elem? s.client i ≡ some (some fd)) where
    scan_unready : env.ready fd ≡ false → scan env (suc n) i k s ≡ scan env n (i + 1) k s
    unfolding scan
    scan_unready e = ground arith

    scan_last :
        env.ready fd ≡ true → (k == 1) ≡ true → scan env (suc n) i k s ≡ serve (env.reads fd) i fd s
    unfolding scan
    scan_last e f = ground arith

    scan_more :
        env.ready fd ≡ true
        → (k == 1) ≡ false
        → scan env (suc n) i k s ≡ scan env n (i + 1) (k - 1) (serve (env.reads fd) i fd s)
    unfolding scan
    scan_more e f = ground arith

-- The service of one client is the sweep over its entry.
serve-Swept :
    (env : Round) (r : Read) (fd : ℕ) (before behind : List Slot) (s : Server)
    → env.reads fd ≡ r
    → env.ready fd ≡ true
    → s.client ≡ before ++ (some fd ∷ behind)
    → Swept env (some fd ∷ []) before behind s (serve r (length before) fd s)
unfolding serve
serve-Swept env failed fd before behind s e ready here = record {
  client = rw (e, ready) here;
  out = rw (e, ready) refl;
  allset = λ x. ground arith;
  kept = (refl, refl, refl);
}
serve-Swept env (bytes []) fd before behind s e ready here = record {
  client =
      rw (e, ready)
        (ap (λ l. set l (length before) none) here ∙ set-middle before (some fd) none behind);
  out = rw (e, ready) refl;
  allset = λ x. ground arith;
  kept = (refl, refl, refl);
}
serve-Swept env (bytes (b ∷ rest)) fd before behind s e ready here = record {
  client = rw (e, ready) here;
  out = rw (e, ready) refl;
  allset = λ x. ground arith;
  kept = (refl, refl, refl);
}

module _ (env : Round) where
  -- The index of the entry behind `before` and one more.
  next : (before : List Slot) (slot : Slot) → length before + 1 ≡ length (before ++ (slot ∷ []))
  next before slot = omega (arith, length-append before (slot ∷ []))

  here_next :
      (slot : Slot) (rest before behind : List Slot) (t : Server)
      → t.client ≡ before ++ (slot ∷ (rest ++ behind))
      → t.client ≡ (before ++ (slot ∷ [])) ++ (rest ++ behind)
  here_next slot rest before behind t e = e ∙ sym (append_assoc before (slot ∷ []) (rest ++ behind))

  at_slot :
      (slot : Slot) (rest before : List Slot) (s : Server)
      → s.client ≡ before ++ (slot ∷ rest)
      → get_elem? s.client (length before) ≡ some slot
  at_slot slot rest before s e =
      ap (λ l. get_elem? l (length before)) e ∙ get_elem?-middle before slot rest

  pub scan-Swept :
      (slots before behind : List Slot) (k : ℕ) (s : Server)
      → s.client ≡ before ++ (slots ++ behind)
      → ready_num env slots ≤ k
      → Swept env slots before behind s (scan env (length slots) (length before) k s)
  unfolding scan
  scan-Swept [] before behind k s here h = record {
    client = here;
    out = sym (append-nil s.out);
    allset = λ x. ground arith;
    kept = (refl, refl, refl);
  }
  scan-Swept (none ∷ rest) before behind k s here h =
      let i = length before in
      let idle = idle-Swept env (none ∷ []) before (rest ++ behind) s refl here in
      rw (scan_free env (length rest) i k s (at_slot none (rest ++ behind) before s here)) (
        rw (next before none) (
          Swept-cons env none none rest before behind s s _ refl idle (
            scan-Swept rest (before ++ (none ∷ [])) behind k s
              (here_next none rest before behind s here) h)))
  scan-Swept (some fd ∷ rest) before behind k s here h =
      let i = length before in
      let at = at_slot (some fd) (rest ++ behind) before s here in
      elim (Bool-cases (env.ready fd)) [
        | inr e ↦
            let idle =
              idle-Swept env (some fd ∷ []) before (rest ++ behind) s (ground arith) here in
            let same : swept_slot env (some fd) ≡ some fd = ground arith in
            rw (scan_unready env (length rest) i k s fd at e) (
              rw (next before (some fd)) (
                Swept-cons env (some fd) (some fd) rest before behind s s _ same idle (
                  scan-Swept rest (before ++ (some fd ∷ [])) behind k s
                    (here_next (some fd) rest before behind s here) (ground arith))))
        | inl e ↦
            let new = swept_slot env (some fd) in
            let t = serve (env.reads fd) i fd s in
            let one = serve-Swept env (env.reads fd) fd before (rest ++ behind) s refl e here in
            let there = here_next new rest before behind t one.client in
            elim (Bool-cases (k == 1)) [
              | inl last ↦ rw (scan_last env (length rest) i k s fd at e last) (
                  Swept-cons env (some fd) new rest before behind s t t refl one
                    (idle-Swept env rest (before ++ (new ∷ [])) behind t (ground arith) there))
              | inr not_last ↦ rw (scan_more env (length rest) i k s fd at e not_last) (
                  rw (next before new) (
                    Swept-cons env (some fd) new rest before behind s t _ refl one (
                      scan-Swept rest (before ++ (new ∷ [])) behind (k - 1) t there
                        (ground arith))))
            ]
      ]

  -- Nothing stands from `maxi + 1` on.
  ready_num_above : (s : Server) → IsValid s → ready_num env (drop s.used s.client) ≡ 0
  ready_num_above s v =
      ready_num_free env (drop s.used s.client) λ i fd h.
        omega (arith, v.within (s.used + i) fd (sym (get_elem?-drop s.used s.client i) ∙ h))

  -- The loop up to `maxi` that stops at the last ready descriptor is the sweep over all entries.
  pub scan-sweep :
      (k : ℕ) (s : Server)
      → IsValid s
      → ready_num env s.client ≤ k
      → scan env s.used 0 k s ≡ sweep env s
  scan-sweep k s v h =
      let front = take s.used s.client in
      let behind = drop s.used s.client in
      let all = take-append-drop s.used s.client in
      let idle = ready_num_above s v in
      let few : ready_num env front ≤ k =
        omega (arith, ready_num_append env front behind, ap (ready_num env) all) in
      let size : length front ≡ s.used =
        omega (arith, length-take s.used s.client, v.size, v.bound) in
      let swept_front = scan-Swept front [] behind k s (sym all) few in
      ap (λ n. scan env n 0 k s) (sym size)
      ∙ Swept-sweep env s _ (Swept-append env front behind s _ all idle swept_front)
