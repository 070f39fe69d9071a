-- ===== src/Select/Sweep.antt =====
-- The service of all ready clients of the select server, as a plain sweep over the entries.
use training.Base.{
  ℕ, suc, ◌+◌, ◌≡◌, refl, sym, ap, ◌∙◌, List, [], ◌∷◌, ◌++◌, Bool, true, false, not, ◌&&◌, ◌||◌,
  none, some, arith, ◌==◌, if◌then◌else◌, append-nil, append_assoc,
}
use training.Select.Table.{Holds}
use training.Select.Count.{weight}
use training.Select.{
  Slot, Output, closed, echoed, misused, Server, Read, failed, bytes, Round, capitals,
}

-- What the service of a ready client sends, and whether it ends the connection.
abbrev pub reply : Read → (fd : ℕ) → Output
reply failed fd = misused fd
reply (bytes []) fd = closed fd
reply (bytes (b ∷ rest)) fd = echoed fd (capitals (b ∷ rest))

abbrev pub ends : Read → Bool
ends (bytes []) = true
ends _ = false

module _ (env : Round) where
  -- An entry after the sweep.
  abbrev pub swept_slot : Slot → Slot
  swept_slot none = none
  swept_slot (some fd) = if env.ready fd && ends (env.reads fd) then none else some fd

  -- The sweep serves each ready client once, in the order of the entries.
  abbrev pub swept : List Slot → List Slot
  swept [] = []
  swept (slot ∷ rest) = swept_slot slot ∷ swept rest

  abbrev pub replies : List Slot → List Output
  replies [] = []
  replies (none ∷ rest) = replies rest
  replies (some fd ∷ rest) =
      if env.ready fd then reply (env.reads fd) fd ∷ replies rest else replies rest

  -- A descriptor leaves the set exactly if it is that of a client that ended.
  abbrev pub ended : List Slot → ℕ → Bool
  ended [] x = false
  ended (none ∷ rest) x = ended rest x
  ended (some fd ∷ rest) x = (x == fd && (env.ready fd && ends (env.reads fd))) || ended rest x

  -- The number of ready clients.
  abbrev pub ready_num : List Slot → ℕ
  ready_num [] = 0
  ready_num (none ∷ rest) = ready_num rest
  ready_num (some fd ∷ rest) = (if env.ready fd then 1 else 0) + ready_num rest

  -- The server after the sweep over some of the entries, from `s`.
  pub record Swept (slots before behind : List Slot) (s t : Server) : Type 0 where
    pub client : t.client ≡ before ++ (swept slots ++ behind)
    pub out : t.out ≡ s.out ++ replies slots
    pub allset : (x : ℕ) → t.allset x ≡ s.allset x && not (ended slots x)
    pub kept : (t.listenfd ≡ s.listenfd) × (t.used ≡ s.used) × (t.maxfd ≡ s.maxfd)

-- Slots none of which is ready are left alone by the sweep.
pub swept_idle :
    (env : Round) (slots : List Slot) → ready_num env slots ≡ 0 → swept env slots ≡ slots
swept_idle env [] h = refl
swept_idle env (none ∷ rest) h = ap (◌∷◌ none) (swept_idle env rest h)
swept_idle env (some fd ∷ rest) h = ground (arith, swept_idle env rest)

pub replies_idle :
    (env : Round) (slots : List Slot) → ready_num env slots ≡ 0 → replies env slots ≡ []
replies_idle env [] h = refl
replies_idle env (none ∷ rest) h = replies_idle env rest h
replies_idle env (some fd ∷ rest) h = ground (arith, replies_idle env rest)

pub ended_idle :
    (env : Round) (slots : List Slot) (x : ℕ) → ready_num env slots ≡ 0 → ended env slots x ≡ false
ended_idle env [] x h = refl
ended_idle env (none ∷ rest) x h = ended_idle env rest x h
ended_idle env (some fd ∷ rest) x h = ground (arith, ended_idle env rest x)

-- The service of all ready clients, with no bound on the entries and no count.
abbrev pub sweep : Round → Server → Server
sweep env s = record s {
  client = swept env s.client;
  allset = λ x. s.allset x && not (ended env s.client x);
  out = s.out ++ replies env s.client;
}

module _ (env : Round) where
  -- Entries with no ready client are swept by doing nothing.
  pub idle-Swept :
      (slots before behind : List Slot) (s : Server)
      → ready_num env slots ≡ 0
      → s.client ≡ before ++ (slots ++ behind)
      → Swept env slots before behind s s
  idle-Swept slots before behind s h here = record {
    client = here ∙ ap (λ l. before ++ (l ++ behind)) (sym (swept_idle env slots h));
    out = rw (replies_idle env slots h) (sym (append-nil s.out));
    allset = λ x. rw (ended_idle env slots x h) (ground arith);
    kept = (refl, refl, refl);
  }

  replies_cons :
      (slot : Slot) (rest : List Slot)
      → replies env (slot ∷ rest) ≡ replies env (slot ∷ []) ++ replies env rest
  replies_cons none rest = refl
  replies_cons (some fd) rest = ground arith

  ended_cons :
      (slot : Slot) (rest : List Slot) (x : ℕ)
      → ended env (slot ∷ rest) x ≡ ended env (slot ∷ []) x || ended env rest x
  ended_cons none rest x = refl
  ended_cons (some fd) rest x = ground arith

  pub Swept-cons :
      (slot new : Slot) (rest before behind : List Slot) (s t u : Server)
      → swept_slot env slot ≡ new
      → Swept env (slot ∷ []) before (rest ++ behind) s t
      → Swept env rest (before ++ (new ∷ [])) behind t u
      → Swept env (slot ∷ rest) before behind s u
  Swept-cons slot new rest before behind s t u e a b = record {
    client =
        b.client
        ∙ append_assoc before (new ∷ []) (swept env rest ++ behind)
        ∙ ap (λ x. before ++ (x ∷ (swept env rest ++ behind))) (sym e);
    out =
        b.out
        ∙ ap (λ l. l ++ replies env rest) a.out
        ∙ append_assoc s.out (replies env (slot ∷ [])) (replies env rest)
        ∙ ap (◌++◌ s.out) (sym (replies_cons slot rest));
    allset = λ x. ground (arith, b.allset x, a.allset x, ended_cons slot rest x);
    kept = ground (arith, a.kept, b.kept);
  }

  swept_append : (l r : List Slot) → swept env (l ++ r) ≡ swept env l ++ swept env r
  swept_append [] r = refl
  swept_append (slot ∷ rest) r = rw (swept_append rest r) refl

  replies_append : (l r : List Slot) → replies env (l ++ r) ≡ replies env l ++ replies env r
  replies_append [] r = refl
  replies_append (none ∷ rest) r = replies_append rest r
  replies_append (some fd ∷ rest) r = ground (arith, replies_append rest r)

  ended_append : (l r : List Slot) (x : ℕ) → ended env (l ++ r) x ≡ ended env l x || ended env r x
  ended_append [] r x = refl
  ended_append (none ∷ rest) r x = ended_append rest r x
  ended_append (some fd ∷ rest) r x = ground (arith, ended_append rest r x)

  pub ready_num_append :
      (l r : List Slot) → ready_num env (l ++ r) ≡ ready_num env l + ready_num env r
  ready_num_append [] r = omega arith
  ready_num_append (none ∷ rest) r = ready_num_append rest r
  ready_num_append (some fd ∷ rest) r = omega (arith, ready_num_append rest r)

  pub ready_num_free : (l : List Slot) → ((i fd : ℕ) → ¬ Holds l i fd) → ready_num env l ≡ 0
  ready_num_free [] h = refl
  ready_num_free (none ∷ rest) h = ready_num_free rest (λ i. h (suc i))
  ready_num_free (some fd ∷ rest) h = absurd (h 0 fd refl)

  pub ready_num-weight :
      (l : List Slot) → ready_num env l ≡ weight (λ x. if env.ready x then 1 else 0) l
  ready_num-weight [] = refl
  ready_num-weight (none ∷ rest) = ready_num-weight rest
  ready_num-weight (some fd ∷ rest) = omega (arith, ready_num-weight rest)

  -- A sweep that leaves out entries with no ready client is one over all of them.
  pub Swept-append :
      (slots behind : List Slot) (s t : Server)
      → slots ++ behind ≡ s.client
      → ready_num env behind ≡ 0
      → Swept env slots [] behind s t
      → Swept env s.client [] [] s t
  Swept-append slots behind s t e h w = record {
    client =
        w.client
        ∙ ap (◌++◌ (swept env slots)) (sym (swept_idle env behind h))
        ∙ sym (swept_append slots behind)
        ∙ ap (swept env) e
        ∙ sym (append-nil (swept env s.client));
    out =
        w.out
        ∙ ap (◌++◌ s.out) (
            sym (append-nil (replies env slots))
            ∙ ap (◌++◌ (replies env slots)) (sym (replies_idle env behind h))
            ∙ sym (replies_append slots behind)
            ∙ ap (replies env) e);
    allset = λ x. ground (
      arith,
      w.allset x,
      ended_append slots behind x,
      ended_idle env behind x h,
      ap (λ l. ended env l x) e,
    );
    kept = w.kept;
  }

  pub Swept-sweep : (s t : Server) → Swept env s.client [] [] s t → t ≡ sweep env s
  Swept-sweep s t w i = record {
    listenfd = w.kept.0 i;
    client = (w.client ∙ append-nil (swept env s.client)) i;
    used = w.kept.1 i;
    maxfd = w.kept.2 i;
    allset = λ x. w.allset x i;
    out = w.out i;
  }

  pub sweep_idle : (s : Server) → ready_num env s.client ≡ 0 → s ≡ sweep env s
  sweep_idle s h = Swept-sweep s s (idle-Swept s.client [] [] s h (sym (append-nil s.client)))
