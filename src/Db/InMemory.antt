-- ===== src/Db/InMemory.antt =====
-- A driver that answers from the front of the list and never fails: the laws can be met.
use device_pulse.Prelude.{
  ℕ, ◌≤◌, ltb, Bool, true, false, List, [], ◌∷◌, ◌++◌, Option, none, some, if◌then◌else◌, ◌≡◌, refl,
  ◌⊎◌, inl, inr, All, At, here, there, filter, length, ◌==◌, arith, subst, Bool-cases, Option-cases,
}
use device_pulse.Db.Latest.{find_greatest, find_greatest_lem}
use device_pulse.Db.{Driver, Updates, at, past, update_all, Inserted, inserted, duplicate_key}

module _ {ℓ} {D : Type ℓ} where
  unfoldable pub find_first : (D → Bool) → List D → Option D
  find_first p [] = none
  find_first p (d ∷ ds) = if p d then some d else find_first p ds

  pub find_first_lem :
      (p : D → Bool) (ds : List D) (d : D) → find_first p ds ≡ some d → At d ds × (p d ≡ true)
  unfolding find_first
  find_first_lem p [] d e = cc
  find_first_lem p (x ∷ ds) d e = elim (Bool-cases (p x)) [
    | inl hit ↦ let same : x ≡ d = ground (arith, hit) in rw (← same) (here, hit)
    | inr miss ↦ let (m, t) = find_first_lem p ds d (rw miss at e) in (there m, t)
  ]

  unfoldable pub update_first : (D → Bool) → (D → D) → List D → ℕ × List D
  update_first p f [] = (0, [])
  update_first p f (d ∷ ds) =
      if p d then (1, f d ∷ ds) else let (n, es) = update_first p f ds in (n, d ∷ es)

  update_first_lem :
      (p : D → Bool) (f : D → D) (ds : List D)
      → (((update_first p f ds).0 ≡ 0) × ((update_first p f ds).1 ≡ ds) × All (λ d. p d ≡ false) ds)
        ⊎ (((update_first p f ds).0 ≡ 1) × Updates p f ds (update_first p f ds).1)
  unfolding update_first
  update_first_lem p f [] = inl (refl, refl, tt)
  update_first_lem p f (d ∷ ds) = elim (Bool-cases (p d)) [
    | inl hit ↦ rw hit (inr (refl, at hit))
    | inr miss ↦ rw miss (elim (update_first_lem p f ds) [
      | inl (a, b, c) ↦ inl (a, rw b, (refl, c))
      | inr (a, u) ↦ inr (a, past u)
    ])
  ]

  pub some_update_lem :
      (p : D → Bool) (f : D → D) (ds es : List D) (n : ℕ)
      → ◌≡◌ {A = Option (ℕ × List D)} (some (update_first p f ds)) (some (n, es))
      → ((n ≡ 0) × (es ≡ ds) × All (λ d. p d ≡ false) ds) ⊎ ((n ≡ 1) × Updates p f ds es)
  some_update_lem p f ds es n h =
      let first : (update_first p f ds).0 ≡ n = ground arith in
      let rest : (update_first p f ds).1 ≡ es = ground arith in
      rw (← first, ← rest) (update_first_lem p f ds)

  update_first-Updates :
      (p : D → Bool) (f : D → D) (ds : List D) {d : D}
      → At d ds
      → p d ≡ true
      → Updates p f ds (update_first p f ds).1
  unfolding update_first
  update_first-Updates p f [] m h = elim m [ ]
  update_first-Updates p f (x ∷ ds) here h = rw h (at h)
  update_first-Updates p f (x ∷ ds) (there m) h = elim (Bool-cases (p x)) [
    | inl hit ↦ rw hit (at hit)
    | inr miss ↦ rw miss (past (update_first-Updates p f ds m h))
  ]

  -- The first of the documents that pass with the least key.
  pick : (D → ℕ) → D → Option D → D
  pick key d none = d
  pick key d (some e) = if ltb (key e) (key d) then e else d

  unfoldable pub find_least : (D → Bool) → (D → ℕ) → List D → Option D
  unfolding pick
  find_least p key [] = none
  find_least p key (d ∷ ds) =
      if p d then some (pick key d (find_least p key ds)) else find_least p key ds

  find_least-none :
      (p : D → Bool) (key : D → ℕ) (b : ℕ) (ds : List D)
      → find_least p key ds ≡ none
      → All (λ x. p x ≡ true → b ≤ key x) ds
  unfolding find_least
  find_least-none p key b [] e = tt
  find_least-none p key b (x ∷ ds) e = elim (Bool-cases (p x)) [
    | inl hit ↦ absurd (ground (arith, hit))
    | inr miss ↦ ((λ h. absurd (ground arith)), find_least-none p key b ds (rw miss at e))
  ]

  Least : (D → Bool) → (D → ℕ) → List D → D → Type ℓ
  Least p key ds d = At d ds × (p d ≡ true) × All (λ x. p x ≡ true → key d ≤ key x) ds

  All-lower :
      (p : D → Bool) (key : D → ℕ) (a b : ℕ) (ds : List D)
      → b ≤ a
      → All (λ x. p x ≡ true → a ≤ key x) ds
      → All (λ x. p x ≡ true → b ≤ key x) ds
  All-lower p key a b [] h k = tt
  All-lower p key a b (x ∷ ds) h k = ((λ t. omega (arith, k.0 t)), All-lower p key a b ds h k.1)

  Least-pick :
      (p : D → Bool) (key : D → ℕ) (x e : D) (ds : List D)
      → p x ≡ true
      → Least p key ds e
      → Least p key (x ∷ ds) (pick key x (some e))
  unfolding Least pick
  Least-pick p key x e ds h (m, t, l) = elim (Bool-cases (ltb (key e) (key x))) [
    | inl lt ↦
        subst (Least p key (x ∷ ds)) {x = e} (ground (arith, lt))
          (there m, t, ((λ _. ground arith), l))
    | inr ge ↦
        subst (Least p key (x ∷ ds)) {x = x} (ground (arith, ge))
          (here, h, ((λ _. omega arith), All-lower p key (key e) (key x) ds (ground arith) l))
  ]

  find_least_lem :
      (p : D → Bool) (key : D → ℕ) (ds : List D) (d : D)
      → find_least p key ds ≡ some d
      → Least p key ds d
  unfolding find_least Least pick
  find_least_lem p key [] d e = cc
  find_least_lem p key (x ∷ ds) d e = elim (Bool-cases (p x)) [
    | inl hit ↦ elim (Option-cases (find_least p key ds)) [
      | inl f ↦
          let same : x ≡ d = ground (arith, hit, f) in
          subst (Least p key (x ∷ ds)) same
            (here, hit, ((λ _. omega arith), find_least-none p key (key x) ds f))
      | inr (y, f) ↦
          let same : pick key x (some y) ≡ d = ground (arith, hit, f) in
          subst (Least p key (x ∷ ds)) same
            (Least-pick p key x y ds hit (find_least_lem p key ds y f))
    ]
    | inr miss ↦
        let (m, t, l) = find_least_lem p key ds d (rw miss at e) in
        (there m, t, ((λ h. absurd (ground arith)), l))
  ]

module _ {ℓ} {D : Type ℓ} (id : D → ℕ) where
  unfoldable pub has_id : ℕ → List D → Bool
  has_id i [] = false
  has_id i (d ∷ ds) = if id d == i then true else has_id i ds

  has_id_lem : (i : ℕ) (ds : List D) → has_id i ds ≡ false → All (λ x. (id x == i) ≡ false) ds
  unfolding has_id
  has_id_lem i [] h = tt
  has_id_lem i (d ∷ ds) h = elim (Bool-cases (id d == i)) [
    | inl hit ↦ absurd (ground (arith, hit))
    | inr miss ↦ (miss, has_id_lem i ds (ground (arith, miss)))
  ]

  unfoldable pub add_document : D → List D → Inserted D
  add_document d ds = if has_id (id d) ds then duplicate_key else inserted (ds ++ d ∷ [])

  pub add_document_lem :
      (d : D) (ds es : List D)
      → add_document d ds ≡ inserted es
      → (es ≡ ds ++ d ∷ []) × All (λ x. (id x == id d) ≡ false) ds
  unfolding add_document
  add_document_lem d ds es h = elim (Bool-cases (has_id (id d) ds)) [
    | inl old ↦ absurd (ground (arith, old))
    | inr new ↦ (ground (arith, new), has_id_lem (id d) ds new)
  ]

  unfoldable pub claim_least : (D → Bool) → (D → D) → (D → ℕ) → List D → Option (D × List D)
  claim_least p f key ds = elim (find_least p key ds) [
    | none ↦ none
    | some d ↦ some (f d, (update_first (λ x. if p x then id x == id d else false) f ds).1)
  ]

  pub claim_least_lem :
      (p : D → Bool) (f : D → D) (key : D → ℕ) (ds es : List D) (e : D)
      → claim_least p f key ds ≡ some (e, es)
      → (d : D) × At d ds
        × (p d ≡ true)
        × (e ≡ f d)
        × Updates (λ x. if p x then id x == id d else false) f ds es
        × All (λ x. p x ≡ true → key d ≤ key x) ds
  unfolding claim_least Least
  claim_least_lem p f key ds es e h = elim (Option-cases (find_least p key ds)) [
    | inl none' ↦ absurd (ground (arith, none'))
    | inr (d, found) ↦
        let (m, t, l) = find_least_lem p key ds d found in
        let q : D → Bool = λ x. if p x then id x == id d else false in
        let same : e ≡ f d = ground (arith, found) in
        let rest : (update_first q f ds).1 ≡ es = ground (arith, found) in
        (d, m, t, same, rw (← rest) (update_first-Updates q f ds m (rw t (ground arith))), l)
  ]

  pub found_all :
      (p : D → Bool) (ds es : List D)
      → ◌≡◌ {A = Option (List D)} (some (filter p ds)) (some es)
      → es ≡ filter p ds
  found_all p ds es h = ground arith

  pub count_all_lem :
      (p : D → Bool) (ds : List D) (n : ℕ)
      → ◌≡◌ {A = Option ℕ} (some (length (filter p ds))) (some n)
      → n ≡ length (filter p ds)
  count_all_lem p ds n h = ground arith

  pub update_all_lem :
      (p : D → Bool) (f : D → D) (ds es : List D) (n : ℕ)
      → ◌≡◌ {A = Option (ℕ × List D)}
          (some (length (filter p ds), update_all p f ds))
          (some (n, es))
      → (n ≡ length (filter p ds)) × (es ≡ update_all p f ds)
  update_all_lem p f ds es n h = (ground arith, ground arith)

  -- A collection in memory, in the order of insertion.
  abbrev pub in_memory : Driver D id
  in_memory = record {
    find_one = find_first;
    find_one_lem = find_first_lem;
    find_latest = find_greatest;
    find_latest_lem = find_greatest_lem;
    find = λ p ds. some (filter p ds);
    find_lem = found_all;
    count = λ p ds. some (length (filter p ds));
    count_lem = count_all_lem;
    insert_one = add_document;
    insert_one_lem = add_document_lem;
    update_one = λ p f ds. some (update_first p f ds);
    update_one_lem = some_update_lem;
    update_many = λ p f ds. some (length (filter p ds), update_all p f ds);
    update_many_lem = update_all_lem;
    find_one_and_update = claim_least;
    find_one_and_update_lem = claim_least_lem;
  }
