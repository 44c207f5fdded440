-- ===== src/Db/Latest.antt =====
-- The document with the greatest key among those that pass, for `Db/InMemory`.
use device_pulse.Prelude.{
  ℕ, ◌≤◌, ltb, Bool, true, List, [], ◌∷◌, Option, none, some, if◌then◌else◌, ◌≡◌, inl, inr, All, At,
  here, there, arith, subst, Bool-cases, Option-cases,
}

module _ {ℓ} {D : Type ℓ} (p : D → Bool) (key : D → ℕ) where
  Latest : List D → D → Type ℓ
  Latest ds d = At d ds × (p d ≡ true) × All (λ x. p x ≡ true → key x ≤ key d) ds

  later : D → Option D → D
  later d none = d
  later d (some e) = if ltb (key d) (key e) then e else d

  unfoldable pub find_greatest : List D → Option D
  unfolding later
  find_greatest [] = none
  find_greatest (d ∷ ds) = let rest = find_greatest ds in if p d then some (later d rest) else rest

  find_greatest-none :
      (b : ℕ) (ds : List D) → find_greatest ds ≡ none → All (λ x. p x ≡ true → key x ≤ b) ds
  unfolding find_greatest
  find_greatest-none b [] e = tt
  find_greatest-none b (x ∷ ds) e = elim (Bool-cases (p x)) [
    | inl hit ↦ absurd (ground (arith, hit))
    | inr miss ↦ ((λ h. absurd (ground arith)), find_greatest-none b ds (rw miss at e))
  ]

  All-higher :
      (a b : ℕ) (ds : List D)
      → a ≤ b
      → All (λ x. p x ≡ true → key x ≤ a) ds
      → All (λ x. p x ≡ true → key x ≤ b) ds
  All-higher a b [] h k = tt
  All-higher a b (x ∷ ds) h k = ((λ t. omega (arith, k.0 t)), All-higher a b ds h k.1)

  Latest-later :
      (x e : D) (ds : List D) → p x ≡ true → Latest ds e → Latest (x ∷ ds) (later x (some e))
  unfolding Latest later
  Latest-later x e ds h (m, t, l) = elim (Bool-cases (ltb (key x) (key e))) [
    | inl lt ↦
        subst (Latest (x ∷ ds)) {x = e} (ground (arith, lt)) (there m, t, ((λ _. ground arith), l))
    | inr ge ↦
        subst (Latest (x ∷ ds)) {x = x} (ground (arith, ge))
          (here, h, ((λ _. omega arith), All-higher (key e) (key x) ds (ground arith) l))
  ]

  pub find_greatest_lem :
      (ds : List D) (d : D)
      → find_greatest ds ≡ some d
      → At d ds × (p d ≡ true) × All (λ x. p x ≡ true → key x ≤ key d) ds
  unfolding find_greatest Latest later
  find_greatest_lem [] d e = cc
  find_greatest_lem (x ∷ ds) d e = elim (Bool-cases (p x)) [
    | inl hit ↦ elim (Option-cases (find_greatest ds)) [
      | inl f ↦
          let same : x ≡ d = ground (arith, hit, f) in
          subst (Latest (x ∷ ds)) same
            (here, hit, ((λ _. omega arith), find_greatest-none (key x) ds f))
      | inr (y, f) ↦
          let same : later x (some y) ≡ d = ground (arith, hit, f) in
          subst (Latest (x ∷ ds)) same (Latest-later x y ds hit (find_greatest_lem ds y f))
    ]
    | inr miss ↦
        let (m, t, l) = find_greatest_lem ds d (rw miss at e) in
        (there m, t, ((λ h. absurd (ground arith)), l))
  ]
