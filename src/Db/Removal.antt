-- ===== src/Db/Removal.antt =====
-- The operations of the MongoDB driver that delete documents, and the update that inserts where
-- nothing matches, with their documented laws and an instance that never fails.
use device_pulse.Prelude.{
  ℕ, Bool, true, false, not, List, [], ◌∷◌, ◌++◌, Option, some, if◌then◌else◌, ◌≡◌, refl, ◌⊎◌, inl,
  inr, All, filter, length, Bool-cases, arith,
}
use device_pulse.Db.{Updates, at, past}

-- `ys` is `xs` without one document that satisfies the filter.
pub data Removes {ℓ} {D : Type ℓ} (p : D → Bool) : List D → List D → Type ℓ where
  gone : {d : D} {ds : List D} → p d ≡ true → Removes p (d ∷ ds) ds
  later : {d : D} {ds es : List D} → Removes p ds es → Removes p (d ∷ ds) (d ∷ es)

pub record Remover {ℓ} (D : Type ℓ) : Type ℓ where
  -- `UpdateOne(filter, update)` with `SetUpsert(true)`, which inserts the given document.
  pub upsert_one : (D → Bool) → (D → D) → D → List D → Option (List D)
  pub upsert_one_lem :
      (p : D → Bool) (f : D → D) (d : D) (ds es : List D)
      → upsert_one p f d ds ≡ some es
      → ((es ≡ ds ++ d ∷ []) × All (λ x. p x ≡ false) ds) ⊎ Updates p f ds es
  -- `DeleteOne(filter)`: the number of documents deleted, and the collection.
  pub delete_one : (D → Bool) → List D → Option (ℕ × List D)
  pub delete_one_lem :
      (p : D → Bool) (ds es : List D) (n : ℕ)
      → delete_one p ds ≡ some (n, es)
      → ((n ≡ 0) × (es ≡ ds) × All (λ d. p d ≡ false) ds) ⊎ ((n ≡ 1) × Removes p ds es)
  -- `DeleteMany(filter)`
  pub delete_many : (D → Bool) → List D → Option (ℕ × List D)
  pub delete_many_lem :
      (p : D → Bool) (ds es : List D) (n : ℕ)
      → delete_many p ds ≡ some (n, es)
      → (n ≡ length (filter p ds)) × (es ≡ filter (λ d. not (p d)) ds)

module _ {ℓ} {D : Type ℓ} where
  unfoldable pub delete_first : (D → Bool) → List D → ℕ × List D
  delete_first p [] = (0, [])
  delete_first p (d ∷ ds) = if p d then (1, ds) else let (n, es) = delete_first p ds in (n, d ∷ es)

  delete_first_lem :
      (p : D → Bool) (ds : List D)
      → (((delete_first p ds).0 ≡ 0) × ((delete_first p ds).1 ≡ ds) × All (λ d. p d ≡ false) ds)
        ⊎ (((delete_first p ds).0 ≡ 1) × Removes p ds (delete_first p ds).1)
  unfolding delete_first
  delete_first_lem p [] = inl (refl, refl, tt)
  delete_first_lem p (d ∷ ds) = elim (Bool-cases (p d)) [
    | inl hit ↦ rw hit (inr (refl, gone hit))
    | inr miss ↦ rw miss (elim (delete_first_lem p ds) [
      | inl (a, b, c) ↦ inl (a, rw b, (refl, c))
      | inr (a, u) ↦ inr (a, later u)
    ])
  ]

  pub some_delete_lem :
      (p : D → Bool) (ds es : List D) (n : ℕ)
      → ◌≡◌ {A = Option (ℕ × List D)} (some (delete_first p ds)) (some (n, es))
      → ((n ≡ 0) × (es ≡ ds) × All (λ d. p d ≡ false) ds) ⊎ ((n ≡ 1) × Removes p ds es)
  some_delete_lem p ds es n h =
      let first : (delete_first p ds).0 ≡ n = ground arith in
      let rest : (delete_first p ds).1 ≡ es = ground arith in
      rw (← first, ← rest) (delete_first_lem p ds)

  unfoldable pub update_or_add : (D → Bool) → (D → D) → D → List D → List D
  update_or_add p f d [] = d ∷ []
  update_or_add p f d (x ∷ ds) = if p x then f x ∷ ds else x ∷ update_or_add p f d ds

  update_or_add_lem :
      (p : D → Bool) (f : D → D) (d : D) (ds : List D)
      → ((update_or_add p f d ds ≡ ds ++ d ∷ []) × All (λ x. p x ≡ false) ds)
        ⊎ Updates p f ds (update_or_add p f d ds)
  unfolding update_or_add
  update_or_add_lem p f d [] = inl (refl, tt)
  update_or_add_lem p f d (x ∷ ds) = elim (Bool-cases (p x)) [
    | inl hit ↦ rw hit (inr (at hit))
    | inr miss ↦ rw miss (elim (update_or_add_lem p f d ds) [
      | inl (a, b) ↦ inl (rw a, (refl, b))
      | inr u ↦ inr (past u)
    ])
  ]

  pub some_upsert_lem :
      (p : D → Bool) (f : D → D) (d : D) (ds es : List D)
      → ◌≡◌ {A = Option (List D)} (some (update_or_add p f d ds)) (some es)
      → ((es ≡ ds ++ d ∷ []) × All (λ x. p x ≡ false) ds) ⊎ Updates p f ds es
  some_upsert_lem p f d ds es h =
      let same : update_or_add p f d ds ≡ es = ground arith in
      rw (← same) (update_or_add_lem p f d ds)

  pub delete_all_lem :
      (p : D → Bool) (ds es : List D) (n : ℕ)
      → ◌≡◌ {A = Option (ℕ × List D)}
          (some (length (filter p ds), filter (λ d. not (p d)) ds))
          (some (n, es))
      → (n ≡ length (filter p ds)) × (es ≡ filter (λ d. not (p d)) ds)
  delete_all_lem p ds es n h = (ground arith, ground arith)

  abbrev pub removing : Remover D
  removing = record {
    upsert_one = λ p f d ds. some (update_or_add p f d ds);
    upsert_one_lem = some_upsert_lem;
    delete_one = λ p ds. some (delete_first p ds);
    delete_one_lem = some_delete_lem;
    delete_many = λ p ds. some (length (filter p ds), filter (λ d. not (p d)) ds);
    delete_many_lem = delete_all_lem;
  }
