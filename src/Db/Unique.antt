-- ===== src/Db/Unique.antt =====
-- Documents with unique ids, under the updates of a driver.
use device_pulse.Prelude.{
  ℕ, Bool, true, false, List, [], ◌∷◌, ◌++◌, ◌≡◌, ◌≢◌, refl, ◌⊎◌, inl, inr, All, All-at, All-append,
  At, here, there, ◌==◌, arith,
}
use device_pulse.Db.{Updates, at, past}

module _ {ℓ} {D : Type ℓ} (id : D → ℕ) where
  abbrev pub Fresh : ℕ → List D → Type 0
  Fresh i = All (λ d. (id d == i) ≡ false)

  abbrev pub UniqueIds : List D → Type 0
  UniqueIds [] = Unit
  UniqueIds (d ∷ ds) = Fresh (id d) ds × UniqueIds ds

  pub UniqueIds-append :
      (ds : List D) (d : D) → UniqueIds ds → Fresh (id d) ds → UniqueIds (ds ++ d ∷ [])
  UniqueIds-append [] d a h = (tt, tt)
  UniqueIds-append (e ∷ ds) d a h = (
    All-append (λ x. (id x == id e) ≡ false) ds (d ∷ []) a.0 (ground arith, tt),
    UniqueIds-append ds d a.1 h.1,
  )

  pub unique_document :
      (d e : D) {ds : List D} → UniqueIds ds → At d ds → At e ds → id d ≡ id e → d ≡ e
  unique_document d e a here here h = refl
  unique_document d e a here (there m) h =
      let other : (id e == id d) ≡ false = All-at (λ x. (id x == id d) ≡ false) a.0 m in
      absurd (ground arith)
  unique_document d e a (there m) here h =
      let other : (id d == id e) ≡ false = All-at (λ x. (id x == id e) ≡ false) a.0 m in
      absurd (ground arith)
  unique_document d e a (there m) (there n) h = unique_document d e a.1 m n h

  pub Fresh-At : (i : ℕ) {d : D} {ds : List D} → Fresh i ds → At d ds → id d ≢ i
  Fresh-At i {d} f m e =
      let other : (id d == i) ≡ false = All-at (λ x. (id x == i) ≡ false) f m in ground arith

module _ {ℓ} {D : Type ℓ} (id : D → ℕ) (p : D → Bool) (f : D → D)
    (keeps : (d : D) → id (f d) ≡ id d) where
  Fresh-Updates : {ds es : List D} (i : ℕ) → Updates p f ds es → Fresh id i ds → Fresh id i es
  Fresh-Updates i (at {d = d} h) a = (rw (keeps d) a.0, a.1)
  Fresh-Updates i (past u) a = (a.0, Fresh-Updates i u a.1)

  pub UniqueIds-Updates : {ds es : List D} → Updates p f ds es → UniqueIds id ds → UniqueIds id es
  UniqueIds-Updates (at {d = d} h) a = (rw (keeps d) a.0, a.1)
  UniqueIds-Updates (past {d = d} u) a = (Fresh-Updates (id d) u a.0, UniqueIds-Updates u a.1)

module _ {ℓ} {D : Type ℓ} (p : D → Bool) (f : D → D) where
  -- A document is still there, or is the one that was updated.
  pub At-Updates :
      {ds es : List D} (d : D)
      → Updates p f ds es
      → At d ds
      → At d es ⊎ ((p d ≡ true) × At (f d) es)
  At-Updates d (at h) here = inr (h, here)
  At-Updates d (at h) (there m) = inl (there m)
  At-Updates d (past u) here = inl here
  At-Updates d (past u) (there m) = elim (At-Updates d u m) [
    | inl k ↦ inl (there k)
    | inr (h, k) ↦ inr (h, there k)
  ]

  -- The updated document is in the list.
  pub Updates-found :
      {ds es : List D} → Updates p f ds es → (d : D) × At d ds × (p d ≡ true) × At (f d) es
  Updates-found (at {d = d} h) = (d, here, h, here)
  Updates-found (past u) = let (d, m, h, k) = Updates-found u in (d, there m, h, there k)
