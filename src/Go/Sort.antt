-- ===== src/Go/Sort.antt =====
-- Go's `sort.SliceStable`, and `sort.Slice`, of which a stable sort is one outcome.
use device_pulse.Prelude.{
  Bool, true, false, List, [], ◌∷◌, if◌then◌else◌, ◌≡◌, refl, arith, All, Bool-cases, inl, inr,
  length, suc, ap, ◌∙◌, At, here, there,
}

module _ {ℓ} {A : Type ℓ} (less : A → A → Bool) where
  -- `x` stood before all of the list: it goes in front of everything that is not less.
  unfoldable pub insert_sorted : A → List A → List A
  insert_sorted x [] = x ∷ []
  insert_sorted x (y ∷ ys) = if less y x then y ∷ insert_sorted x ys else x ∷ y ∷ ys

  unfoldable pub sort_stable : List A → List A
  unfolding insert_sorted
  sort_stable [] = []
  sort_stable (x ∷ xs) = insert_sorted x (sort_stable xs)

abbrev pub Sorted {ℓ κ} : {A : Type ℓ} → (A → A → Type κ) → List A → Type κ
Sorted le [] = Unit
Sorted le (x ∷ xs) = All (le x) xs × Sorted le xs

module _ {ℓ κ} {A : Type ℓ} (less : A → A → Bool) where
  All-insert_sorted :
      (P : A → Type κ) (x : A) (ys : List A) → P x → All P ys → All P (insert_sorted less x ys)
  unfolding insert_sorted
  All-insert_sorted P x [] p h = (p, tt)
  All-insert_sorted P x (y ∷ ys) p h = elim (Bool-cases (less y x)) [
    | inl lt ↦ rw lt (h.0, All-insert_sorted P x ys p h.1)
    | inr ge ↦ rw ge (p, h)
  ]

  pub All-sort_stable : (P : A → Type κ) (xs : List A) → All P xs → All P (sort_stable less xs)
  unfolding sort_stable
  All-sort_stable P [] h = h
  All-sort_stable P (x ∷ xs) h =
      All-insert_sorted P x (sort_stable less xs) h.0 (All-sort_stable P xs h.1)

module _ {ℓ} {A : Type ℓ} (less : A → A → Bool) where
  At-insert_self : (x : A) (ys : List A) → At x (insert_sorted less x ys)
  unfolding insert_sorted
  At-insert_self x [] = here
  At-insert_self x (y ∷ ys) = elim (Bool-cases (less y x)) [
    | inl lt ↦ rw lt (there (At-insert_self x ys))
    | inr ge ↦ rw ge here
  ]

  At-insert_old : {a : A} (x : A) (ys : List A) → At a ys → At a (insert_sorted less x ys)
  unfolding insert_sorted
  At-insert_old x [] m = elim m [ ]
  At-insert_old x (y ∷ ys) here = elim (Bool-cases (less y x)) [
    | inl lt ↦ rw lt here
    | inr ge ↦ rw ge (there here)
  ]
  At-insert_old x (y ∷ ys) (there m) = elim (Bool-cases (less y x)) [
    | inl lt ↦ rw lt (there (At-insert_old x ys m))
    | inr ge ↦ rw ge (there (there m))
  ]

  pub At-sort_stable : {a : A} (xs : List A) → At a xs → At a (sort_stable less xs)
  unfolding sort_stable
  At-sort_stable [] m = elim m [ ]
  At-sort_stable (x ∷ xs) here = At-insert_self x (sort_stable less xs)
  At-sort_stable (x ∷ xs) (there m) = At-insert_old x (sort_stable less xs) (At-sort_stable xs m)

  length-insert_sorted : (x : A) (ys : List A) → length (insert_sorted less x ys) ≡ suc (length ys)
  unfolding insert_sorted
  length-insert_sorted x [] = refl
  length-insert_sorted x (y ∷ ys) = ground (arith, length-insert_sorted x ys)

  pub length-sort_stable : (xs : List A) → length (sort_stable less xs) ≡ length xs
  unfolding sort_stable
  length-sort_stable [] = refl
  length-sort_stable (x ∷ xs) =
      length-insert_sorted x (sort_stable less xs) ∙ ap suc (length-sort_stable xs)

module _ {ℓ κ} {A : Type ℓ} (less : A → A → Bool) (le : A → A → Type κ) where
  All-weaken : (P Q : A → Type κ) → ((a : A) → P a → Q a) → (xs : List A) → All P xs → All Q xs
  All-weaken P Q f [] h = h
  All-weaken P Q f (x ∷ xs) h = (f x h.0, All-weaken P Q f xs h.1)

  module _ (trans : (a b c : A) → le a b → le b c → le a c)
      (of_less : (a b : A) → less a b ≡ true → le a b)
      (of_not : (a b : A) → less a b ≡ false → le b a) where
    insert_sorted-Sorted :
        (x : A) (ys : List A) → Sorted le ys → Sorted le (insert_sorted less x ys)
    unfolding insert_sorted
    insert_sorted-Sorted x [] s = (tt, tt)
    insert_sorted-Sorted x (y ∷ ys) s = elim (Bool-cases (less y x)) [
      | inl lt ↦
          rw lt
            (All-insert_sorted less (le y) x ys (of_less y x lt) s.0, insert_sorted-Sorted x ys s.1)
      | inr ge ↦
          rw ge
            ((of_not y x ge, All-weaken (le y) (le x) (λ a. trans x y a (of_not y x ge)) ys s.0), s)
    ]

    pub sort_stable-Sorted : (xs : List A) → Sorted le (sort_stable less xs)
    unfolding sort_stable
    sort_stable-Sorted [] = tt
    sort_stable-Sorted (x ∷ xs) =
        insert_sorted-Sorted x (sort_stable less xs) (sort_stable-Sorted xs)
