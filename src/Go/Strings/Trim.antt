-- ===== src/Go/Strings/Trim.antt =====
-- Trimming twice is trimming once.
use device_pulse.Prelude.{
  ℕ, Text, false, [], ◌∷◌, ◌≡◌, refl, Bool-cases, inl, inr, ◌∙◌, ap, sym, ◌⊎◌,
}
use device_pulse.Go.Strings.{is_space, trim_left, trim_right, trim_space}

-- The text does not begin with white space.
abbrev Clean : Text → Type 0
Clean [] = Unit
Clean (c ∷ s) = is_space c ≡ false

trim_left-Clean : (s : Text) → Clean (trim_left s)
unfolding trim_left
trim_left-Clean [] = tt
trim_left-Clean (c ∷ s) = elim (Bool-cases (is_space c)) [
  | inl space ↦ rw space (trim_left-Clean s)
  | inr other ↦ rw other other
]

trim_left_of_Clean : (s : Text) → Clean s → trim_left s ≡ s
unfolding trim_left
trim_left_of_Clean [] h = refl
trim_left_of_Clean (c ∷ s) h = rw h

List-cases : (s : Text) → (s ≡ []) ⊎ ((c : ℕ) × (r : Text) × (s ≡ c ∷ r))
List-cases [] = inl refl
List-cases (c ∷ r) = inr (c, r, refl)

trim_right-Clean : (s : Text) → Clean s → Clean (trim_right s)
unfolding trim_right
trim_right-Clean [] h = tt
trim_right-Clean (c ∷ s) h = elim (List-cases (trim_right s)) [
  | inl e ↦ rw (e, trim_right) (rw h h)
  | inr (d, r, e) ↦ rw (e, trim_right) h
]

trim_right_idem : (s : Text) → trim_right (trim_right s) ≡ trim_right s
unfolding trim_right
trim_right_idem [] = refl
trim_right_idem (c ∷ s) = elim (List-cases (trim_right s)) [
  | inl e ↦
      rw (e, trim_right)
        (elim (Bool-cases (is_space c)) [ inl space ↦ rw space | inr other ↦ rw other (rw other) ])
  | inr (d, r, e) ↦
      let again : trim_right (d ∷ r) ≡ d ∷ r = ap trim_right (sym e) ∙ trim_right_idem s ∙ e in
      rw (e, trim_right) (rw (again, trim_right))
]

pub trim_space_idem : (s : Text) → trim_space (trim_space s) ≡ trim_space s
unfolding trim_space
trim_space_idem s =
    ap trim_right (trim_left_of_Clean _ (trim_right-Clean (trim_left s) (trim_left-Clean s)))
    ∙ trim_right_idem (trim_left s)
