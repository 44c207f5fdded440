-- ===== src/Releases/Agreement.antt =====
-- Comparisons of three things that fit together, as the version order of api/main.go needs them.
use device_pulse.Prelude.{
  ℕ, Bool, true, false, ltb, text_eq, ◌≡◌, refl, arith, Bool-cases, inl, inr,
}
use device_pulse.Releases.Versions.{Comparison, less, equal, greater, by_part}

abbrev pub is_below : Comparison → Bool
is_below less = true
is_below _ = false

abbrev pub is_same : Comparison → Comparison → Bool
is_same less less = true
is_same equal equal = true
is_same greater greater = true
is_same _ _ = false

-- What a comparison of `a` with `c` may say, when the ones of `a` with `b` and `b` with `c` say this.
abbrev pub agrees : Comparison → Comparison → Comparison → Bool
agrees equal d e = is_same d e
agrees less greater e = true
agrees less less e = is_same less e
agrees less equal e = is_same less e
agrees greater less e = true
agrees greater greater e = is_same greater e
agrees greater equal e = is_same greater e

pub less-left : (d : Comparison) → agrees less d less ≡ true
less-left less = refl
less-left equal = refl
less-left greater = refl

pub less-right : (d : Comparison) → agrees d less less ≡ true
less-right less = refl
less-right equal = refl
less-right greater = refl

pub greater-left : (d : Comparison) → agrees greater d greater ≡ true
greater-left less = refl
greater-left equal = refl
greater-left greater = refl

pub greater-right : (d : Comparison) → agrees d greater greater ≡ true
greater-right less = refl
greater-right equal = refl
greater-right greater = refl

pub by_part-agrees :
    (a b c : ℕ) (r s t : Comparison)
    → agrees r s t ≡ true
    → agrees (by_part a b r) (by_part b c s) (by_part a c t) ≡ true
by_part-agrees a b c r s t h = elim (Bool-cases (ltb b a)) [
  | inl p ↦ elim (Bool-cases (ltb c b)) [
    | inl q ↦ let w : ltb c a ≡ true = ground arith in rw (p, q, w) refl
    | inr q ↦ elim (Bool-cases (ltb b c)) [
      | inl u ↦ rw (p, q, u) refl
      | inr u ↦ let w : ltb c a ≡ true = ground arith in rw (p, q, u, w) (greater-left s)
    ]
  ]
  | inr p ↦ elim (Bool-cases (ltb a b)) [
    | inl v ↦ elim (Bool-cases (ltb c b)) [
      | inl q ↦ rw (p, v, q) refl
      | inr q ↦
          let w : ltb c a ≡ false = ground arith in
          let x : ltb a c ≡ true = ground arith in
          elim (Bool-cases (ltb b c)) [
            | inl u ↦ rw (p, v, q, u, w, x) refl
            | inr u ↦ rw (p, v, q, u, w, x) (less-left s)
          ]
    ]
    | inr v ↦ elim (Bool-cases (ltb c b)) [
      | inl q ↦ let w : ltb c a ≡ true = ground arith in rw (p, v, q, w) (greater-right r)
      | inr q ↦
          let w : ltb c a ≡ false = ground arith in
          elim (Bool-cases (ltb b c)) [
            | inl u ↦ let x : ltb a c ≡ true = ground arith in rw (p, v, q, u, w, x) (less-right r)
            | inr u ↦ let x : ltb a c ≡ false = ground arith in rw (p, v, q, u, w, x) h
          ]
    ]
  ]
]
