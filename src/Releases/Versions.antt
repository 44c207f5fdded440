-- ===== src/Releases/Versions.antt =====
-- How api/main.go orders agent versions: `compareAgentVersions`, `agentVersionParts` and
-- `agentVersionPrerelease`. The result `less`, `equal` or `greater` is Go's -1, 0 or 1. A version
-- is its bytes, and a part is a number below 2^63, as `strconv.Atoi` reads it: a sign never
-- reaches it, since `-` and `+` end the field.
use device_pulse.Prelude.{
  ℕ, ◌+◌, ◌-◌, ◌*◌, ◌^◌, Text, Bool, true, false, ◌&&◌, ◌||◌, List, [], ◌∷◌, Option, none, some,
  ltb, leb, ◌==◌, text_eq, if◌then◌else◌, ◌≡◌, refl, sym, ◌∙◌, arith, Bool-cases, inl, inr,
}
use device_pulse.Go.Strings.{split, cut}

pub data Comparison : Type 0 where
  less : Comparison
  equal : Comparison
  greater : Comparison

abbrev is_separator : ℕ → Bool
is_separator c = (c == 45) || (c == 43)

unfoldable pub field_rest : Text → Text
field_rest [] = []
field_rest (c ∷ cs) = let rest = field_rest cs in if is_separator c then [] else c ∷ rest

-- The first of `strings.FieldsFunc`, empty where there is none.
unfoldable pub first_field : Text → Text
unfolding field_rest
first_field [] = []
first_field (c ∷ cs) =
    let rest = first_field cs in if is_separator c then rest else c ∷ field_rest cs

unfoldable pub digits : ℕ → Text → Option ℕ
digits n [] = if ltb n (2 ^ 63) then some n else none
digits n (c ∷ cs) =
    let rest = digits (n * 10 + (c - 48)) cs in if leb 48 c && leb c 57 then rest else none

unfoldable pub atoi : Text → Option ℕ
unfolding digits
atoi [] = none
atoi (c ∷ cs) = digits 0 (c ∷ cs)

abbrev put : Option ℕ → List ℕ → List ℕ
put none ns = []
put (some n) ns = n ∷ ns

unfoldable pub numbers : List Text → List ℕ
unfolding atoi
numbers [] = []
numbers (raw ∷ raws) = put (atoi raw) (numbers raws)

unfoldable pub agent_version_parts : Text → List ℕ
unfolding first_field numbers
agent_version_parts v =
    if text_eq.beq (first_field v) [] then [] else numbers (split 46 (first_field v))

abbrev or_empty : Option Text → Text
or_empty none = []
or_empty (some t) = t

unfoldable pub agent_version_prerelease : Text → Text
unfolding cut
agent_version_prerelease v = or_empty (cut 45 (cut 43 v).0).1

-- A round of the loop over the parts.
abbrev pub by_part : ℕ → ℕ → Comparison → Comparison
by_part a b rest = if ltb b a then greater else if ltb a b then less else rest

-- A part that is missing counts xs 0.
unfoldable pub compare_parts : List ℕ → List ℕ → Comparison
compare_parts [] [] = equal
compare_parts [] (b ∷ bs) = by_part 0 b (compare_parts [] bs)
compare_parts (a ∷ xs) [] = by_part a 0 (compare_parts xs [])
compare_parts (a ∷ xs) (b ∷ bs) = by_part a b (compare_parts xs bs)

-- `strings.Compare`
unfoldable pub compare_text : Text → Text → Comparison
compare_text [] [] = equal
compare_text [] (y ∷ ys) = less
compare_text (x ∷ xs) [] = greater
compare_text (x ∷ xs) (y ∷ ys) = by_part x y (compare_text xs ys)

unfoldable pub compare_prereleases : Text → Text → Comparison
unfolding compare_text
compare_prereleases p q =
    if text_eq.beq p q
    then equal
    else if text_eq.beq p []
    then greater
    else if text_eq.beq q []
    then less
    else compare_text p q

abbrev pub or_then : Comparison → Comparison → Comparison
or_then less c = less
or_then equal c = c
or_then greater c = greater

unfoldable pub compare_agent_versions : Text → Text → Comparison
unfolding compare_parts agent_version_parts compare_prereleases agent_version_prerelease
compare_agent_versions a b =
    or_then (compare_parts (agent_version_parts a) (agent_version_parts b))
      (compare_prereleases (agent_version_prerelease a) (agent_version_prerelease b))

abbrev pub flip : Comparison → Comparison
flip less = greater
flip equal = equal
flip greater = less

by_part-flip : (a b : ℕ) (c d : Comparison) → d ≡ flip c → by_part b a d ≡ flip (by_part a b c)
by_part-flip a b c d h = elim (Bool-cases (ltb b a)) [
  | inl e ↦ let f : ltb a b ≡ false = ground arith in rw (e, f) refl
  | inr e ↦ elim (Bool-cases (ltb a b)) [ inl f ↦ rw (e, f) refl | inr f ↦ rw (e, f) h ]
]

parts-flip : (xs bs : List ℕ) → compare_parts bs xs ≡ flip (compare_parts xs bs)
unfolding compare_parts
parts-flip [] [] = refl
parts-flip [] (b ∷ bs) = by_part-flip 0 b _ _ (parts-flip [] bs)
parts-flip (a ∷ xs) [] = by_part-flip a 0 _ _ (parts-flip xs [])
parts-flip (a ∷ xs) (b ∷ bs) = by_part-flip a b _ _ (parts-flip xs bs)

text-flip : (xs ys : Text) → compare_text ys xs ≡ flip (compare_text xs ys)
unfolding compare_text
text-flip [] [] = refl
text-flip [] (y ∷ ys) = refl
text-flip (x ∷ xs) [] = refl
text-flip (x ∷ xs) (y ∷ ys) = by_part-flip x y _ _ (text-flip xs ys)

beq-swap : (p q : Text) → text_eq.beq q p ≡ text_eq.beq p q
beq-swap p q = elim (Bool-cases (text_eq.beq p q)) [
  | inl e ↦
      let same : p ≡ q = (text_eq.beq_iff p q).0 e in rw e ((text_eq.beq_iff q p).1 (sym same))
  | inr e ↦ elim (Bool-cases (text_eq.beq q p)) [
    | inl f ↦
        let same : q ≡ p = (text_eq.beq_iff q p).0 f in
        let g : text_eq.beq p q ≡ true = (text_eq.beq_iff p q).1 (sym same) in absurd (ground arith)
    | inr f ↦ rw (e, f) refl
  ]
]

prereleases-flip : (p q : Text) → compare_prereleases q p ≡ flip (compare_prereleases p q)
unfolding compare_prereleases
prereleases-flip p q =
    let swap = beq-swap p q in
    let text = text-flip p q in
    elim (Bool-cases (text_eq.beq p q)) [
      | inl e ↦ rw (swap, e) refl
      | inr e ↦ elim (Bool-cases (text_eq.beq p [])) [
        | inl f ↦ elim (Bool-cases (text_eq.beq q [])) [
          | inl g ↦
              let same : p ≡ q = (text_eq.beq_iff p []).0 f ∙ sym ((text_eq.beq_iff q []).0 g) in
              let h : text_eq.beq p q ≡ true = (text_eq.beq_iff p q).1 same in absurd (ground arith)
          | inr g ↦ rw (swap, e, f, g) refl
        ]
        | inr f ↦ elim (Bool-cases (text_eq.beq q [])) [
          | inl g ↦ rw (swap, e, f, g) refl
          | inr g ↦ rw (swap, e, f, g) text
        ]
      ]
    ]

or_then-flip :
    (c d c' d' : Comparison) → c' ≡ flip c → d' ≡ flip d → or_then c' d' ≡ flip (or_then c d)
or_then-flip less d c' d' h k = rw h refl
or_then-flip equal d c' d' h k = rw h k
or_then-flip greater d c' d' h k = rw h refl

-- Comparing two versions the other way round gives the opposite answer, so that of two versions at
-- most one is newer than the other, and none is newer than itself.
pub compare_agent_versions-flip :
    (a b : Text) → compare_agent_versions b a ≡ flip (compare_agent_versions a b)
unfolding compare_agent_versions
compare_agent_versions-flip a b =
    or_then-flip _ _ _ _ (parts-flip (agent_version_parts a) (agent_version_parts b))
      (prereleases-flip (agent_version_prerelease a) (agent_version_prerelease b))
