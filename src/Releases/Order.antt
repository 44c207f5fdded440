-- ===== src/Releases/Order.antt =====
-- The order of agent versions in api/main.go is transitive.
use device_pulse.Prelude.{
  ℕ, Text, Bool, true, false, List, [], ◌∷◌, ltb, text_eq, if◌then◌else◌, ◌≡◌, refl, sym, subst,
  list_beq, arith, Bool-cases, inl, inr,
}
use device_pulse.Releases.Versions.{
  Comparison, less, equal, greater, by_part, compare_parts, compare_text, compare_prereleases,
  compare_agent_versions, or_then, agent_version_parts, agent_version_prerelease, flip,
  compare_agent_versions-flip,
}
use device_pulse.Releases.Agreement.{
  is_same, agrees, less-left, less-right, greater-left, greater-right, by_part-agrees,
}

same_self : (d : Comparison) → is_same d d ≡ true
same_self less = refl
same_self equal = refl
same_self greater = refl

equal-right : (d : Comparison) → agrees d equal d ≡ true
equal-right less = refl
equal-right equal = refl
equal-right greater = refl

parts-agrees :
    (xs ys zs : List ℕ)
    → agrees (compare_parts xs ys) (compare_parts ys zs) (compare_parts xs zs) ≡ true
unfolding compare_parts
parts-agrees [] [] zs = same_self (compare_parts [] zs)
parts-agrees (x ∷ xs) [] [] = equal-right (compare_parts (x ∷ xs) [])
parts-agrees [] (y ∷ ys) [] =
    by_part-agrees 0 y 0 (compare_parts [] ys) (compare_parts ys []) (compare_parts [] [])
      (parts-agrees [] ys [])
parts-agrees [] (y ∷ ys) (z ∷ zs) =
    by_part-agrees 0 y z (compare_parts [] ys) (compare_parts ys zs) (compare_parts [] zs)
      (parts-agrees [] ys zs)
parts-agrees (x ∷ xs) [] (z ∷ zs) =
    by_part-agrees x 0 z (compare_parts xs []) (compare_parts [] zs) (compare_parts xs zs)
      (parts-agrees xs [] zs)
parts-agrees (x ∷ xs) (y ∷ ys) [] =
    by_part-agrees x y 0 (compare_parts xs ys) (compare_parts ys []) (compare_parts xs [])
      (parts-agrees xs ys [])
parts-agrees (x ∷ xs) (y ∷ ys) (z ∷ zs) =
    by_part-agrees x y z (compare_parts xs ys) (compare_parts ys zs) (compare_parts xs zs)
      (parts-agrees xs ys zs)

text-agrees :
    (xs ys zs : Text) → agrees (compare_text xs ys) (compare_text ys zs) (compare_text xs zs) ≡ true
unfolding compare_text
text-agrees [] [] zs = same_self (compare_text [] zs)
text-agrees [] (y ∷ ys) [] = refl
text-agrees [] (y ∷ ys) (z ∷ zs) = less-left (by_part y z (compare_text ys zs))
text-agrees (x ∷ xs) [] [] = refl
text-agrees (x ∷ xs) [] (z ∷ zs) = refl
text-agrees (x ∷ xs) (y ∷ ys) [] = greater-right (by_part x y (compare_text xs ys))
text-agrees (x ∷ xs) (y ∷ ys) (z ∷ zs) =
    by_part-agrees x y z (compare_text xs ys) (compare_text ys zs) (compare_text xs zs)
      (text-agrees xs ys zs)

text_self : (xs : Text) → compare_text xs xs ≡ equal
unfolding compare_text
text_self [] = refl
text_self (x ∷ xs) = let same : ltb x x ≡ false = ground arith in rw same (text_self xs)

-- Where both prereleases are there, or both are missing.
text-prereleases :
    (c : ℕ) (cs q : Text)
    → compare_prereleases (c ∷ cs) q ≡ (if text_eq.beq q [] then less else compare_text (c ∷ cs) q)
unfolding compare_prereleases list_beq
text-prereleases c cs [] = refl
text-prereleases c cs (d ∷ q) = elim (Bool-cases (text_eq.beq (c ∷ cs) (d ∷ q))) [
  | inl e ↦
      let same : c ∷ cs ≡ d ∷ q = (text_eq.beq_iff (c ∷ cs) (d ∷ q)).0 e in
      let self : compare_text (c ∷ cs) (d ∷ q) ≡ equal =
        subst (λ x. compare_text (c ∷ cs) x ≡ equal) same (text_self (c ∷ cs)) in
      rw e (sym self)
  | inr e ↦ rw e refl
]

both-present :
    (c d : ℕ) (p q : Text) → compare_prereleases (c ∷ p) (d ∷ q) ≡ compare_text (c ∷ p) (d ∷ q)
unfolding list_beq
both-present c d p q = text-prereleases c p (d ∷ q)

present-agrees :
    (c d e : ℕ) (p q r : Text)
    → agrees
        (compare_prereleases (c ∷ p) (d ∷ q))
        (compare_prereleases (d ∷ q) (e ∷ r))
        (compare_prereleases (c ∷ p) (e ∷ r))
      ≡ true
present-agrees c d e p q r =
    rw (both-present c d p q, both-present d e q r, both-present c e p r)
      (text-agrees (c ∷ p) (d ∷ q) (e ∷ r))

prereleases-agrees :
    (p q r : Text)
    → agrees (compare_prereleases p q) (compare_prereleases q r) (compare_prereleases p r) ≡ true
unfolding compare_prereleases list_beq
prereleases-agrees [] [] r = same_self (compare_prereleases [] r)
prereleases-agrees [] (d ∷ q) [] = refl
prereleases-agrees [] (d ∷ q) (e ∷ r) = greater-left (compare_prereleases (d ∷ q) (e ∷ r))
prereleases-agrees (c ∷ p) [] [] = refl
prereleases-agrees (c ∷ p) [] (e ∷ r) = refl
prereleases-agrees (c ∷ p) (d ∷ q) [] = less-right (compare_prereleases (c ∷ p) (d ∷ q))
prereleases-agrees (c ∷ p) (d ∷ q) (e ∷ r) = present-agrees c d e p q r

or_then-agrees :
    (c d e r s t : Comparison)
    → agrees c d e ≡ true
    → agrees r s t ≡ true
    → agrees (or_then c r) (or_then d s) (or_then e t) ≡ true
or_then-agrees less less less r s t h k = refl
or_then-agrees less less equal r s t h k = absurd (ground arith)
or_then-agrees less less greater r s t h k = absurd (ground arith)
or_then-agrees less equal less r s t h k = less-left s
or_then-agrees less equal equal r s t h k = absurd (ground arith)
or_then-agrees less equal greater r s t h k = absurd (ground arith)
or_then-agrees less greater less r s t h k = refl
or_then-agrees less greater equal r s t h k = refl
or_then-agrees less greater greater r s t h k = refl
or_then-agrees equal less less r s t h k = less-right r
or_then-agrees equal less equal r s t h k = absurd (ground arith)
or_then-agrees equal less greater r s t h k = absurd (ground arith)
or_then-agrees equal equal less r s t h k = absurd (ground arith)
or_then-agrees equal equal equal r s t h k = k
or_then-agrees equal equal greater r s t h k = absurd (ground arith)
or_then-agrees equal greater less r s t h k = absurd (ground arith)
or_then-agrees equal greater equal r s t h k = absurd (ground arith)
or_then-agrees equal greater greater r s t h k = greater-right r
or_then-agrees greater less less r s t h k = refl
or_then-agrees greater less equal r s t h k = refl
or_then-agrees greater less greater r s t h k = refl
or_then-agrees greater equal less r s t h k = absurd (ground arith)
or_then-agrees greater equal equal r s t h k = absurd (ground arith)
or_then-agrees greater equal greater r s t h k = greater-left s
or_then-agrees greater greater less r s t h k = absurd (ground arith)
or_then-agrees greater greater equal r s t h k = absurd (ground arith)
or_then-agrees greater greater greater r s t h k = refl

versions-agrees :
    (a b c : Text)
    → agrees (compare_agent_versions a b) (compare_agent_versions b c) (compare_agent_versions a c)
      ≡ true
unfolding compare_agent_versions
versions-agrees a b c =
    or_then-agrees _ _ _ _ _ _
      (parts-agrees (agent_version_parts a) (agent_version_parts b) (agent_version_parts c))
      (prereleases-agrees (agent_version_prerelease a) (agent_version_prerelease b)
        (agent_version_prerelease c))

abbrev pub is_not_newer : Comparison → Bool
is_not_newer less = true
is_not_newer equal = true
is_not_newer greater = false

pub not_newer_self : (a : Text) → is_not_newer (compare_agent_versions a a) ≡ true
not_newer_self a = self (compare_agent_versions a a) (compare_agent_versions-flip a a)
  where
    self : (c : Comparison) → c ≡ flip c → is_not_newer c ≡ true
    self less e = refl
    self equal e = refl
    self greater e = absurd (ground arith)

not_newer_trans :
    (c d e : Comparison)
    → agrees c d e ≡ true
    → is_not_newer c ≡ true
    → is_not_newer d ≡ true
    → is_not_newer e ≡ true
not_newer_trans less less less h p q = refl
not_newer_trans less less equal h p q = absurd (ground arith)
not_newer_trans less less greater h p q = absurd (ground arith)
not_newer_trans less equal less h p q = refl
not_newer_trans less equal equal h p q = absurd (ground arith)
not_newer_trans less equal greater h p q = absurd (ground arith)
not_newer_trans equal less less h p q = refl
not_newer_trans equal less equal h p q = absurd (ground arith)
not_newer_trans equal less greater h p q = absurd (ground arith)
not_newer_trans equal equal less h p q = absurd (ground arith)
not_newer_trans equal equal equal h p q = refl
not_newer_trans equal equal greater h p q = absurd (ground arith)
not_newer_trans less greater e h p q = absurd (ground arith)
not_newer_trans equal greater e h p q = absurd (ground arith)
not_newer_trans greater d e h p q = absurd (ground arith)

-- The order of versions is transitive: a version that is not newer than one which is not newer than
-- a third is not newer than the third, whatever numbers, prereleases and build data they carry.
pub compare_agent_versions_trans :
    (a b c : Text)
    → is_not_newer (compare_agent_versions a b) ≡ true
    → is_not_newer (compare_agent_versions b c) ≡ true
    → is_not_newer (compare_agent_versions a c) ≡ true
compare_agent_versions_trans a b c h k = not_newer_trans _ _ _ (versions-agrees a b c) h k
