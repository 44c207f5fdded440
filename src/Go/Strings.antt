-- ===== src/Go/Strings.antt =====
-- Go's `strings`: TrimSpace, TrimPrefix, TrimSuffix, ToLower, Split, IndexByte, HasPrefix,
-- HasSuffix, Contains.
pub mod Trim
use device_pulse.Prelude.{
  ℕ, ◌+◌, ◌-◌, ◌*◌, ◌≤◌, ◌<◌, Text, Bool, true, false, not, ◌&&◌, ◌||◌, List, [], ◌∷◌, ◌++◌, Option,
  none, some, ltb, leb, ◌==◌, if◌then◌else◌, ◌≡◌, refl, arith, text_eq, map,
}

abbrev pub is_space : ℕ → Bool
is_space c = (leb 9 c && leb c 13) || c == 32

unfoldable pub trim_left : Text → Text
trim_left [] = []
trim_left (c ∷ s) = if is_space c then trim_left s else c ∷ s

-- Without the white space at its end: a space is kept only if something else follows.
unfoldable pub trim_right : Text → Text
trim_right [] = []
trim_right (c ∷ s) = elim (trim_right s) [
  | [] ↦ if is_space c then [] else c ∷ []
  | d ∷ r ↦ c ∷ d ∷ r
]

unfoldable pub trim_space : Text → Text
unfolding trim_left trim_right
trim_space s = trim_right (trim_left s)

abbrev pub lower : ℕ → ℕ
lower c = if leb b'A' c && leb c b'Z' then c + 32 else c

abbrev pub to_lower : Text → Text
to_lower = map lower

-- `strings.Split(s, sep)` for a separator of one byte, onto the piece read so far.
unfoldable pub split_onto : Text → ℕ → Text → List Text
split_onto piece sep [] = piece ∷ []
split_onto piece sep (c ∷ s) =
    let next = piece ∷ split_onto [] sep s in
    let more = split_onto (piece ++ c ∷ []) sep s in if c == sep then next else more

abbrev pub split : ℕ → Text → List Text
split sep s = split_onto [] sep s

unfoldable pub has_prefix : Text → Text → Bool
has_prefix s [] = true
has_prefix [] (p ∷ ps) = false
has_prefix (c ∷ s) (p ∷ ps) = c == p && has_prefix s ps

unfoldable pub contains : Text → Text → Bool
unfolding has_prefix
contains [] sub = has_prefix [] sub
contains (c ∷ s) sub = has_prefix (c ∷ s) sub || contains s sub

unfoldable pub behind_prefix : Text → Text → Option Text
behind_prefix s [] = some s
behind_prefix [] (p ∷ ps) = none
behind_prefix (c ∷ s) (p ∷ ps) = if c == p then behind_prefix s ps else none

-- `strings.TrimPrefix`: the text behind the prefix, or all of it.
unfoldable pub trim_prefix : Text → Text → Text
trim_prefix s prefix = elim (behind_prefix s prefix) [ none ↦ s | some rest ↦ rest ]

-- `strings.TrimSuffix`: cut where the rest is the suffix.
unfoldable pub trim_suffix : Text → Text → Text
trim_suffix [] suffix = []
trim_suffix (c ∷ s) suffix = if text_eq.beq (c ∷ s) suffix then [] else c ∷ trim_suffix s suffix

-- The text before the first `sep`, and the text behind it if there is one.
unfoldable pub cut : ℕ → Text → Text × Option Text
cut sep [] = ([], none)
cut sep (c ∷ s) =
    let (before, after) = cut sep s in if c == sep then ([], some s) else (c ∷ before, after)
