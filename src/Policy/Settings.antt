-- ===== src/Policy/Settings.antt =====
-- What `normalizePolicy` of api/main.go makes of any input.
use device_pulse.Prelude.{
  ℕ, ◌≤◌, Text, codes, Bool, true, false, ◌||◌, List, [], ◌∷◌, Option, none, some, ltb, text_eq,
  if◌then◌else◌, map, Map, lookup, insert, lookup-insert, All, ◌≡◌, refl, sym, subst, ◌∙◌, ◌⊎◌, inl,
  inr, arith, Bool-cases, Option-cases,
}
use device_pulse.Policy.{
  exact_int, Floats, Value, integer, number, text, boolean, other, Config, bool_keys, sync_interval,
  retention_days, history_limit, history_mode, is_mode, default_policy, value_or, read, to_float,
  at_least, at_most, clamped, clamp_number, mode_of, normalize_mode, is_boolean, normalize_bool,
  normalize_bools, copied, normalize_policy,
}

-- What a setting may be.
pub data Kind : Type 0 where
  numeric : ℕ → ℕ → Kind
  mode : Kind
  switch : Kind

abbrev switches : List Text → Map Text Kind → Map Text Kind
switches [] kinds = kinds
switches (key ∷ keys) kinds = switches keys ((key, switch) ∷ kinds)

abbrev pub kinds : Map Text Kind
kinds = switches bool_keys (
    (history_mode, mode)
    ∷ (history_limit, numeric 0 5000)
    ∷ (retention_days, numeric 1 3650)
    ∷ (sync_interval, numeric 10 3600)
    ∷ [])

module _ {F : Type 0} (floats : Floats F) where
  abbrev pub IsBetween : ℕ → ℕ → F → Type 0
  IsBetween low high x =
      (floats.less x (floats.of_int low) ≡ false) × (floats.less (floats.of_int high) x ≡ false)

  abbrev pub Fits : Kind → Value F → Type 0
  Fits (numeric low high) v = (x : F) × (to_float floats v ≡ some x) × IsBetween low high x
  Fits mode v = (s : Text) × (v ≡ text s) × (is_mode s ≡ true)
  Fits switch v = (b : Bool) × (v ≡ boolean b)

  -- The settings of a table are there, each of its kind.
  abbrev pub Ready : Map Text Kind → Config F → Type 0
  Ready table p =
      (key : Text) (k : Kind)
      → lookup key table ≡ some k
      → (v : Value F) × (lookup key p ≡ some v) × Fits k v

  abbrev pub OnlyKnown : Config F → Type 0
  OnlyKnown p = (key : Text) → lookup key (default_policy floats) ≡ none → lookup key p ≡ none

  -- A policy has every setting, each of its kind, and nothing else.
  abbrev pub IsPolicy : Config F → Type 0
  IsPolicy p = Ready kinds p × OnlyKnown p

  Ready-insert :
      (table : Map Text Kind) (p : Config F) (key : Text) (k : Kind) (v : Value F)
      → Ready table p
      → Fits k v
      → Ready ((key, k) ∷ table) (insert key v p)
  unfolding lookup
  Ready-insert table p key k v ready fits j kind at_j = elim (Bool-cases (text_eq.beq key j)) [
    | inl hit ↦
        let same : k ≡ kind = ground (arith, hit, at_j) in
        (v, ground (arith, lookup-insert key j v p, hit), subst (λ x. Fits x v) same fits)
    | inr miss ↦
        let (w, at_w, fits_w) = ready j kind (ground (arith, miss, at_j)) in
        (w, ground (arith, lookup-insert key j v p, miss, at_w), fits_w)
  ]

  Ready-kept :
      (table : Map Text Kind) (p : Config F) (key : Text) (k : Kind) (v : Value F)
      → Ready table p
      → lookup key p ≡ some v
      → Fits k v
      → Ready ((key, k) ∷ table) p
  unfolding lookup
  Ready-kept table p key k v ready there_is fits j kind at_j =
      elim (Bool-cases (text_eq.beq key j)) [
        | inl hit ↦
            let same : k ≡ kind = ground (arith, hit, at_j) in
            let same_key : key ≡ j = (text_eq.beq_iff key j).0 hit in
            (v, subst (λ x. lookup x p ≡ some v) same_key there_is, subst (λ x. Fits x v) same fits)
        | inr miss ↦ ready j kind (ground (arith, miss, at_j))
      ]

  OnlyKnown-insert :
      (p : Config F) (key : Text) (v w : Value F)
      → lookup key (default_policy floats) ≡ some w
      → OnlyKnown p
      → OnlyKnown (insert key v p)
  OnlyKnown-insert p key v w known only j unknown = elim (Bool-cases (text_eq.beq key j)) [
    | inl hit ↦
        let same_key : key ≡ j = (text_eq.beq_iff key j).0 hit in
        absurd (ground (arith, same_key, known, unknown))
    | inr miss ↦ ground (arith, lookup-insert key j v p, miss, only j unknown)
  ]

  copied-none :
      (input ds : Config F) (key : Text)
      → lookup key ds ≡ none
      → lookup key (map (λ (k, v). (k, value_or floats v (lookup k input))) ds) ≡ none
  unfolding lookup
  copied-none input [] key unknown = refl
  copied-none input ((k, v) ∷ ds) key unknown = ground (arith, copied-none input ds key, unknown)

  copied-OnlyKnown : (input : Config F) → OnlyKnown (copied floats input)
  unfolding copied
  copied-OnlyKnown input = copied-none input (default_policy floats)

  clamp-IsBetween :
      (low high : ℕ) (x : F)
      → low ≤ high
      → high ≤ exact_int
      → IsBetween low high (at_most floats high (at_least floats low x))
  clamp-IsBetween low high x le exact =
      let low_low = floats.less_irrefl (floats.of_int low) in
      let high_high = floats.less_irrefl (floats.of_int high) in
      let high_low : floats.less (floats.of_int high) (floats.of_int low) ≡ false =
        rw (floats.less-of_int high low exact (omega arith)) (ground (arith, le)) in
      elim (Bool-cases (floats.less x (floats.of_int low))) [
        | inl under ↦ rw (under, high_low) (low_low, high_low)
        | inr above ↦ elim (Bool-cases (floats.less (floats.of_int high) x)) [
          | inl over ↦ rw (above, over) (high_low, high_high)
          | inr fits ↦ rw (above, fits) (above, fits)
        ]
      ]

  integer-Fits :
      (low high n : ℕ) → low ≤ n → n ≤ high → high ≤ exact_int → Fits (numeric low high) (integer n)
  integer-Fits low high n ge le exact = (
    floats.of_int n,
    refl,
    (
      rw (floats.less-of_int n low (omega arith) (omega arith)) (ground (arith, ge)),
      rw (floats.less-of_int high n exact (omega arith)) (ground (arith, le)),
    ),
  )

  clamped-Fits :
      (key : Text) (low high n : ℕ) (o : Option F)
      → lookup key (default_policy floats) ≡ some (integer n)
      → low ≤ n
      → n ≤ high
      → high ≤ exact_int
      → Fits (numeric low high) (clamped floats key low high o)
  unfolding read
  clamped-Fits key low high n none default ge le exact =
      rw default (integer-Fits low high n ge le exact)
  clamped-Fits key low high n (some x) default ge le exact = (
    at_most floats high (at_least floats low x),
    refl,
    clamp-IsBetween low high x (omega arith) exact,
  )

  clamp_number-Ready :
      (table : Map Text Kind) (p : Config F) (key : Text) (low high n : ℕ)
      → lookup key (default_policy floats) ≡ some (integer n)
      → low ≤ n
      → n ≤ high
      → high ≤ exact_int
      → Ready table p × OnlyKnown p
      → Ready ((key, numeric low high) ∷ table) (clamp_number floats key low high p)
        × OnlyKnown (clamp_number floats key low high p)
  unfolding clamp_number
  clamp_number-Ready table p key low high n default ge le exact (ready, only) =
      let v = clamped floats key low high (to_float floats (read floats key p)) in
      (
        Ready-insert table p key (numeric low high) v ready
            (clamped-Fits key low high n (to_float floats (read floats key p)) default ge le exact),
        OnlyKnown-insert p key v (integer n) default only,
      )

  mode-Fits :
      (o : Option (Value F))
      → is_mode (mode_of floats (value_or floats other o)) ≡ true
      → (s : Text) × (o ≡ some (text s)) × (is_mode s ≡ true)
  unfolding device_pulse.Prelude.list_beq
  mode-Fits none h = absurd (ground arith)
  mode-Fits (some (text s)) h = (s, refl, h)
  mode-Fits (some (integer n)) h = absurd (ground arith)
  mode-Fits (some (number x)) h = absurd (ground arith)
  mode-Fits (some (boolean b)) h = absurd (ground arith)
  mode-Fits (some other) h = absurd (ground arith)

  bool-Fits :
      (o : Option (Value F))
      → is_boolean floats (value_or floats other o) ≡ true
      → (b : Bool) × (o ≡ some (boolean b))
  bool-Fits none h = absurd (ground arith)
  bool-Fits (some (boolean b)) h = (b, refl)
  bool-Fits (some (text s)) h = absurd (ground arith)
  bool-Fits (some (integer n)) h = absurd (ground arith)
  bool-Fits (some (number x)) h = absurd (ground arith)
  bool-Fits (some other) h = absurd (ground arith)

  normalize_mode-Ready :
      (table : Map Text Kind) (p : Config F)
      → Ready table p × OnlyKnown p
      → Ready ((history_mode, mode) ∷ table) (normalize_mode floats p)
        × OnlyKnown (normalize_mode floats p)
  unfolding normalize_mode read default_policy lookup device_pulse.Prelude.list_beq
  normalize_mode-Ready table p (ready, only) =
      elim (Bool-cases (is_mode (mode_of floats (read floats history_mode p)))) [
        | inl valid ↦
            let (s, there_is, is) = mode-Fits (lookup history_mode p) valid in
            rw valid
              (Ready-kept table p history_mode mode (text s) ready there_is (s, refl, is), only)
        | inr invalid ↦ rw invalid (
          Ready-insert table p history_mode mode (text (codes "disabled")) ready
              (codes "disabled", refl, refl),
          OnlyKnown-insert p history_mode (text (codes "disabled")) (text (codes "full_url")) refl
              only,
        )
      ]

  normalize_bool-Ready :
      (table : Map Text Kind) (p : Config F) (key : Text) (b : Bool)
      → lookup key (default_policy floats) ≡ some (boolean b)
      → Ready table p × OnlyKnown p
      → Ready ((key, switch) ∷ table) (normalize_bool floats key p)
        × OnlyKnown (normalize_bool floats key p)
  unfolding normalize_bool read
  normalize_bool-Ready table p key b default (ready, only) =
      elim (Bool-cases (is_boolean floats (read floats key p))) [
        | inl valid ↦
            let (c, there_is) = bool-Fits (lookup key p) valid in
            rw valid (Ready-kept table p key switch (boolean c) ready there_is (c, refl), only)
        | inr invalid ↦
            rw (invalid, default)
              (
                Ready-insert table p key switch (boolean b) ready (b, refl),
                OnlyKnown-insert p key (boolean b) (boolean b) default only,
              )
      ]

  -- The keys have Boolean defaults.
  abbrev AreSwitches : List Text → Type 0
  AreSwitches = All (λ key. (b : Bool) × (lookup key (default_policy floats) ≡ some (boolean b)))

  normalize_bools-Ready :
      (keys : List Text) (table : Map Text Kind) (p : Config F)
      → AreSwitches keys
      → Ready table p × OnlyKnown p
      → Ready (switches keys table) (normalize_bools floats keys p)
        × OnlyKnown (normalize_bools floats keys p)
  unfolding normalize_bools
  normalize_bools-Ready [] table p h sound = sound
  normalize_bools-Ready (key ∷ keys) table p ((b, default), h) sound =
      normalize_bools-Ready keys ((key, switch) ∷ table) (normalize_bool floats key p) h
        (normalize_bool-Ready table p key b default sound)

  bool_keys-AreSwitches : AreSwitches bool_keys
  unfolding default_policy lookup device_pulse.Prelude.list_beq
  bool_keys-AreSwitches = (
    (true, refl),
    (
      (true, refl),
      (
        (true, refl),
        (
          (true, refl),
          (
            (true, refl),
            (
              (true, refl),
              (
                (true, refl),
                ((true, refl), ((true, refl), ((true, refl), ((true, refl), ((true, refl), tt))))),
              ),
            ),
          ),
        ),
      ),
    ),
  )

  numeric_defaults :
      (lookup sync_interval (default_policy floats) ≡ some (integer 10))
      × (lookup retention_days (default_policy floats) ≡ some (integer 30))
      × (lookup history_limit (default_policy floats) ≡ some (integer 200))
  unfolding default_policy lookup device_pulse.Prelude.list_beq
  numeric_defaults = (refl, refl, refl)

  -- Whatever the input is, the normalised policy has every setting of the default policy, each of
  -- its kind, no number below or above its bounds, and no other key.
  pub normalize_policy-IsPolicy : (input : Config F) → IsPolicy (normalize_policy floats input)
  unfolding normalize_policy lookup
  normalize_policy-IsPolicy input =
      let (sync, retention, limit) = numeric_defaults in
      let start = copied floats input in
      let none_yet : Ready [] start = λ key k e. absurd (ground arith) in
      let with_sync : Map Text Kind = (sync_interval, numeric 10 3600) ∷ [] in
      let with_retention : Map Text Kind = (retention_days, numeric 1 3650) ∷ with_sync in
      let with_limit : Map Text Kind = (history_limit, numeric 0 5000) ∷ with_retention in
      let clamped_sync = clamp_number floats sync_interval 10 3600 start in
      let clamped_retention = clamp_number floats retention_days 1 3650 clamped_sync in
      let clamped_limit = clamp_number floats history_limit 0 5000 clamped_retention in
      let at_sync =
        clamp_number-Ready [] start sync_interval 10 3600 10 sync (omega arith) (omega arith)
          (omega arith) (none_yet, copied-OnlyKnown input) in
      let at_retention =
        clamp_number-Ready with_sync clamped_sync retention_days 1 3650 30 retention (omega arith)
          (omega arith) (omega arith) at_sync in
      let at_limit =
        clamp_number-Ready with_retention clamped_retention history_limit 0 5000 200 limit
          (omega arith) (omega arith) (omega arith) at_retention in
      normalize_bools-Ready bool_keys ((history_mode, mode) ∷ with_limit)
        (normalize_mode floats clamped_limit) bool_keys-AreSwitches
        (normalize_mode-Ready with_limit clamped_limit at_limit)

  -- The default policy is one, too.
  pub default_policy-IsPolicy : IsPolicy (default_policy floats)
  unfolding normalize_mode normalize_bools normalize_bool default_policy read lookup
      device_pulse.Prelude.list_beq
  default_policy-IsPolicy =
      let d = default_policy floats in
      let (sync, retention, limit) = numeric_defaults in
      let none_yet : Ready [] d = λ key k e. absurd (ground arith) in
      let with_sync : Map Text Kind = (sync_interval, numeric 10 3600) ∷ [] in
      let with_retention : Map Text Kind = (retention_days, numeric 1 3650) ∷ with_sync in
      let with_limit : Map Text Kind = (history_limit, numeric 0 5000) ∷ with_retention in
      let at_sync =
        Ready-kept [] d sync_interval (numeric 10 3600) (integer 10) none_yet sync
          (integer-Fits 10 3600 10 (omega arith) (omega arith) (omega arith)) in
      let at_retention =
        Ready-kept with_sync d retention_days (numeric 1 3650) (integer 30) at_sync retention
          (integer-Fits 1 3650 30 (omega arith) (omega arith) (omega arith)) in
      let at_limit =
        Ready-kept with_retention d history_limit (numeric 0 5000) (integer 200) at_retention limit
          (integer-Fits 0 5000 200 (omega arith) (omega arith) (omega arith)) in
      normalize_bools-Ready bool_keys ((history_mode, mode) ∷ with_limit) d bool_keys-AreSwitches
        (normalize_mode-Ready with_limit d (at_limit, λ key unknown. unknown))
