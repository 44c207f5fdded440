-- ===== src/Tests/Policy.antt =====
-- Two changes of the policy whose saves arrive in the other order.
use device_pulse.Prelude.{
  Option, Bool, ℕ, ◌≤◌, codes, true, false, List, [], ◌∷◌, none, some, ltb, text_eq, list_beq,
  lookup, insert, ◌≡◌, ◌⊎◌, refl, arith,
}
use device_pulse.Policy.{
  Floats, number, boolean, other, System, post, Request, retention_days, read, default_policy,
  clamp_number, normalize_mode, normalize_bool, normalize_bools, copied, normalize_policy,
  current_retention_days, set_all, update_policy, policy_post, policy_handler, save_policy_to_mongo,
  initial, load_policy_from_mongo,
}
use device_pulse.Policy.Settings.{IsPolicy, normalize_policy-IsPolicy}
use device_pulse.Policy.Stored.{
  Event, asked, save_arrives, restarted, step, run, IsBounded, IsNan, run-IsPolicy,
}

-- A natural number, or a NaN, which compares with nothing.
abbrev Number : Type 0
Number = Option ℕ

abbrev less : Number → Number → Bool
less none x = false
less (some m) none = false
less (some m) (some n) = ltb m n

abbrev truncate : Number → ℕ
truncate none = 0
truncate (some n) = n

abbrev is_nan : Number → Bool
is_nan none = true
is_nan (some n) = false

less_irrefl : (x : Number) → less x x ≡ false
less_irrefl none = refl
less_irrefl (some n) = ground arith

truncate-ge : (n : ℕ) (x : Number) → is_nan x ≡ false → less x (some n) ≡ false → n ≤ truncate x
truncate-ge n none real h = absurd (ground arith)
truncate-ge n (some m) real h = ground arith

truncate-le : (n : ℕ) (x : Number) → is_nan x ≡ false → less (some n) x ≡ false → truncate x ≤ n
truncate-le n none real h = absurd (ground arith)
truncate-le n (some m) real h = ground arith

abbrev numbers : Floats Number
numbers = record {
  less = less;
  of_int = λ n. some n;
  truncate = truncate;
  is_nan = is_nan;
  less_irrefl = less_irrefl;
  less-of_int = λ m n _ _. refl;
  truncate_lem =
      λ m n x _ _ real above below. (truncate-ge m x real above, truncate-le n x real below);
}

abbrev days : ℕ → Request Number
days n = record {
  has_api_key = false;
  body = some ((retention_days, number (some n)) ∷ (codes "junk", other) ∷ []);
  user = some (codes "admin");
  now = n;
  stamp = codes "t";
}

abbrev started : System Number
started = record { store = initial numbers; document = none; saves = []; audit = [] }

abbrev in_order : List (Event Number)
in_order =
    asked post (days 60) ∷ save_arrives 0 ∷ asked post (days 9000) ∷ save_arrives 0 ∷ restarted ∷ []

abbrev crossed : List (Event Number)
crossed =
    asked post (days 60) ∷ asked post (days 90) ∷ save_arrives 0 ∷ save_arrives 0 ∷ restarted ∷ []

-- The retention is clamped, and a restart after saves in the other order takes the older change.
kept_days :
    (current_retention_days numbers (run numbers in_order started).store.config ≡ 3650)
    × (current_retention_days numbers (run numbers crossed started).store.config ≡ 60)
unfolding run step policy_handler policy_post update_policy set_all normalize_policy copied
    clamp_number normalize_mode normalize_bools normalize_bool read default_policy
    save_policy_to_mongo load_policy_from_mongo current_retention_days lookup insert list_beq
kept_days = (refl, refl)

-- A NaN that the database holds passes `clampNumber`.
nan_passes :
    read numbers retention_days (normalize_policy numbers ((retention_days, number none) ∷ []))
    ≡ number none
unfolding normalize_policy copied clamp_number normalize_mode normalize_bools normalize_bool read
    default_policy lookup insert list_beq
nan_passes = refl

normalize_policy-IsPolicy_example :
    IsPolicy numbers
      (normalize_policy numbers ((retention_days, boolean true) ∷ (codes "junk", other) ∷ []))
normalize_policy-IsPolicy_example =
    normalize_policy-IsPolicy numbers ((retention_days, boolean true) ∷ (codes "junk", other) ∷ [])

run-IsPolicy_example :
    let p = (run numbers crossed started).store.config in
    IsPolicy numbers p × (IsBounded numbers p ⊎ IsNan numbers p)
unfolding load_policy_from_mongo
run-IsPolicy_example = run-IsPolicy numbers crossed started refl
