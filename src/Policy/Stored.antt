-- ===== src/Policy/Stored.antt =====
-- The policy of api/main.go over requests, saves and restarts. A save runs in a goroutine of its
-- own, so that saves reach the database in any order, or fail.
use device_pulse.Prelude.{
  inl, inr, ℕ, zero, suc, ◌≤◌, Text, Bool, true, false, List, [], ◌∷◌, Option, none, some,
  if◌then◌else◌, text_eq, lookup, ◌≡◌, refl, sym, subst, ◌⊎◌, arith, Bool-cases,
}
use device_pulse.Policy.{
  Floats, Config, PolicyStore, System, Method, get, post, another, Request, retention_days, read,
  to_float, current_retention_days, update_policy, policy_post, policy_handler,
  save_policy_to_mongo, load_policy_from_mongo,
}
use device_pulse.Policy.Settings.{
  kinds, numeric, IsPolicy, normalize_policy-IsPolicy, default_policy-IsPolicy,
}

pub data Event (F : Type 0) : Type 0 where
  asked : Method → Request F → Event F
  save_arrives : ℕ → Event F
  save_fails : ℕ → Event F
  restarted : Event F

abbrev pub nth {ℓ} : {A : Type ℓ} → ℕ → List A → Option A
nth i [] = none
nth zero (x ∷ xs) = some x
nth (suc i) (x ∷ xs) = nth i xs

abbrev pub without {ℓ} : {A : Type ℓ} → ℕ → List A → List A
without i [] = []
without zero (x ∷ xs) = xs
without (suc i) (x ∷ xs) = x ∷ without i xs

module _ {F : Type 0} (floats : Floats F) where
  abbrev arrive : Option (Config F) → System F → System F
  arrive none s = s
  arrive (some cfg) s = save_policy_to_mongo floats cfg s

  unfoldable pub step : Event F → System F → System F
  step (asked method r) s = (policy_handler floats method r s).1
  step (save_arrives i) s =
      let s' = arrive (nth i s.saves) s in record s' { saves = without i s.saves }
  step (save_fails i) s = record s { saves = without i s.saves }
  step restarted s = record s { store = load_policy_from_mongo floats s.document; saves = [] }

  unfoldable pub run : List (Event F) → System F → System F
  run [] s = s
  run (e ∷ es) s = run es (step e s)

  abbrev Holds : System F → Type 0
  Holds s = IsPolicy floats s.store.config

  update-Holds :
      (new_config : Config F) (user : Option Text) (now : Text) (s : PolicyStore F)
      → IsPolicy floats (update_policy floats new_config user now s).config
  unfolding update_policy
  update-Holds new_config none now s = normalize_policy-IsPolicy floats _
  update-Holds new_config (some email) now s = normalize_policy-IsPolicy floats _

  post-Holds :
      (body : Option (Config F)) (r : Request F) (s : System F)
      → Holds s
      → Holds (policy_post floats body r s).1
  unfolding policy_post
  post-Holds none r s h = h
  post-Holds (some new_config) r s h = update-Holds new_config r.user r.stamp s.store

  arrive-Holds : (cfg : Option (Config F)) (s : System F) → Holds s → Holds (arrive cfg s)
  unfolding save_policy_to_mongo
  arrive-Holds none s h = h
  arrive-Holds (some cfg) s h = h

  handler-Holds :
      (method : Method) (r : Request F) (s : System F)
      → Holds s
      → Holds (policy_handler floats method r s).1
  unfolding policy_handler
  handler-Holds get r s h = h
  handler-Holds post r s h = post-Holds r.body r s h
  handler-Holds another r s h = h

  load-Holds :
      (document : Option (Config F))
      → IsPolicy floats (load_policy_from_mongo floats document).config
  unfolding load_policy_from_mongo
  load-Holds none = default_policy-IsPolicy floats
  load-Holds (some document) = normalize_policy-IsPolicy floats document

  step-Holds : (e : Event F) (s : System F) → Holds s → Holds (step e s)
  unfolding step
  step-Holds (asked method r) s h = handler-Holds method r s h
  step-Holds (save_arrives i) s h = arrive-Holds (nth i s.saves) s h
  step-Holds (save_fails i) s h = h
  step-Holds restarted s h = load-Holds s.document

  run-Holds : (es : List (Event F)) (s : System F) → Holds s → Holds (run es s)
  unfolding run
  run-Holds [] s h = h
  run-Holds (e ∷ es) s h = run-Holds es (step e s) (step-Holds e s h)

  retention_kind : lookup retention_days kinds ≡ some (numeric 1 3650)
  unfolding lookup device_pulse.Prelude.list_beq
  retention_kind = refl

  -- The number of days is a NaN, which `clampNumber` lets pass.
  abbrev pub IsNan : Config F → Type 0
  IsNan p =
      (x : F) × (to_float floats (read floats retention_days p) ≡ some x) × (floats.is_nan x ≡ true)

  abbrev pub IsBounded : Config F → Type 0
  IsBounded p = (1 ≤ current_retention_days floats p) × (current_retention_days floats p ≤ 3650)

  retention-bounds : (p : Config F) → IsPolicy floats p → IsBounded p ⊎ IsNan p
  unfolding current_retention_days read
  retention-bounds p (ready, only) =
      let (v, there_is, (x, is, (above, below))) =
        ready retention_days (numeric 1 3650) retention_kind in
      elim (Bool-cases (floats.is_nan x)) [
        | inl nan ↦ inr (x, rw there_is is, nan)
        | inr real ↦ inl (
            rw (current_retention_days, there_is, is, above)
              (floats.truncate_lem 1 3650 x (omega arith) (omega arith) real above below))
      ]

  -- Whatever the database held at the start, after any requests, saves in any order, failed saves
  -- and restarts the policy in memory has every setting of the default policy, each of its kind, no
  -- number below or above its bounds, and no other key; and telemetry is kept for 1 to 3650 days,
  -- unless the number of days is a NaN.
  pub run-IsPolicy :
      (es : List (Event F)) (s : System F)
      → s.store ≡ load_policy_from_mongo floats s.document
      → let p = (run es s).store.config in IsPolicy floats p × (IsBounded p ⊎ IsNan p)
  run-IsPolicy es s fresh =
      let start : Holds s =
        subst (λ x. IsPolicy floats x.config) (sym fresh) (load-Holds s.document) in
      let holds = run-Holds es s start in (holds, retention-bounds (run es s).store.config holds)
