-- ===== src/Policy.antt =====
-- The fleet policy of api/main.go: `normalizePolicy`, `PolicyStore` with `policyHandler`, its
-- persistence, and `currentRetentionDays`. A JSON value that is no number, text or Boolean is
-- `other`, also nil. The numbers of float64 are a type with what the code uses of it.
pub mod Settings
pub mod Stored
use device_pulse.Prelude.{
  ℕ, ◌≤◌, Text, codes, Bool, true, false, not, ◌&&◌, ◌||◌, List, [], ◌∷◌, Option, none, some, ltb,
  text_eq, if◌then◌else◌, map, Map, lookup, insert, ◌≡◌,
}
use device_pulse.Http.{Checked, ok, refuse}
use device_pulse.Access.{AuditEvent, logged}

-- The integers up to this one are numbers exactly.
abbrev pub exact_int : ℕ
exact_int = 9_007_199_254_740_992

-- Comparison and the conversions from and to the integers. A number that is no NaN and lies between
-- two such integers truncates to an integer between them; nothing is known of the conversion of
-- other numbers.
pub record Floats (F : Type 0) : Type 0 where
  pub less : F → F → Bool
  pub of_int : ℕ → F
  pub truncate : F → ℕ
  pub is_nan : F → Bool
  pub less_irrefl : (x : F) → less x x ≡ false
  pub less-of_int : (m n : ℕ) → m ≤ exact_int → n ≤ exact_int → less (of_int m) (of_int n) ≡ ltb m n
  pub truncate_lem :
      (m n : ℕ) (x : F)
      → m ≤ exact_int
      → n ≤ exact_int
      → is_nan x ≡ false
      → less x (of_int m) ≡ false
      → less (of_int n) x ≡ false
      → (m ≤ truncate x) × (truncate x ≤ n)

pub data Value (F : Type 0) : Type 0 where
  integer : ℕ → Value F
  number : F → Value F
  text : Text → Value F
  boolean : Bool → Value F
  other : Value F

abbrev pub Config : Type 0 → Type 0
Config F = Map Text (Value F)

abbrev pub bool_keys : List Text
bool_keys =
    codes "delta_upload_enabled"
    ∷ codes "cache_unchanged_collector_data"
    ∷ codes "collect_system_info"
    ∷ codes "collect_hardware_stats"
    ∷ codes "collect_processes"
    ∷ codes "collect_browser_history"
    ∷ codes "collect_active_window"
    ∷ codes "collect_services"
    ∷ codes "collect_network_ports"
    ∷ codes "collect_installed_apps"
    ∷ codes "collect_os_updates"
    ∷ codes "collect_usb_devices"
    ∷ []

abbrev pub sync_interval : Text
sync_interval = codes "sync_interval_seconds"

abbrev pub retention_days : Text
retention_days = codes "telemetry_retention_days"

abbrev pub history_limit : Text
history_limit = codes "browser_history_limit"

abbrev pub history_mode : Text
history_mode = codes "browser_history_mode"

abbrev pub is_mode : Text → Bool
is_mode mode =
    text_eq.beq mode (codes "disabled")
    || text_eq.beq mode (codes "domain_only")
    || text_eq.beq mode (codes "full_url")

module _ {F : Type 0} (floats : Floats F) where
  unfoldable pub default_policy : Config F
  default_policy =
      (sync_interval, integer 10)
      ∷ (retention_days, integer 30)
      ∷ (codes "delta_upload_enabled", boolean true)
      ∷ (codes "cache_unchanged_collector_data", boolean true)
      ∷ (history_mode, text (codes "full_url"))
      ∷ (history_limit, integer 200)
      ∷ (codes "collect_system_info", boolean true)
      ∷ (codes "collect_hardware_stats", boolean true)
      ∷ (codes "collect_processes", boolean true)
      ∷ (codes "collect_browser_history", boolean true)
      ∷ (codes "collect_active_window", boolean true)
      ∷ (codes "collect_services", boolean true)
      ∷ (codes "collect_network_ports", boolean true)
      ∷ (codes "collect_installed_apps", boolean true)
      ∷ (codes "collect_os_updates", boolean true)
      ∷ (codes "collect_usb_devices", boolean true)
      ∷ []

  -- A missing key reads as nil.
  abbrev pub value_or : Value F → Option (Value F) → Value F
  value_or v none = v
  value_or v (some w) = w

  unfoldable pub read : Text → Config F → Value F
  read key policy = value_or other (lookup key policy)

  abbrev pub to_float : Value F → Option F
  to_float (integer n) = some (floats.of_int n)
  to_float (number x) = some x
  to_float (text s) = none
  to_float (boolean b) = none
  to_float other = none

  abbrev pub at_least : ℕ → F → F
  at_least low x = if floats.less x (floats.of_int low) then floats.of_int low else x

  abbrev pub at_most : ℕ → F → F
  at_most high x = if floats.less (floats.of_int high) x then floats.of_int high else x

  -- The number that `clampNumber` stores, or the default where there is none.
  abbrev pub clamped : Text → ℕ → ℕ → Option F → Value F
  clamped key low high none = read key default_policy
  clamped key low high (some x) = number (at_most high (at_least low x))

  unfoldable pub clamp_number : Text → ℕ → ℕ → Config F → Config F
  clamp_number key low high policy =
      insert key (clamped key low high (to_float (read key policy))) policy

  abbrev pub mode_of : Value F → Text
  mode_of (text s) = s
  mode_of (integer n) = []
  mode_of (number x) = []
  mode_of (boolean b) = []
  mode_of other = []

  unfoldable pub normalize_mode : Config F → Config F
  normalize_mode policy =
      if is_mode (mode_of (read history_mode policy))
      then policy
      else insert history_mode (text (codes "disabled")) policy

  abbrev pub is_boolean : Value F → Bool
  is_boolean (boolean b) = true
  is_boolean (integer n) = false
  is_boolean (number x) = false
  is_boolean (text s) = false
  is_boolean other = false

  unfoldable pub normalize_bool : Text → Config F → Config F
  normalize_bool key policy =
      if is_boolean (read key policy) then policy else insert key (read key default_policy) policy

  unfoldable pub normalize_bools : List Text → Config F → Config F
  normalize_bools [] policy = policy
  normalize_bools (key ∷ keys) policy = normalize_bools keys (normalize_bool key policy)

  -- Only the keys of the default policy are copied.
  unfoldable pub copied : Config F → Config F
  copied input = map (λ (key, v). (key, value_or v (lookup key input))) default_policy

  unfoldable pub normalize_policy : Config F → Config F
  normalize_policy input =
      let policy = clamp_number sync_interval 10 3600 (copied input) in
      let policy = clamp_number retention_days 1 3650 policy in
      let policy = clamp_number history_limit 0 5000 policy in
      normalize_bools bool_keys (normalize_mode policy)

  unfoldable pub current_retention_days : Config F → ℕ
  current_retention_days config = elim (to_float (read retention_days config)) [
    | none ↦ 30
    | some days ↦ if floats.less days (floats.of_int 1) then 30 else floats.truncate days
  ]

-- The policy in memory with who saved it and when; an empty text is none.
pub record PolicyStore (F : Type 0) : Type 0 where
  pub config : Config F
  pub updated_by : Text
  pub updated_at : Text

-- The store, the document `global_policy`, and the saves that are on their way to it.
pub record System (F : Type 0) : Type 0 where
  pub store : PolicyStore F
  pub document : Option (Config F)
  pub saves : List (Config F)
  pub audit : List AuditEvent

-- What a request brings along: whether it has an API key, its body, the user of its session,
-- and the time, also as a text.
pub record Request (F : Type 0) : Type 0 where
  pub has_api_key : Bool
  pub body : Option (Config F)
  pub user : Option Text
  pub now : ℕ
  pub stamp : Text

pub data Method : Type 0 where
  get : Method
  post : Method
  another : Method

-- The reply of the handler: the policy for a GET, nothing for a POST.
pub data PolicyReply (F : Type 0) : Type 0 where
  policy : Config F → PolicyReply F
  updated : PolicyReply F

module _ {F : Type 0} (floats : Floats F) where
  -- `m[k] = v` for the entries of another map, also a `$set` of MongoDB.
  unfoldable pub set_all : Config F → Config F → Config F
  set_all [] config = config
  set_all ((key, v) ∷ entries) config = set_all entries (insert key v config)

  abbrev pub with_audit : PolicyStore F → Config F
  with_audit s =
      insert (codes "updated_at") (text s.updated_at)
        (insert (codes "updated_by") (text s.updated_by) s.config)

  unfoldable pub shown_policy : Bool → PolicyStore F → Config F
  shown_policy has_api_key s =
      if not has_api_key && not (text_eq.beq s.updated_at []) then with_audit s else s.config

  abbrev pub saved_config : PolicyStore F → Config F
  saved_config s = if text_eq.beq s.updated_at [] then s.config else with_audit s

  abbrev pub signed : Option Text → Text → PolicyStore F → PolicyStore F
  signed none now s = s
  signed (some email) now s = record s { updated_by = email; updated_at = now }

  unfoldable pub update_policy : Config F → Option Text → Text → PolicyStore F → PolicyStore F
  update_policy new_config user now s =
      signed user now (record s { config = normalize_policy floats (set_all new_config s.config) })

  abbrev pub actor_of : Option Text → Text
  actor_of none = codes "system"
  actor_of (some email) = email

  unfoldable pub policy_post :
      Option (Config F) → Request F → System F → Checked (PolicyReply F) × System F
  policy_post none r s = (refuse 400 "Bad JSON", s)
  policy_post (some new_config) r s =
      let store = update_policy new_config r.user r.stamp s.store in
      (
        ok updated,
        record s {
          store = store;
          saves = saved_config store ∷ s.saves;
          audit =
              logged (actor_of r.user) (codes "policy.updated") (codes "fleet policy") [] r.now
                s.audit;
        },
      )

  unfoldable pub policy_handler : Method → Request F → System F → Checked (PolicyReply F) × System F
  policy_handler get r s = (ok (policy (shown_policy r.has_api_key s.store)), s)
  policy_handler post r s = policy_post r.body r s
  policy_handler another r s = (refuse 405 "Method not allowed", s)

  abbrev pub text_of : Value F → Text
  text_of v = mode_of floats v

  abbrev pub or_empty : Option (Config F) → Config F
  or_empty none = []
  or_empty (some document) = document

  -- `savePolicyToMongo` of one save, which may come to the database before older ones.
  unfoldable pub save_policy_to_mongo : Config F → System F → System F
  save_policy_to_mongo cfg s = record s { document = some (set_all cfg (or_empty s.document)) }

  abbrev pub initial : PolicyStore F
  initial = record { config = default_policy floats; updated_by = []; updated_at = [] }

  -- The store of a new process, where the document is found.
  unfoldable pub load_policy_from_mongo : Option (Config F) → PolicyStore F
  load_policy_from_mongo none = initial
  load_policy_from_mongo (some document) = record {
    config = normalize_policy floats document;
    updated_by = text_of (read floats (codes "updated_by") document);
    updated_at = text_of (read floats (codes "updated_at") document);
  }
