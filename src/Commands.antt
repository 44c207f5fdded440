-- ===== src/Commands.antt =====
-- Remote actions of api/main.go: `resolveAPIKey` and the handlers that create, hand out and
-- complete device commands. A duration in minutes is counted in nanoseconds. What only a log line
-- sees is left out.
pub mod Deletion
pub mod Devices
pub mod Handlers
pub mod Enrolment
pub mod Lifecycle
pub mod Once
pub mod Rights
use device_pulse.Prelude.{
  ℕ, ◌+◌, ◌*◌, ◌≤◌, ◌<◌, Text, codes, Bool, true, false, not, ◌&&◌, ◌||◌, List, [], ◌∷◌, ◌++◌,
  Option, none, some, ltb, leb, ◌==◌, text_eq, if◌then◌else◌, length, take, min, Map, lookup,
}
use device_pulse.Go.Strings.{trim_space}
use device_pulse.Db.{Driver, Inserted, inserted, duplicate_key, insert_failed}
use device_pulse.Http.{Checked, ok, refuse, ◌>>=◌, ◌>>◌, require, or_refuse, outcome}
use device_pulse.Access.{role_admin, role_manager, can_access_role, AuditEvent, logged}

pub record DeviceCommand : Type 0 where
  pub id : ℕ
  pub device_id : Text
  pub type : Text
  pub duration : Option ℕ
  pub status : Text
  pub created_by : Text
  pub created_at : ℕ
  pub delivered_at : Option ℕ
  pub completed_at : Option ℕ
  pub result : Text
  pub expires_at : ℕ

-- The fields of a device document that these handlers read or write; a missing text is empty.
pub record Device : Type 0 where
  pub id : ℕ
  pub device_id : Text
  pub status : Text
  pub api_key_hash : Text
  pub api_key : Text
  pub quarantined : Bool
  pub quarantined_at : Option ℕ
  pub quarantine_until : Option ℕ
  pub quarantined_confirmed_at : Option ℕ
  pub revoked_at : Option ℕ
  pub wiped_at : Option ℕ
  pub agent_version : Text
  pub agent_os : Text
  pub agent_arch : Text
  pub agent_last_checked : Option ℕ
  pub agent_update_status : Text
  pub agent_target_version : Text
  pub agent_update_requested_at : Option ℕ
  pub hostname : Text
  pub hardware_uuid : Text
  pub mac_address : Text
  pub registered_at : ℕ
  pub last_seen : ℕ

pub record Fleet : Type 0 where
  pub commands : List DeviceCommand
  pub devices : List Device
  pub audit : List AuditEvent

abbrev pub pending : Text
pending = codes "pending"

abbrev pub delivered : Text
delivered = codes "delivered"

abbrev pub revoked : Text
revoked = codes "revoked"

abbrev pub quarantine_enable : Text
quarantine_enable = codes "quarantine_enable"

abbrev pub quarantine_release : Text
quarantine_release = codes "quarantine_release"

abbrev pub wipe_agent : Text
wipe_agent = codes "wipe_agent"

abbrev pub success : Text
success = codes "success"

abbrev pub minute : ℕ
minute = 60 * 1_000_000_000

abbrev pub day : ℕ
day = 24 * 60 * minute

-- `commandMinRole`
abbrev pub command_min_role : Map Text Text
command_min_role =
    (codes "collect_now", role_manager)
    ∷ (codes "restart_agent", role_manager)
    ∷ (codes "lock_screen", role_admin)
    ∷ (quarantine_enable, role_admin)
    ∷ (quarantine_release, role_admin)
    ∷ (wipe_agent, role_admin)
    ∷ []

-- `max_hours` is `envInt("QUARANTINE_MAX_HOURS", 24)`.
unfoldable pub default_window : ℕ → ℕ
default_window max_hours = (if ltb max_hours 1 then 24 else max_hours) * 60 * minute

unfoldable pub quarantine_window : ℕ → Option ℕ → ℕ
unfolding default_window
quarantine_window max_hours none = default_window max_hours
quarantine_window max_hours (some m) =
    if leb minute m then min m (30 * day) else default_window max_hours

-- A write whose outcome the handler does not look at.
abbrev pub or_unchanged {ℓ} : {D : Type ℓ} → List D → Option (ℕ × List D) → List D
or_unchanged ds none = ds
or_unchanged ds (some (n, es)) = es

abbrev pub found_after : List DeviceCommand → Inserted DeviceCommand → Checked (List DeviceCommand)
found_after cs (inserted ds) = ok ds
found_after cs duplicate_key = refuse 500 "Database error"
found_after cs insert_failed = refuse 500 "Database error"

pub record CreateBody : Type 0 where
  pub type : Text
  pub duration : Option ℕ

-- The signed-in user, as `requireRole(RoleManager, …)` has put it in the context.
pub record Issuer : Type 0 where
  pub email : Text
  pub role : Text

-- Terminal statuses an agent may report.
abbrev pub is_outcome : Text → Bool
is_outcome status =
    text_eq.beq status success
    || text_eq.beq status (codes "failed")
    || text_eq.beq status (codes "unsupported")

pub record ResultBody : Type 0 where
  pub command_id : Text
  pub status : Text
  pub detail : Text

abbrev pub of_device : Text → Device → Bool
of_device device_id d = text_eq.beq d.device_id device_id

abbrev pub claimable : Text → ℕ → DeviceCommand → Bool
claimable device_id now c =
    text_eq.beq c.device_id device_id && text_eq.beq c.status pending && ltb now c.expires_at

abbrev pub deliver : ℕ → DeviceCommand → DeviceCommand
deliver now c = record c { status = delivered; delivered_at = some now }

abbrev pub open_command : ℕ → Text → DeviceCommand → Bool
open_command id device_id c =
    c.id == id
    && text_eq.beq c.device_id device_id
    && (text_eq.beq c.status pending || text_eq.beq c.status delivered)

abbrev pub complete : Text → Text → ℕ → DeviceCommand → DeviceCommand
complete status detail now c = record c {
  status = status;
  result = detail;
  completed_at = some now;
}

abbrev pub mark_quarantined : ℕ → ℕ → Device → Device
mark_quarantined now window d = record d {
  quarantined = true;
  quarantined_at = some now;
  quarantine_until = some (now + window);
}

abbrev pub mark_released : Device → Device
mark_released d = record d { quarantined = false; quarantined_at = none; quarantine_until = none }
