-- ===== src/Releases.antt =====
-- Agent releases of api/main.go: `updateCheckHandler` with `deviceTargetsRelease` and
-- `markAgentUpdateStatus`, and the handlers that publish, activate and sign a release. The clock is
-- read once for each request. The download URL of an offer, which may be presigned by S3, is left
-- out, and so is the reply of a publication.
pub mod Checks
pub mod Publishing
pub mod Versions
pub mod Agreement
pub mod Order
pub mod Rollout
pub mod Offers
pub mod Activation
use device_pulse.Prelude.{
  ℕ, ◌+◌, ◌*◌, Text, codes, Bool, true, false, not, ◌&&◌, ◌||◌, List, [], ◌∷◌, ◌++◌, Option, none,
  some, ltb, ◌==◌, text_eq, if◌then◌else◌, length,
}
use device_pulse.Go.Strings.{trim_space, to_lower}
use device_pulse.Db.{Driver, Inserted, inserted, duplicate_key, insert_failed}
use device_pulse.Http.{Checked, ok, refuse, ◌>>=◌, ◌>>◌, require, or_refuse, outcome}
use device_pulse.Access.{AuditEvent, logged}
use device_pulse.Commands.{Device, of_device}
use device_pulse.Commands.Devices.{update_device, resolve_api_key}
use device_pulse.Releases.Versions.{Comparison, less, equal, greater, compare_agent_versions}

pub record AgentRelease : Type 0 where
  pub id : ℕ
  pub version : Text
  pub os : Text
  pub arch : Text
  pub download_url : Text
  pub s3_key : Text
  pub checksum : Text
  pub published_at : ℕ
  pub pending_activation : Bool
  pub signature : Text

pub record Shelf : Type 0 where
  pub releases : List AgentRelease
  pub audit : List AuditEvent

abbrev pub checking : Text
checking = codes "checking"

abbrev pub up_to_date : Text
up_to_date = codes "up_to_date"

abbrev pub update_available : Text
update_available = codes "update_available"

abbrev pub valid_agent_os : Text → Bool
valid_agent_os os =
    text_eq.beq os (codes "linux")
    || text_eq.beq os (codes "windows")
    || text_eq.beq os (codes "darwin")

abbrev pub valid_agent_arch : Text → Bool
valid_agent_arch arch = text_eq.beq arch (codes "amd64") || text_eq.beq arch (codes "arm64")

-- What an update check is answered with.
pub data Answer : Type 0 where
  no_update : Answer
  update : AgentRelease → Answer

pub record Target : Type 0 where
  pub os : Text
  pub arch : Text
  pub version : Text

abbrev pub of_target : Target → AgentRelease → Bool
of_target t r =
    text_eq.beq r.os t.os && text_eq.beq r.arch t.arch && text_eq.beq r.version t.version

-- `os`, `arch` and `version` of a request, in their order there.
abbrev pub trimmed : Target → Target
trimmed t = record {
  os = trim_space t.os;
  arch = trim_space t.arch;
  version = trim_space t.version;
}

abbrev pub is_known : Target → Bool
is_known t = valid_agent_os t.os && valid_agent_arch t.arch && not (text_eq.beq t.version [])

-- The filter of an update check.
abbrev pub eligible : Bool → Text → Text → AgentRelease → Bool
eligible signed_only os arch r =
    text_eq.beq r.os os
    && text_eq.beq r.arch arch
    && not r.pending_activation
    && (not signed_only || not (text_eq.beq r.signature []))

abbrev pub is_some {ℓ} : {A : Type ℓ} → Option A → Bool
is_some none = false
is_some (some a) = true

-- What the rollout of a version has left on a device.
abbrev pub requests : Text → Device → Bool
requests version d =
    is_some d.agent_update_requested_at && text_eq.beq d.agent_target_version version

abbrev pub satisfies : (Device → Bool) → Option Device → Bool
satisfies test none = false
satisfies test (some d) = test d

abbrev pub is_equal : Comparison → Bool
is_equal equal = true
is_equal _ = false

abbrev pub is_less : Comparison → Bool
is_less less = true
is_less _ = false

abbrev pub check_in : Text → Text → Text → ℕ → Device → Device
check_in version os arch now d = record d {
  agent_version = version;
  agent_os = os;
  agent_arch = arch;
  agent_last_checked = some now;
  agent_update_status = checking;
}

abbrev pub mark : Text → Text → ℕ → Device → Device
mark status target now d =
    if not (text_eq.beq target [])
    then record d {
      agent_update_status = status;
      agent_last_checked = some now;
      agent_target_version = target;
    }
    else if text_eq.beq status up_to_date
    then record d {
      agent_update_status = status;
      agent_last_checked = some now;
      agent_target_version = [];
      agent_update_requested_at = none;
    }
    else record d { agent_update_status = status; agent_last_checked = some now }

abbrev pub activate : ℕ → AgentRelease → AgentRelease
activate now r = record r { published_at = now; pending_activation = false }
