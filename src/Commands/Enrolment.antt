-- ===== src/Commands/Enrolment.antt =====
-- The registration of a device, `registerHandler` of api/main.go, with `isDeviceRevoked` and
-- `rotateDeviceKey`. The keys that `generateAPIKey` makes and the decimal time of a new device id
-- are arguments, and so is whether the enrolment token is the one that the server wants, if any.
pub mod Admitted
use device_pulse.Prelude.{
  ℕ, Text, codes, Bool, true, false, not, ◌&&◌, ◌||◌, List, [], ◌++◌, ◌∷◌, Option, none, some, ltb,
  leb, ◌==◌, text_eq, if◌then◌else◌, length,
}
use device_pulse.Db.{Driver, Inserted, inserted, duplicate_key, insert_failed}
use device_pulse.Http.{Checked, ok, refuse, ◌>>=◌, ◌>>◌, require, or_refuse, outcome}
use device_pulse.Access.{active, logged}
use device_pulse.Access.Users.{or_default}
use device_pulse.Commands.{Device, Fleet, of_device}

-- The body of the request; a missing field is empty.
pub record Identity : Type 0 where
  pub hostname : Text
  pub hardware_uuid : Text
  pub mac_address : Text

-- A document of `device_revocations`.
pub record Revocation : Type 0 where
  pub id : ℕ
  pub device_id : Text
  pub hardware_uuid : Text
  pub mac_address : Text
  pub hostname : Text
  pub reason : Text
  pub revoked_at : ℕ
  pub created_at : ℕ

abbrev pub with_hostname : Identity → Identity
with_hostname i = record i { hostname = or_default (codes "unknown") i.hostname }

abbrev pub is_control : ℕ → Bool
is_control c = ltb c 32 || c == 127

abbrev pub no_controls : Text → Bool
no_controls [] = true
no_controls (c ∷ s) = not (is_control c) && no_controls s

unfoldable pub valid_identity_field : Text → Bool
valid_identity_field s = leb (length s) 256 && no_controls s

-- A filter on a field, which an empty value leaves out.
abbrev pub same_field : Text → Text → Bool
same_field value field = not (text_eq.beq value []) && text_eq.beq field value

abbrev pub is_valid : Identity → Bool
is_valid i =
    valid_identity_field i.hostname
    && valid_identity_field i.hardware_uuid
    && valid_identity_field i.mac_address

unfoldable pub revoked_device_filter : Text → Identity → Revocation → Bool
revoked_device_filter device_id i r =
    same_field device_id r.device_id
    || same_field i.hardware_uuid r.hardware_uuid
    || same_field i.mac_address r.mac_address

-- Hardware is known by its UUID, and by its MAC address only where it has no UUID.
abbrev pub recovery_filter : Identity → Device → Bool
recovery_filter i d =
    if not (text_eq.beq i.hardware_uuid [])
    then text_eq.beq d.hardware_uuid i.hardware_uuid
    else same_field i.mac_address d.mac_address

abbrev pub has_identity : Identity → Bool
has_identity i = not (text_eq.beq i.hardware_uuid []) || not (text_eq.beq i.mac_address [])

abbrev pub minted_id : Identity → Text → Text
minted_id i stamp =
    if not (text_eq.beq i.hardware_uuid [])
    then codes "device-" ++ i.hardware_uuid
    else if not (text_eq.beq i.mac_address [])
    then codes "device-mac-" ++ i.mac_address
    else codes "device-" ++ i.hostname ++ codes "-" ++ stamp

-- What a request comes with from outside: two generated keys, the id of a new document, the time
-- and its decimal form, and whether the enrolment token passes.
pub record Circumstances : Type 0 where
  pub key : Text
  pub second_key : Text
  pub new_id : ℕ
  pub now : ℕ
  pub stamp : Text
  pub may_enrol : Bool

module _ (devices : Driver Device (λ d. d.id)) (revocations : Driver Revocation (λ r. r.id))
    (hash : Text → Text) where
  -- A failed lookup reads as no revocation.
  unfoldable pub is_device_revoked : Text → Identity → List Revocation → Bool
  is_device_revoked device_id i rs =
      elim (revocations.find_one (revoked_device_filter device_id i) rs) [
        | none ↦ false
        | some r ↦ true
      ]

  abbrev pub swap_key : Text → ℕ → Device → Device
  swap_key key now d = record d { api_key_hash = hash key; last_seen = now }

  abbrev pub refresh : Text → ℕ → Identity → Device → Device
  refresh key now i d = record (swap_key key now d) {
    hostname = i.hostname;
    hardware_uuid = i.hardware_uuid;
    mac_address = i.mac_address;
  }

  unfoldable pub rotate_device_key :
      (Device → Bool) → (Device → Device) → List Device → Checked (List Device)
  rotate_device_key filter set ds = do
    (matched, ds') ← or_refuse (devices.update_one filter set ds) 500 "Database error"
    require (not (matched == 0)) 500 "Database error"
    ok ds'

  abbrev pub new_device : Identity → Circumstances → Device
  new_device i c = record {
    id = c.new_id;
    device_id = minted_id i c.stamp;
    status = active;
    api_key_hash = hash c.key;
    api_key = [];
    quarantined = false;
    quarantined_at = none;
    quarantine_until = none;
    quarantined_confirmed_at = none;
    revoked_at = none;
    wiped_at = none;
    agent_version = [];
    agent_os = [];
    agent_arch = [];
    agent_last_checked = none;
    agent_update_status = [];
    agent_target_version = [];
    agent_update_requested_at = none;
    hostname = i.hostname;
    hardware_uuid = i.hardware_uuid;
    mac_address = i.mac_address;
    registered_at = c.now;
    last_seen = c.now;
  }

  -- Another request may have registered the same hardware in between: its document stands.
  unfoldable pub enrolled :
      Identity → Circumstances → List Device → Inserted Device → Checked (Text × List Device)
  enrolled i c ds (inserted ds') = ok (c.key, ds')
  enrolled i c ds duplicate_key = do
    ds' ← rotate_device_key (of_device (minted_id i c.stamp)) (swap_key c.second_key c.now) ds
    ok (c.second_key, ds')
  enrolled i c ds insert_failed = refuse 500 "Database error"

  -- The device id and the key of the reply, and the fleet.
  unfoldable pub enrol_new : Identity → Circumstances → Fleet → Checked ((Text × Text) × Fleet)
  enrol_new i c s = do
    require c.may_enrol 403 "Enrollment token required"
    (key, ds) ← enrolled i c s.devices (devices.insert_one (new_device i c) s.devices)
    ok ((minted_id i c.stamp, key), record s { devices = ds })

  unfoldable pub recover :
      Identity → Circumstances → List Revocation → Fleet → Device → Checked ((Text × Text) × Fleet)
  recover i c rs s d = do
    require (not (is_device_revoked d.device_id i rs)) 403 "Device registration is revoked"
    ds ← rotate_device_key (recovery_filter i) (refresh c.key c.now i) s.devices
    ok (
      (d.device_id, c.key),
      record s {
        devices = ds;
        audit =
            logged (codes "system") (codes "device.key_rotated") d.device_id i.hostname c.now
              s.audit;
      },
    )

  unfoldable pub known_device : Identity → List Device → Option Device
  known_device i ds = if has_identity i then devices.find_one (recovery_filter i) ds else none

  unfoldable pub register_known :
      Identity
      → Circumstances
      → List Revocation
      → Fleet
      → Option Device
      → Checked ((Text × Text) × Fleet)
  register_known i c rs s none = enrol_new i c s
  register_known i c rs s (some d) = recover i c rs s d

  unfoldable pub register_handler :
      Bool
      → Option Identity
      → Circumstances
      → List Revocation
      → Fleet
      → Checked (Text × Text) × Fleet
  register_handler is_post body c rs s = outcome s (do
    require is_post 405 "Method not allowed"
    sent ← or_refuse body 400 "Bad JSON"
    let i = with_hostname sent
    require (is_valid i) 400 "Invalid device identity fields"
    require (not (is_device_revoked [] i rs)) 403 "Device registration is revoked"
    register_known i c rs s (known_device i s.devices))
