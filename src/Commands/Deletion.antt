-- ===== src/Commands/Deletion.antt =====
-- Removing a device from the registry: `deviceDeleteHandler` of api/main.go with
-- `createDeviceRevocation`, and `revocationClearHandler`. A device that is found by its id has an
-- id, so the filter of its revocation is never the empty one. What the three archives in S3
-- answer to their deletion is an argument.
pub mod Erased
pub mod Shut
use device_pulse.Prelude.{
  ℕ, Text, codes, Bool, true, false, not, ◌&&◌, ◌||◌, List, [], ◌∷◌, Option, none, some, ◌==◌,
  text_eq, if◌then◌else◌, erase,
}
use device_pulse.Go.Strings.{split, trim_prefix, contains}
use device_pulse.Db.{Driver}
use device_pulse.Db.Removal.{Remover}
use device_pulse.Http.{Checked, ok, refuse, ◌>>=◌, ◌>>◌, require, or_refuse}
use device_pulse.Access.{logged}
use device_pulse.Activity.Focus.{FocusCache}
use device_pulse.Commands.{Device, Fleet, of_device}
use device_pulse.Commands.Enrolment.{Revocation, revoked_device_filter}

-- A document of `telemetry` or `app_usage_daily`, of which the deletion reads the device.
pub record DeviceDocument : Type 0 where
  pub id : ℕ
  pub device_id : Text

pub record Registry : Type 0 where
  pub fleet : Fleet
  pub revocations : List Revocation
  pub telemetry : List DeviceDocument
  pub app_usage : List DeviceDocument
  pub focus : FocusCache

-- The user who asks, the time, the id of a new document, and whether each archive is cleared.
pub record Removal : Type 0 where
  pub actor : Text
  pub now : ℕ
  pub new_id : ℕ
  pub telemetry_archive : Option ℕ
  pub browser_archive : Option ℕ
  pub app_usage_archive : Option ℕ

-- A step that may refuse, with the state that it leaves either way.
infixr 4 ◌andthen◌
unfoldable pub ◌andthen◌ {ℓ κ μ} :
    {A : Type ℓ} {B : Type κ} {S : Type μ} → Checked A × S → (A → S → Checked B × S) → Checked B × S
(ok a, s) andthen k = k a s
(refuse code message, s) andthen k = (refuse code message, s)

-- The second part of the path.
unfoldable pub second_part : List Text → Option Text
second_part [] = none
second_part (p ∷ []) = none
second_part (p ∷ q ∷ ps) = if text_eq.beq q [] then none else some q

abbrev pub path_device_id : Text → Option Text
path_device_id path = second_part (split b'/' (trim_prefix path (codes "/")))

abbrev pub owned_by : Text → DeviceDocument → Bool
owned_by device_id d = text_eq.beq d.device_id device_id

abbrev pub identify : Device → Text → ℕ → Revocation → Revocation
identify d reason now r = record r {
  device_id = d.device_id;
  hardware_uuid = d.hardware_uuid;
  mac_address = d.mac_address;
  hostname = d.hostname;
  reason = reason;
  revoked_at = now;
}

abbrev pub new_revocation : Device → Text → ℕ → ℕ → Revocation
new_revocation d reason new_id now = record {
  id = new_id;
  device_id = d.device_id;
  hardware_uuid = d.hardware_uuid;
  mac_address = d.mac_address;
  hostname = d.hostname;
  reason = reason;
  revoked_at = now;
  created_at = now;
}

abbrev pub of_revoked : Device → Revocation → Bool
of_revoked d =
    revoked_device_filter d.device_id (record {
      hostname = d.hostname;
      hardware_uuid = d.hardware_uuid;
      mac_address = d.mac_address;
    })

module _ (devices : Driver Device (λ d. d.id)) (device_remover : Remover Device)
    (revocation_remover : Remover Revocation) (stored_remover : Remover DeviceDocument) where
  unfoldable pub create_device_revocation :
      Device → Text → ℕ → ℕ → List Revocation → Option (List Revocation)
  create_device_revocation d reason new_id now rs =
      revocation_remover.upsert_one (of_revoked d) (identify d reason now)
        (new_revocation d reason new_id now) rs

  unfoldable pub revoke : Removal → Device → Registry → Checked (Unit {0}) × Registry
  revoke c d s =
      elim (create_device_revocation d (codes "device_deleted") c.new_id c.now s.revocations) [
        | none ↦ (refuse 500 "Device revocation failed", s)
        | some rs ↦ (ok tt, record s { revocations = rs })
      ]

  unfoldable pub delete_device : Text → Registry → Checked (Unit {0}) × Registry
  delete_device device_id s =
      elim (device_remover.delete_one (of_device device_id) s.fleet.devices) [
        | none ↦ (refuse 500 "Database error", s)
        | some (deleted, ds) ↦ (
          require (not (deleted == 0)) 404 "Device not found",
          record s { fleet = record s.fleet { devices = ds } },
        )
      ]

  unfoldable pub delete_telemetry : Text → Registry → Checked ℕ × Registry
  delete_telemetry device_id s =
      elim (stored_remover.delete_many (owned_by device_id) s.telemetry) [
        | none ↦ (refuse 500 "Device deleted, but telemetry cleanup failed", s)
        | some (deleted, ds) ↦ (ok deleted, record s { telemetry = ds })
      ]

  unfoldable pub delete_app_usage : Text → Registry → Checked ℕ × Registry
  delete_app_usage device_id s =
      elim (stored_remover.delete_many (owned_by device_id) s.app_usage) [
        | none ↦ (refuse 500 "Device deleted, but app usage cleanup failed", s)
        | some (deleted, ds) ↦ (ok deleted, record s { app_usage = ds })
      ]

  unfoldable pub forget : Removal → Text → Registry → Registry
  forget c device_id s = record s {
    focus = erase device_id s.focus;
    fleet = record s.fleet {
      audit = logged c.actor (codes "device.deleted") device_id [] c.now s.fleet.audit;
    };
  }

  -- The documents of telemetry and application usage that the reply counts.
  unfoldable pub clean_up : Removal → Text → Registry → Checked (ℕ × ℕ) × Registry
  clean_up c device_id s = delete_telemetry device_id s andthen λ telemetry s.
      (or_refuse c.telemetry_archive 500 "Device deleted, but telemetry archive cleanup failed", s)
      andthen λ _ s.
          (
            or_refuse c.browser_archive 500
                "Device deleted, but browser history archive cleanup failed",
            s,
          )
          andthen λ _ s. delete_app_usage device_id s andthen λ app_usage s.
              (
                or_refuse c.app_usage_archive 500
                    "Device deleted, but app usage archive cleanup failed",
                s,
              )
              andthen λ _ s. (ok (telemetry, app_usage), forget c device_id s)

  unfoldable pub device_delete_handler :
      Bool → Text → Removal → Registry → Checked (ℕ × ℕ) × Registry
  device_delete_handler is_delete path c s =
      (require is_delete 405 "Method not allowed", s) andthen λ _ s.
      (or_refuse (path_device_id path) 400 "Invalid URL: missing device_id", s)
      andthen λ device_id s.
          (
            or_refuse (devices.find_one (of_device device_id) s.fleet.devices) 404
                "Device not found",
            s,
          )
          andthen λ d s. revoke c d s andthen λ _ s.
              delete_device device_id s andthen λ _ s. clean_up c device_id s

  unfoldable pub revocation_clear_handler : Bool → Text → Removal → Registry → Checked ℕ × Registry
  revocation_clear_handler is_delete path c s =
      let device_id = trim_prefix path (codes "/devices/revocations/") in
      (require is_delete 405 "Method not allowed", s) andthen λ _ s.
      (
        require (not (text_eq.beq device_id [] || contains device_id (codes "/"))) 400
            "Invalid URL: missing device_id",
        s,
      )
      andthen λ _ s.
          (
            or_refuse
                (revocation_remover.delete_many (λ r. text_eq.beq r.device_id device_id)
                  s.revocations)
                500 "Database error",
            s,
          )
          andthen λ (cleared, rs) s.
              let s' = record s { revocations = rs } in
              (require (not (cleared == 0)) 404 "No revocation found for device", s') andthen λ _ s.
              (
                ok cleared,
                record s {
                  fleet = record s.fleet {
                    audit =
                        logged c.actor (codes "device.revocation_cleared") device_id [] c.now
                          s.fleet.audit;
                  };
                },
              )
