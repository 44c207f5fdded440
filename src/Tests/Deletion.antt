-- ===== src/Tests/Deletion.antt =====
-- A machine is deleted and asks to be registered again; two machines that share a network card.
use device_pulse.Prelude.{
  ℕ, Text, codes, true, false, List, [], ◌∷◌, some, text_eq, list_beq, filter, ◌≡◌, refl, ◌⊎◌,
}
use device_pulse.Go.Strings.{split_onto, behind_prefix, trim_prefix}
use device_pulse.Db.InMemory.{find_first}
use device_pulse.Db.Removal.{Removes, removing, delete_first, update_or_add}
use device_pulse.Http.{Checked, refuse, require, or_refuse}
use device_pulse.Commands.{Device, of_device}
use device_pulse.Commands.Enrolment.{
  Identity, with_hostname, Revocation, is_device_revoked, new_device, register_handler,
  valid_identity_field, revoked_device_filter,
}
use device_pulse.Commands.Deletion.{
  Registry, Removal, ◌andthen◌, second_part, identify, new_revocation, create_device_revocation,
  revoke, delete_device, delete_telemetry, delete_app_usage, clean_up, device_delete_handler,
}
use device_pulse.Commands.Deletion.Shut.{device_delete_handler-shut}
use device_pulse.Commands.Deletion.Erased.{IsForgotten, device_delete_handler-Removes}
use device_pulse.Tests.Enrolment.{
  devices_db, revocations_db, hash, identity, first, again, fleet, find_first-some,
}

abbrev registry : Registry
registry = record {
  fleet = fleet;
  revocations = [];
  telemetry =
      record { id = 1; device_id = codes "device-u" }
      ∷ record { id = 2; device_id = codes "x" }
      ∷ [];
  app_usage = record { id = 1; device_id = codes "device-u" } ∷ [];
  focus = (codes "device-u", []) ∷ [];
}

abbrev removal : Removal
removal = record {
  actor = codes "admin";
  now = 20;
  new_id = 1;
  telemetry_archive = some 0;
  browser_archive = some 0;
  app_usage_archive = some 0;
}

abbrev path : Text
path = codes "/devices/device-u"

abbrev deletion : Checked (ℕ × ℕ) × Registry
deletion = device_delete_handler devices_db removing removing removing true path removal registry

device_delete_handler-shut_example :
    (deletion.1.fleet.devices ≡ fleet.devices)
    ⊎ (register_handler devices_db revocations_db hash true
          (some identity)
          again
          deletion.1.revocations
          deletion.1.fleet
        ≡ (refuse 403 "Device registration is revoked", deletion.1.fleet))
unfolding trim_prefix behind_prefix split_onto second_part find_first list_beq valid_identity_field
device_delete_handler-shut_example =
    device_delete_handler-shut devices_db removing removing removing revocations_db hash true path
      (codes "device-u") removal registry deletion.1
      (new_device devices_db revocations_db hash (with_hostname identity) first) identity again refl
      refl refl refl refl find_first-some

device_delete_handler-Removes_example :
    Removes (of_device (codes "device-u")) fleet.devices deletion.1.fleet.devices
    × IsForgotten devices_db removing removing removing (codes "device-u") deletion.1
unfolding device_delete_handler ◌andthen◌ or_refuse require trim_prefix behind_prefix split_onto
    second_part find_first list_beq revoke create_device_revocation delete_device delete_first
    clean_up delete_telemetry delete_app_usage filter
device_delete_handler-Removes_example =
    device_delete_handler-Removes devices_db removing removing removing true path (codes "device-u")
      removal registry deletion.1 (1, 1) refl refl

-- A laptop and a second one that has used the network card of the same dock.
abbrev laptop : Device
laptop = record (new_device devices_db revocations_db hash (with_hostname identity) first) {
  device_id = codes "a";
  hardware_uuid = codes "ua";
}

abbrev second : Device
second = record laptop { device_id = codes "b"; hardware_uuid = codes "ub" }

abbrev reason : Text
reason = codes "device_deleted"

abbrev laptop_revoked : List Revocation
laptop_revoked = new_revocation laptop reason 1 20 ∷ []

abbrev second_revoked : List Revocation
second_revoked = identify second reason 30 (new_revocation laptop reason 1 20) ∷ []

-- The laptop without the dock.
abbrev undocked : Identity
undocked = record { hostname = codes "h"; hardware_uuid = codes "ua"; mac_address = [] }

-- The revocation of the second overwrites the one of the first, which may register again.
revocation_lost :
    (create_device_revocation devices_db removing removing removing laptop reason 1 20 []
      ≡ some laptop_revoked)
    × (is_device_revoked devices_db revocations_db hash [] undocked laptop_revoked ≡ true)
    × (create_device_revocation devices_db removing removing removing second reason 2 30
          laptop_revoked
        ≡ some second_revoked)
    × (is_device_revoked devices_db revocations_db hash [] undocked second_revoked ≡ false)
unfolding create_device_revocation update_or_add revoked_device_filter is_device_revoked find_first
    list_beq
revocation_lost = (refl, refl, refl, refl)
