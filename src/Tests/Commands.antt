-- ===== src/Tests/Commands.antt =====
-- A fleet of one device with two commands for it, over a database in memory.
use device_pulse.Prelude.{
  ℕ, ◌+◌, ◌*◌, Text, codes, list_beq, true, false, List, [], ◌∷◌, Option, none, some, text_eq,
  lookup, All, here, ◌≡◌, refl,
}
use device_pulse.Db.{Driver}
use device_pulse.Db.Unique.{Fresh}
use device_pulse.Db.InMemory.{
  in_memory, find_first, update_first, add_document, claim_least, find_least, has_id,
}
use device_pulse.Http.{Checked, ok, ◌>>=◌, ◌>>◌, require, or_refuse, outcome}
use device_pulse.Access.{role_admin, can_access_role, role_rank}
use device_pulse.Commands.{
  DeviceCommand, Device, Fleet, Issuer, CreateBody, pending, delivered, deliver, day, minute,
  quarantine_window, quarantine_enable,
}
use device_pulse.Commands.Handlers.{claim_loop, checked_create, create_command, pending_handler}
use device_pulse.Commands.Devices.{resolve_api_key, track_quarantine}
use device_pulse.Commands.Lifecycle.{Unique, Settled}
use device_pulse.Commands.Once.{
  Request, create, poll, report, serve_all, serve_all-Unique, serve_all-Settled,
}
use device_pulse.Commands.Rights.{
  Authentic, Issued, resolve_api_key-Authentic, pending-Authentic, create-Issued,
}

abbrev laptop : Device
laptop = record {
  id = 1;
  device_id = codes "d";
  status = codes "active";
  api_key_hash = codes "key";
  api_key = [];
  quarantined = false;
  quarantined_at = none;
  quarantine_until = none;
  quarantined_confirmed_at = none;
  revoked_at = none;
  wiped_at = none;
  agent_version = codes "1.0";
  agent_os = codes "linux";
  agent_arch = codes "amd64";
  agent_last_checked = none;
  agent_update_status = [];
  agent_target_version = [];
  agent_update_requested_at = none;
  hostname = codes "h";
  hardware_uuid = codes "u";
  mac_address = [];
  registered_at = 0;
  last_seen = 0;
}

abbrev command : ℕ → Text → DeviceCommand
command i status = record {
  id = i;
  device_id = codes "d";
  type = codes "collect_now";
  duration = none;
  status = status;
  created_by = codes "a";
  created_at = i;
  delivered_at = none;
  completed_at = none;
  result = [];
  expires_at = 100;
}

abbrev fleet : Fleet
fleet = record {
  commands = command 1 delivered ∷ command 2 pending ∷ [];
  devices = laptop ∷ [];
  audit = [];
}

abbrev admin : Issuer
admin = record { email = codes "a"; role = role_admin }

abbrev quarantine : CreateBody
quarantine = record { type = quarantine_enable; duration = some (5 * minute) }

abbrev commands_db : Driver DeviceCommand (λ c. c.id)
commands_db = in_memory (λ c. c.id)

abbrev devices_db : Driver Device (λ d. d.id)
devices_db = in_memory (λ d. d.id)

abbrev same : Text → Text
same k = k

abbrev hex_two : Text → Option ℕ
hex_two t = some 2

abbrev requests : List Request
requests =
    create 24 3 (codes "d") admin (some quarantine) 10
    ∷ poll (codes "key") (11 ∷ 12 ∷ [])
    ∷ report (codes "key")
        (some (record { command_id = codes "2"; status = codes "success"; detail = [] })) 13
    ∷ poll (codes "key") (14 ∷ [])
    ∷ []

fleet-Unique : Unique fleet.commands
fleet-Unique = ((refl, tt), (tt, tt))

Settled-one : Settled 1 fleet.commands
unfolding list_beq
Settled-one = record {
  command = command 1 delivered;
  stored = here;
  identified = refl;
  settled = refl;
}

serve_all-Unique_example :
    let (out, s') = serve_all commands_db devices_db same hex_two requests fleet in
    Unique out × Unique s'.commands
serve_all-Unique_example =
    serve_all-Unique commands_db devices_db same hex_two requests fleet fleet-Unique

serve_all-Settled_example :
    let (out, s') = serve_all commands_db devices_db same hex_two requests fleet in
    Fresh (λ c. c.id) 1 out × Settled 1 s'.commands
serve_all-Settled_example =
    serve_all-Settled commands_db devices_db same hex_two requests fleet 1 fleet-Unique Settled-one

abbrev polled : Checked (List DeviceCommand) × Fleet
polled = pending_handler commands_db devices_db same (codes "key") (11 ∷ []) fleet

polls : polled ≡ (ok (deliver 11 (command 2 pending) ∷ []), polled.1)
unfolding pending_handler claim_loop resolve_api_key list_beq find_first update_first claim_least
    find_least
polls = refl

pending-Authentic_example :
    (device_id : Text) × Authentic same (codes "key") device_id fleet.devices
    × All (λ c. text_eq.beq c.device_id device_id ≡ true) (deliver 11 (command 2 pending) ∷ [])
pending-Authentic_example =
    pending-Authentic commands_db devices_db same (codes "key") (11 ∷ []) fleet polled.1
      (deliver 11 (command 2 pending) ∷ []) polls

resolves :
    resolve_api_key devices_db same (codes "key") fleet.devices ≡ some (codes "d", fleet.devices)
unfolding resolve_api_key list_beq find_first
resolves = refl

resolve_api_key-Authentic_example :
    (text_eq.beq (codes "key") [] ≡ false)
    × (text_eq.beq (codes "d") [] ≡ false)
    × Authentic same (codes "key") (codes "d") fleet.devices
resolve_api_key-Authentic_example =
    resolve_api_key-Authentic commands_db devices_db same (codes "key") (codes "d") fleet.devices
      fleet.devices resolves

abbrev creation : Checked DeviceCommand × Fleet
creation = create_command commands_db devices_db 24 3 (codes "d") admin (some quarantine) 10 fleet

abbrev created : DeviceCommand
created = record (command 3 pending) {
  type = quarantine_enable;
  duration = some (5 * minute);
  created_at = 10;
  expires_at = 10 + day;
}

creates : creation ≡ (ok created, creation.1)
unfolding create_command checked_create quarantine_window can_access_role role_rank outcome require
    or_refuse ◌>>=◌ ◌>>◌ list_beq lookup track_quarantine add_document has_id update_first
creates = refl

create-Issued_example : Issued admin (codes "d") 10 fleet.commands created creation.1.commands
create-Issued_example =
    create-Issued commands_db devices_db same 24 3 (codes "d") admin (some quarantine) 10 fleet
      creation.1 created creates
