-- ===== src/Tests/Releases.antt =====
-- Two releases for one system, and a device that a rollout has asked to go back.
use device_pulse.Prelude.{
  ℕ, Text, codes, list_beq, Bool, true, false, List, [], ◌∷◌, none, some, ◌≡◌, refl, arith, here,
  inl, filter,
}
use device_pulse.Go.Strings.{split_onto, cut, trim_space, trim_left, trim_right}
use device_pulse.Db.{Driver}
use device_pulse.Db.InMemory.{in_memory, find_first, update_first, add_document}
use device_pulse.Db.Latest.{find_greatest}
use device_pulse.Http.{Checked, ok, ◌>>=◌, ◌>>◌, require, or_refuse, outcome}
use device_pulse.Commands.{Device}
use device_pulse.Commands.Devices.{resolve_api_key}
use device_pulse.Releases.Versions.{
  equal, greater, compare_agent_versions, agent_version_parts, agent_version_prerelease,
  first_field, field_rest, numbers, atoi, digits, compare_parts, compare_prereleases, compare_text,
}
use device_pulse.Releases.{AgentRelease, Shelf, Target, trimmed, Answer, update, no_update}
use device_pulse.Releases.Publishing.{republish, release_activate_handler}
use device_pulse.Releases.Checks.{
  checked_in, device_targets_release, mark_agent_update_status, answer_check, update_check_handler,
}
use device_pulse.Releases.Rollout.{latest_by_target}
use device_pulse.Releases.Rollout.Greatest.{Beaten, latest_by_target-Beaten}
use device_pulse.Releases.Offers.{Offered, update_check_handler-Offered}
use device_pulse.Releases.Activation.{
  IsActive, IsLive, release_activate_handler-IsActive, IsLive-offered,
}

abbrev release : ℕ → Text → ℕ → Bool → AgentRelease
release i version at pending = record {
  id = i;
  version = version;
  os = codes "linux";
  arch = codes "amd64";
  download_url = codes "u";
  s3_key = [];
  checksum = codes "c";
  published_at = at;
  pending_activation = pending;
  signature = [];
}

abbrev releases : List AgentRelease
releases = release 1 (codes "1.9") 10 false ∷ release 2 (codes "1.10") 20 true ∷ []

abbrev laptop : Device
laptop = record {
  id = 1;
  device_id = codes "d";
  status = codes "active";
  api_key_hash = codes "key";
  api_key = [];
  quarantined = false;
  quarantined_at = none;
  quarantine_until = none;
  quarantined_confirmed_at = none;
  revoked_at = none;
  wiped_at = none;
  agent_version = codes "2.0";
  agent_os = codes "linux";
  agent_arch = codes "amd64";
  agent_last_checked = none;
  agent_update_status = [];
  agent_target_version = codes "1.9";
  agent_update_requested_at = some 30;
  hostname = codes "h";
  hardware_uuid = codes "u";
  mac_address = [];
  registered_at = 0;
  last_seen = 0;
}

abbrev releases_db : Driver AgentRelease (λ r. r.id)
releases_db = in_memory (λ r. r.id)

abbrev devices_db : Driver Device (λ d. d.id)
devices_db = in_memory (λ d. d.id)

abbrev same : Text → Text
same k = k

abbrev get : Text
get = codes "GET"

-- A part is a number, and a release outranks its prereleases.
newer :
    (compare_agent_versions (codes "1.10") (codes "1.9") ≡ greater)
    × (compare_agent_versions (codes "1.2") (codes "1.2.0-rc1") ≡ greater)
    × (compare_agent_versions (codes "1.2+a") (codes "1.2.0+b") ≡ equal)
unfolding compare_agent_versions agent_version_parts agent_version_prerelease first_field field_rest
    numbers atoi digits compare_parts compare_prereleases compare_text cut split_onto list_beq
newer = (refl, refl, refl)

abbrev check : Checked Answer × List Device
check =
    update_check_handler releases_db devices_db same false get (codes "key") (codes "2.0")
      (codes "linux") (codes "amd64") 40 releases (laptop ∷ [])

-- The device is moved back, since the rollout has asked for it.
moves_back : check ≡ (ok (update (release 1 (codes "1.9") 10 false)), check.1)
unfolding update_check_handler answer_check checked_in device_targets_release
    mark_agent_update_status resolve_api_key outcome require ◌>>=◌ ◌>>◌ find_greatest find_first
    update_first compare_agent_versions agent_version_parts agent_version_prerelease first_field
    field_rest numbers atoi digits compare_parts compare_prereleases compare_text cut split_onto
    list_beq
moves_back = refl

update_check_handler-Offered_example :
    let (device_id, es) =
      checked_in devices_db same
        (codes "key")
        (codes "2.0")
        (codes "linux")
        (codes "amd64")
        40
        (laptop ∷ []) in
    Offered false
      (codes "2.0")
      (codes "linux")
      (codes "amd64")
      device_id
      releases
      es
      (release 1 (codes "1.9") 10 false)
update_check_handler-Offered_example =
    update_check_handler-Offered releases_db devices_db same false get (codes "key") (codes "2.0")
      (codes "linux") (codes "amd64") 40 releases (laptop ∷ []) check.1
      (release 1 (codes "1.9") 10 false) moves_back

abbrev target : Target
target = record { os = codes "linux"; arch = codes "amd64"; version = codes "1.10" }

abbrev shelf : Shelf
shelf = record { releases = releases; audit = [] }

abbrev activation : Checked AgentRelease × Shelf
activation = release_activate_handler releases_db (codes "POST") (codes "a") (some target) 50 shelf

activates : activation ≡ (ok (release 2 (codes "1.10") 50 false), activation.1)
unfolding release_activate_handler republish outcome require or_refuse ◌>>=◌ ◌>>◌ find_greatest
    add_document list_beq trim_space trim_left trim_right filter
activates = refl

release_activate_handler-IsActive_example : IsActive (trimmed target) activation.1.releases
release_activate_handler-IsActive_example =
    release_activate_handler-IsActive releases_db (codes "POST") (codes "a") target 50 shelf
      activation.1 (release 2 (codes "1.10") 50 false) (omega arith, (omega arith, tt)) activates

-- The second release is unsigned, which counts only where signatures are required.
abbrev signed : AgentRelease
signed = record (release 1 (codes "1.9") 10 false) { signature = codes "s" }

abbrev live : List AgentRelease
live = signed ∷ release 2 (codes "1.10") 50 false ∷ []

abbrev older : Target
older = record target { version = codes "1.9" }

live-IsLive : IsLive true older live
unfolding list_beq filter
live-IsLive = record { release = signed; stored = here; fits = refl; others = (inl refl, tt) }

abbrev next_check : Checked Answer × List Device
next_check =
    update_check_handler releases_db devices_db same true get (codes "key") (codes "1.8")
      (codes "linux") (codes "amd64") 60 live (laptop ∷ [])

next_offers : next_check ≡ (ok (update signed), next_check.1)
unfolding update_check_handler answer_check checked_in device_targets_release
    mark_agent_update_status resolve_api_key outcome require ◌>>=◌ ◌>>◌ find_greatest find_first
    update_first compare_agent_versions agent_version_parts agent_version_prerelease first_field
    field_rest numbers atoi digits compare_parts compare_prereleases compare_text cut split_onto
    list_beq
next_offers = refl

IsLive-offered_example : signed.version ≡ older.version
IsLive-offered_example =
    IsLive-offered releases_db devices_db same true older get (codes "key") (codes "1.8") 60 live
      (laptop ∷ []) next_check.1 signed live-IsLive next_offers

-- A rollout has asked for 1.5. A check at 1.4 is offered 1.6, which becomes the target, and a later
-- check at 1.7 is offered 1.6, which no rollout has asked for.
abbrev published : List AgentRelease
published = release 1 (codes "1.6") 10 false ∷ []

abbrev rolled_out : Device
rolled_out = record laptop { agent_target_version = codes "1.5" }

abbrev check_at : Text → List Device → Checked Answer × List Device
check_at current ds =
    update_check_handler releases_db devices_db same false get (codes "key") current (codes "linux")
      (codes "amd64") 40 published ds

moved_back :
    let first = check_at (codes "1.4") (rolled_out ∷ []) in
    (first.0 ≡ ok (update (release 1 (codes "1.6") 10 false)))
    × ((check_at (codes "1.7") (rolled_out ∷ [])).0 ≡ ok no_update)
    × ((check_at (codes "1.7") first.1).0 ≡ ok (update (release 1 (codes "1.6") 10 false)))
unfolding update_check_handler answer_check checked_in device_targets_release
    mark_agent_update_status resolve_api_key outcome require ◌>>=◌ ◌>>◌ find_greatest find_first
    update_first compare_agent_versions agent_version_parts agent_version_prerelease first_field
    field_rest numbers atoi digits compare_parts compare_prereleases compare_text cut split_onto
    list_beq
moved_back = (refl, refl, refl)

abbrev tested : AgentRelease
tested = release 3 (codes "1.9-rc") 70 false

latest_by_target-Beaten_example : Beaten tested (latest_by_target false [] (tested ∷ releases))
latest_by_target-Beaten_example = latest_by_target-Beaten tested (tested ∷ releases) [] here
