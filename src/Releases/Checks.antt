-- ===== src/Releases/Checks.antt =====
-- The update check of api/main.go: `updateCheckHandler`, `deviceTargetsRelease` and
-- `markAgentUpdateStatus`.
use device_pulse.Prelude.{
  ℕ, Text, codes, Bool, false, not, ◌&&◌, ◌||◌, List, [], none, some, text_eq, if◌then◌else◌,
}
use device_pulse.Db.{Driver}
use device_pulse.Http.{Checked, ok, ◌>>◌, require, outcome}
use device_pulse.Commands.{Device, of_device}
use device_pulse.Commands.Devices.{update_device, resolve_api_key}
use device_pulse.Releases.Versions.{compare_agent_versions}
use device_pulse.Releases.{
  AgentRelease, Answer, check_in, eligible, is_equal, is_less, mark, no_update, requests, satisfies,
  up_to_date, update, update_available,
}

module _ (devices : Driver Device (λ d. d.id)) (hash : Text → Text) where
  unfoldable pub device_targets_release : Text → Text → List Device → Bool
  device_targets_release device_id version ds =
      if text_eq.beq device_id []
      then false
      else satisfies (requests version) (devices.find_one (of_device device_id) ds)

  -- An absent `targetVersion` is the empty one.
  unfoldable pub mark_agent_update_status : Text → Text → Text → ℕ → List Device → List Device
  unfolding resolve_api_key
  mark_agent_update_status key status target now ds = elim (resolve_api_key devices hash key ds) [
    | none ↦ ds
    | some (device_id, es) ↦ update_device devices device_id (mark status target now) es
  ]

  -- The id of the device that checks, empty if its key is not known, and what the check writes.
  unfoldable pub checked_in : Text → Text → Text → Text → ℕ → List Device → Text × List Device
  unfolding resolve_api_key
  checked_in key version os arch now ds = elim (resolve_api_key devices hash key ds) [
    | none ↦ ([], ds)
    | some (device_id, es) ↦
        (device_id, update_device devices device_id (check_in version os arch now) es)
  ]

module _ (releases : Driver AgentRelease (λ r. r.id)) (devices : Driver Device (λ d. d.id))
    (hash : Text → Text) where
  -- `signed_only` is `updateRequiresSignature()`.
  unfoldable pub answer_check :
      Bool → Text → Text → Text → Text → ℕ → List AgentRelease → List Device → Answer × List Device
  unfolding device_targets_release mark_agent_update_status checked_in compare_agent_versions
  answer_check signed_only key current os arch now rs ds =
      let (device_id, es) = checked_in devices hash key current os arch now ds in
      elim (releases.find_latest (eligible signed_only os arch) (λ r. r.published_at) rs) [
        | none ↦ (no_update, mark_agent_update_status devices hash key up_to_date [] now es)
        | some latest ↦
            let cmp = compare_agent_versions latest.version current in
            if is_equal cmp
              || (is_less cmp
                  && not (device_targets_release devices hash device_id latest.version es))
            then (no_update, mark_agent_update_status devices hash key up_to_date [] now es)
            else (
              update latest,
              mark_agent_update_status devices hash key update_available latest.version now es,
            )
      ]

  unfoldable pub update_check_handler :
      Bool
      → Text
      → Text
      → Text
      → Text
      → Text
      → ℕ
      → List AgentRelease
      → List Device
      → Checked Answer × List Device
  unfolding answer_check
  update_check_handler signed_only method key current os arch now rs ds = outcome ds do
    require (text_eq.beq method (codes "GET")) 405 "Method not allowed"
    require (not (text_eq.beq current [] || text_eq.beq os [] || text_eq.beq arch [])) 400
        "Missing required query params: version, os, arch"
    ok (answer_check signed_only key current os arch now rs ds)
