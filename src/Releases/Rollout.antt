-- ===== src/Releases/Rollout.antt =====
-- The rollout of releases to the fleet in api/main.go, `releaseRolloutLatestHandler`. The targets are
-- rolled out in the order in which they were met, which Go leaves open. Of the reply only the number
-- of devices marked is kept, and a device that is matched counts as modified.
pub mod Greatest
use device_pulse.Prelude.{
  ℕ, ◌+◌, ◌==◌, Text, codes, Bool, true, false, not, ◌&&◌, ◌||◌, List, [], ◌∷◌, ◌++◌, Option, none,
  some, ltb, text_eq, if◌then◌else◌, Map, lookup, insert, map,
}
use device_pulse.Db.{Driver, Inserted, inserted, duplicate_key, insert_failed}
use device_pulse.Http.{Checked, ok, refuse}
use device_pulse.Access.{AuditEvent, logged}
use device_pulse.Commands.{Device}
use device_pulse.Releases.Versions.{Comparison, less, equal, greater, compare_agent_versions}
use device_pulse.Releases.{AgentRelease, Target, of_target, is_equal}

pub record Rollout : Type 0 where
  pub releases : List AgentRelease
  pub devices : List Device
  pub audit : List AuditEvent

abbrev pub target_key : AgentRelease → Text
target_key r = r.os ++ codes "/" ++ r.arch

abbrev pub target_of : AgentRelease → Target
target_of r = record { os = r.os; arch = r.arch; version = r.version }

abbrev pub is_greater : Comparison → Bool
is_greater greater = true
is_greater _ = false

-- Which of a target's releases stays: with `use_active` the one published last, otherwise the one
-- of the greatest version, and of those the one published last.
unfoldable pub choose : Bool → AgentRelease → Option AgentRelease → AgentRelease
unfolding compare_agent_versions
choose use_active rel none = rel
choose use_active rel (some existing) =
    let cmp = compare_agent_versions rel.version existing.version in
    let later = ltb existing.published_at rel.published_at in
    if (if use_active then later else is_greater cmp || (is_equal cmp && later))
    then rel
    else existing

unfoldable pub latest_by_target :
    Bool → Map Text AgentRelease → List AgentRelease → Map Text AgentRelease
unfolding choose
latest_by_target use_active m [] = m
latest_by_target use_active m (r ∷ rs) =
    latest_by_target use_active
      (insert (target_key r) (choose use_active r (lookup (target_key r) m)) m) rs

abbrev pub is_active_release : AgentRelease → Bool
is_active_release r = not r.pending_activation

abbrev pub publish_at : ℕ → AgentRelease → AgentRelease
publish_at now r = record r { published_at = now }

abbrev pub needs_update : AgentRelease → Device → Bool
needs_update r d =
    text_eq.beq d.agent_os r.os
    && text_eq.beq d.agent_arch r.arch
    && not (text_eq.beq d.agent_version r.version)

abbrev pub request_update : ℕ → AgentRelease → Device → Device
request_update now r d = record d {
  agent_update_status = codes "update_requested";
  agent_update_requested_at = some now;
  agent_target_version = r.version;
}

-- The collection after the insertion, or `none` where the handler gives up.
abbrev pub inserted_or_stop : Inserted AgentRelease → Option (List AgentRelease)
inserted_or_stop (inserted rs) = some rs
inserted_or_stop duplicate_key = none
inserted_or_stop insert_failed = none

module _ (releases : Driver AgentRelease (λ r. r.id)) (devices : Driver Device (λ d. d.id)) where
  -- A failed bump of the publication is only logged.
  unfoldable pub bump : Bool → ℕ → AgentRelease → List AgentRelease → Option (List AgentRelease)
  bump true now r rs = some rs
  bump false now r rs = elim (releases.update_many (of_target (target_of r)) (publish_at now) rs) [
    | none ↦ some rs
    | some (matched, es) ↦
        if matched == 0
        then inserted_or_stop (releases.insert_one (publish_at now r) es)
        else some es
  ]

  -- A failed mark of the devices is only logged.
  unfoldable pub mark_devices : ℕ → AgentRelease → List Device → ℕ × List Device
  mark_devices now r ds = elim (devices.update_many (needs_update r) (request_update now r) ds) [
    | none ↦ (0, ds)
    | some (n, es) ↦ (n, es)
  ]

  -- The number of devices marked, or `none` where an insertion failed, and what has been written
  -- until then.
  unfoldable pub roll_out : Bool → ℕ → List AgentRelease → Rollout → Option ℕ × Rollout
  unfolding bump mark_devices
  roll_out use_active now [] s = (some 0, s)
  roll_out use_active now (r ∷ rs) s = elim (bump use_active now r s.releases) [
    | none ↦ (none, s)
    | some es ↦
        let (n, ds) = mark_devices now r s.devices in
        let (rest, s') = roll_out use_active now rs (record s { releases = es; devices = ds }) in
        (plus_marked n rest, s')
  ]
    where
      plus_marked : ℕ → Option ℕ → Option ℕ
      plus_marked n none = none
      plus_marked n (some k) = some (n + k)

  abbrev rollout_reply : Text → Text → ℕ → Option ℕ × Rollout → Checked ℕ × Rollout
  rollout_reply actor detail now (none, s) = (refuse 500 "Database error", s)
  rollout_reply actor detail now (some n, s) = (
    ok n,
    record s { audit = logged actor (codes "release.rollout") (codes "fleet") detail now s.audit },
  )

  -- `detail` is the text of the audit event; `use_active` is false where the body is no JSON.
  unfoldable pub release_rollout_latest_handler :
      Text → Text → Text → Bool → ℕ → Rollout → Checked ℕ × Rollout
  unfolding latest_by_target roll_out
  release_rollout_latest_handler method actor detail use_active now s =
      if not (text_eq.beq method (codes "POST"))
      then (refuse 405 "Method not allowed", s)
      else elim (releases.find is_active_release s.releases) [
        | none ↦ (refuse 500 "Database error", s)
        | some rs ↦ elim (latest_by_target use_active [] rs) [
          | [] ↦ (refuse 404 "No agent releases are available", s)
          | (k, r) ∷ m ↦
              rollout_reply actor detail now (roll_out use_active now (r ∷ map (λ e. e.1) m) s)
        ]
      ]
