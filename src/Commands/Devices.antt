-- ===== src/Commands/Devices.antt =====
-- The writes of api/main.go to device documents, and the keys that devices authenticate with.
use device_pulse.Prelude.{
  ℕ, Text, true, false, not, ◌&&◌, ◌||◌, List, [], Option, none, some, text_eq, if◌then◌else◌,
}
use device_pulse.Db.{Driver}
use device_pulse.Commands.{
  Device, mark_quarantined, mark_released, of_device, or_unchanged, quarantine_enable,
  quarantine_release, revoked, success, wipe_agent,
}

module _ (devices : Driver Device (λ d. d.id)) where
  abbrev pub update_device : Text → (Device → Device) → List Device → List Device
  update_device device_id f ds = or_unchanged ds (devices.update_one (of_device device_id) f ds)

  -- `hash` is `hashAPIKey`. The device that holds the key, and the devices after the upgrade of a
  -- plaintext key.
  unfoldable pub resolve_api_key : (Text → Text) → Text → List Device → Option (Text × List Device)
  resolve_api_key hash key ds =
      if text_eq.beq key []
      then none
      else elim (devices.find_one
          (λ d. text_eq.beq d.api_key_hash (hash key) && not (text_eq.beq d.status revoked)) ds) [
            | some d ↦
                if not (text_eq.beq d.api_key_hash (hash key)) || text_eq.beq d.device_id []
                then none
                else some (d.device_id, ds)
            | none ↦
                elim (devices.find_one
                  (λ d. text_eq.beq d.api_key key && not (text_eq.beq d.status revoked)) ds) [
                    | none ↦ none
                    | some d ↦
                        if text_eq.beq d.device_id []
                        then none
                        else some (
                          d.device_id,
                          update_device d.device_id
                              (λ e. record e { api_key_hash = hash key; api_key = [] }) ds,
                        )
                  ]
          ]

  -- The device's badge, behind the insertion.
  unfoldable pub track_quarantine : Text → Text → ℕ → ℕ → List Device → List Device
  track_quarantine type device_id now window ds =
      if text_eq.beq type quarantine_enable
      then update_device device_id (mark_quarantined now window) ds
      else if text_eq.beq type quarantine_release
      then update_device device_id mark_released ds
      else ds

  -- The side effects of a reported success.
  unfoldable pub after_result : Text → Text → Text → ℕ → List Device → List Device
  after_result type status device_id now ds =
      if not (text_eq.beq status success)
      then ds
      else if text_eq.beq type wipe_agent
      then update_device device_id
          (λ d. record d { status = revoked; revoked_at = some now; wiped_at = some now }) ds
      else if text_eq.beq type quarantine_release
      then update_device device_id (λ d. record d { quarantined = false; quarantined_at = none }) ds
      else if text_eq.beq type quarantine_enable
      then update_device device_id
          (λ d. record d { quarantined = true; quarantined_confirmed_at = some now }) ds
      else ds
