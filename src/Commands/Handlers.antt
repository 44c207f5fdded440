-- ===== src/Commands/Handlers.antt =====
-- The handlers of api/main.go that create, hand out and complete device commands.
use device_pulse.Prelude.{
  ℕ, ◌+◌, Text, codes, List, [], ◌∷◌, ◌++◌, Option, none, some, text_eq, if◌then◌else◌, take,
  lookup,
}
use device_pulse.Go.Strings.{trim_space}
use device_pulse.Db.{Driver}
use device_pulse.Http.{Checked, ok, refuse, ◌>>=◌, ◌>>◌, require, or_refuse, outcome}
use device_pulse.Access.{can_access_role, logged}
use device_pulse.Commands.{
  CreateBody, Device, DeviceCommand, Fleet, Issuer, ResultBody, claimable, command_min_role,
  complete, day, deliver, found_after, is_outcome, open_command, pending, quarantine_enable,
  quarantine_window,
}
use device_pulse.Commands.Devices.{after_result, resolve_api_key, track_quarantine}

module _ (commands : Driver DeviceCommand (λ c. c.id)) (devices : Driver Device (λ d. d.id)) where
  -- `deviceCommandCreateHandler` up to its reply; `id` is the inserted `_id`.
  unfoldable pub checked_create :
      ℕ → ℕ → Text → Issuer → Option CreateBody → ℕ → Fleet → Checked (DeviceCommand × Fleet)
  unfolding quarantine_window can_access_role track_quarantine
  checked_create max_hours id device_id user body now s = do
    b ← or_refuse body 400 "Bad JSON"
    let window = quarantine_window max_hours b.duration
    let duration = if text_eq.beq b.type quarantine_enable then some window else b.duration
    min_role ← or_refuse (lookup b.type command_min_role) 400 "Unknown command type"
    require (can_access_role user.role min_role) 403 "requires role"
    let cmd : DeviceCommand = record {
      id = id;
      device_id = device_id;
      type = b.type;
      duration = duration;
      status = pending;
      created_by = user.email;
      created_at = now;
      delivered_at = none;
      completed_at = none;
      result = [];
      expires_at = now + day;
    }
    cmds ← found_after s.commands (commands.insert_one cmd s.commands)
    ok (
      cmd,
      record {
        commands = cmds;
        devices = track_quarantine devices b.type device_id now window s.devices;
        audit = logged user.email (codes "device.command." ++ b.type) device_id [] now s.audit;
      },
    )

  unfoldable pub create_command :
      ℕ → ℕ → Text → Issuer → Option CreateBody → ℕ → Fleet → Checked DeviceCommand × Fleet
  unfolding checked_create
  create_command max_hours id device_id user body now s =
      outcome s (checked_create max_hours id device_id user body now s)

  -- The loop of `commandsPendingHandler`: one claim for each reading of the clock, up to the first
  -- that finds nothing.
  unfoldable pub claim_loop :
      Text → List ℕ → List DeviceCommand → List DeviceCommand × List DeviceCommand
  claim_loop device_id [] cs = ([], cs)
  claim_loop device_id (now ∷ nows) cs =
      elim (commands.find_one_and_update (claimable device_id now) (deliver now) (λ c. c.created_at)
        cs) [
          | none ↦ ([], cs)
          | some (c, cs') ↦
              let (claimed, rest) = claim_loop device_id nows cs' in (c ∷ claimed, rest)
        ]

  -- The loop makes 20 rounds.
  unfoldable pub pending_handler :
      (Text → Text) → Text → List ℕ → Fleet → Checked (List DeviceCommand) × Fleet
  unfolding claim_loop resolve_api_key
  pending_handler hash key clock s = elim (resolve_api_key devices hash key s.devices) [
    | none ↦ (refuse 401 "Unauthorized", s)
    | some (device_id, ds) ↦
        let (claimed, cs) = claim_loop device_id (take 20 clock) s.commands in
        (ok claimed, record { commands = cs; devices = ds; audit = s.audit })
  ]

  -- `commandsResultHandler` behind the authentication.
  unfoldable pub checked_result :
      (Text → Option ℕ) → Text → Option ResultBody → ℕ → Fleet → Checked (DeviceCommand × Fleet)
  unfolding after_result trim_space
  checked_result from_hex device_id body now s = do
    b ← or_refuse body 400 "Bad JSON"
    require (is_outcome b.status) 400 "status must be success, failed, or unsupported"
    id ← or_refuse (from_hex b.command_id) 400 "Invalid command_id"
    let detail = take 2000 (trim_space b.detail)
    (cmd, cs) ←
        or_refuse
          (commands.find_one_and_update (open_command id device_id) (complete b.status detail now)
            (λ c. c.id) s.commands)
          404 "Command not found or already completed"
    ok (
      cmd,
      record {
        commands = cs;
        devices = after_result devices cmd.type b.status device_id now s.devices;
        audit = s.audit;
      },
    )

  unfoldable pub result_handler :
      (Text → Option ℕ)
      → (Text → Text)
      → Text
      → Option ResultBody
      → ℕ
      → Fleet
      → Checked DeviceCommand × Fleet
  unfolding checked_result resolve_api_key
  result_handler from_hex hash key body now s = elim (resolve_api_key devices hash key s.devices) [
    | none ↦ (refuse 401 "Unauthorized", s)
    | some (device_id, ds) ↦
        let s' = record s { devices = ds } in
        outcome s' (checked_result from_hex device_id body now s')
  ]
