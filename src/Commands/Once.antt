-- ===== src/Commands/Once.antt =====
-- Any sequence of requests to the command handlers of api/main.go, and what they hand out.
use device_pulse.Prelude.{
  ℕ, Text, List, [], ◌∷◌, ◌++◌, Option, text_eq, take, ◌≡◌, refl, inl, inr, Option-cases,
}
use device_pulse.Db.{Driver, Inserted, inserted, duplicate_key, insert_failed}
use device_pulse.Db.Unique.{Fresh}
use device_pulse.Http.{
  Checked, ok, refuse, Keeps, kept, refused, Keeps-require, Keeps-or_refuse, Keeps-outcome,
  Keeps-bind,
}
use device_pulse.Commands.{
  DeviceCommand, Device, Fleet, Issuer, CreateBody, ResultBody, found_after, claimable, deliver,
}
use device_pulse.Commands.Handlers.{
  claim_loop, create_command, checked_create, pending_handler, result_handler, checked_result,
}
use device_pulse.Commands.Devices.{resolve_api_key}
use device_pulse.Commands.Lifecycle.{
  Unique, Settled, Lawful, Lawful-unchanged, Lawful-trans, claim-Lawful, insert-Lawful,
  complete-Lawful,
}

-- `create` stands behind `requireRole`; the other two authenticate with the device's key.
pub data Request : Type 0 where
  create : ℕ → ℕ → Text → Issuer → Option CreateBody → ℕ → Request
  poll : Text → List ℕ → Request
  report : Text → Option ResultBody → ℕ → Request

abbrev handed_over : Checked (List DeviceCommand) → List DeviceCommand
handed_over (ok cs) = cs
handed_over (refuse code message) = []

module _ (commands : Driver DeviceCommand (λ c. c.id)) (devices : Driver Device (λ d. d.id))
    (hash : Text → Text) (from_hex : Text → Option ℕ) where
  -- The commands that the request hands to an agent, and the state after it.
  unfoldable pub serve : Request → Fleet → List DeviceCommand × Fleet
  unfolding create_command pending_handler result_handler
  serve (create max_hours id device_id user body now) s =
      ([], (create_command commands devices max_hours id device_id user body now s).1)
  serve (poll key clock) s =
      let (reply, s') = pending_handler commands devices hash key clock s in (handed_over reply, s')
  serve (report key body now) s =
      ([], (result_handler commands devices from_hex hash key body now s).1)

  unfoldable pub serve_all : List Request → Fleet → List DeviceCommand × Fleet
  unfolding serve
  serve_all [] s = ([], s)
  serve_all (r ∷ rs) s =
      let (out, s1) = serve r s in let (more, s2) = serve_all rs s1 in (out ++ more, s2)

  claim_loop-Lawful :
      (device_id : Text) (clock : List ℕ) (cs : List DeviceCommand)
      → Unique cs
      → let (out, es) = claim_loop commands devices device_id clock cs in Lawful commands cs out es
  unfolding claim_loop
  claim_loop-Lawful device_id [] cs u = Lawful-unchanged commands cs u
  claim_loop-Lawful device_id (now ∷ nows) cs u =
      elim (Option-cases (
        commands.find_one_and_update (claimable device_id now) (deliver now) (λ c. c.created_at)
          cs)) [
            | inl e ↦ rw (e, claim_loop) (Lawful-unchanged commands cs u)
            | inr ((c, es), e) ↦
                let first = claim-Lawful commands device_id now cs es c u e in
                rw (e, claim_loop)
                  (Lawful-trans commands cs (c ∷ []) es _ _ first
                    (claim_loop-Lawful device_id nows es first.unique))
          ]

  create-Lawful :
      (max_hours id : ℕ) (device_id : Text) (user : Issuer) (body : Option CreateBody) (now : ℕ)
      (s : Fleet)
      → Unique s.commands
      → Lawful commands s.commands []
          (create_command commands devices max_hours id device_id user body now s).1.commands
  unfolding create_command checked_create
  create-Lawful max_hours id device_id user body now s u =
      let P : Fleet → Type 0 = λ t. Lawful commands s.commands [] t.commands in
      let Q : DeviceCommand × Fleet → Type 0 = λ r. P r.1 in
      Keeps-outcome P s _ (Lawful-unchanged commands s.commands u) (
        Keeps-or_refuse Q _ _ _ _ λ b _. Keeps-or_refuse Q _ _ _ _ λ m _.
          Keeps-require Q _ _ _ _ λ _.
            Keeps-bind Q (Lawful commands s.commands []) _ _ (stored _ _ u _ refl) λ cmds l. kept l)
    where
      stored :
          (c : DeviceCommand) (cs : List DeviceCommand)
          → Unique cs
          → (done : Inserted DeviceCommand) → commands.insert_one c cs ≡ done
          → Keeps (Lawful commands cs []) (found_after cs done)
      stored c cs u (inserted es) h = kept (insert-Lawful commands c cs es u h)
      stored c cs u duplicate_key h = refused
      stored c cs u insert_failed h = refused

  pending-Lawful :
      (key : Text) (clock : List ℕ) (s : Fleet)
      → Unique s.commands
      → let (reply, s') = pending_handler commands devices hash key clock s in
        Lawful commands s.commands (handed_over reply) s'.commands
  unfolding pending_handler
  pending-Lawful key clock s u = elim (Option-cases (resolve_api_key devices hash key s.devices)) [
    | inl e ↦ rw (e, pending_handler) (Lawful-unchanged commands s.commands u)
    | inr ((device_id, ds), e) ↦
        rw (e, pending_handler) (claim_loop-Lawful device_id (take 20 clock) s.commands u)
  ]

  result-Lawful :
      (key : Text) (body : Option ResultBody) (now : ℕ) (s : Fleet)
      → Unique s.commands
      → Lawful commands s.commands []
          (result_handler commands devices from_hex hash key body now s).1.commands
  unfolding result_handler checked_result
  result-Lawful key body now s u =
      elim (Option-cases (resolve_api_key devices hash key s.devices)) [
        | inl e ↦ rw (e, result_handler) (Lawful-unchanged commands s.commands u)
        | inr ((device_id, ds), e) ↦
            let P : Fleet → Type 0 = λ t. Lawful commands s.commands [] t.commands in
            let Q : DeviceCommand × Fleet → Type 0 = λ r. P r.1 in
            rw (e, result_handler)
              (Keeps-outcome P (record s { devices = ds }) _
                (Lawful-unchanged commands s.commands u)
                (Keeps-or_refuse Q _ _ _ _ λ b _. Keeps-require Q _ _ _ _ λ valid.
                  Keeps-or_refuse Q _ _ _ _ λ id _. Keeps-or_refuse Q _ _ _ _ λ r h.
                    kept
                      (complete-Lawful commands id now device_id _ _ s.commands r.1 r.0 valid u h)))
      ]

  serve-Lawful :
      (r : Request) (s : Fleet)
      → Unique s.commands
      → let (out, s') = serve r s in Lawful commands s.commands out s'.commands
  unfolding serve
  serve-Lawful (create max_hours id device_id user body now) s u =
      create-Lawful max_hours id device_id user body now s u
  serve-Lawful (poll key clock) s u = pending-Lawful key clock s u
  serve-Lawful (report key body now) s u = result-Lawful key body now s u

  serve_all-Lawful :
      (rs : List Request) (s : Fleet)
      → Unique s.commands
      → let (out, s') = serve_all rs s in Lawful commands s.commands out s'.commands
  unfolding serve_all
  serve_all-Lawful [] s u = Lawful-unchanged commands s.commands u
  serve_all-Lawful (r ∷ rs) s u =
      let first = serve-Lawful r s u in
      Lawful-trans commands s.commands _ _ _ _ first (serve_all-Lawful rs _ first.unique)

  -- Whatever creations, polls and reports are served, in any order and by however many agents,
  -- starting from commands with unique ids: the commands handed out have different ids, so none is
  -- handed out twice, and the stored commands keep unique ids.
  pub serve_all-Unique :
      (rs : List Request) (s : Fleet)
      → Unique s.commands
      → let (out, s') = serve_all rs s in Unique out × Unique s'.commands
  serve_all-Unique rs s u = let l = serve_all-Lawful rs s u in (l.once, l.unique)

  -- A command that has left `pending` stays out of it under any sequence of requests, and is never
  -- handed out again, when the commands have unique ids to start with.
  pub serve_all-Settled :
      (rs : List Request) (s : Fleet) (i : ℕ)
      → Unique s.commands
      → Settled i s.commands
      → let (out, s') = serve_all rs s in Fresh (λ c. c.id) i out × Settled i s'.commands
  serve_all-Settled rs s i u h = let l = serve_all-Lawful rs s u in (l.fresh i h, l.still i h)
