-- ===== src/Commands/Rights.antt =====
-- Who may do what with commands: the key that a device authenticates with, the role that a command
-- takes, and the device a command is handed to.
use device_pulse.Prelude.{
  ℕ, ◌+◌, ◌*◌, ◌≤◌, Text, Bool, true, false, not, ◌&&◌, ◌||◌, List, [], ◌∷◌, ◌++◌, Option, none,
  some, text_eq, take, lookup, ◌≡◌, refl, ap, subst, arith, All, At, ◌⊎◌, inl, inr, Bool-cases,
  Option-cases,
}
use device_pulse.Db.{Driver, Inserted, inserted, duplicate_key, insert_failed}
use device_pulse.Http.{
  Checked, ok, refuse, Keeps, kept, refused, Keeps-require, Keeps-or_refuse, Keeps-bind, Keeps-ok,
  outcome-ok,
}
use device_pulse.Access.{can_access_role}
use device_pulse.Commands.{
  DeviceCommand, Device, Fleet, Issuer, CreateBody, found_after, claimable, deliver, pending,
  revoked, day, minute, quarantine_window, default_window, command_min_role,
}
use device_pulse.Commands.Handlers.{claim_loop, create_command, checked_create, pending_handler}
use device_pulse.Commands.Devices.{resolve_api_key}

-- A device that is not revoked holds the key: its hash, or the key itself on an old document.
pub record Authentic (hash : Text → Text) (key device_id : Text) (ds : List Device) : Type 0 where
  pub device : Device
  pub registered : At device ds
  pub named : device.device_id ≡ device_id
  pub active : text_eq.beq device.status revoked ≡ false
  pub holds :
      (text_eq.beq device.api_key_hash (hash key) ≡ true) ⊎ (text_eq.beq device.api_key key ≡ true)

-- What the creation of a command by the user needs, and what it stores.
pub record Issued (user : Issuer) (device_id : Text) (now : ℕ) (cs : List DeviceCommand)
    (c : DeviceCommand) (es : List DeviceCommand) : Type 0 where
  pub min_role : Text
  pub known : lookup c.type command_min_role ≡ some min_role
  pub ranked : can_access_role user.role min_role ≡ true
  pub added : es ≡ cs ++ c ∷ []
  pub addressed : c.device_id ≡ device_id
  pub waiting : c.status ≡ pending
  pub expiry : c.expires_at ≡ now + day
  pub by : c.created_by ≡ user.email

-- A quarantine lasts at least a minute; with `QUARANTINE_MAX_HOURS` of at most 720, whatever
-- duration is asked for, it lasts at most 30 days.
pub quarantine_window-bounds :
    (max_hours : ℕ) (asked : Option ℕ)
    → max_hours ≤ 720
    → (minute ≤ quarantine_window max_hours asked) × (quarantine_window max_hours asked ≤ 30 * day)
unfolding quarantine_window default_window
quarantine_window-bounds max_hours none h = (ground (arith), ground (arith))
quarantine_window-bounds max_hours (some m) h = (ground (arith), ground (arith))

module _ (commands : Driver DeviceCommand (λ c. c.id)) (devices : Driver Device (λ d. d.id))
    (hash : Text → Text) where
  abbrev by_hash : Text → Device → Bool
  by_hash key d = text_eq.beq d.api_key_hash (hash key) && not (text_eq.beq d.status revoked)

  abbrev by_key : Text → Device → Bool
  by_key key d = text_eq.beq d.api_key key && not (text_eq.beq d.status revoked)

  abbrev Resolved : Text → Text → List Device → Type 0
  Resolved key device_id ds =
      (text_eq.beq key [] ≡ false)
      × (text_eq.beq device_id [] ≡ false)
      × Authentic hash key device_id ds

  -- The document that a filter on the key has found.
  found-Authentic :
      (holds : Device → Bool) (key device_id : Text) (d : Device) (ds : List Device)
      → ((d : Device)
          → holds d ≡ true
          → (text_eq.beq d.api_key_hash (hash key) ≡ true) ⊎ (text_eq.beq d.api_key key ≡ true))
      → devices.find_one (λ d. holds d && not (text_eq.beq d.status revoked)) ds ≡ some d
      → d.device_id ≡ device_id
      → Authentic hash key device_id ds
  found-Authentic holds key device_id d ds way f named =
      let (m, t) = devices.find_one_lem _ ds d f in
      record {
        device = d;
        registered = m;
        named = named;
        active = ground (arith, t);
        holds = way d (ground (arith, t));
      }

  -- The fallback to a plaintext key.
  plaintext-Resolved :
      (key device_id : Text) (ds es : List Device)
      → text_eq.beq key [] ≡ false
      → devices.find_one (by_hash key) ds ≡ none
      → resolve_api_key devices hash key ds ≡ some (device_id, es)
      → Resolved key device_id ds
  unfolding resolve_api_key
  plaintext-Resolved key device_id ds es e f h =
      elim (Option-cases (devices.find_one (by_key key) ds)) [
        | inl f2 ↦
            let none_is : ◌≡◌ {A = Option (Text × List Device)} none (some (device_id, es)) =
              rw (e, f, f2, resolve_api_key) at h in
            ground arith
        | inr (d, f2) ↦ elim (Bool-cases (text_eq.beq d.device_id [])) [
          | inl g ↦
              let none_is : ◌≡◌ {A = Option (Text × List Device)} none (some (device_id, es)) =
                rw (e, f, f2, g, resolve_api_key) at h in
              ground arith
          | inr g ↦
              let found = rw (e, f, f2, g, resolve_api_key) at h in
              let named : d.device_id ≡ device_id = ground (arith, found) in
              (
                e,
                subst (λ x. text_eq.beq x [] ≡ false) named g,
                found-Authentic (λ d. text_eq.beq d.api_key key) key device_id d ds (λ d t. inr t)
                    f2 named,
              )
        ]
      ]

  -- A key resolves to a device id only when the key is not empty, and a device that is not revoked
  -- holds it under that id, which is not empty either.
  pub resolve_api_key-Authentic :
      (key device_id : Text) (ds es : List Device)
      → resolve_api_key devices hash key ds ≡ some (device_id, es)
      → (text_eq.beq key [] ≡ false)
        × (text_eq.beq device_id [] ≡ false)
        × Authentic hash key device_id ds
  unfolding resolve_api_key
  resolve_api_key-Authentic key device_id ds es h = elim (Bool-cases (text_eq.beq key [])) [
    | inl e ↦
        let none_is : ◌≡◌ {A = Option (Text × List Device)} none (some (device_id, es)) =
          rw (e, resolve_api_key) at h in
        ground arith
    | inr e ↦ elim (Option-cases (devices.find_one (by_hash key) ds)) [
      | inl f ↦ plaintext-Resolved key device_id ds es e f h
      | inr (d, f) ↦
          elim (Bool-cases
            (not (text_eq.beq d.api_key_hash (hash key)) || text_eq.beq d.device_id [])) [
              | inl g ↦
                  let none_is : ◌≡◌ {A = Option (Text × List Device)} none (some (device_id, es)) =
                    rw (e, f, g, resolve_api_key) at h in
                  ground arith
              | inr g ↦
                  let found = rw (e, f, g, resolve_api_key) at h in
                  let named : d.device_id ≡ device_id = ground (arith, found) in
                  (
                    e,
                    subst (λ x. text_eq.beq x [] ≡ false) named (ground (arith, g)),
                    found-Authentic (λ d. text_eq.beq d.api_key_hash (hash key)) key device_id d ds
                        (λ d t. inl t) f named,
                  )
            ]
    ]
  ]

  claimed-addressed :
      (device_id : Text) (clock : List ℕ) (cs : List DeviceCommand)
      → All
          (λ c. text_eq.beq c.device_id device_id ≡ true)
          (claim_loop commands devices device_id clock cs).0
  unfolding claim_loop
  claimed-addressed device_id [] cs = tt
  claimed-addressed device_id (now ∷ nows) cs =
      elim (Option-cases (
        commands.find_one_and_update (claimable device_id now) (deliver now) (λ c. c.created_at)
          cs)) [
            | inl e ↦ rw (e, claim_loop) tt
            | inr ((c, es), e) ↦
                let (d, m, t, same, u, least) = commands.find_one_and_update_lem _ _ _ cs es c e in
                let own : text_eq.beq c.device_id device_id ≡ true = rw same (ground (arith, t)) in
                rw (e, claim_loop) (own, claimed-addressed device_id nows es)
          ]

  -- The commands that a poll answers with are all addressed to a device that is not revoked and
  -- holds the key of the poll.
  pub pending-Authentic :
      (key : Text) (clock : List ℕ) (s s' : Fleet) (cs : List DeviceCommand)
      → pending_handler commands devices hash key clock s ≡ (ok cs, s')
      → (device_id : Text) × Authentic hash key device_id s.devices
        × All (λ c. text_eq.beq c.device_id device_id ≡ true) cs
  unfolding pending_handler
  pending-Authentic key clock s s' cs h =
      elim (Option-cases (resolve_api_key devices hash key s.devices)) [
        | inl e ↦
            let refused' : ◌≡◌ {A = Checked (List DeviceCommand) × Fleet}
                (refuse 401 "Unauthorized", s) (ok cs, s') =
              rw (e, pending_handler) at h in
            absurd (ground arith)
        | inr ((device_id, ds), e) ↦
            let (claimed, left) =
              claim_loop commands devices device_id (take 20 clock) s.commands in
            let same : ◌≡◌ {A = Checked (List DeviceCommand)}
                (ok (claim_loop commands devices device_id (take 20 clock) s.commands).0) (ok cs) =
              ap (λ r. r.0) (rw (e, pending_handler) at h) in
            let eq : (claim_loop commands devices device_id (take 20 clock) s.commands).0 ≡ cs =
              ground arith in
            let (_, _, a) = resolve_api_key-Authentic key device_id s.devices ds e in
            (
              device_id,
              a,
              subst (All (λ c. text_eq.beq c.device_id device_id ≡ true)) eq
                  (claimed-addressed device_id (take 20 clock) s.commands),
            )
      ]

  -- A command that is created is of a known type that the user's role ranks for; it is stored
  -- behind the others, addressed to the device, in the user's name, pending, and expires after 24
  -- hours.
  pub create-Issued :
      (max_hours id : ℕ) (device_id : Text) (user : Issuer) (body : Option CreateBody) (now : ℕ)
      (s s' : Fleet) (c : DeviceCommand)
      → create_command commands devices max_hours id device_id user body now s ≡ (ok c, s')
      → Issued user device_id now s.commands c s'.commands
  unfolding create_command checked_create
  create-Issued max_hours id device_id user body now s s' c h =
      let P : DeviceCommand × Fleet → Type 0 =
        λ r. Issued user device_id now s.commands r.0 r.1.commands in
      Keeps-ok P (outcome-ok s _ h) (
        Keeps-or_refuse P _ _ _ _ λ b _. Keeps-or_refuse P _ _ _ _ λ m known.
          Keeps-require P _ _ _ _ λ ranked.
            Keeps-bind P (λ es. es ≡ s.commands ++ _ ∷ []) _ _ (stored _ s.commands _ refl)
              λ es added. kept (record {
                min_role = m;
                known = known;
                ranked = ranked;
                added = added;
                addressed = refl;
                waiting = refl;
                expiry = refl;
                by = refl;
              }))
    where
      stored :
          (c : DeviceCommand) (cs : List DeviceCommand) (done : Inserted DeviceCommand)
          → commands.insert_one c cs ≡ done
          → Keeps (λ es. es ≡ cs ++ c ∷ []) (found_after cs done)
      stored c cs (inserted es) h = kept (commands.insert_one_lem c cs es h).0
      stored c cs duplicate_key h = refused
      stored c cs insert_failed h = refused
