-- ===== src/Commands/Deletion/Erased.antt =====
-- What a successful `deviceDeleteHandler` of api/main.go leaves of a device.
use device_pulse.Prelude.{
  ℕ, String, Text, codes, Bool, false, not, List, [], ◌∷◌, none, some, ◌==◌, text_eq, lookup, erase,
  lookup-erase, beq_refl, filter, All, ◌≡◌, refl, sym, ◌∙◌, ap, subst, inl, inr, arith,
  Option-cases,
}
use device_pulse.Db.{Driver}
use device_pulse.Db.Removal.{Remover, Removes}
use device_pulse.Http.{Checked, ok, refuse, require, or_refuse-ok}
use device_pulse.Commands.{Device, of_device}
use device_pulse.Commands.Enrolment.{Revocation}
use device_pulse.Commands.Deletion.{
  DeviceDocument, owned_by, Registry, Removal, ◌andthen◌, path_device_id, create_device_revocation,
  revoke, delete_device, delete_telemetry, delete_app_usage, forget, clean_up,
  device_delete_handler,
}

-- What holds of the state that a chain leaves when it succeeds.
data EndsWell {ℓ κ μ} {B : Type ℓ} {S : Type κ} (Q : S → Type μ)
    : Checked B × S → Type (ℓ ⊔ κ ⊔ μ) where
  ended : {b : B} {s : S} → Q s → EndsWell Q (ok b, s)
  stopped : {code : ℕ} {message : String} {s : S} → EndsWell Q (refuse code message, s)

andthen-EndsWell {ℓ κ μ ν} :
    {A : Type ℓ} {B : Type κ} {S : Type μ} (Q : S → Type ν) (m : Checked A × S)
    (k : A → S → Checked B × S)
    → ((a : A) → m.0 ≡ ok a → EndsWell Q (k a m.1))
    → EndsWell Q (m andthen k)
unfolding ◌andthen◌
andthen-EndsWell Q (ok a, s) k h = h a refl
andthen-EndsWell Q (refuse code message, s) k h = stopped

EndsWell-ok {ℓ κ μ} :
    {B : Type ℓ} {S : Type κ} (Q : S → Type μ) {r : Checked B × S} {b : B} {s : S}
    → r ≡ (ok b, s)
    → EndsWell Q r
    → Q s
EndsWell-ok Q {s = s} e (ended h) = subst Q (ap (λ r. r.1) e) h
EndsWell-ok Q e stopped = absurd (ground arith)

EndsWell-map {ℓ κ μ ν} :
    {B : Type ℓ} {S : Type κ} (P : S → Type μ) (Q : S → Type ν) (r : Checked B × S)
    → ((s : S) → P s → Q s)
    → EndsWell P r
    → EndsWell Q r
EndsWell-map P Q r f (ended {s = s} h) = ended (f s h)
EndsWell-map P Q r f stopped = stopped

All-filter-not {ℓ} :
    {A : Type ℓ} (p : A → Bool) (xs : List A) → All (λ x. p x ≡ false) (filter (λ x. not (p x)) xs)
unfolding filter
All-filter-not p [] = tt
All-filter-not p (x ∷ xs) = ground (arith, All-filter-not p xs)

module _ (devices : Driver Device (λ d. d.id)) (device_remover : Remover Device)
    (revocation_remover : Remover Revocation) (stored_remover : Remover DeviceDocument) where
  abbrev pub IsErased : Text → List DeviceDocument → Type 0
  IsErased device_id = All (λ d. owned_by device_id d ≡ false)

  revoke-fleet :
      (c : Removal) (d : Device) (s : Registry)
      → (revoke devices device_remover revocation_remover stored_remover c d s).1.fleet ≡ s.fleet
  unfolding revoke
  revoke-fleet c d s =
      elim (Option-cases (
        create_device_revocation devices device_remover revocation_remover stored_remover d
          (codes "device_deleted") c.new_id c.now s.revocations)) [
            | inl e ↦ rw (revoke, e) refl
            | inr (rs, e) ↦ rw (revoke, e) refl
          ]

  delete_device-Removes :
      (device_id : Text) (s : Registry) (u : Unit {0})
      → (delete_device devices device_remover revocation_remover stored_remover device_id s).0
        ≡ ok u
      → Removes
          (of_device device_id)
          s.fleet.devices
          (delete_device devices device_remover revocation_remover stored_remover device_id
            s).1.fleet.devices
  unfolding delete_device require
  delete_device-Removes device_id s u h =
      elim (Option-cases (device_remover.delete_one (of_device device_id) s.fleet.devices)) [
        | inl e ↦
            let failed : ◌≡◌ {A = Checked (Unit {0})} (refuse 500 "Database error") (ok u) =
              rw (delete_device, e) at h in
            cc failed
        | inr ((n, ds), e) ↦
            let found : require (not (n == 0)) 404 "Device not found" ≡ ok u =
              rw (delete_device, e) at h in
            elim (device_remover.delete_one_lem (of_device device_id) s.fleet.devices ds n e) [
              | inl (z, same, miss) ↦
                  let absent : ◌≡◌ {A = Checked (Unit {0})} (refuse 404 "Device not found") (ok u) =
                    rw z at found in
                  cc absent
              | inr (one, removed) ↦ rw (delete_device, e) removed
            ]
      ]

  delete_telemetry-IsErased :
      (device_id : Text) (s : Registry) (n : ℕ)
      → (delete_telemetry devices device_remover revocation_remover stored_remover device_id s).0
        ≡ ok n
      → let t =
          (delete_telemetry devices device_remover revocation_remover stored_remover device_id
            s).1 in
        IsErased device_id t.telemetry × (t.fleet ≡ s.fleet)
  unfolding delete_telemetry
  delete_telemetry-IsErased device_id s n h =
      elim (Option-cases (stored_remover.delete_many (owned_by device_id) s.telemetry)) [
        | inl e ↦
            let failed : ◌≡◌ {A = Checked ℕ}
                (refuse 500 "Device deleted, but telemetry cleanup failed") (ok n) =
              rw (delete_telemetry, e) at h in
            cc failed
        | inr ((m, ds), e) ↦
            let (_, same) =
              stored_remover.delete_many_lem (owned_by device_id) s.telemetry ds m e in
            rw (delete_telemetry, e, same) (All-filter-not (owned_by device_id) s.telemetry, refl)
      ]

  delete_app_usage-IsErased :
      (device_id : Text) (s : Registry) (n : ℕ)
      → (delete_app_usage devices device_remover revocation_remover stored_remover device_id s).0
        ≡ ok n
      → let t =
          (delete_app_usage devices device_remover revocation_remover stored_remover device_id
            s).1 in
        IsErased device_id t.app_usage × (t.telemetry ≡ s.telemetry) × (t.fleet ≡ s.fleet)
  unfolding delete_app_usage
  delete_app_usage-IsErased device_id s n h =
      elim (Option-cases (stored_remover.delete_many (owned_by device_id) s.app_usage)) [
        | inl e ↦
            let failed : ◌≡◌ {A = Checked ℕ}
                (refuse 500 "Device deleted, but app usage cleanup failed") (ok n) =
              rw (delete_app_usage, e) at h in
            cc failed
        | inr ((m, ds), e) ↦
            let (_, same) =
              stored_remover.delete_many_lem (owned_by device_id) s.app_usage ds m e in
            rw (delete_app_usage, e, same)
              (All-filter-not (owned_by device_id) s.app_usage, refl, refl)
      ]

  -- No document of the device is left.
  abbrev pub IsForgotten : Text → Registry → Type 0
  IsForgotten device_id t =
      IsErased device_id t.telemetry
      × IsErased device_id t.app_usage
      × (lookup device_id t.focus ≡ none)

  clean_up-IsForgotten :
      (c : Removal) (device_id : Text) (s : Registry)
      → EndsWell
          (λ t. (t.fleet.devices ≡ s.fleet.devices) × IsForgotten device_id t)
          (clean_up devices device_remover revocation_remover stored_remover c device_id s)
  unfolding clean_up forget
  clean_up-IsForgotten c device_id s =
      let Q : Registry → Type 0 =
        λ t. (t.fleet.devices ≡ s.fleet.devices) × IsForgotten device_id t in
      let u =
        (delete_telemetry devices device_remover revocation_remover stored_remover device_id s).1 in
      let v =
        (delete_app_usage devices device_remover revocation_remover stored_remover device_id u).1 in
      andthen-EndsWell Q _ _ λ n emptied. andthen-EndsWell Q _ _ λ a e.
        andthen-EndsWell Q _ _ λ b e'. andthen-EndsWell Q _ _ λ m cleared.
          andthen-EndsWell Q _ _ λ z e''.
            let (no_telemetry, fleet) = delete_telemetry-IsErased device_id s n emptied in
            let (no_usage, kept_telemetry, fleet') =
              delete_app_usage-IsErased device_id u m cleared in
            let erased : lookup device_id (erase device_id v.focus) ≡ none =
              ground (arith, lookup-erase device_id device_id v.focus, beq_refl device_id) in
            ended (
              ap (λ f. f.devices) (fleet' ∙ fleet),
              (subst (IsErased device_id) (sym kept_telemetry) no_telemetry, no_usage, erased),
            )

  -- A deletion that succeeds takes a document with the device's id out of the registry and leaves
  -- no telemetry, application usage or focus time of that id.
  pub device_delete_handler-Removes :
      (is_delete : Bool) (path device_id : Text) (c : Removal) (s s' : Registry) (counts : ℕ × ℕ)
      → path_device_id path ≡ some device_id
      → device_delete_handler devices device_remover revocation_remover stored_remover is_delete
          path c s
        ≡ (ok counts, s')
      → Removes (of_device device_id) s.fleet.devices s'.fleet.devices × IsForgotten device_id s'
  unfolding device_delete_handler
  device_delete_handler-Removes is_delete path device_id c s s' counts at_path e =
      let Q : Registry → Type 0 = λ t.
        Removes (of_device device_id) s.fleet.devices t.fleet.devices × IsForgotten device_id t in
      EndsWell-ok Q e (
        andthen-EndsWell Q _ _ λ posted _. andthen-EndsWell Q _ _ λ i e'.
          let t : Device → Registry =
            λ d. (revoke devices device_remover revocation_remover stored_remover c d s).1 in
          let same : device_id ≡ i = or_refuse-ok _ _ _ i e' at_path in
          andthen-EndsWell Q _ _ λ d _. andthen-EndsWell Q _ _ λ r _.
            andthen-EndsWell Q _ _ λ u gone.
              let removed = delete_device-Removes i (t d) u gone in
              let removed' : Removes (of_device i) s.fleet.devices
                  (delete_device devices device_remover revocation_remover stored_remover i
                    (t d)).1.fleet.devices =
                subst
                  (λ f.
                    Removes (of_device i) f.devices
                      (delete_device devices device_remover revocation_remover stored_remover i
                        (t d)).1.fleet.devices)
                  (revoke-fleet c d s) removed in
              EndsWell-map _ Q _ (λ x (kept, none_left). rw same (rw kept removed', none_left))
                (clean_up-IsForgotten c i
                  (delete_device devices device_remover revocation_remover stored_remover i
                    (t d)).1))
