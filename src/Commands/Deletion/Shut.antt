-- ===== src/Commands/Deletion/Shut.antt =====
-- What `deviceDeleteHandler` of api/main.go means for `registerHandler`.
use device_pulse.Prelude.{
  ℕ, String, Text, codes, Bool, true, false, not, ◌&&◌, ◌||◌, List, [], ◌∷◌, ◌++◌, Option, none,
  some, text_eq, if◌then◌else◌, At, At-last, ◌≡◌, refl, sym, ◌∙◌, subst, ◌⊎◌, inl, inr, arith,
  Bool-cases, Option-cases,
}
use device_pulse.Db.{Driver, IsReliable}
use device_pulse.Db.Removal.{Remover}
use device_pulse.Db.Unique.{Updates-found}
use device_pulse.Http.{Checked, ok, refuse, ◌>>=◌, ◌>>◌, require, or_refuse, or_refuse-ok, outcome}
use device_pulse.Commands.{Device, Fleet, of_device}
use device_pulse.Commands.Enrolment.{
  Identity, with_hostname, Revocation, Circumstances, is_valid, same_field, revoked_device_filter,
  is_device_revoked, register_handler,
}
use device_pulse.Commands.Deletion.{
  DeviceDocument, owned_by, Registry, Removal, ◌andthen◌, path_device_id, identify, new_revocation,
  of_revoked, create_device_revocation, revoke, delete_device, delete_telemetry, delete_app_usage,
  forget, clean_up, device_delete_handler,
}

-- The machine of a device, by its UUID or its MAC address.
abbrev pub shares : Identity → Device → Bool
shares i d = same_field i.hardware_uuid d.hardware_uuid || same_field i.mac_address d.mac_address

abbrev IsRevoked : Device → List Revocation → Type 0
IsRevoked d rs =
    (r : Revocation) × At r rs
    × (r.hardware_uuid ≡ d.hardware_uuid)
    × (r.mac_address ≡ d.mac_address)

-- Where the final state of a step and of what follows it lies.
andthen-lands {ℓ κ μ ν} :
    {A : Type ℓ} {B : Type κ} {S : Type μ} (P : S → Type ν) (m : Checked A × S)
    (k : A → S → Checked B × S)
    → P m.1
    → ((a : A) → m.0 ≡ ok a → P (k a m.1).1)
    → P (m andthen k).1
unfolding ◌andthen◌
andthen-lands P (ok a, s) k p h = h a refl
andthen-lands P (refuse code message, s) k p h = p

module _ (devices : Driver Device (λ d. d.id)) (device_remover : Remover Device)
    (revocation_remover : Remover Revocation) (stored_remover : Remover DeviceDocument) where
  created-IsRevoked :
      (d : Device) (reason : Text) (new_id now : ℕ) (rs es : List Revocation)
      → create_device_revocation devices device_remover revocation_remover stored_remover d reason
          new_id now rs
        ≡ some es
      → IsRevoked d es
  unfolding create_device_revocation
  created-IsRevoked d reason new_id now rs es e =
      let filter = of_revoked d in
      let set = identify d reason now in
      let new = new_revocation d reason new_id now in
      elim (revocation_remover.upsert_one_lem filter set new rs es e) [
        | inl (same, fresh) ↦ (new, subst (At new) (sym same) (At-last new rs), refl, refl)
        | inr u ↦
            let (r, m, passes, changed) = Updates-found filter set u in (set r, changed, refl, refl)
      ]

  delete_device-revocations :
      (device_id : Text) (s : Registry)
      → (delete_device devices device_remover revocation_remover stored_remover device_id
          s).1.revocations
        ≡ s.revocations
  unfolding delete_device
  delete_device-revocations device_id s =
      elim (Option-cases (device_remover.delete_one (of_device device_id) s.fleet.devices)) [
        | inl e ↦ rw (delete_device, e) refl
        | inr ((n, ds), e) ↦ rw (delete_device, e) refl
      ]

  delete_telemetry-revocations :
      (device_id : Text) (s : Registry)
      → (delete_telemetry devices device_remover revocation_remover stored_remover device_id
          s).1.revocations
        ≡ s.revocations
  unfolding delete_telemetry
  delete_telemetry-revocations device_id s =
      elim (Option-cases (stored_remover.delete_many (owned_by device_id) s.telemetry)) [
        | inl e ↦ rw (delete_telemetry, e) refl
        | inr ((n, ds), e) ↦ rw (delete_telemetry, e) refl
      ]

  delete_app_usage-revocations :
      (device_id : Text) (s : Registry)
      → (delete_app_usage devices device_remover revocation_remover stored_remover device_id
          s).1.revocations
        ≡ s.revocations
  unfolding delete_app_usage
  delete_app_usage-revocations device_id s =
      elim (Option-cases (stored_remover.delete_many (owned_by device_id) s.app_usage)) [
        | inl e ↦ rw (delete_app_usage, e) refl
        | inr ((n, ds), e) ↦ rw (delete_app_usage, e) refl
      ]

  clean_up-revocations :
      (c : Removal) (device_id : Text) (s : Registry)
      → (clean_up devices device_remover revocation_remover stored_remover c device_id
          s).1.revocations
        ≡ s.revocations
  unfolding clean_up forget
  clean_up-revocations c device_id s =
      let P : Registry → Type 0 = λ t. t.revocations ≡ s.revocations in
      let emptied = delete_telemetry-revocations device_id s in
      let t =
        (delete_telemetry devices device_remover revocation_remover stored_remover device_id s).1 in
      let u =
        (delete_app_usage devices device_remover revocation_remover stored_remover device_id t).1 in
      let cleared : u.revocations ≡ s.revocations =
        delete_app_usage-revocations device_id t ∙ emptied in
      andthen-lands P _ _ emptied λ n e. andthen-lands P _ _ emptied λ a e'.
        andthen-lands P _ _ emptied λ b e''.
          andthen-lands P _ _ cleared λ m e'''. andthen-lands P _ _ cleared λ z e''''. cleared

  -- The device is still there, or its machine is revoked.
  abbrev IsSettled : Device → Registry → Registry → Type 0
  IsSettled d s t = (t.fleet.devices ≡ s.fleet.devices) ⊎ IsRevoked d t.revocations

  revoke-IsSettled :
      (c : Removal) (d : Device) (s : Registry)
      → IsSettled d s (revoke devices device_remover revocation_remover stored_remover c d s).1
        × ((u : Unit {0})
            → (revoke devices device_remover revocation_remover stored_remover c d s).0 ≡ ok u
            → IsRevoked d
                (revoke devices device_remover revocation_remover stored_remover c d
                  s).1.revocations)
  unfolding revoke
  revoke-IsSettled c d s =
      let created =
        create_device_revocation devices device_remover revocation_remover stored_remover d
          (codes "device_deleted") c.new_id c.now s.revocations in
      elim (Option-cases created) [
        | inl e ↦ rw (revoke, e) (inl refl, λ u h. absurd (ground arith))
        | inr (rs, e) ↦
            let gone =
              created-IsRevoked d (codes "device_deleted") c.new_id c.now s.revocations rs e in
            rw (revoke, e) (inr gone, λ u h. gone)
      ]

  removed-IsSettled :
      (c : Removal) (device_id : Text) (d : Device) (s : Registry)
      → IsSettled d s
          (revoke devices device_remover revocation_remover stored_remover c d s andthen λ _ t.
            delete_device devices device_remover revocation_remover stored_remover device_id t
            andthen λ _ t.
                clean_up devices device_remover revocation_remover stored_remover c device_id t).1
  removed-IsSettled c device_id d s =
      let P = IsSettled d s in
      let (settled, gone) = revoke-IsSettled c d s in
      let t = (revoke devices device_remover revocation_remover stored_remover c d s).1 in
      let u =
        (delete_device devices device_remover revocation_remover stored_remover device_id t).1 in
      andthen-lands P _ _ settled λ a e.
        let removed : IsRevoked d u.revocations =
          rw (delete_device-revocations device_id t) (gone a e) in
        andthen-lands P _ _ (inr removed)
          λ b e'. inr (rw (clean_up-revocations c device_id u) removed)

  deleted-IsSettled :
      (is_delete : Bool) (path device_id : Text) (c : Removal) (s : Registry) (d : Device)
      → path_device_id path ≡ some device_id
      → devices.find_one (of_device device_id) s.fleet.devices ≡ some d
      → IsSettled d s
          (device_delete_handler devices device_remover revocation_remover stored_remover is_delete
            path c s).1
  unfolding device_delete_handler
  deleted-IsSettled is_delete path device_id c s d at_path found =
      let P = IsSettled d s in
      andthen-lands P _ _ (inl refl) λ posted e. andthen-lands P _ _ (inl refl) λ i e'.
        andthen-lands P _ _ (inl refl) λ x e''.
          let same_id : device_id ≡ i = or_refuse-ok _ _ _ i e' at_path in
          let there_is : devices.find_one (of_device i) s.fleet.devices ≡ some d =
            rw (← same_id) found in
          let same : d ≡ x = or_refuse-ok _ _ _ x e'' there_is in
          rw same (removed-IsSettled c i x s)

  module _ (revocations : Driver Revocation (λ r. r.id)) (hash : Text → Text) where
    IsRevoked-is_device_revoked :
        (i : Identity) (d : Device) (rs : List Revocation)
        → IsReliable revocations
        → IsRevoked d rs
        → shares i d ≡ true
        → is_device_revoked devices revocations hash [] i rs ≡ true
    unfolding is_device_revoked revoked_device_filter device_pulse.Prelude.list_beq
    IsRevoked-is_device_revoked i d rs reliable (r, m, uuid, mac) shared =
        let passes : revoked_device_filter [] i r ≡ true = rw (uuid, mac) shared in
        let (x, found) = reliable (revoked_device_filter [] i) rs r m passes in
        rw (is_device_revoked, found) refl

    refused_registration :
        (i : Identity) (q : Circumstances) (rs : List Revocation) (s : Fleet)
        → is_valid (with_hostname i) ≡ true
        → is_device_revoked devices revocations hash [] (with_hostname i) rs ≡ true
        → register_handler devices revocations hash true (some i) q rs s
          ≡ (refuse 403 "Device registration is revoked", s)
    unfolding register_handler require or_refuse ◌>>=◌ ◌>>◌ outcome
    refused_registration i q rs s valid revoked = rw (valid, revoked) refl

    -- Once a deletion has taken a device out of the registry, however the deletion ends, a valid
    -- registration with the UUID or the MAC address of the device is refused with 403 and changes
    -- nothing, if the lookup of revocations does not fail.
    pub device_delete_handler-shut :
        (is_delete : Bool) (path device_id : Text) (c : Removal) (s s' : Registry) (d : Device)
        (i : Identity) (q : Circumstances)
        → path_device_id path ≡ some device_id
        → devices.find_one (of_device device_id) s.fleet.devices ≡ some d
        → (device_delete_handler devices device_remover revocation_remover stored_remover is_delete
            path c s).1
          ≡ s'
        → is_valid (with_hostname i) ≡ true
        → shares i d ≡ true
        → IsReliable revocations
        → (s'.fleet.devices ≡ s.fleet.devices)
          ⊎ (register_handler devices revocations hash true (some i) q s'.revocations s'.fleet
              ≡ (refuse 403 "Device registration is revoked", s'.fleet))
    device_delete_handler-shut is_delete path device_id c s s' d i q at_path found ends valid shared
          reliable =
        elim (subst (IsSettled d s) ends
          (deleted-IsSettled is_delete path device_id c s d at_path found)) [
            | inl same ↦ inl same
            | inr gone ↦ inr (
                refused_registration i q s'.revocations s'.fleet valid (
                  IsRevoked-is_device_revoked (with_hostname i) d s'.revocations reliable gone
                    shared))
          ]
