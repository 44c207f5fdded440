-- ===== src/Commands/Enrolment/Admitted.antt =====
-- Which devices `registerHandler` of api/main.go admits, and what their key is worth.
use device_pulse.Prelude.{
  All, All-from, Text, Bool, true, false, List, [], Option, none, some, text_eq, At, At-last, ◌≡◌,
  refl, sym, subst, ◌⊎◌, inl, inr, arith, Bool-cases,
}
use device_pulse.Db.{Driver, IsReliable, Inserted, inserted, duplicate_key, insert_failed}
use device_pulse.Db.Unique.{Updates-found}
use device_pulse.Http.{
  ok, outcome-ok, Keeps, kept, refused, Keeps-require, Keeps-or_refuse, Keeps-ok, Keeps-bind,
  Keeps-map,
}
use device_pulse.Commands.{Device, Fleet, of_device}
use device_pulse.Commands.Enrolment.{
  Identity, with_hostname, Revocation, Circumstances, recovery_filter, has_identity, minted_id,
  revoked_device_filter, is_device_revoked, swap_key, refresh, rotate_device_key, new_device,
  enrolled, enrol_new, recover, known_device, register_known, register_handler,
}

-- No revocation names the device id, the hardware UUID or the MAC address.
abbrev pub NotRevoked : Text → Identity → List Revocation → Type 0
NotRevoked device_id i = All (λ r. revoked_device_filter device_id i r ≡ false)

module _ (devices : Driver Device (λ d. d.id)) (revocations : Driver Revocation (λ r. r.id))
    (hash : Text → Text) where
  -- The device that the identity names, or whose id is the one of the reply.
  abbrev pub IsOurs : Identity → Text → Device → Type 0
  IsOurs i device_id d =
      ((d.hostname ≡ i.hostname)
        × (d.hardware_uuid ≡ i.hardware_uuid)
        × (d.mac_address ≡ i.mac_address))
      ⊎ (text_eq.beq d.device_id device_id ≡ true)

  -- Some device holds the key of a reply.
  abbrev pub Held : Identity → Text × Text → List Device → Type 0
  Held i reply ds = (d : Device) × At d ds × (d.api_key_hash ≡ hash reply.1) × IsOurs i reply.0 d

  rotated :
      (filter : Device → Bool) (set : Device → Device) (ds : List Device)
      → Keeps
          (λ es. (d : Device) × At (set d) es × (filter d ≡ true))
          (rotate_device_key devices revocations hash filter set ds)
  unfolding rotate_device_key
  rotated filter set ds =
      let P : List Device → Type 0 = λ es. (d : Device) × At (set d) es × (filter d ≡ true) in
      Keeps-or_refuse P _ _ _ _ λ (matched, es) updated. Keeps-require P _ _ _ _ λ some_matched.
        elim (devices.update_one_lem filter set ds es matched updated) [
          | inl (z, same, miss) ↦ absurd (ground (arith, z, some_matched))
          | inr (o, u) ↦
              let (d, m, passes, changed) = Updates-found filter set u in kept (d, changed, passes)
        ]

  -- An answer that there is no revocation is true of the stored ones, if no lookup fails.
  is_device_revoked-NotRevoked :
      (device_id : Text) (i : Identity) (rs : List Revocation)
      → IsReliable revocations
      → is_device_revoked devices revocations hash device_id i rs ≡ false
      → NotRevoked device_id i rs
  unfolding is_device_revoked
  is_device_revoked-NotRevoked device_id i rs reliable free =
      All-from (λ r. revoked_device_filter device_id i r ≡ false) rs
        λ r m. elim (Bool-cases (revoked_device_filter device_id i r)) [
          | inr miss ↦ miss
          | inl hit ↦
              let (x, found) = reliable (revoked_device_filter device_id i) rs r m hit in
              let revoked : true ≡ false = rw (is_device_revoked, found) at free in cc revoked
        ]

  -- What a request needs to be admitted.
  abbrev pub Entitled : Identity → Circumstances → List Revocation → List Device → Text → Type 0
  Entitled i c rs ds device_id =
      (c.may_enrol ≡ true)
      ⊎ ((d : Device) × At d ds
          × (recovery_filter i d ≡ true)
          × (d.device_id ≡ device_id)
          × NotRevoked d.device_id i rs)

  abbrev Fine :
      Identity → Circumstances → List Revocation → List Device → (Text × Text) × Fleet → Type 0
  Fine i c rs ds r = Entitled i c rs ds r.0.0 × Held i r.0 r.1.devices

  abbrev Admitted :
      Identity → Circumstances → List Revocation → List Device → (Text × Text) × Fleet → Type 0
  Admitted i c rs ds r = NotRevoked [] i rs × Entitled i c rs ds r.0.0 × Held i r.0 r.1.devices

  enrolled-Held :
      (i : Identity) (c : Circumstances) (ds : List Device) (o : Inserted Device)
      → ((es : List Device) → o ≡ inserted es → At (new_device devices revocations hash i c) es)
      → Keeps
          (λ r. Held i (minted_id i c.stamp, r.0) r.1)
          (enrolled devices revocations hash i c ds o)
  unfolding enrolled
  enrolled-Held i c ds (inserted es) there_is =
      kept (new_device devices revocations hash i c, there_is es refl, refl, inl (refl, refl, refl))
  enrolled-Held i c ds duplicate_key there_is =
      let filter = of_device (minted_id i c.stamp) in
      let set = swap_key devices revocations hash c.second_key c.now in
      Keeps-bind (λ r. Held i (minted_id i c.stamp, r.0) r.1)
        (λ es. (d : Device) × At (set d) es × (filter d ≡ true)) _ _ (rotated filter set ds)
        λ es (d, changed, passes). kept (set d, changed, refl, inr passes)
  enrolled-Held i c ds insert_failed there_is = refused

  inserted_there :
      (i : Identity) (c : Circumstances) (ds es : List Device)
      → devices.insert_one (new_device devices revocations hash i c) ds ≡ inserted es
      → At (new_device devices revocations hash i c) es
  inserted_there i c ds es e =
      let d = new_device devices revocations hash i c in
      let (same, fresh) = devices.insert_one_lem d ds es e in subst (At d) (sym same) (At-last d ds)

  enrol_new-Fine :
      (i : Identity) (c : Circumstances) (rs : List Revocation) (s : Fleet)
      → Keeps (Fine i c rs s.devices) (enrol_new devices revocations hash i c s)
  unfolding enrol_new
  enrol_new-Fine i c rs s =
      let P = Fine i c rs s.devices in
      Keeps-require P _ _ _ _ λ may.
        Keeps-bind P (λ r. Held i (minted_id i c.stamp, r.0) r.1) _ _
          (enrolled-Held i c s.devices
            (devices.insert_one (new_device devices revocations hash i c) s.devices)
            (λ es e. inserted_there i c s.devices es e))
          λ r held. kept (inl may, held)

  recover-Fine :
      (i : Identity) (c : Circumstances) (rs : List Revocation) (s : Fleet) (d : Device)
      → At d s.devices
      → recovery_filter i d ≡ true
      → IsReliable revocations
      → Keeps (Fine i c rs s.devices) (recover devices revocations hash i c rs s d)
  unfolding recover
  recover-Fine i c rs s d m known reliable =
      let P = Fine i c rs s.devices in
      let set = refresh devices revocations hash c.key c.now i in
      Keeps-require P _ _ _ _ λ free.
        let not_revoked =
          is_device_revoked-NotRevoked d.device_id i rs reliable (ground (arith, free)) in
        Keeps-bind P (λ es. (e : Device) × At (set e) es × (recovery_filter i e ≡ true)) _ _
          (rotated (recovery_filter i) set s.devices)
          λ es (e, changed, passes).
            kept
              (inr (d, m, known, refl, not_revoked), (set e, changed, refl, inl (refl, refl, refl)))

  known-Fine :
      (i : Identity) (c : Circumstances) (rs : List Revocation) (s : Fleet) (o : Option Device)
      → known_device devices revocations hash i s.devices ≡ o
      → IsReliable revocations
      → Keeps (Fine i c rs s.devices) (register_known devices revocations hash i c rs s o)
  unfolding register_known known_device
  known-Fine i c rs s none e reliable = enrol_new-Fine i c rs s
  known-Fine i c rs s (some d) e reliable = elim (Bool-cases (has_identity i)) [
    | inl h ↦
        let found : devices.find_one (recovery_filter i) s.devices ≡ some d = rw h at e in
        let (m, passes) = devices.find_one_lem (recovery_filter i) s.devices d found in
        recover-Fine i c rs s d m passes reliable
    | inr h ↦ let absent : ◌≡◌ {A = Option Device} none (some d) = rw h at e in cc absent
  ]

  -- If no lookup of revocations fails, a registration succeeds only where no stored revocation names
  -- the hardware, and either with the enrolment token that the server asks for, or for hardware
  -- that a stored device has, whose device id is then the one of the reply and is not named by a
  -- revocation either. The key of the reply is then stored as a hash with a device that has this
  -- identity, or the device id of the reply.
  pub register_handler-Held :
      (is_post : Bool) (sent : Identity) (c : Circumstances) (rs : List Revocation) (s s' : Fleet)
      (reply : Text × Text)
      → register_handler devices revocations hash is_post (some sent) c rs s ≡ (ok reply, s')
      → IsReliable revocations
      → let i = with_hostname sent in
        NotRevoked [] i rs × Entitled i c rs s.devices reply.0 × Held i reply s'.devices
  unfolding register_handler
  register_handler-Held is_post sent c rs s s' reply e reliable =
      let i = with_hostname sent in
      Keeps-ok (Admitted (with_hostname sent) c rs s.devices) (outcome-ok s _ e) (
        let P = Admitted (with_hostname sent) c rs s.devices in
        Keeps-require P _ _ _ _ λ posted. Keeps-or_refuse P _ _ _ _ λ b same.
          Keeps-require P _ _ _ _ λ valid. Keeps-require P _ _ _ _ λ free.
            let sent_is : b ≡ sent = ground (arith, same) in
            let i = with_hostname b in
            let not_revoked =
              is_device_revoked-NotRevoked [] i rs reliable (ground (arith, free)) in
            Keeps-map (Fine i c rs s.devices) P _
              (λ r fine.
                subst (λ x. Admitted (with_hostname x) c rs s.devices r) sent_is
                  (not_revoked, fine.0, fine.1))
              (known-Fine i c rs s (known_device devices revocations hash i s.devices) refl
                reliable))
