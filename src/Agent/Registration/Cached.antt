-- ===== src/Agent/Registration/Cached.antt =====
-- What a registration, agent/main.go, leaves behind when it succeeds and when it fails.
use device_pulse.Prelude.{
  Bool, true, false, Option, none, some, ◌==◌, list_beq, nat_eq, text_eq, beq_refl, Bool-cases, ◌≡◌,
  refl, sym, subst, ◌⊎◌, inl, inr,
}
use device_pulse.Agent.Registration.{
  Fingerprint, Credentials, contents, Reply, no_reply, reply, RegistrationError, not_persisted,
  bad_status, undecodable, incomplete, Registered, is_complete, enroll, register_device_with_cache,
}

abbrev kept : Fingerprint → Credentials → Registered
kept fp new = record {
  credentials = new;
  cache = contents (
      some (record {
        device_id = new.device_id;
        api_key = new.api_key;
        hardware_uuid = fp.hardware_uuid;
        mac_address = fp.mac_address;
      }));
}

enroll-none :
    (fp : Fingerprint) (answer : Reply) (writes : Bool) (r : Registered)
    → (enroll fp answer writes r).0 ≡ none
    → (new : Credentials) × (is_complete new.device_id new.api_key ≡ true)
      × ((enroll fp answer writes r).1 ≡ kept fp new)
unfolding enroll
enroll-none fp no_reply writes r h = cc h
enroll-none fp (reply status none) writes r h = elim (Bool-cases (status == 200)) [
  | inl e ↦ let h' : ◌≡◌ {A = Option RegistrationError} (some undecodable) none = rw e at h in cc h'
  | inr e ↦ let h' : ◌≡◌ {A = Option RegistrationError} (some bad_status) none = rw e at h in cc h'
]
enroll-none fp (reply status (some new)) writes r h = elim (Bool-cases (status == 200)) [
  | inl e ↦ elim (Bool-cases (is_complete new.device_id new.api_key)) [
    | inl f ↦ elim (Bool-cases writes) [
      | inl g ↦ (new, f, rw (e, f, g) refl)
      | inr g ↦
          let h' : ◌≡◌ {A = Option RegistrationError} (some not_persisted) none =
            rw (e, f, g) at h in
          cc h'
    ]
    | inr f ↦
        let h' : ◌≡◌ {A = Option RegistrationError} (some incomplete) none = rw (e, f) at h in cc h'
  ]
  | inr e ↦ let h' : ◌≡◌ {A = Option RegistrationError} (some bad_status) none = rw e at h in cc h'
]

register-kept :
    (fp : Fingerprint) (answer : Reply) (writes : Bool) (new : Credentials)
    → is_complete new.device_id new.api_key ≡ true
    → register_device_with_cache true fp answer writes (kept fp new) ≡ (none, kept fp new)
unfolding register_device_with_cache
register-kept fp answer writes new c =
    let hw : list_beq fp.hardware_uuid fp.hardware_uuid ≡ true = beq_refl fp.hardware_uuid in
    let mac : list_beq fp.mac_address fp.mac_address ≡ true = beq_refl fp.mac_address in
    rw (c, hw, mac) refl

at_server :
    (fp : Fingerprint) (answer : Reply) (writes : Bool) (r : Registered)
    → (register_device_with_cache false fp answer writes r).0 ≡ none
    → (new : Credentials) × (is_complete new.device_id new.api_key ≡ true)
      × ((register_device_with_cache false fp answer writes r).1 ≡ kept fp new)
unfolding register_device_with_cache
at_server fp answer writes r h = enroll-none fp answer writes r h

-- A registration at the server that succeeds has credentials that are not empty, and the next start on the same hardware takes the same ones
-- from the cache, whatever the server would answer then.
pub register_device_with_cache-cached :
    (fp : Fingerprint) (answer later : Reply) (writes writes_later : Bool) (r : Registered)
    → (register_device_with_cache false fp answer writes r).0 ≡ none
    → let r' = (register_device_with_cache false fp answer writes r).1 in
      (is_complete r'.credentials.device_id r'.credentials.api_key ≡ true)
      × (register_device_with_cache true fp later writes_later r' ≡ (none, r'))
register_device_with_cache-cached fp answer later writes writes_later r h =
    let (new, complete, same) = at_server fp answer writes r h in
    subst
      (λ r'.
        (is_complete r'.credentials.device_id r'.credentials.api_key ≡ true)
        × (register_device_with_cache true fp later writes_later r' ≡ (none, r')))
      (sym same) (complete, register-kept fp later writes_later new complete)

Failed : Registered → RegistrationError → Registered → Type 0
Failed r e r' =
    (r' ≡ r)
    ⊎ ((e ≡ not_persisted)
        × (r'.cache ≡ r.cache)
        × (is_complete r'.credentials.device_id r'.credentials.api_key ≡ true))
