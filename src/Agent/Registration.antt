-- ===== src/Agent/Registration.antt =====
-- How the agent gets its credentials, agent/main.go and agent/credentials.go: from the cache of an
-- earlier registration, or from the server. A missing key of a JSON object is the empty text.
pub mod Cached
use device_pulse.Prelude.{
  ℕ, Text, Bool, true, false, not, ◌&&◌, [], Option, none, some, ◌==◌, if◌then◌else◌, list_beq,
  nat_eq,
}

pub record Fingerprint : Type 0 where
  pub hostname : Text
  pub hardware_uuid : Text
  pub mac_address : Text

pub record Credentials : Type 0 where
  pub device_id : Text
  pub api_key : Text

-- registration.json
pub record CachedRegistration : Type 0 where
  pub device_id : Text
  pub api_key : Text
  pub hardware_uuid : Text
  pub mac_address : Text

-- What reading that file gives: no file, an error, or its contents, if they are JSON.
pub data CacheFile : Type 0 where
  missing : CacheFile
  unreadable : CacheFile
  contents : Option CachedRegistration → CacheFile

-- The server's answer: none, a status, and the body, if it is JSON.
pub data Reply : Type 0 where
  no_reply : Reply
  reply : ℕ → Option Credentials → Reply

pub data RegistrationError : Type 0 where
  cache_unreadable : RegistrationError
  request_failed : RegistrationError
  bad_status : RegistrationError
  undecodable : RegistrationError
  incomplete : RegistrationError
  not_persisted : RegistrationError

-- The credentials in memory, and the cache on the disk.
pub record Registered : Type 0 where
  pub credentials : Credentials
  pub cache : CacheFile

abbrev pub is_complete : Text → Text → Bool
is_complete id key = not (list_beq id []) && not (list_beq key [])

abbrev pub matches : Fingerprint → CachedRegistration → Bool
matches fp reg =
    (is_complete reg.device_id reg.api_key && list_beq reg.hardware_uuid fp.hardware_uuid)
    && list_beq reg.mac_address fp.mac_address

-- The request to the server, and what is made of its answer; `writes` says whether the cache can
-- be written.
unfoldable pub enroll :
    Fingerprint → Reply → Bool → Registered → Option RegistrationError × Registered
enroll fp no_reply writes r = (some request_failed, r)
enroll fp (reply status body) writes r =
    if not (status == 200) then (some bad_status, r) else elim body [
      | none ↦ (some undecodable, r)
      | some new ↦
          if not (is_complete new.device_id new.api_key)
          then (some incomplete, r)
          else let known = record r { credentials = new } in
            if writes
            then (
              none,
              record known {
                cache = contents (
                    some (record {
                      device_id = new.device_id;
                      api_key = new.api_key;
                      hardware_uuid = fp.hardware_uuid;
                      mac_address = fp.mac_address;
                    }));
              },
            )
            else (some not_persisted, known)
    ]

unfoldable pub register_device_with_cache :
    Bool → Fingerprint → Reply → Bool → Registered → Option RegistrationError × Registered
unfolding enroll
register_device_with_cache use_cache fp answer writes r =
    if not use_cache then enroll fp answer writes r else elim r.cache [
      | missing ↦ enroll fp answer writes r
      | unreadable ↦ (some cache_unreadable, r)
      | contents found ↦ elim found [
        | none ↦ enroll fp answer writes r
        | some reg ↦
            if matches fp reg
            then (
              none,
              record r {
                credentials = record { device_id = reg.device_id; api_key = reg.api_key };
              },
            )
            else enroll fp answer writes r
      ]
    ]

-- Whether the credentials have changed.
unfoldable pub reload_credentials_from_cache : Registered → Bool × Registered
reload_credentials_from_cache r = elim r.cache [
  | missing ↦ (false, r)
  | unreadable ↦ (false, r)
  | contents found ↦ elim found [
    | none ↦ (false, r)
    | some reg ↦
        if not (is_complete reg.device_id reg.api_key)
        then (false, r)
        else if list_beq reg.api_key r.credentials.api_key
        then (false, r)
        else (
          true,
          record r { credentials = record { device_id = reg.device_id; api_key = reg.api_key } },
        )
  ]
]
