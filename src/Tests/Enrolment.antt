-- ===== src/Tests/Enrolment.antt =====
-- A machine that is known registers again, without an enrolment token.
use device_pulse.Prelude.{
  Bool, At, here, there, Bool-cases, inl, inr, Text, codes, true, false, List, [], ◌∷◌, some,
  text_eq, list_beq, ◌≡◌, refl,
}
use device_pulse.Db.{Driver}
use device_pulse.Db.InMemory.{in_memory, find_first, update_first}
use device_pulse.Http.{◌>>=◌, ◌>>◌, require, or_refuse, outcome}
use device_pulse.Commands.{Device, Fleet}
use device_pulse.Commands.Enrolment.{
  Identity, with_hostname, Revocation, Circumstances, valid_identity_field, revoked_device_filter,
  is_device_revoked, rotate_device_key, new_device, recover, known_device, register_known,
  register_handler,
}
use device_pulse.Commands.Enrolment.Admitted.{NotRevoked, Entitled, Held, register_handler-Held}

abbrev pub devices_db : Driver Device (λ d. d.id)
devices_db = in_memory (λ d. d.id)

abbrev pub revocations_db : Driver Revocation (λ r. r.id)
revocations_db = in_memory (λ r. r.id)

abbrev pub hash : Text → Text
hash key = b'#' ∷ key

abbrev pub identity : Identity
identity = record { hostname = []; hardware_uuid = codes "u"; mac_address = codes "m" }

abbrev pub first : Circumstances
first = record {
  key = codes "k1";
  second_key = codes "k2";
  new_id = 1;
  now = 5;
  stamp = codes "5";
  may_enrol = false;
}

abbrev pub again : Circumstances
again = record first { key = codes "k3"; now = 9 }

-- Another machine has been revoked.
abbrev revoked : List Revocation
revoked =
    record {
      id = 1;
      device_id = codes "x";
      hardware_uuid = codes "v";
      mac_address = [];
      hostname = [];
      reason = codes "device_deleted";
      revoked_at = 1;
      created_at = 1;
    }
    ∷ []

abbrev pub fleet : Fleet
fleet = record {
  commands = [];
  devices = new_device devices_db revocations_db hash (with_hostname identity) first ∷ [];
  audit = [];
}

abbrev after : Fleet
after = (register_handler devices_db revocations_db hash true (some identity) again revoked fleet).1

pub find_first-some {ℓ} :
    {D : Type ℓ} (p : D → Bool) (ds : List D) (d : D)
    → At d ds
    → p d ≡ true
    → (x : D) × (find_first p ds ≡ some x)
unfolding find_first
find_first-some p [] d m h = elim m [ ]
find_first-some p (y ∷ ds) d here h = (y, rw h refl)
find_first-some p (y ∷ ds) d (there m) h = elim (Bool-cases (p y)) [
  | inl hit ↦ (y, rw hit refl)
  | inr miss ↦ let (x, found) = find_first-some p ds d m h in (x, rw miss found)
]

register_handler-Held_example :
    let i = with_hostname identity in
    NotRevoked [] i revoked
    × Entitled devices_db revocations_db hash i again revoked fleet.devices (codes "device-u")
    × Held devices_db revocations_db hash i (codes "device-u", codes "k3") after.devices
unfolding register_handler register_known known_device recover rotate_device_key is_device_revoked
    revoked_device_filter valid_identity_field find_first update_first outcome require or_refuse
    ◌>>=◌ ◌>>◌ list_beq
register_handler-Held_example =
    register_handler-Held devices_db revocations_db hash true identity again revoked fleet after
      (codes "device-u", codes "k3") refl find_first-some
