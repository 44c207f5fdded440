-- ===== src/Tests/Lease.antt =====
-- Two collectors of one device.
use device_pulse.Prelude.{
  Text, codes, false, List, [], ◌∷◌, none, ◌≡◌, refl, arith, list_beq, text_eq,
}
use device_pulse.Go.Strings.{trim_space, trim_left, trim_right}
use device_pulse.Db.{Driver}
use device_pulse.Db.InMemory.{in_memory, update_first}
use device_pulse.Activity.Lease.{LeasedDevice, Payload, claim_active_window_lease}
use device_pulse.Activity.Lease.Holder.{Claim, claims, lease_excludes}

abbrev db : Driver LeasedDevice (λ d. d.id)
db = in_memory (λ d. d.id)

abbrev payload : Text → Payload
payload collector = record { stamp = none; collector_id = collector }

abbrev devices : List LeasedDevice
devices = record { id = 1; device_id = codes "d"; lease_id = []; lease_until = none } ∷ []

-- The holder renews its lease in between.
abbrev renewal : List Claim
renewal = record { device_id = codes "d"; payload = payload (codes "a"); at = 70 } ∷ []

lease_excludes_example :
    (claim_active_window_lease db (codes "d") (payload (codes "b")) 100 (
      claims db renewal
        (claim_active_window_lease db (codes "d") (payload (codes "a")) 50 devices).1)).0
    ≡ false
unfolding claim_active_window_lease update_first trim_space trim_left trim_right list_beq
lease_excludes_example =
    lease_excludes db (codes "d") (payload (codes "a")) (payload (codes "b")) 50 100 renewal devices
      ((λ h. tt), tt) refl refl refl refl ((omega arith, omega arith), tt) (omega arith)
