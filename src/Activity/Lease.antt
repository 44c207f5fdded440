-- ===== src/Activity/Lease.antt =====
-- The lease of a device's active-window collector, api/main.go: `isLiveCollectorPayload`,
-- `claimActiveWindowLease` and the part of `ingestHandler` that asks them. Instants are in
-- nanoseconds; `time.Parse` gives the instant of the time stamp, if it is one.
pub mod Holder
use device_pulse.Prelude.{
  ℕ, ◌+◌, ◌*◌, Text, codes, Bool, true, false, not, ◌&&◌, ◌||◌, List, [], Option, none, some, leb,
  ltb, ◌==◌, text_eq, if◌then◌else◌,
}
use device_pulse.Go.Strings.{trim_space}
use device_pulse.Db.{Driver}

-- The fields of a device document that the lease uses.
pub record LeasedDevice : Type 0 where
  pub id : ℕ
  pub device_id : Text
  pub lease_id : Text
  pub lease_until : Option ℕ

-- What a payload has as `timestamp`, read as a time, and as `agent_session_id`, empty if it is no
-- text.
pub record Payload : Type 0 where
  pub stamp : Option ℕ
  pub collector_id : Text

abbrev pub lease_time : ℕ
lease_time = 2 * 60 * 1_000_000_000

unfoldable pub is_live_collector_payload : Payload → ℕ → Bool
is_live_collector_payload p now = elim p.stamp [
  | none ↦ true
  | some stamp ↦ leb stamp (now + lease_time) && leb now (stamp + lease_time)
]

abbrev pub is_free : Option ℕ → ℕ → Bool
is_free none now = true
is_free (some until) now = leb until now

-- The filter of the update, and the update.
abbrev pub may_claim : Text → Text → ℕ → LeasedDevice → Bool
may_claim device_id collector_id now d =
    text_eq.beq d.device_id device_id
    && (is_free d.lease_until now || text_eq.beq d.lease_id collector_id)

abbrev pub claim : Text → ℕ → LeasedDevice → LeasedDevice
claim collector_id now d = record d {
  lease_id = collector_id;
  lease_until = some (now + lease_time);
}

module _ (db : Driver LeasedDevice (λ d. d.id)) where
  unfoldable pub claim_active_window_lease :
      Text → Payload → ℕ → List LeasedDevice → Bool × List LeasedDevice
  claim_active_window_lease device_id p now ds =
      if text_eq.beq (trim_space p.collector_id) []
      then (true, ds)
      else elim (db.update_one (may_claim device_id p.collector_id now) (claim p.collector_id now)
          ds) [ none ↦ (false, ds) | some (matched, ds') ↦ (matched == 1, ds') ]

  -- Whether `ingestHandler` takes the active-window payload in, when it reads the clock at `now` and
  -- the claim reads it at `later`.
  unfoldable pub admits : Text → Payload → ℕ → ℕ → List LeasedDevice → Bool × List LeasedDevice
  admits device_id p now later ds =
      if is_live_collector_payload p now
      then claim_active_window_lease device_id p later ds
      else (true, ds)
