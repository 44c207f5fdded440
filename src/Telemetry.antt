-- ===== src/Telemetry.antt =====
-- How often the server stores a telemetry document whole: `snapshotTracker` and
-- `telemetryDocForStorage` of api/telemetry_slim.go. Of a document only its kind is kept here.
pub mod Snapshots
use device_pulse.Prelude.{
  ℕ, ◌+◌, ◌==◌, Text, codes, Bool, true, false, ◌++◌, Option, none, some, Map, lookup, insert, ltb,
  if◌then◌else◌, text_eq,
}

-- When each device and role last stored a snapshot, in nanoseconds.
abbrev pub SnapshotTracker : Type 0
SnapshotTracker = Map Text ℕ

abbrev pub is_fresh : Option ℕ → ℕ → ℕ → Bool
is_fresh none now every = false
is_fresh (some last) now every = ltb now (last + every)

unfoldable pub due : SnapshotTracker → Text → ℕ → ℕ → Bool × SnapshotTracker
due s key now every =
    if every == 0
    then (false, s)
    else if is_fresh (lookup key s) now every
    then (false, s)
    else (true, insert key now s)

pub data Stored : Type 0 where
  metadata full snapshot slim : Stored

-- `device_id` and `role` as `fmt.Sprint` prints them.
unfoldable pub storage_kind :
    Bool → Bool → Text → Text → ℕ → ℕ → SnapshotTracker → Stored × SnapshotTracker
unfolding due
storage_kind archived store_full device_id role now every s =
    if archived
    then (metadata, s)
    else if store_full
    then (full, s)
    else let (is_due, s') = due s (device_id ++ codes "|" ++ role) now every in
      ((if is_due then snapshot else slim), s')
