-- ===== src/Tests/Telemetry.antt =====
-- Documents of two devices within an hour.
use device_pulse.Prelude.{
  ℕ, ◌≤◌, Text, codes, list_beq, lookup, insert, List, [], ◌∷◌, arith, refl, ◌≡◌,
}
use device_pulse.Telemetry.{storage_kind, due}
use device_pulse.Telemetry.Snapshots.{Sync, key_of, snapshots, snapshots-le_one}

abbrev sync : Text → ℕ → Sync
sync d t = record { device_id = d; role = codes "r"; at = t }

abbrev syncs : List Sync
syncs = sync (codes "d") 10 ∷ sync (codes "e") 20 ∷ sync (codes "d") 30 ∷ []

abbrev key : Text
key = key_of (sync (codes "d") 0)

stores_one : snapshots key 60 [] syncs ≡ 1
unfolding snapshots storage_kind due lookup insert list_beq
stores_one = refl

snapshots-le_one_example : snapshots key 60 [] syncs ≤ 1
snapshots-le_one_example =
    snapshots-le_one key 60 10 [] syncs
      ((omega arith, omega arith), ((omega arith, omega arith), ((omega arith, omega arith), tt)))
