-- ===== src/Tests/Tracker.antt =====
-- A tracker that sees two apps, a silence and two snapshots.
use device_pulse.Prelude.{
  ℕ, ◌*◌, Text, false, List, [], ◌∷◌, codes, ◌≡◌, refl, nat_eq, text_eq, list_beq,
}
use device_pulse.Agent.Tracker.Credit.{Event, sampled, collected, credited}

abbrev seconds : ℕ → ℕ
seconds n = n * 1_000_000_000

abbrev editor : Text
editor = codes "Code"

abbrev browser : Text
browser = codes "Firefox"

-- The editor has 4 seconds before the snapshot and 6 after it, and a silence of 100 seconds counts
-- for nobody.
abbrev day_of_work : List Event
day_of_work =
    sampled (seconds 2) editor [] false
    ∷ sampled (seconds 6) editor [] false
    ∷ collected (seconds 7)
    ∷ sampled (seconds 12) browser [] false
    ∷ sampled (seconds 112) browser [] false
    ∷ []

credits : credited editor (seconds 1) [] day_of_work ≡ seconds 10
unfolding credited list_beq
credits = refl
