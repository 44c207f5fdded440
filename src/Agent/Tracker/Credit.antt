-- ===== src/Agent/Tracker/Credit.antt =====
-- What agent/collector/active_window.go credits to an app: the samples decide it, not the snapshots.
use device_pulse.Prelude.{ℕ, ◌+◌, ◌≤◌, Text, Bool, List, [], ◌∷◌, if◌then◌else◌, nat_eq, text_eq}
use device_pulse.Agent.Tracker.{ActiveWindowTracker, observe, collect, set_focus_note}
use device_pulse.Agent.Tracker.Measure.{gained}

-- The calls that the sampler, the main loop and the set-up make, in the order of the lock.
pub data Event : Type 0 where
  sampled : ℕ → Text → Text → Bool → Event
  collected : ℕ → Event
  noted : Text → Event

unfoldable pub run : List Event → ActiveWindowTracker → ActiveWindowTracker
run [] a = a
run (sampled t app source idle ∷ es) a = run es (observe t app source idle a)
run (collected now ∷ es) a = run es (collect now a).1
run (noted note ∷ es) a = run es (set_focus_note note a)

-- The samples' times do not decrease.
abbrev pub InOrder : ℕ → List Event → Type 0
InOrder last [] = Unit
InOrder last (sampled t app source idle ∷ es) = (last ≤ t) × InOrder t es
InOrder last (collected now ∷ es) = InOrder last es
InOrder last (noted note ∷ es) = InOrder last es

-- The specification: every sample credits the time since the last one, when that is not a silence,
-- to the app that the last one saw. It knows no sessions, and no snapshot changes it.
unfoldable pub credited : Text → ℕ → Text → List Event → ℕ
credited app last current [] = 0
credited app last current (sampled t next source idle ∷ es) =
    gained app t last current + credited app t (if idle then [] else next) es
credited app last current (collected now ∷ es) = credited app last current es
credited app last current (noted note ∷ es) = credited app last current es
