-- ===== src/Tests/Guard.antt =====
-- A call that runs out of time, the next one that is refused, and a third one.
use device_pulse.Prelude.{ℕ, false, List, [], ◌∷◌, some, if◌then◌else◌, All, map, ◌≡◌, refl}
use device_pulse.Agent.Guard.{
  returned, timed_out, skipped, Guard, Step, begin, finish, release, receive, expire, change, sent,
  receives, expires, nth_releasing, release_flag, begin_run, step, run,
}
use device_pulse.Agent.Guard.Alone.{alive_count, IsHonest, run-IsHonest}

abbrev slow : List (Step ℕ)
slow = begin ∷ expire 0 ∷ begin ∷ finish 1 7 ∷ release 1 ∷ begin ∷ finish 0 8 ∷ receive 0 ∷ []

abbrev new_guard : Guard ℕ
new_guard = record { running = false; calls = [] }

answers :
    map (λ c. c.answer) (run slow new_guard).calls
    ≡ some (returned 8) ∷ some skipped ∷ some timed_out ∷ []
unfolding run step begin_run change sent receives expires nth_releasing release_flag
answers = refl

run-IsHonest_example :
    let g = run slow new_guard in
    (alive_count g.calls ≡ (if g.running then 1 else 0)) × All IsHonest g.calls
run-IsHonest_example = run-IsHonest slow
