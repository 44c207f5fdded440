-- ===== src/Tests/Activity.antt =====
-- A day of two sessions, one of which overlaps the other, and the presence points of a device.
use device_pulse.Prelude.{
  text_eq, ℕ, ◌+◌, ◌-◌, ◌≤◌, Text, codes, list_beq, true, List, [], ◌∷◌, Option, none, some, lookup,
  here, there, ◌≡◌, refl, arith,
}
use device_pulse.Go.Strings.{trim_space, trim_left, trim_right, trim_suffix, has_prefix, contains}
use device_pulse.Go.Sort.{Sorted}
use device_pulse.Activity.AppNames.{
  display_app_name, is_visible_app_usage_name, is_visible_key, any_text,
  is_linux_system_process_name,
}
use device_pulse.Activity.Sessions.{
  forward, RawSession, activity_session_start, activity_session_end, normalize_activity_sessions,
  day_length,
}
use device_pulse.Activity.Chain.{Follows}
use device_pulse.Activity.Coverage.{CoveredEntry}
use device_pulse.Activity.Day.{normalize-Follows, normalize-covers}
use device_pulse.Activity.Presence.{
  Window, WindowChain, last_from, presence_windows, presence_online, presence_windows-Chain,
}
use device_pulse.Activity.Summary.{
  summarize_activity_sessions, sum_totals, sum_counted, summarize-totals,
}
use device_pulse.Activity.Focus.{AppFocusEntry, FocusCache, FocusSummary, apps_of}
use device_pulse.Activity.Focus.Totals.{
  Ingest, ingest_all, reported, plus, focus_of, ingest_all-focus_of,
}

abbrev session : Text → ℕ → ℕ → RawSession
session app start end = record {
  app_name = app;
  start_time = some start;
  end_time = some end;
  duration = some (forward (end - start));
  device_id = codes "d";
  username = codes "u";
}

abbrev editor : RawSession
editor = session (codes "Code") 1_010 1_050

abbrev sessions : List (Option RawSession)
sessions = some (session (codes " google-chrome") 1_030 1_090) ∷ none ∷ some editor ∷ []

editor_visible : is_visible_app_usage_name (display_app_name (codes "Code")) ≡ true
unfolding is_visible_app_usage_name display_app_name trim_space trim_left trim_right trim_suffix
    is_visible_key any_text is_linux_system_process_name has_prefix contains lookup list_beq
editor_visible = refl

editor_times : (activity_session_start editor ≡ 1_010) × (activity_session_end editor ≡ 1_050)
unfolding activity_session_start activity_session_end
editor_times = (refl, refl)

normalize-covers_example : CoveredEntry 1_040 (normalize_activity_sessions sessions (some 1_000))
normalize-covers_example =
    normalize-covers 1_000 1_040 sessions editor (there (there here)) editor_visible
      (omega (arith, editor_times.0)) (omega (arith, editor_times.0))
      (omega (arith, editor_times.1)) (omega arith) (omega arith)

normalize-Follows_example :
    Follows 1_000 (1_000 + day_length) (normalize_activity_sessions sessions (some 1_000))
normalize-Follows_example = normalize-Follows 1_000 sessions

abbrev windows : List Window
windows = record { start = 1_000; end = 1_020 } ∷ record { start = 1_040; end = 1_100 } ∷ []

presence_windows-Chain_example :
    WindowChain 10 (last_from 10 (70 ∷ 90 ∷ [])) (presence_windows (10 ∷ 70 ∷ 90 ∷ []))
    × (10 + presence_online (10 ∷ 70 ∷ 90 ∷ []) ≤ last_from 10 (70 ∷ 90 ∷ []))
presence_windows-Chain_example =
    presence_windows-Chain 10 (70 ∷ 90 ∷ []) (omega arith, (omega arith, tt))

summarize-totals_example :
    Sorted (λ a b. b.total ≤ a.total) (summarize_activity_sessions sessions).0
    × (sum_totals (summarize_activity_sessions sessions).0 ≡ sum_counted sessions)
    × ((summarize_activity_sessions sessions).1 ≡ sum_counted sessions)
summarize-totals_example = summarize-totals sessions

abbrev summary : Text → ℕ → FocusSummary
summary app t = record { app_name = app; total_focus = t; session_count = 1 }

abbrev ingests : List Ingest
ingests =
    record {
      device_id = codes "d";
      summaries = some (summary (codes "google-chrome") 5) ∷ none ∷ [];
    }
    ∷ record { device_id = codes "e"; summaries = some (summary (codes "chrome") 7) ∷ [] }
    ∷ record { device_id = codes "d"; summaries = some (summary (codes "Chrome") 6) ∷ [] }
    ∷ []

ingest_all-focus_of_example :
    focus_of (codes "d") (codes "chrome") (ingest_all ingests [])
    ≡ plus
        (reported (codes "d") (codes "chrome") ingests)
        (focus_of (codes "d") (codes "chrome") [])
ingest_all-focus_of_example = ingest_all-focus_of (codes "d") (codes "chrome") ingests []

abbrev chrome : AppFocusEntry
chrome = record { app_name = codes "chrome"; total_focus = 11; session_count = 2 }

abbrev cache : FocusCache
cache = (codes "d", (codes "chrome", chrome) ∷ []) ∷ []

held_chrome : lookup (codes "chrome") (apps_of (lookup (codes "d") cache)) ≡ some chrome
unfolding lookup list_beq
held_chrome = refl
