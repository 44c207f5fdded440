-- ===== src/Activity/Focus.antt =====
-- The focus cache of api/main.go: `FocusCache`, `applyFocusSummaries` and `snapshot`. Times are
-- nanoseconds, a number that is missing is 0, and a summary that is no object is `none`. The lock is
-- held by each method, so that a call is one step.
pub mod Totals
use device_pulse.Prelude.{
  ℕ, ◌+◌, ◌≤◌, Text, Bool, List, [], ◌∷◌, Option, none, some, ltb, if◌then◌else◌, ◌≡◌, refl, ap,
  subst, arith, text_eq, map, Map, lookup, insert, lookup-insert, Bool-cases, inl, inr, ◌∙◌, At,
  here, there,
}
use device_pulse.Go.Sort.{Sorted, sort_stable, sort_stable-Sorted, At-sort_stable}
use device_pulse.Activity.AppNames.{display_app_name, app_key, is_visible_app_usage_name}

pub record AppFocusEntry : Type 0 where
  pub app_name : Text
  pub total_focus : ℕ
  pub session_count : ℕ

-- `device_id -> app_key -> entry`
abbrev pub FocusCache : Type 0
FocusCache = Map Text (Map Text AppFocusEntry)

pub record FocusSummary : Type 0 where
  pub app_name : Text
  pub total_focus : ℕ
  pub session_count : ℕ

abbrev pub apps_of : Option (Map Text AppFocusEntry) → Map Text AppFocusEntry
apps_of none = []
apps_of (some apps) = apps

abbrev pub entry_or_new : Text → Option AppFocusEntry → AppFocusEntry
entry_or_new name none = record { app_name = name; total_focus = 0; session_count = 0 }
entry_or_new name (some e) = e

unfoldable pub apply_summary : Option FocusSummary → Map Text AppFocusEntry → Map Text AppFocusEntry
apply_summary none apps = apps
apply_summary (some m) apps =
    let name = display_app_name m.app_name in
    let e = entry_or_new name (lookup (app_key name) apps) in
    if is_visible_app_usage_name name
    then insert (app_key name)
        (record e {
          total_focus = e.total_focus + m.total_focus;
          session_count = e.session_count + m.session_count;
        })
        apps
    else apps

unfoldable pub apply_all :
    List (Option FocusSummary) → Map Text AppFocusEntry → Map Text AppFocusEntry
unfolding apply_summary
apply_all [] apps = apps
apply_all (m ∷ ms) apps = apply_all ms (apply_summary m apps)

unfoldable pub apply_focus_summaries : Text → List (Option FocusSummary) → FocusCache → FocusCache
unfolding apply_all
apply_focus_summaries device_id summaries fc =
    insert device_id (apply_all summaries (apps_of (lookup device_id fc))) fc

abbrev pub longer : AppFocusEntry → AppFocusEntry → Bool
longer a b = ltb b.total_focus a.total_focus

-- The order of entries with the same time, which Go leaves open, is that of the first summaries.
unfoldable pub snapshot : Text → FocusCache → List AppFocusEntry
snapshot device_id fc = sort_stable longer (map (λ e. e.1) (apps_of (lookup device_id fc)))
