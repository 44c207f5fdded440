-- ===== src/Activity/Summary.antt =====
-- `summarizeActivitySessions` of api/main.go. Totals are nanoseconds; the map's values come in the
-- order in which the applications were met, and the sort behind makes that order immaterial but
-- for ties.
use device_pulse.Prelude.{
  ℕ, ◌+◌, ◌≤◌, Text, Bool, List, [], ◌∷◌, Option, none, some, ltb, ◌==◌, if◌then◌else◌, ◌≡◌, refl,
  arith, text_eq, map, Map, lookup, insert, Bool-cases, inl, inr,
}
use device_pulse.Go.Sort.{Sorted, insert_sorted, sort_stable, sort_stable-Sorted}
use device_pulse.Activity.AppNames.{display_app_name, app_key, is_visible_app_usage_name}
use device_pulse.Activity.Sessions.{RawSession, day_length, normalize_activity_sessions}
use device_pulse.Activity.Chain.{forward_part, total_duration}
use device_pulse.Activity.Day.{normalize-total}

pub record AppTotal : Type 0 where
  pub app_name : Text
  pub total : ℕ
  pub session_count : ℕ

-- The duration that a session adds: positive, of an object with a visible name.
unfoldable pub counted : Option RawSession → ℕ
counted none = 0
counted (some m) =
    if is_visible_app_usage_name (display_app_name m.app_name) then forward_part m.duration else 0

-- `totals[key]`, or the fresh entry that is stored under it.
abbrev pub stored_or_new : Text → Option AppTotal → AppTotal
stored_or_new name none = record { app_name = name; total = 0; session_count = 0 }
stored_or_new name (some item) = item

unfoldable pub add_session : RawSession → ℕ → Map Text AppTotal → Map Text AppTotal
add_session m duration totals =
    let name = display_app_name m.app_name in
    let item = stored_or_new name (lookup (app_key name) totals) in
    insert (app_key name)
      (record item { total = item.total + duration; session_count = item.session_count + 1 }) totals

unfoldable pub tally_step : Map Text AppTotal × ℕ → Option RawSession → Map Text AppTotal × ℕ
unfolding counted add_session
tally_step s none = s
tally_step s (some m) =
    let duration = counted (some m) in
    if duration == 0 then s else (add_session m duration s.0, s.1 + duration)

unfoldable pub tally : Map Text AppTotal × ℕ → List (Option RawSession) → Map Text AppTotal × ℕ
unfolding tally_step
tally s [] = s
tally s (raw ∷ raws) = tally (tally_step s raw) raws

abbrev pub values : Map Text AppTotal → List AppTotal
values = map (λ e. e.1)

abbrev pub larger : AppTotal → AppTotal → Bool
larger a b = ltb b.total a.total

unfoldable pub summarize_activity_sessions : List (Option RawSession) → List AppTotal × ℕ
unfolding tally
summarize_activity_sessions sessions =
    let s = tally ([], 0) sessions in (sort_stable larger (values s.0), s.1)

abbrev pub sum_totals : List AppTotal → ℕ
sum_totals [] = 0
sum_totals (a ∷ as') = a.total + sum_totals as'

abbrev pub sum_counted : List (Option RawSession) → ℕ
sum_counted [] = 0
sum_counted (raw ∷ raws) = counted raw + sum_counted raws

sum_totals-insert_sorted :
    (a : AppTotal) (l : List AppTotal)
    → sum_totals (insert_sorted larger a l) ≡ a.total + sum_totals l
unfolding insert_sorted
sum_totals-insert_sorted a [] = refl
sum_totals-insert_sorted a (b ∷ l) = ground (arith, sum_totals-insert_sorted a l)

sum_totals-sort : (l : List AppTotal) → sum_totals (sort_stable larger l) ≡ sum_totals l
unfolding sort_stable
sum_totals-sort [] = refl
sum_totals-sort (a ∷ l) =
    omega (arith, sum_totals-insert_sorted a (sort_stable larger l), sum_totals-sort l)

abbrev pub old_total : Option AppTotal → ℕ
old_total none = 0
old_total (some a) = a.total

sum_totals-insert :
    (k : Text) (a : AppTotal) (m : Map Text AppTotal)
    → sum_totals (values (insert k a m)) + old_total (lookup k m) ≡ a.total + sum_totals (values m)
unfolding insert lookup
sum_totals-insert k a [] = omega arith
sum_totals-insert k a ((j, b) ∷ m) = ground (arith, sum_totals-insert k a m)

stored_or_new_total :
    (name : Text) (o : Option AppTotal) → (stored_or_new name o).total ≡ old_total o
stored_or_new_total name none = refl
stored_or_new_total name (some a) = refl

sum_totals-add_session :
    (m : RawSession) (d : ℕ) (totals : Map Text AppTotal)
    → sum_totals (values (add_session m d totals)) ≡ d + sum_totals (values totals)
unfolding add_session
sum_totals-add_session m d totals =
    let name = display_app_name m.app_name in
    let k = app_key name in
    let item = stored_or_new name (lookup k totals) in
    let item' : AppTotal = record item {
      total = item.total + d;
      session_count = item.session_count + 1;
    } in
    omega (arith, sum_totals-insert k item' totals, stored_or_new_total name (lookup k totals))

tally_step_sums :
    (s : Map Text AppTotal × ℕ) (raw : Option RawSession)
    → (sum_totals (values (tally_step s raw).0) ≡ counted raw + sum_totals (values s.0))
      × ((tally_step s raw).1 ≡ counted raw + s.1)
unfolding tally_step
tally_step_sums s none = (omega arith, omega arith)
tally_step_sums s (some m) = elim (Bool-cases (counted (some m) == 0)) [
  | inl zero' ↦ rw zero' (ground arith, ground arith)
  | inr more ↦ rw more (sum_totals-add_session m (counted (some m)) s.0, omega arith)
]

tally_sums :
    (raws : List (Option RawSession)) (s : Map Text AppTotal × ℕ)
    → (sum_totals (values (tally s raws).0) ≡ sum_counted raws + sum_totals (values s.0))
      × ((tally s raws).1 ≡ sum_counted raws + s.1)
unfolding tally
tally_sums [] s = (omega arith, omega arith)
tally_sums (raw ∷ raws) s =
    let (apps, total) = tally_step_sums s raw in
    let (apps', total') = tally_sums raws (tally_step s raw) in
    (omega (arith, apps, apps'), omega (arith, total, total'))

-- The rows are sorted by falling time, and the time of all rows together, like the reported
-- total, is the time of the sessions that count: positive and of a visible application.
pub summarize-totals :
    (sessions : List (Option RawSession))
    → Sorted (λ a b. b.total ≤ a.total) (summarize_activity_sessions sessions).0
      × (sum_totals (summarize_activity_sessions sessions).0 ≡ sum_counted sessions)
      × ((summarize_activity_sessions sessions).1 ≡ sum_counted sessions)
unfolding summarize_activity_sessions
summarize-totals sessions =
    let (apps, total) = tally_sums sessions ([], 0) in
    (
      sort_stable-Sorted larger (λ a b. b.total ≤ a.total) (λ a b c h k. omega arith)
          (λ a b h. ground arith) (λ a b h. ground arith) (values (tally ([], 0) sessions).0),
      omega (arith, sum_totals-sort (values (tally ([], 0) sessions).0), apps),
      omega (arith, total),
    )

abbrev pub objects : List RawSession → List (Option RawSession)
objects = map some

sum_counted-le : (ms : List RawSession) → sum_counted (objects ms) ≤ total_duration ms
unfolding counted
sum_counted-le [] = omega arith
sum_counted-le (m ∷ ms) = ground (arith, sum_counted-le ms)

-- The rows of a normalised day never add up to more than 24 hours.
pub summarize-normalize-le :
    (d : ℕ) (sessions : List (Option RawSession))
    → sum_totals
        (summarize_activity_sessions (objects (normalize_activity_sessions sessions (some d)))).0
      ≤ day_length
summarize-normalize-le d sessions =
    let day = normalize_activity_sessions sessions (some d) in
    omega
      (arith, (summarize-totals (objects day)).1, sum_counted-le day, normalize-total d sessions)
