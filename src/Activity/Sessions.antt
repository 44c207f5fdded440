-- ===== src/Activity/Sessions.antt =====
-- The activity sessions of api/main.go: `activitySessionStart`, `activitySessionEnd`,
-- `mergeActivitySessions` and `normalizeActivitySessions`. A JSON object is a record of the fields that the code
-- reads: a missing or unparsable time is `none`, a missing name is the empty text, and an array
-- entry that is no object is `none`. Instants are nanoseconds since the zero `time.Time`.
use device_pulse.Prelude.{
  ℕ, ◌+◌, ◌-◌, ◌*◌, Text, Bool, true, false, not, ◌&&◌, ◌||◌, List, [], ◌∷◌, Option, none, some,
  ltb, leb, ◌==◌, if◌then◌else◌, text_eq, map, max, min,
}
use device_pulse.Go.Sort.{sort_stable}
use device_pulse.Activity.AppNames.{display_app_name, app_key, is_visible_app_usage_name}

-- `duration_seconds` in nanoseconds, which may be negative.
pub data Duration : Type 0 where
  forward : ℕ → Duration
  backward : ℕ → Duration

pub record RawSession : Type 0 where
  pub app_name : Text
  pub start_time : Option ℕ
  pub end_time : Option ℕ
  pub duration : Option Duration
  pub device_id : Text
  pub username : Text

pub record Interval : Type 0 where
  pub app : Text
  pub start : ℕ
  pub end : ℕ
  pub device_id : Text
  pub username : Text

abbrev pub is_zero : ℕ → Bool
is_zero t = t == 0

abbrev pub second : ℕ
second = 1_000_000_000

abbrev pub activity_session_merge_gap : ℕ
activity_session_merge_gap = 90 * second

unfoldable pub activity_session_start : RawSession → ℕ
activity_session_start m = elim m.start_time [ some t ↦ t | none ↦ 0 ]

add_duration : ℕ → Duration → ℕ
add_duration t (forward d) = t + d
add_duration t (backward d) = t - d

-- The start with the duration. A duration past the range of time.Duration, about 292 years, is as
-- exact as any other here.
unfoldable pub fallback_end : ℕ → Option Duration → ℕ
unfolding add_duration
fallback_end start none = 0
fallback_end start (some d) = if is_zero start then 0 else add_duration start d

unfoldable pub activity_session_end : RawSession → ℕ
unfolding fallback_end activity_session_start
activity_session_end m = elim m.end_time [
  | some t ↦ t
  | none ↦ fallback_end (activity_session_start m) m.duration
]

-- The name and the times of an entry, if it is an object with a visible name.
unfoldable pub visible_interval : Option RawSession → Option Interval
unfolding activity_session_start activity_session_end
visible_interval none = none
visible_interval (some m) =
    if is_visible_app_usage_name (display_app_name m.app_name)
    then some (record {
      app = display_app_name m.app_name;
      start = activity_session_start m;
      end = activity_session_end m;
      device_id = m.device_id;
      username = m.username;
    })
    else none

-- What the loops write for an interval: `duration_seconds` is the time between its ends.
unfoldable pub to_entry : Interval → RawSession
to_entry i = record {
  app_name = i.app;
  start_time = some i.start;
  end_time = some i.end;
  duration = some (forward (i.end - i.start));
  device_id = i.device_id;
  username = i.username;
}

-- One round of the loop of `mergeActivitySessions`, on an entry that it does not skip: what
-- `flush` appends, and the new span.
unfoldable pub absorb : ℕ → Option Interval → Interval → Option Interval × Interval
absorb gap none i = (none, i)
absorb gap (some cur) i =
    if text_eq.beq (app_key cur.app) (app_key i.app) && leb i.start (cur.end + gap)
    then (none, record cur { end = max cur.end i.end })
    else (some cur, i)

-- An entry with both times set, whose end is moved up to its start if it lies before it.
unfoldable pub mergeable : Option RawSession → Option Interval
unfolding visible_interval
mergeable raw = elim (visible_interval raw) [
  | none ↦ none
  | some i ↦
      if is_zero i.start || is_zero i.end then none else some (record i { end = max i.start i.end })
]

unfoldable pub merge_step :
    ℕ → Option Interval → Option RawSession → Option Interval × Option Interval
unfolding mergeable absorb
merge_step gap cur raw = elim (mergeable raw) [
  | none ↦ (none, cur)
  | some i ↦ let (done, next) = absorb gap cur i in (done, some next)
]

abbrev pub flush : Option Interval → List Interval → List Interval
flush none rest = rest
flush (some i) rest = i ∷ rest

unfoldable pub merge_from : ℕ → Option Interval → List (Option RawSession) → List Interval
unfolding merge_step
merge_from gap cur [] = flush cur []
merge_from gap cur (raw ∷ raws) =
    let (done, next) = merge_step gap cur raw in flush done (merge_from gap next raws)

unfoldable pub merge_activity_sessions : List (Option RawSession) → ℕ → List RawSession
unfolding merge_from to_entry
merge_activity_sessions sessions gap = map to_entry (merge_from gap none sessions)

-- The day of `normalizeActivitySessions`, `[day_start, day_start + 24h)`.
abbrev pub day_length : ℕ
day_length = 24 * 3600 * second

unfoldable pub clip : ℕ → ℕ → Interval → Option Interval
clip lo hi i =
    let start = max i.start lo in
    let end = min i.end hi in
    if ltb start end then some (record i { start = start; end = end }) else none

-- An entry with both times set and a positive length.
unfoldable pub timed : Option RawSession → Option Interval
unfolding visible_interval
timed raw = elim (visible_interval raw) [
  | none ↦ none
  | some i ↦ if is_zero i.start || is_zero i.end || not (ltb i.start i.end) then none else some i
]

unfoldable pub day_interval : ℕ → Option RawSession → Option Interval
unfolding timed clip
day_interval day_start raw = elim (timed raw) [
  | none ↦ none
  | some i ↦ clip day_start (day_start + day_length) i
]

-- The key of `seen`; its text is the three parts joined by `|`, of which the last two are numbers.
abbrev pub same_key : Interval → Interval → Bool
same_key i j = text_eq.beq (app_key i.app) (app_key j.app) && i.start == j.start && i.end == j.end

unfoldable pub was_seen : Interval → List Interval → Bool
was_seen i [] = false
was_seen i (j ∷ js) = same_key i j || was_seen i js

unfoldable pub collect : ℕ → List Interval → List (Option RawSession) → List Interval
unfolding day_interval was_seen
collect day_start seen [] = []
collect day_start seen (raw ∷ raws) = elim (day_interval day_start raw) [
  | none ↦ collect day_start seen raws
  | some i ↦ elim (was_seen i seen) [
    | true ↦ collect day_start seen raws
    | false ↦ i ∷ collect day_start (i ∷ seen) raws
  ]
]

-- The order of both `sort.SliceStable` calls.
abbrev pub earlier : Interval → Interval → Bool
earlier i j = if i.start == j.start then ltb i.end j.end else ltb i.start j.start

-- The loop over `occupiedUntil`: what is already taken is cut off the front of each interval.
unfoldable pub lay_out : ℕ → List Interval → List Interval
lay_out occupied [] = []
lay_out occupied (i ∷ is) =
    let start = max i.start occupied in
    let kept = ltb start i.end in
    let rest = lay_out (if kept then i.end else occupied) is in
    if kept then record i { start = start } ∷ rest else rest

abbrev pub entries : List Interval → List (Option RawSession)
entries = map (λ i. some (to_entry i))

-- What both callers do with their intervals: the stable sort, the loop over `occupiedUntil`, and
-- the merge of what it wrote.
unfoldable pub settle : List Interval → List RawSession
unfolding lay_out merge_activity_sessions to_entry
settle is =
    merge_activity_sessions (entries (lay_out 0 (sort_stable earlier is)))
      activity_session_merge_gap

-- `day` is the parsed date, `none` if `time.ParseInLocation` refuses it.
unfoldable pub normalize_activity_sessions : List (Option RawSession) → Option ℕ → List RawSession
unfolding merge_activity_sessions collect settle
normalize_activity_sessions sessions none =
    merge_activity_sessions sessions activity_session_merge_gap
normalize_activity_sessions sessions (some day_start) = settle (collect day_start [] sessions)
