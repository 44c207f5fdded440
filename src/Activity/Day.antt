-- ===== src/Activity/Day.antt =====
-- A normalised day: its sessions follow one another inside the day, and lose no time of it.
use device_pulse.Prelude.{
  ℕ, ◌+◌, ◌≤◌, ◌<◌, true, List, [], ◌∷◌, Option, some, ◌≡◌, arith, text_eq, All, At, here, there,
  ◌⊎◌, inl, inr, Bool-cases, Option-cases,
}
use device_pulse.Activity.AppNames.{display_app_name, app_key, is_visible_app_usage_name}
use device_pulse.Activity.Sessions.{
  RawSession, Interval, activity_session_start, activity_session_end, day_length, clip, timed,
  day_interval, collect, same_key, was_seen, normalize_activity_sessions,
}
use device_pulse.Activity.Chain.{Within, Follows, settle-Follows, total_duration, Follows-total}
use device_pulse.Activity.Shown.{IsShown, timed-IsShown, clip-IsShown, clip_covers, timed_visible}
use device_pulse.Activity.Coverage.{CoveredEntry, settle-covers}

pub clip-Within : (lo hi : ℕ) (i j : Interval) → clip lo hi i ≡ some j → Within lo hi j
unfolding clip
clip-Within lo hi i j h = ground arith

day_interval-Within :
    (d : ℕ) (raw : Option RawSession) (i : Interval)
    → day_interval d raw ≡ some i
    → Within d (d + day_length) i
unfolding day_interval
day_interval-Within d raw i h = elim (Option-cases (timed raw)) [
  | inl e ↦ absurd (ground arith)
  | inr (j, e) ↦ clip-Within d (d + day_length) j i (rw (e, day_interval) at h)
]

collect-Within :
    (d : ℕ) (raws : List (Option RawSession)) (seen : List Interval)
    → All (Within d (d + day_length)) (collect d seen raws)
unfolding collect
collect-Within d [] seen = tt
collect-Within d (raw ∷ raws) seen = elim (Option-cases (day_interval d raw)) [
  | inl e ↦ rw (e, collect) (collect-Within d raws seen)
  | inr (i, e) ↦ elim (Bool-cases (was_seen i seen)) [
    | inl old ↦ rw (e, old, collect) (collect-Within d raws seen)
    | inr new ↦
        rw (e, new, collect) (day_interval-Within d raw i e, collect-Within d raws (i ∷ seen))
  ]
]

same_key_refl : (i : Interval) → same_key i i ≡ true
same_key_refl i = ground (arith, text_eq.beq_iff (app_key i.app) (app_key i.app))

was_seen-cons :
    (i j : Interval) (seen : List Interval)
    → was_seen i (j ∷ seen) ≡ true
    → (same_key i j ≡ true) ⊎ (was_seen i seen ≡ true)
unfolding was_seen
was_seen-cons i j seen h = ground arith

day_interval-IsShown :
    (d : ℕ) (raw : Option RawSession) (i : Interval) → day_interval d raw ≡ some i → IsShown i
unfolding day_interval
day_interval-IsShown d raw i h = elim (Option-cases (timed raw)) [
  | inl e ↦ absurd (ground arith)
  | inr (j, e) ↦
      clip-IsShown d (d + day_length) j i (rw (e, day_interval) at h) (timed-IsShown raw j e)
]

-- `i` or an interval with its key is collected, or one was seen before.
collect_cases :
    (d : ℕ) (raws : List (Option RawSession)) (seen : List Interval) (raw : Option RawSession)
    (i : Interval)
    → At raw raws
    → day_interval d raw ≡ some i
    → ((j : Interval) × At j (collect d seen raws) × (same_key i j ≡ true))
      ⊎ (was_seen i seen ≡ true)
unfolding collect
collect_cases d [] seen raw i m e = elim m [ ]
collect_cases d (r ∷ raws) seen raw i here e = elim (Bool-cases (was_seen i seen)) [
  | inl old ↦ inr old
  | inr new ↦ inl (i, rw (e, collect) (rw (new, collect) here), same_key_refl i)
]
collect_cases d (r ∷ raws) seen raw i (there m) e = elim (Option-cases (day_interval d r)) [
  | inl skip ↦ elim (collect_cases d raws seen raw i m e) [
    | inl (j, at, k) ↦ inl (j, rw (skip, collect) at, k)
    | inr old ↦ inr old
  ]
  | inr (h, f) ↦ elim (Bool-cases (was_seen h seen)) [
    | inl dup ↦ elim (collect_cases d raws seen raw i m e) [
      | inl (j, at, k) ↦ inl (j, rw (f, collect) (rw (dup, collect) at), k)
      | inr old ↦ inr old
    ]
    | inr new ↦ elim (collect_cases d raws (h ∷ seen) raw i m e) [
      | inl (j, at, k) ↦ inl (j, rw (f, collect) (rw (new, collect) (there at)), k)
      | inr old ↦ elim (was_seen-cons i h seen old) [
        | inl k ↦ inl (h, rw (f, collect) (rw (new, collect) here), k)
        | inr before ↦ inr before
      ]
    ]
  ]
]

collect-IsShown :
    (d : ℕ) (raws : List (Option RawSession)) (seen : List Interval)
    → All IsShown (collect d seen raws)
unfolding collect
collect-IsShown d [] seen = tt
collect-IsShown d (raw ∷ raws) seen = elim (Option-cases (day_interval d raw)) [
  | inl e ↦ rw (e, collect) (collect-IsShown d raws seen)
  | inr (i, e) ↦ elim (Bool-cases (was_seen i seen)) [
    | inl old ↦ rw (e, old, collect) (collect-IsShown d raws seen)
    | inr new ↦
        rw (e, new, collect) (day_interval-IsShown d raw i e, collect-IsShown d raws (i ∷ seen))
  ]
]

-- For a valid date, whatever the agent sent (overlaps, duplicates, replays, foreign days), the
-- normalised sessions lie inside the day's 24 hours, one behind the other without overlap, none
-- of them empty, and each with its length as the duration.
pub normalize-Follows :
    (d : ℕ) (sessions : List (Option RawSession))
    → Follows d (d + day_length) (normalize_activity_sessions sessions (some d))
unfolding normalize_activity_sessions
normalize-Follows d sessions = settle-Follows d (d + day_length) _ (collect-Within d sessions [])

-- The durations of a normalised day never add up to more than 24 hours.
pub normalize-total :
    (d : ℕ) (sessions : List (Option RawSession))
    → total_duration (normalize_activity_sessions sessions (some d)) ≤ day_length
normalize-total d sessions =
    let f = Follows-total d (d + day_length) _ (omega arith) (normalize-Follows d sessions) in
    omega arith

-- No time is lost: each instant of the day that a visible session with a known start covers is
-- covered by a session of the normalised day.
pub normalize-covers :
    (d t : ℕ) (sessions : List (Option RawSession)) (m : RawSession)
    → At (some m) sessions
    → is_visible_app_usage_name (display_app_name m.app_name) ≡ true
    → 0 < activity_session_start m
    → activity_session_start m ≤ t
    → t < activity_session_end m
    → d ≤ t
    → t < d + day_length
    → CoveredEntry t (normalize_activity_sessions sessions (some d))
unfolding normalize_activity_sessions day_interval was_seen
normalize-covers d t sessions m at v s a b c f =
    let (i, e, x, y) = timed_visible m v s (omega arith) in
    let (j, clipped, from, to) =
      clip_covers d (d + day_length) t i (omega arith) (omega arith) c f in
    elim (collect_cases d sessions [] (some m) j at (rw (e, day_interval) clipped)) [
      | inl (k, found, same) ↦
          settle-covers d (d + day_length) t _ k (collect-IsShown d sessions [])
            (collect-Within d sessions []) found (ground arith) (ground arith)
      | inr old ↦ cc
    ]
