-- ===== src/Activity/Clipped.antt =====
-- The sessions of a day cut down to the time the device was online.
use device_pulse.Prelude.{
  ℕ, ◌≤◌, ◌<◌, true, List, [], ◌∷◌, ◌++◌, Option, none, some, ◌≡◌, arith, text_eq, All, All-append,
  At, here, there, inl, inr, Option-cases,
}
use device_pulse.Activity.AppNames.{display_app_name, is_visible_app_usage_name}
use device_pulse.Activity.Sessions.{
  RawSession, Interval, activity_session_start, activity_session_end, clip, timed,
}
use device_pulse.Activity.Chain.{Within, Follows, settle-Follows}
use device_pulse.Activity.Shown.{IsShown, timed-IsShown, clip-IsShown, clip_covers, timed_visible}
use device_pulse.Activity.Coverage.{CoveredEntry, settle-covers}
use device_pulse.Activity.Day.{clip-Within}
use device_pulse.Activity.Presence.{
  Window, clip_window, add, clip_windows, clip_session, clip_sessions, clipped_for_presence,
}

clip_window-clip :
    (i j : Interval) (w : Window) → clip_window i w ≡ some j → clip w.start w.end i ≡ some j
unfolding clip_window
clip_window-clip i j w h = ground arith

module _ (lo hi : ℕ) where
  -- Every window lies in `[lo, hi]`.
  abbrev pub AllWithin : List Window → Type 0
  AllWithin = All (λ w. (lo ≤ w.start) × (w.end ≤ hi))

  abbrev Good : Interval → Type 0
  Good i = Within lo hi i × IsShown i

  clip_windows-Good :
      (i : Interval) (ws : List Window) → IsShown i → AllWithin ws → All Good (clip_windows i ws)
  unfolding clip_windows
  clip_windows-Good i [] s a = tt
  clip_windows-Good i (w ∷ ws) s a = elim (Option-cases (clip_window i w)) [
    | inl e ↦ rw e (clip_windows-Good i ws s a.1)
    | inr (j, e) ↦
        let cut = clip_window-clip i j w e in
        let inside = clip-Within w.start w.end i j cut in
        rw e (
          ((omega arith, inside.1, omega arith), clip-IsShown w.start w.end i j cut s),
          clip_windows-Good i ws s a.1,
        )
  ]

  clip_session-Good :
      (ws : List Window) (raw : Option RawSession) → AllWithin ws → All Good (clip_session ws raw)
  unfolding clip_session
  clip_session-Good ws raw a = elim (Option-cases (timed raw)) [
    | inl e ↦ rw (e, clip_session) tt
    | inr (i, e) ↦ rw (e, clip_session) (clip_windows-Good i ws (timed-IsShown raw i e) a)
  ]

  clip_sessions-Good :
      (ws : List Window) (raws : List (Option RawSession))
      → AllWithin ws
      → All Good (clip_sessions ws raws)
  unfolding clip_sessions
  clip_sessions-Good ws [] a = tt
  clip_sessions-Good ws (raw ∷ raws) a =
      All-append Good (clip_session ws raw) (clip_sessions ws raws) (clip_session-Good ws raw a)
        (clip_sessions-Good ws raws a)

  Good-Within : (is : List Interval) → All Good is → All (Within lo hi) is
  Good-Within [] a = tt
  Good-Within (i ∷ is) a = (a.0.0, Good-Within is a.1)

  Good-IsShown : (is : List Interval) → All Good is → All IsShown is
  Good-IsShown [] a = tt
  Good-IsShown (i ∷ is) a = (a.0.1, Good-IsShown is a.1)

  -- Whatever was archived, for windows that lie in `[lo, hi]` the clipped sessions lie there too,
  -- one behind the other without overlap, none empty, each with its length as the duration.
  pub clipped-Follows :
      (sessions : List (Option RawSession)) (ws : List Window)
      → AllWithin ws
      → Follows lo hi (clipped_for_presence sessions ws)
  unfolding clipped_for_presence
  clipped-Follows [] ws a = tt
  clipped-Follows (raw ∷ raws) [] a = tt
  clipped-Follows (raw ∷ raws) (w ∷ ws) a =
      settle-Follows lo hi _ (Good-Within _ (clip_sessions-Good (w ∷ ws) (raw ∷ raws) a))

At-append_left {ℓ} : {A : Type ℓ} {a : A} (xs ys : List A) → At a xs → At a (xs ++ ys)
At-append_left [] ys m = elim m [ ]
At-append_left (x ∷ xs) ys here = here
At-append_left (x ∷ xs) ys (there m) = there (At-append_left xs ys m)

At-append_right {ℓ} : {A : Type ℓ} {a : A} (xs ys : List A) → At a ys → At a (xs ++ ys)
At-append_right [] ys m = m
At-append_right (x ∷ xs) ys m = there (At-append_right xs ys m)

At-add : {j : Interval} (o : Option Interval) (is : List Interval) → At j is → At j (add o is)
At-add none is m = m
At-add (some i) is m = there m

clip_window_covers :
    (t : ℕ) (i : Interval) (w : Window)
    → i.start ≤ t
    → t < i.end
    → w.start ≤ t
    → t < w.end
    → (j : Interval) × (clip_window i w ≡ some j) × (j.start ≤ t) × (t < j.end)
unfolding clip_window
clip_window_covers t i w a b c d =
    let (j, e, x, y) = clip_covers w.start w.end t i a b c d in (j, ground arith, x, y)

clip_windows_covers :
    (t : ℕ) (i : Interval) (ws : List Window) (w : Window)
    → At w ws
    → i.start ≤ t
    → t < i.end
    → w.start ≤ t
    → t < w.end
    → (j : Interval) × At j (clip_windows i ws) × (j.start ≤ t) × (t < j.end)
unfolding clip_windows
clip_windows_covers t i [] w m a b c d = elim m [ ]
clip_windows_covers t i (v ∷ ws) w here a b c d =
    let (j, e, x, y) = clip_window_covers t i w a b c d in (j, rw e here, x, y)
clip_windows_covers t i (v ∷ ws) w (there m) a b c d =
    let (j, at, x, y) = clip_windows_covers t i ws w m a b c d in
    (j, At-add (clip_window i v) _ at, x, y)

clip_sessions_covers :
    (ws : List Window) (raws : List (Option RawSession)) (raw : Option RawSession) (i j : Interval)
    → At raw raws
    → timed raw ≡ some i
    → At j (clip_windows i ws)
    → At j (clip_sessions ws raws)
unfolding clip_sessions clip_session
clip_sessions_covers ws [] raw i j m e at = elim m [ ]
clip_sessions_covers ws (r ∷ raws) raw i j here e at =
    At-append_left (clip_session ws raw) (clip_sessions ws raws) (rw (e, clip_session) at)
clip_sessions_covers ws (r ∷ raws) raw i j (there m) e at =
    At-append_right (clip_session ws r) (clip_sessions ws raws)
      (clip_sessions_covers ws raws raw i j m e at)

-- No online time is lost, for windows that lie in `[lo, hi]`: each instant that a visible session with a known start and one of the
-- windows both cover is covered by a clipped session.
pub clipped_covers :
    (lo hi t : ℕ) (sessions : List (Option RawSession)) (ws : List Window) (m : RawSession)
    (w : Window)
    → AllWithin lo hi ws
    → At (some m) sessions
    → At w ws
    → is_visible_app_usage_name (display_app_name m.app_name) ≡ true
    → 0 < activity_session_start m
    → activity_session_start m ≤ t
    → t < activity_session_end m
    → w.start ≤ t
    → t < w.end
    → CoveredEntry t (clipped_for_presence sessions ws)
unfolding clipped_for_presence
clipped_covers lo hi t [] ws m w a at in_ws v s from to c d = elim at [ ]
clipped_covers lo hi t (raw ∷ raws) [] m w a at in_ws v s from to c d = elim in_ws [ ]
clipped_covers lo hi t (raw ∷ raws) (v' ∷ ws) m w a at in_ws v s from to c d =
    let (i, e, x, y) = timed_visible m v s (omega arith) in
    let (j, found, p, q) =
      clip_windows_covers t i (v' ∷ ws) w in_ws (omega arith) (omega arith) c d in
    let good = clip_sessions-Good lo hi (v' ∷ ws) (raw ∷ raws) a in
    settle-covers lo hi t _ j (Good-IsShown lo hi _ good) (Good-Within lo hi _ good)
      (clip_sessions_covers (v' ∷ ws) (raw ∷ raws) (some m) i j at e found) p q
