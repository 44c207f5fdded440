-- ===== src/Activity/Presence.antt =====
-- Presence in api/main.go: `presenceWindows`, `presenceOnlineSeconds` (in nanoseconds) and
-- `clippedActivitySessionsForPresence`.
use device_pulse.Prelude.{
  ℕ, ◌+◌, ◌-◌, ◌*◌, ◌≤◌, ◌<◌, false, not, ◌||◌, List, [], ◌∷◌, ◌++◌, Option, none, some, ltb, leb,
  if◌then◌else◌, ◌≡◌, arith, text_eq, min,
}
use device_pulse.Activity.Sessions.{RawSession, Interval, second, clip, timed, settle}

pub record Window : Type 0 where
  pub start : ℕ
  pub end : ℕ

abbrev pub two_minutes : ℕ
two_minutes = 120 * second

-- One round of the loop of `presenceWindows`: a later point at most two minutes away counts whole.
unfoldable pub window_between : ℕ → ℕ → Option Window
window_between p q =
    if leb q p then none else some (record { start = p; end = p + min (q - p) two_minutes })

abbrev pub push : Option Window → List Window → List Window
push none ws = ws
push (some w) ws = w ∷ ws

unfoldable pub windows_from : ℕ → List ℕ → List Window
unfolding window_between
windows_from p [] = []
windows_from p (q ∷ points) = push (window_between p q) (windows_from q points)

unfoldable pub presence_windows : List ℕ → List Window
unfolding windows_from
presence_windows [] = []
presence_windows (p ∷ points) = windows_from p points

unfoldable pub total_span : List Window → ℕ
total_span [] = 0
total_span (w ∷ ws) = (w.end - w.start) + total_span ws

unfoldable pub presence_online : List ℕ → ℕ
unfolding presence_windows total_span
presence_online points = total_span (presence_windows points)

-- The inner loop, for one session and one window.
unfoldable pub clip_window : Interval → Window → Option Interval
unfolding clip
clip_window i w =
    if not (ltb i.start w.end) || not (ltb w.start i.end) then none else clip w.start w.end i

abbrev pub add : Option Interval → List Interval → List Interval
add none is = is
add (some i) is = i ∷ is

unfoldable pub clip_windows : Interval → List Window → List Interval
unfolding clip_window
clip_windows i [] = []
clip_windows i (w ∷ ws) = add (clip_window i w) (clip_windows i ws)

unfoldable pub clip_session : List Window → Option RawSession → List Interval
unfolding timed clip_windows
clip_session ws raw = elim (timed raw) [ none ↦ [] | some i ↦ clip_windows i ws ]

unfoldable pub clip_sessions : List Window → List (Option RawSession) → List Interval
unfolding clip_session
clip_sessions ws [] = []
clip_sessions ws (raw ∷ raws) = clip_session ws raw ++ clip_sessions ws raws

unfoldable pub clipped_for_presence : List (Option RawSession) → List Window → List RawSession
unfolding clip_sessions settle
clipped_for_presence [] ws = []
clipped_for_presence (raw ∷ raws) [] = []
clipped_for_presence (raw ∷ raws) (w ∷ ws) = settle (clip_sessions (w ∷ ws) (raw ∷ raws))

-- The points of `dailyPresencePoints` come sorted, each once.
abbrev pub Ascending : ℕ → List ℕ → Type 0
Ascending p [] = Unit
Ascending p (q ∷ points) = (p < q) × Ascending q points

abbrev pub last_from : ℕ → List ℕ → ℕ
last_from p [] = p
last_from p (q ∷ points) = last_from q points

-- Windows in order, without overlap, none empty and none longer than two minutes.
abbrev pub WindowChain : ℕ → ℕ → List Window → Type 0
WindowChain lo hi [] = Unit
WindowChain lo hi (w ∷ ws) =
    (lo ≤ w.start)
    × (w.start < w.end)
    × (w.end ≤ w.start + two_minutes)
    × (w.end ≤ hi)
    × WindowChain w.end hi ws

WindowChain-weaken :
    (lo lo' hi : ℕ) (ws : List Window) → lo' ≤ lo → WindowChain lo hi ws → WindowChain lo' hi ws
WindowChain-weaken lo lo' hi [] h c = c
WindowChain-weaken lo lo' hi (w ∷ ws) h c = (omega arith, c.1, c.2, c.3, c.4)

le-last_from : (p : ℕ) (points : List ℕ) → Ascending p points → p ≤ last_from p points
le-last_from p [] a = omega arith
le-last_from p (q ∷ points) a = omega (arith, le-last_from q points a.1)

windows_from-Chain :
    (p : ℕ) (points : List ℕ)
    → Ascending p points
    → WindowChain p (last_from p points) (windows_from p points)
unfolding windows_from window_between
windows_from-Chain p [] a = tt
windows_from-Chain p (q ∷ points) a =
    let behind : leb q p ≡ false = ground arith in
    let rest = windows_from-Chain q points a.1 in
    let last = le-last_from q points a.1 in
    rw behind (
      omega arith,
      omega arith,
      omega arith,
      omega arith,
      WindowChain-weaken q (p + min (q - p) two_minutes) (last_from q points)
          (windows_from q points) (omega arith) rest,
    )

WindowChain-total :
    (lo hi : ℕ) (ws : List Window) → lo ≤ hi → WindowChain lo hi ws → lo + total_span ws ≤ hi
unfolding total_span
WindowChain-total lo hi [] h c = omega arith
WindowChain-total lo hi (w ∷ ws) h c = omega (arith, WindowChain-total w.end hi ws c.3 c.4)

-- For presence points in order, the windows are disjoint and in order, none is empty or longer
-- than two minutes, and the online time is at most the time from the first point to the last.
pub presence_windows-Chain :
    (p : ℕ) (points : List ℕ)
    → Ascending p points
    → WindowChain p (last_from p points) (presence_windows (p ∷ points))
      × (p + presence_online (p ∷ points) ≤ last_from p points)
unfolding presence_windows presence_online
presence_windows-Chain p points a =
    let c = windows_from-Chain p points a in
    (c, WindowChain-total p (last_from p points) _ (le-last_from p points a) c)
