-- ===== src/Activity/Shown.antt =====
-- The intervals that the merge reads back unchanged: visible, resolved, with a start.
use device_pulse.Prelude.{
  ℕ, ◌≤◌, ◌<◌, true, List, [], ◌∷◌, Option, none, some, ltb, ◌≡◌, refl, arith, text_eq, max, min,
  All, inl, inr, Bool-cases,
}
use device_pulse.Activity.AppNames.{
  display_app_name, display_app_name_idem, is_visible_app_usage_name,
}
use device_pulse.Activity.Sessions.{
  RawSession, Interval, activity_session_start, activity_session_end, visible_interval, to_entry,
  mergeable, clip, timed, lay_out,
}

-- What survives the loops and is read back unchanged by the merge.
pub record IsShown (i : Interval) : Type 0 where
  pub visible : is_visible_app_usage_name i.app ≡ true
  pub resolved : display_app_name i.app ≡ i.app
  pub started : 0 < i.start

pub timed-IsShown : (raw : Option RawSession) (i : Interval) → timed raw ≡ some i → IsShown i
unfolding timed visible_interval
timed-IsShown none i h = cc
timed-IsShown (some m) i h = ground (arith, display_app_name_idem m.app_name)

pub clip-IsShown : (lo hi : ℕ) (i j : Interval) → clip lo hi i ≡ some j → IsShown i → IsShown j
unfolding clip
clip-IsShown lo hi i j h s = ground arith

pub clip_covers :
    (lo hi t : ℕ) (i : Interval)
    → i.start ≤ t
    → t < i.end
    → lo ≤ t
    → t < hi
    → (j : Interval) × (clip lo hi i ≡ some j) × (j.start ≤ t) × (t < j.end)
unfolding clip
clip_covers lo hi t i a b c d = (
  record i { start = max i.start lo; end = min i.end hi },
  ground arith,
  omega arith,
  omega arith,
)

pub lay_out-IsShown :
    (occupied : ℕ) (is : List Interval) → All IsShown is → All IsShown (lay_out occupied is)
unfolding lay_out
lay_out-IsShown occ [] a = tt
lay_out-IsShown occ (i ∷ is) a = elim (Bool-cases (ltb (max i.start occ) i.end)) [
  | inl kept ↦ rw kept (
    record { visible = a.0.visible; resolved = a.0.resolved; started = omega (arith, a.0.started) },
    lay_out-IsShown i.end is a.1,
  )
  | inr dropped ↦ rw dropped (lay_out-IsShown occ is a.1)
]

pub mergeable-IsShown :
    (i : Interval) → IsShown i → i.start < i.end → mergeable (some (to_entry i)) ≡ some i
unfolding mergeable visible_interval to_entry activity_session_start activity_session_end
mergeable-IsShown i s h = ground (arith, s.visible, s.resolved, s.started)

pub timed_visible :
    (m : RawSession)
    → is_visible_app_usage_name (display_app_name m.app_name) ≡ true
    → 0 < activity_session_start m
    → activity_session_start m < activity_session_end m
    → (i : Interval) × (timed (some m) ≡ some i)
      × (i.start ≡ activity_session_start m)
      × (i.end ≡ activity_session_end m)
unfolding timed visible_interval
timed_visible m v s h = (
  record {
    app = display_app_name m.app_name;
    start = activity_session_start m;
    end = activity_session_end m;
    device_id = m.device_id;
    username = m.username;
  },
  ground arith,
  refl,
  refl,
)
