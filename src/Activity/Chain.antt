-- ===== src/Activity/Chain.antt =====
-- The shape of what `settle` returns: sessions in order, without overlap, none empty.
use device_pulse.Prelude.{
  ℕ, ◌+◌, ◌-◌, ◌≤◌, ◌<◌, ◌&&◌, ◌||◌, List, [], ◌∷◌, Option, none, some, ltb, leb, ◌≡◌, refl, arith,
  text_eq, map, max, All, ◌⊎◌, inl, inr, Bool-cases,
}
use device_pulse.Go.Sort.{sort_stable, All-sort_stable}
use device_pulse.Activity.AppNames.{display_app_name, app_key, is_visible_app_usage_name}
use device_pulse.Activity.Sessions.{
  RawSession, Duration, Interval, is_zero, activity_session_merge_gap, activity_session_start,
  activity_session_end, to_entry, absorb, mergeable, merge_step, merge_from,
  merge_activity_sessions, earlier, lay_out, entries, settle, forward,
}

-- The intervals lie in `[lo, hi]`, one behind the other, and none is empty.
abbrev pub Chain : ℕ → ℕ → List Interval → Type 0
Chain lo hi [] = Unit
Chain lo hi (i ∷ is) = (lo ≤ i.start) × (i.start < i.end) × (i.end ≤ hi) × Chain i.end hi is

pub Chain-weaken :
    (lo lo' hi : ℕ) (is : List Interval) → lo' ≤ lo → Chain lo hi is → Chain lo' hi is
Chain-weaken lo lo' hi [] h c = c
Chain-weaken lo lo' hi (i ∷ is) h c = (omega arith, c.1, c.2, c.3)

abbrev pub Within : ℕ → ℕ → Interval → Type 0
Within lo hi i = (lo ≤ i.start) × (i.start < i.end) × (i.end ≤ hi)

lay_out-Chain :
    (lo hi occupied : ℕ) (is : List Interval)
    → All (Within lo hi) is
    → Chain (max lo occupied) hi (lay_out occupied is)
unfolding lay_out
lay_out-Chain lo hi occupied [] a = tt
lay_out-Chain lo hi occupied (i ∷ is) a = elim (Bool-cases (ltb (max i.start occupied) i.end)) [
  | inl kept ↦ rw kept (
    omega (arith, a.0),
    ground arith,
    a.0.2,
    Chain-weaken (max lo i.end) i.end hi (lay_out i.end is) (omega arith)
        (lay_out-Chain lo hi i.end is a.1),
  )
  | inr covered ↦ rw covered (lay_out-Chain lo hi occupied is a.1)
]

-- What `mergeActivitySessions` reads back from an entry that these loops have written.
mergeable-to_entry :
    (i : Interval)
    → i.start < i.end
    → (mergeable (some (to_entry i)) ≡ none)
      ⊎ ((j : Interval) × (mergeable (some (to_entry i)) ≡ some j)
          × (j.start ≡ i.start)
          × (j.end ≡ i.end))
unfolding mergeable to_entry
mergeable-to_entry i h = elim (Bool-cases (is_visible_app_usage_name (display_app_name i.app))) [
  | inl v ↦ elim (Bool-cases (is_zero i.start || is_zero i.end)) [
    | inl z ↦ inl (ground (arith, v, z))
    | inr nz ↦ inr (
      record i { app = display_app_name i.app; end = max i.start i.end },
      ground (arith, v, nz),
      refl,
      omega arith,
    )
  ]
  | inr hidden ↦ inl (ground (arith, hidden))
]

merge_from-Chain-some :
    (gap lo hi : ℕ) (c : Interval) (is : List Interval)
    → c.start < c.end
    → c.end ≤ lo
    → c.end ≤ hi
    → Chain lo hi is
    → Chain c.start hi (merge_from gap (some c) (entries is))
unfolding merge_from merge_step absorb
merge_from-Chain-some gap lo hi c [] n b k ch = (omega arith, n, k, tt)
merge_from-Chain-some gap lo hi c (i ∷ is) n b k ch = elim (mergeable-to_entry i ch.1) [
  | inl e ↦ rw (e, merge_step) (merge_from-Chain-some gap i.end hi c is n (omega arith) k ch.3)
  | inr (j, e, s, t) ↦
      elim (Bool-cases (text_eq.beq (app_key c.app) (app_key j.app) && leb j.start (c.end + gap))) [
        | inl near ↦
            rw (e, merge_step)
              (rw (near, absorb)
                (merge_from-Chain-some gap i.end hi (record c { end = max c.end j.end }) is
                  (omega arith) (omega arith) (omega arith) ch.3))
        | inr far ↦
            rw (e, merge_step)
              (rw (far, absorb)
                (
                  omega arith,
                  n,
                  k,
                  Chain-weaken j.start c.end hi _ (omega arith) (
                      merge_from-Chain-some gap i.end hi j is (omega arith) (omega arith)
                        (omega arith) ch.3),
                ))
      ]
]

merge_from-Chain :
    (gap lo hi : ℕ) (is : List Interval)
    → Chain lo hi is
    → Chain lo hi (merge_from gap none (entries is))
unfolding merge_from merge_step absorb
merge_from-Chain gap lo hi [] ch = ch
merge_from-Chain gap lo hi (i ∷ is) ch = elim (mergeable-to_entry i ch.1) [
  | inl e ↦
      rw (e, merge_step)
        (Chain-weaken i.end lo hi _ (omega arith) (merge_from-Chain gap i.end hi is ch.3))
  | inr (j, e, s, t) ↦
      rw (e, merge_step)
        (Chain-weaken j.start lo hi _ (omega arith)
          (merge_from-Chain-some gap i.end hi j is (omega arith) (omega arith) (omega arith) ch.3))
]

pub settle-Chain :
    (lo hi : ℕ) (is : List Interval)
    → All (Within lo hi) is
    → Chain lo hi (lay_out 0 (sort_stable earlier is))
settle-Chain lo hi is a =
    Chain-weaken (max lo 0) lo hi _ (omega arith)
      (lay_out-Chain lo hi 0 (sort_stable earlier is) (All-sort_stable earlier (Within lo hi) is a))

-- The entries of a list, as the code writes them: times in order, inside `[lo, hi]`, none empty,
-- and `duration_seconds` the time between the two.
abbrev pub Follows : ℕ → ℕ → List RawSession → Type 0
Follows lo hi [] = Unit
Follows lo hi (m ∷ ms) =
    let start = activity_session_start m in
    let end = activity_session_end m in
    (lo ≤ start)
    × (start < end)
    × (end ≤ hi)
    × (m.duration ≡ some (forward (end - start)))
    × Follows end hi ms

Follows-to_entry :
    (lo hi : ℕ) (is : List Interval) → Chain lo hi is → Follows lo hi (map to_entry is)
unfolding to_entry activity_session_start activity_session_end
Follows-to_entry lo hi [] c = tt
Follows-to_entry lo hi (i ∷ is) c = (c.0, c.1, c.2, refl, Follows-to_entry i.end hi is c.3)

pub settle-Follows :
    (lo hi : ℕ) (is : List Interval) → All (Within lo hi) is → Follows lo hi (settle is)
unfolding settle merge_activity_sessions
settle-Follows lo hi is a = Follows-to_entry lo hi _ (
    merge_from-Chain activity_session_merge_gap lo hi (lay_out 0 (sort_stable earlier is))
      (settle-Chain lo hi is a))

-- The sum of the `duration_seconds` of a list of entries.
abbrev pub forward_part : Option Duration → ℕ
forward_part (some (forward n)) = n
forward_part (some (Duration.backward n)) = 0
forward_part none = 0

abbrev pub total_duration : List RawSession → ℕ
total_duration [] = 0
total_duration (m ∷ ms) = forward_part m.duration + total_duration ms

pub Follows-total :
    (lo hi : ℕ) (ms : List RawSession) → lo ≤ hi → Follows lo hi ms → lo + total_duration ms ≤ hi
Follows-total lo hi [] h f = omega arith
Follows-total lo hi (m ∷ ms) h f =
    let rest = Follows-total (activity_session_end m) hi ms f.2 f.4 in rw f.3 (omega (arith, rest))
