-- ===== src/Activity/Coverage.antt =====
-- `settle` loses no time: every instant of a shown interval is still covered.
use device_pulse.Prelude.{
  ℕ, ◌+◌, ◌≤◌, ◌<◌, true, false, ◌&&◌, List, [], ◌∷◌, none, some, ltb, leb, ◌≡◌, arith, text_eq,
  map, max, All, All-at, At, here, there, ◌⊎◌, inl, inr, Bool-cases,
}
use device_pulse.Go.Sort.{Sorted, sort_stable, All-sort_stable, At-sort_stable, sort_stable-Sorted}
use device_pulse.Activity.AppNames.{app_key}
use device_pulse.Activity.Sessions.{
  RawSession, Interval, activity_session_merge_gap, activity_session_start, activity_session_end,
  to_entry, absorb, mergeable, merge_step, merge_from, merge_activity_sessions, earlier, lay_out,
  entries, settle,
}
use device_pulse.Activity.Chain.{Chain, Within, settle-Chain}
use device_pulse.Activity.Shown.{IsShown, lay_out-IsShown, mergeable-IsShown}

module _ (t : ℕ) where
  pub data Covered : List Interval → Type 0 where
    now : {i : Interval} {is : List Interval} → i.start ≤ t → t < i.end → Covered (i ∷ is)
    later : {i : Interval} {is : List Interval} → Covered is → Covered (i ∷ is)

-- Every instant from `occupied` on that a sorted list covers is covered by what is laid out.
lay_out-Covered :
    (t occupied : ℕ) (is : List Interval) (i : Interval)
    → Sorted (λ a b. a.start ≤ b.start) is
    → At i is
    → i.start ≤ t
    → t < i.end
    → occupied ≤ t
    → Covered t (lay_out occupied is)
unfolding lay_out
lay_out-Covered t occ [] i s m a b c = elim m [ ]
lay_out-Covered t occ (j ∷ is) i s here a b c =
    let kept : ltb (max j.start occ) j.end ≡ true = ground arith in rw kept (now (omega arith) b)
lay_out-Covered t occ (j ∷ is) i s (there m) a b c =
    let first : j.start ≤ i.start = All-at (λ b. j.start ≤ b.start) s.0 m in
    elim (Bool-cases (ltb (max j.start occ) j.end)) [
      | inl kept ↦ rw kept (elim (Bool-cases (ltb t j.end)) [
        | inl inside ↦ now (omega arith) (ground arith)
        | inr after ↦ later (lay_out-Covered t j.end is i s.1 m a b (ground arith))
      ])
      | inr dropped ↦ rw dropped (lay_out-Covered t occ is i s.1 m a b c)
    ]

module _ (gap : ℕ) (c i : Interval) (read : mergeable (some (to_entry i)) ≡ some i) where
  merge_step-near :
      (text_eq.beq (app_key c.app) (app_key i.app) && leb i.start (c.end + gap)) ≡ true
      → merge_step gap (some c) (some (to_entry i))
        ≡ (none, some (record c { end = max c.end i.end }))
  unfolding merge_step absorb
  merge_step-near near = rw (read, merge_step) (rw (near, absorb))

  merge_step-far :
      (text_eq.beq (app_key c.app) (app_key i.app) && leb i.start (c.end + gap)) ≡ false
      → merge_step gap (some c) (some (to_entry i)) ≡ (some c, some i)
  unfolding merge_step absorb
  merge_step-far far = rw (read, merge_step) (rw (far, absorb))

Covered-cons :
    (t : ℕ) (i : Interval) (is : List Interval)
    → Covered t (i ∷ is)
    → ((i.start ≤ t) × (t < i.end)) ⊎ Covered t is
Covered-cons t i is (now a b) = inl (a, b)
Covered-cons t i is (later h) = inr h

grown :
    {t lo : ℕ} (i c : Interval) (is : List Interval)
    → lo ≤ i.start
    → c.end ≤ lo
    → i.start < i.end
    → (((c.start ≤ t) × (t < c.end)) ⊎ Covered t (i ∷ is))
    → c.start < c.end
    → (((c.start ≤ t) × (t < max c.end i.end)) ⊎ Covered t is)
grown i c is l b n (inl h) k = inl (h.0, omega arith)
grown i c is l b n (inr h) k = elim (Covered-cons _ i is h) [
  | inl x ↦ inl (omega arith, omega arith)
  | inr y ↦ inr y
]

module _ (gap t hi : ℕ) where
  merge_from-Covered_some :
      (lo : ℕ) (c : Interval) (is : List Interval)
      → All IsShown is
      → Chain lo hi is
      → c.end ≤ lo
      → c.start < c.end
      → (((c.start ≤ t) × (t < c.end)) ⊎ Covered t is)
      → Covered t (merge_from gap (some c) (entries is))
  unfolding merge_from
  merge_from-Covered_some lo c [] a ch b n (inl h) = now h.0 h.1
  merge_from-Covered_some lo c [] a ch b n (inr h) = elim h [ ]
  merge_from-Covered_some lo c (i ∷ is) a ch b n h =
      let e = mergeable-IsShown i a.0 ch.1 in
      elim (Bool-cases (text_eq.beq (app_key c.app) (app_key i.app) && leb i.start (c.end + gap))) [
        | inl near ↦ rw (merge_step-near gap c i e near) (
            merge_from-Covered_some i.end (record c { end = max c.end i.end }) is a.1 ch.3
              (omega arith) (omega arith) (grown i c is ch.0 b ch.1 h n))
        | inr far ↦ rw (merge_step-far gap c i e far) (elim h [
          | inl x ↦ now x.0 x.1
          | inr y ↦ later (
              merge_from-Covered_some i.end i is a.1 ch.3 (omega arith) ch.1
                (Covered-cons t i is y))
        ])
      ]

  merge_from-Covered :
      (lo : ℕ) (is : List Interval)
      → All IsShown is
      → Chain lo hi is
      → Covered t is
      → Covered t (merge_from gap none (entries is))
  unfolding merge_from merge_step absorb
  merge_from-Covered lo [] a ch h = elim h [ ]
  merge_from-Covered lo (i ∷ is) a ch h =
      rw (mergeable-IsShown i a.0 ch.1, merge_step)
        (merge_from-Covered_some i.end i is a.1 ch.3 (omega arith) ch.1 (Covered-cons t i is h))

-- An entry of the list, as the code writes it, covers the instant.
pub data CoveredEntry (t : ℕ) : List RawSession → Type 0 where
  this :
      {m : RawSession} {ms : List RawSession}
      → activity_session_start m ≤ t
      → t < activity_session_end m
      → CoveredEntry t (m ∷ ms)
  next : {m : RawSession} {ms : List RawSession} → CoveredEntry t ms → CoveredEntry t (m ∷ ms)

CoveredEntry-map : (t : ℕ) (is : List Interval) → Covered t is → CoveredEntry t (map to_entry is)
unfolding to_entry activity_session_start activity_session_end
CoveredEntry-map t [] h = elim h [ ]
CoveredEntry-map t (i ∷ is) (now a b) = this a b
CoveredEntry-map t (i ∷ is) (later h) = next (CoveredEntry-map t is h)

earlier-Sorted : (is : List Interval) → Sorted (λ a b. a.start ≤ b.start) (sort_stable earlier is)
earlier-Sorted =
    sort_stable-Sorted earlier (λ a b. a.start ≤ b.start) (λ a b c h k. omega arith)
      (λ a b h. ground arith) (λ a b h. ground arith)

pub settle-covers :
    (lo hi t : ℕ) (is : List Interval) (i : Interval)
    → All IsShown is
    → All (Within lo hi) is
    → At i is
    → i.start ≤ t
    → t < i.end
    → CoveredEntry t (settle is)
unfolding settle merge_activity_sessions
settle-covers lo hi t is i shown within at a b =
    let laid = lay_out 0 (sort_stable earlier is) in
    CoveredEntry-map t _ (
      merge_from-Covered activity_session_merge_gap t hi lo laid
        (lay_out-IsShown 0 _ (All-sort_stable earlier IsShown is shown))
        (settle-Chain lo hi is within)
        (lay_out-Covered t 0 (sort_stable earlier is) i (earlier-Sorted is)
          (At-sort_stable earlier is at) a b (omega arith)))
