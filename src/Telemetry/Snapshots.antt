-- ===== src/Telemetry/Snapshots.antt =====
-- How many snapshots a device and role store.
use device_pulse.Prelude.{
  ℕ, ◌+◌, ◌==◌, ◌≤◌, ◌<◌, Text, codes, true, false, List, [], ◌∷◌, ◌++◌, some, lookup,
  lookup-insert, lookup-insert_self, if◌then◌else◌, text_eq, All, ◌≡◌, refl, ap, arith, Bool-cases,
  inl, inr, ◌∙◌, ◌⊎◌,
}
use device_pulse.Telemetry.{SnapshotTracker, is_fresh, due, Stored, snapshot, slim, storage_kind}

-- A document of a device and role that comes in.
pub record Sync : Type 0 where
  pub device_id : Text
  pub role : Text
  pub at : ℕ

abbrev pub key_of : Sync → Text
key_of y = y.device_id ++ codes "|" ++ y.role

abbrev is_snapshot : Stored → ℕ
is_snapshot snapshot = 1
is_snapshot _ = 0

-- How many of the documents under the key are stored as snapshots, when the documents come in turn
-- and are neither archived nor stored in full.
unfoldable pub snapshots : Text → ℕ → SnapshotTracker → List Sync → ℕ
snapshots key every s [] = 0
snapshots key every s (y ∷ ys) =
    let (kind, s') = storage_kind false false y.device_id y.role y.at every s in
    (if text_eq.beq (key_of y) key then is_snapshot kind else 0) + snapshots key every s' ys

abbrev handled : ℕ → SnapshotTracker → Sync → Stored × SnapshotTracker
handled every s y = storage_kind false false y.device_id y.role y.at every s

-- A document under another key leaves the key's time alone.
handled-other :
    (key : Text) (every : ℕ) (s : SnapshotTracker) (y : Sync)
    → text_eq.beq (key_of y) key ≡ false
    → lookup key (handled every s y).1 ≡ lookup key s
unfolding storage_kind due
handled-other key every s y other = elim (Bool-cases (every == 0)) [
  | inl e ↦ rw e refl
  | inr e ↦ elim (Bool-cases (is_fresh (lookup (key_of y) s) y.at every)) [
    | inl f ↦ rw (e, f) refl
    | inr f ↦ rw (e, f) (lookup-insert (key_of y) key y.at s ∙ rw other refl)
  ]
]

-- A document within the interval of the last snapshot is stored slim.
handled-fresh :
    (every t : ℕ) (s : SnapshotTracker) (y : Sync)
    → lookup (key_of y) s ≡ some t
    → y.at < t + every
    → handled every s y ≡ (slim, s)
unfolding storage_kind due
handled-fresh every t s y e lt = elim (Bool-cases (every == 0)) [
  | inl z ↦ rw z refl
  | inr z ↦
      let f : is_fresh (lookup (key_of y) s) y.at every ≡ true = rw e (ground arith) in
      rw (z, f) refl
]

-- Otherwise it is stored slim and leaves the tracker alone, or is the key's new snapshot.
handled-cases :
    (every : ℕ) (s : SnapshotTracker) (y : Sync)
    → (handled every s y ≡ (slim, s))
      ⊎ ((is_snapshot (handled every s y).0 ≡ 1)
          × (lookup (key_of y) (handled every s y).1 ≡ some y.at))
unfolding storage_kind due
handled-cases every s y = elim (Bool-cases (every == 0)) [
  | inl z ↦ rw z (inl refl)
  | inr z ↦ elim (Bool-cases (is_fresh (lookup (key_of y) s) y.at every)) [
    | inl f ↦ rw (z, f) (inl refl)
    | inr f ↦ rw (z, f) (inr (refl, lookup-insert_self (key_of y) y.at s))
  ]
]

-- After a snapshot at `t`, none follows before `t + every`.
snapshots-none :
    (key : Text) (every t : ℕ) (s : SnapshotTracker) (ys : List Sync)
    → lookup key s ≡ some t
    → All (λ y. y.at < t + every) ys
    → snapshots key every s ys ≡ 0
unfolding snapshots
snapshots-none key every t s [] e a = refl
snapshots-none key every t s (y ∷ ys) e a = elim (Bool-cases (text_eq.beq (key_of y) key)) [
  | inl same ↦
      let k : key_of y ≡ key = (text_eq.beq_iff (key_of y) key).0 same in
      let h = handled-fresh every t s y (rw k e) a.0 in
      let rest = snapshots-none key every t s ys e a.1 in
      rw (same, ap (λ r. r.0) h, ap (λ r. r.1) h) (omega (arith, rest))
  | inr other ↦
      let h = handled-other key every s y other ∙ e in
      let rest = snapshots-none key every t (handled every s y).1 ys h a.1 in
      rw other (omega (arith, rest))
]

within-later :
    (t every a : ℕ) (ys : List Sync)
    → a ≤ t
    → All (λ y. (a ≤ y.at) × (y.at < a + every)) ys
    → All (λ y. y.at < t + every) ys
within-later t every a [] le w = tt
within-later t every a (y ∷ ys) le w = (omega (arith, w.0.1), within-later t every a ys le w.1)

-- Of the documents of one device and role that come in within one interval, at most one is stored
-- as a snapshot, whatever the tracker remembers and whatever other devices send in between, when
-- none is archived and full storage is off.
pub snapshots-le_one :
    (key : Text) (every a : ℕ) (s : SnapshotTracker) (ys : List Sync)
    → All (λ y. (a ≤ y.at) × (y.at < a + every)) ys
    → snapshots key every s ys ≤ 1
unfolding snapshots
snapshots-le_one key every a s [] w = omega arith
snapshots-le_one key every a s (y ∷ ys) w = elim (Bool-cases (text_eq.beq (key_of y) key)) [
  | inl same ↦ elim (handled-cases every s y) [
    | inl h ↦
        let rest = snapshots-le_one key every a s ys w.1 in
        rw (same, ap (λ r. r.0) h, ap (λ r. r.1) h) (omega (arith, rest))
    | inr (one, stored) ↦
        let k : key_of y ≡ key = (text_eq.beq_iff (key_of y) key).0 same in
        let none_follow =
          snapshots-none key every y.at (handled every s y).1 ys (rw (← k) stored)
            (within-later y.at every a ys w.0.0 w.1) in
        rw (same, one, none_follow) (omega arith)
  ]
  | inr other ↦
      let rest = snapshots-le_one key every a (handled every s y).1 ys w.1 in
      rw other (omega (arith, rest))
]
