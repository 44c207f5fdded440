-- ===== src/Activity/Lease/Holder.antt =====
-- Who holds the lease of a device in api/main.go.
use device_pulse.Prelude.{
  ℕ, ◌+◌, ◌≤◌, ◌<◌, Text, Bool, true, false, List, [], ◌∷◌, some, ◌==◌, text_eq, All, ◌≡◌, refl,
  sym, subst, ◌∙◌, inl, inr, arith, Bool-cases, Option-cases,
}
use device_pulse.Go.Strings.{trim_space}
use device_pulse.Db.{Driver, Updates, at, past}
use device_pulse.Activity.Lease.{
  LeasedDevice, Payload, lease_time, is_free, may_claim, claim, claim_active_window_lease,
}

-- At most one document has the device id, as the unique index on it says.
abbrev pub OneOf : Text → List LeasedDevice → Type 0
OneOf device_id [] = Unit
OneOf device_id (d ∷ ds) =
    (text_eq.beq d.device_id device_id ≡ true
      → All (λ x. text_eq.beq x.device_id device_id ≡ false) ds)
    × OneOf device_id ds

-- The collector has the lease of the device until `end` at least.
abbrev Holds : Text → Text → ℕ → LeasedDevice → Type 0
Holds device_id collector_id end d =
    text_eq.beq d.device_id device_id ≡ true
    → (d.lease_id ≡ collector_id) × (until : ℕ) × (d.lease_until ≡ some until) × (end ≤ until)

All-other :
    (device_id collector_id : Text) (end : ℕ) (ds : List LeasedDevice)
    → All (λ x. text_eq.beq x.device_id device_id ≡ false) ds
    → All (Holds device_id collector_id end) ds
All-other device_id collector_id end [] a = tt
All-other device_id collector_id end (d ∷ ds) a =
    ((λ h. absurd (ground (arith, a.0, h))), All-other device_id collector_id end ds a.1)

-- An update changes a document that passes.
updated_one :
    (device_id collector_id : Text) (now : ℕ) {ds es : List LeasedDevice}
    → Updates (may_claim device_id collector_id now) (claim collector_id now) ds es
    → All (λ x. text_eq.beq x.device_id device_id ≡ false) ds
    → ◌≡◌ {A = Bool} false true
updated_one device_id collector_id now (at {d = d} h) a =
    let same : text_eq.beq d.device_id device_id ≡ true = ground (arith, h) in sym a.0 ∙ same
updated_one device_id collector_id now (past u) a = updated_one device_id collector_id now u a.1

claimed :
    (device_id collector_id : Text) (now : ℕ) {ds es : List LeasedDevice}
    → Updates (may_claim device_id collector_id now) (claim collector_id now) ds es
    → OneOf device_id ds
    → All (Holds device_id collector_id (now + lease_time)) es
claimed device_id collector_id now (at {d = d} {ds = ds} h) one =
    let same : text_eq.beq d.device_id device_id ≡ true = ground (arith, h) in
    (
      (λ e. (refl, now + lease_time, refl, omega arith)),
      All-other device_id collector_id (now + lease_time) ds (one.0 same),
    )
claimed device_id collector_id now (past {d = d} u) one = (
  (λ e. let b = updated_one device_id collector_id now u (one.0 e) in cc b),
  claimed device_id collector_id now u one.1,
)

-- A claim at `now`, by whomever, keeps a lease that lasts longer.
kept_lease :
    (device_id collector_id other_device other : Text) (start now : ℕ) {ds es : List LeasedDevice}
    → Updates (may_claim other_device other now) (claim other now) ds es
    → start ≤ now
    → now < start + lease_time
    → All (Holds device_id collector_id (start + lease_time)) ds
    → All (Holds device_id collector_id (start + lease_time)) es
kept_lease device_id collector_id other_device other start now (at {d = d} h) le lt held = (
  (λ e.
      let (same, until, lease, longer) = held.0 e in
      let busy : is_free d.lease_until now ≡ false = rw lease (ground (arith, longer, lt)) in
      let mine : text_eq.beq d.lease_id other ≡ true = ground (arith, h, busy) in
      (
        sym ((text_eq.beq_iff d.lease_id other).0 mine) ∙ same,
        now + lease_time,
        refl,
        omega (arith, le),
      )),
  held.1,
)
kept_lease device_id collector_id other_device other start now (past u) le lt held =
    (held.0, kept_lease device_id collector_id other_device other start now u le lt held.1)

refused_one :
    (device_id collector_id other : Text) (end now : ℕ) {ds es : List LeasedDevice}
    → Updates (may_claim device_id other now) (claim other now) ds es
    → now < end
    → text_eq.beq collector_id other ≡ false
    → All (Holds device_id collector_id end) ds
    → ◌≡◌ {A = Bool} false true
refused_one device_id collector_id other end now (at {d = d} h) lt ne held =
    let same : text_eq.beq d.device_id device_id ≡ true = ground (arith, h) in
    let (mine, until, lease, longer) = held.0 same in
    let busy : is_free d.lease_until now ≡ false = rw lease (ground (arith, longer, lt)) in
    let theirs : text_eq.beq d.lease_id other ≡ true = ground (arith, h, busy) in
    sym ne ∙ subst (λ c. text_eq.beq c other ≡ true) mine theirs
refused_one device_id collector_id other end now (past u) lt ne held =
    refused_one device_id collector_id other end now u lt ne held.1

pub record Claim : Type 0 where
  pub device_id : Text
  pub payload : Payload
  pub at : ℕ

module _ (db : Driver LeasedDevice (λ d. d.id)) where
  unfoldable pub claims : List Claim → List LeasedDevice → List LeasedDevice
  claims [] ds = ds
  claims (c ∷ cs) ds = claims cs (claim_active_window_lease db c.device_id c.payload c.at ds).1

  gains :
      (device_id : Text) (p : Payload) (now : ℕ) (ds : List LeasedDevice)
      → OneOf device_id ds
      → text_eq.beq (trim_space p.collector_id) [] ≡ false
      → (claim_active_window_lease db device_id p now ds).0 ≡ true
      → All
          (Holds device_id p.collector_id (now + lease_time))
          (claim_active_window_lease db device_id p now ds).1
  unfolding claim_active_window_lease
  gains device_id p now ds one named e =
      let filter = may_claim device_id p.collector_id now in
      let set = claim p.collector_id now in
      elim (Option-cases (db.update_one filter set ds)) [
        | inl f ↦ let b : ◌≡◌ {A = Bool} false true = rw (named, f) at e in cc b
        | inr ((n, es), f) ↦ elim (db.update_one_lem filter set ds es n f) [
          | inl (z, same, miss) ↦
              let b : (n == 1) ≡ true = rw (named, f) at e in absurd (ground (arith, z, b))
          | inr (o, u) ↦ rw (named, f) (claimed device_id p.collector_id now u one)
        ]
      ]

  keeps :
      (device_id collector_id : Text) (start : ℕ) (c : Claim) (ds : List LeasedDevice)
      → start ≤ c.at
      → c.at < start + lease_time
      → All (Holds device_id collector_id (start + lease_time)) ds
      → All
          (Holds device_id collector_id (start + lease_time))
          (claim_active_window_lease db c.device_id c.payload c.at ds).1
  unfolding claim_active_window_lease
  keeps device_id collector_id start c ds le lt held =
      let filter = may_claim c.device_id c.payload.collector_id c.at in
      let set = claim c.payload.collector_id c.at in
      elim (Bool-cases (text_eq.beq (trim_space c.payload.collector_id) [])) [
        | inl blank ↦ rw blank held
        | inr named ↦ elim (Option-cases (db.update_one filter set ds)) [
          | inl f ↦ rw (named, f) held
          | inr ((n, es), f) ↦ elim (db.update_one_lem filter set ds es n f) [
            | inl (z, same, miss) ↦ rw (named, f, same) held
            | inr (o, u) ↦
                rw (named, f)
                  (kept_lease device_id collector_id c.device_id c.payload.collector_id start c.at u
                    le lt held)
          ]
        ]
      ]

  loses :
      (device_id collector_id : Text) (end now : ℕ) (q : Payload) (ds : List LeasedDevice)
      → text_eq.beq (trim_space q.collector_id) [] ≡ false
      → text_eq.beq collector_id q.collector_id ≡ false
      → now < end
      → All (Holds device_id collector_id end) ds
      → (claim_active_window_lease db device_id q now ds).0 ≡ false
  unfolding claim_active_window_lease
  loses device_id collector_id end now q ds named ne lt held =
      let filter = may_claim device_id q.collector_id now in
      let set = claim q.collector_id now in
      elim (Option-cases (db.update_one filter set ds)) [
        | inl f ↦ rw (named, f) refl
        | inr ((n, es), f) ↦ elim (db.update_one_lem filter set ds es n f) [
          | inl (z, same, miss) ↦ rw (named, f, z) refl
          | inr (o, u) ↦
              let b = refused_one device_id collector_id q.collector_id end now u lt ne held in cc b
        ]
      ]

  hold_on :
      (device_id collector_id : Text) (start : ℕ) (cs : List Claim) (ds : List LeasedDevice)
      → All (λ c. (start ≤ c.at) × (c.at < start + lease_time)) cs
      → All (Holds device_id collector_id (start + lease_time)) ds
      → All (Holds device_id collector_id (start + lease_time)) (claims cs ds)
  unfolding claims
  hold_on device_id collector_id start [] ds t held = held
  hold_on device_id collector_id start (c ∷ cs) ds t held =
      hold_on device_id collector_id start cs _ t.1
        (keeps device_id collector_id start c ds t.0.0 t.0.1 held)

  -- When the claim of a collector succeeds, the claim of another one for the same device fails for two minutes, whatever
  -- claims of any collectors and devices come in between. Both have session ids that are not blank, and the device id is unique.
  pub lease_excludes :
      (device_id : Text) (p q : Payload) (start later : ℕ) (cs : List Claim)
      (ds : List LeasedDevice)
      → OneOf device_id ds
      → text_eq.beq (trim_space p.collector_id) [] ≡ false
      → text_eq.beq (trim_space q.collector_id) [] ≡ false
      → text_eq.beq p.collector_id q.collector_id ≡ false
      → (claim_active_window_lease db device_id p start ds).0 ≡ true
      → All (λ c. (start ≤ c.at) × (c.at < start + lease_time)) cs
      → later < start + lease_time
      → (claim_active_window_lease db device_id q later
          (claims cs (claim_active_window_lease db device_id p start ds).1)).0
        ≡ false
  lease_excludes device_id p q start later cs ds one p_named q_named ne won between soon =
      loses device_id p.collector_id (start + lease_time) later q _ q_named ne soon (
        hold_on device_id p.collector_id start cs _ between
          (gains device_id p start ds one p_named won))
