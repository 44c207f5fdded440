-- ===== src/Releases/Offers.antt =====
-- Which release an update check of api/main.go offers.
use device_pulse.Prelude.{
  some, none, Option, ℕ, ◌≤◌, Text, Bool, true, false, not, ◌&&◌, ◌||◌, List, [], ◌∷◌, text_eq,
  filter, All, At, ◌≡◌, ◌⊎◌, inl, inr, refl, arith, subst, Bool-cases, Option-cases,
}
use device_pulse.Db.{Driver}
use device_pulse.Http.{ok, outcome-ok, kept, Keeps-require, Keeps-ok}
use device_pulse.Commands.{Device, of_device}
use device_pulse.Releases.Versions.{Comparison, less, equal, greater, compare_agent_versions}
use device_pulse.Releases.{
  AgentRelease, Answer, no_update, update, eligible, is_some, requests, is_equal, is_less,
}
use device_pulse.Releases.Checks.{
  checked_in, device_targets_release, answer_check, update_check_handler,
}

-- The stored document of the device has the time of a rollout request, which nothing has cleared,
-- and the version as its target. The target need not be the one that the rollout has written: an
-- offer writes it too, and leaves the time.
pub record HasTarget (device_id version : Text) (ds : List Device) : Type 0 where
  pub device : Device
  pub registered : At device ds
  pub named : device.device_id ≡ device_id
  pub requested_at : ℕ
  pub is_requested : device.agent_update_requested_at ≡ some requested_at
  pub target : device.agent_target_version ≡ version

pub record Offered (signed_only : Bool) (current os arch device_id : Text) (rs : List AgentRelease)
    (ds : List Device) (r : AgentRelease) : Type 0 where
  pub published : At r rs
  pub fits : eligible signed_only os arch r ≡ true
  pub newest : All (λ x. x.published_at ≤ r.published_at) (filter (eligible signed_only os arch) rs)
  pub allowed :
      (compare_agent_versions r.version current ≡ greater) ⊎ HasTarget device_id r.version ds

All-among :
    (p : AgentRelease → Bool) (b : ℕ) (rs : List AgentRelease)
    → All (λ x. p x ≡ true → x.published_at ≤ b) rs
    → All (λ x. x.published_at ≤ b) (filter p rs)
unfolding filter
All-among p b [] a = tt
All-among p b (r ∷ rs) a = elim (Bool-cases (p r)) [
  | inl e ↦ rw e (a.0 e, All-among p b rs a.1)
  | inr e ↦ rw e (All-among p b rs a.1)
]

requests-HasTarget :
    (device_id version : Text) (d : Device) (ds : List Device) (t : Option ℕ)
    → At d ds
    → of_device device_id d ≡ true
    → d.agent_update_requested_at ≡ t
    → is_some t && text_eq.beq d.agent_target_version version ≡ true
    → HasTarget device_id version ds
requests-HasTarget device_id version d ds none m n e h = absurd (ground arith)
requests-HasTarget device_id version d ds (some t) m n e h = record {
  device = d;
  registered = m;
  named = (text_eq.beq_iff d.device_id device_id).0 n;
  requested_at = t;
  is_requested = e;
  target = (text_eq.beq_iff d.agent_target_version version).0 h;
}

found-HasTarget :
    (devices : Driver Device (λ d. d.id)) (hash : Text → Text) (device_id version : Text)
    (ds : List Device)
    → device_targets_release devices hash device_id version ds ≡ true
    → HasTarget device_id version ds
unfolding device_targets_release
found-HasTarget devices hash device_id version ds h =
    elim (Option-cases (devices.find_one (of_device device_id) ds)) [
      | inl e ↦ absurd (ground (arith, e))
      | inr (d, e) ↦
          let (m, n) = devices.find_one_lem (of_device device_id) ds d e in
          let asked : requests version d ≡ true = ground (arith, e) in
          requests-HasTarget device_id version d ds d.agent_update_requested_at m n refl asked
    ]

permitted :
    (c : Comparison) (targeted : Bool)
    → is_equal c || (is_less c && not targeted) ≡ false
    → (c ≡ greater) ⊎ (targeted ≡ true)
permitted less true h = inr refl
permitted less false h = absurd (ground arith)
permitted equal targeted h = absurd (ground arith)
permitted greater targeted h = inl refl

module _ (releases : Driver AgentRelease (λ r. r.id)) (devices : Driver Device (λ d. d.id))
    (hash : Text → Text) where
  answer_check-Offered :
      (signed_only : Bool) (key current os arch : Text) (now : ℕ) (rs : List AgentRelease)
      (ds : List Device) (r : AgentRelease)
      → (answer_check releases devices hash signed_only key current os arch now rs ds).0 ≡ update r
      → let (device_id, es) = checked_in devices hash key current os arch now ds in
        Offered signed_only current os arch device_id rs es r
  unfolding answer_check
  answer_check-Offered signed_only key current os arch now rs ds r h =
      let device_id = (checked_in devices hash key current os arch now ds).0 in
      let es = (checked_in devices hash key current os arch now ds).1 in
      elim (Option-cases
        (releases.find_latest (eligible signed_only os arch) (λ r. r.published_at) rs)) [
          | inl e ↦
              let none_is : no_update ≡ update r = rw (e, answer_check) at h in
              absurd (ground arith)
          | inr (latest, e) ↦
              let cmp = compare_agent_versions latest.version current in
              let targeted = device_targets_release devices hash device_id latest.version es in
              let (m, t, newest) = releases.find_latest_lem _ _ rs latest e in
              elim (Bool-cases (is_equal cmp || (is_less cmp && not targeted))) [
                | inl f ↦
                    let none_is : no_update ≡ update r = rw (e, f, answer_check) at h in
                    absurd (ground arith)
                | inr f ↦
                    let some_is : update latest ≡ update r = rw (e, f, answer_check) at h in
                    let same : latest ≡ r = ground arith in
                    subst (Offered signed_only current os arch device_id rs es) same (record {
                      published = m;
                      fits = t;
                      newest =
                          All-among (eligible signed_only os arch) latest.published_at rs newest;
                      allowed = elim (permitted cmp targeted f) [
                        | inl g ↦ inl g
                        | inr g ↦ inr (found-HasTarget devices hash device_id latest.version es g)
                      ];
                    })
              ]
        ]

  -- A release that an update check offers is published for the system that asks, is not held back,
  -- is signed where signatures are required, and is the newest published of those. Its version is
  -- newer than the one that asks, or else the document of the device that asks, as the check has
  -- left it, carries the time of a rollout request and this version as its target.
  pub update_check_handler-Offered :
      (signed_only : Bool) (method key current os arch : Text) (now : ℕ) (rs : List AgentRelease)
      (ds ds' : List Device) (r : AgentRelease)
      → update_check_handler releases devices hash signed_only method key current os arch now rs ds
        ≡ (ok (update r), ds')
      → let (device_id, es) = checked_in devices hash key current os arch now ds in
        Offered signed_only current os arch device_id rs es r
  unfolding update_check_handler
  update_check_handler-Offered signed_only method key current os arch now rs ds ds' r h =
      let (device_id, es) = checked_in devices hash key current os arch now ds in
      let P : Answer × List Device → Type 0 = λ a.
        (a.0 ≡ update r)
        → Offered signed_only current os arch (checked_in devices hash key current os arch now ds).0
            rs (checked_in devices hash key current os arch now ds).1 r in
      Keeps-ok P (outcome-ok ds _ h)
        (Keeps-require P _ _ _ _ λ _.
          Keeps-require P _ _ _ _
            λ _. kept (λ e. answer_check-Offered signed_only key current os arch now rs ds r e))
        refl
