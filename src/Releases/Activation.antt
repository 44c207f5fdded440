-- ===== src/Releases/Activation.antt =====
-- What the activation of a release in api/main.go does to the update checks after it.
use device_pulse.Prelude.{
  All-filter, ℕ, ◌≤◌, ◌<◌, ◌==◌, Text, Bool, true, false, List, [], ◌∷◌, ◌++◌, some, text_eq,
  filter, All, All-at, All-append, At, here, there, ◌≡◌, ◌⊎◌, inl, inr, refl, arith, subst,
  Bool-cases,
}
use device_pulse.Db.{Driver, Inserted, inserted, duplicate_key, insert_failed, update_all}
use device_pulse.Http.{
  ok, outcome-ok, Keeps, kept, refused, Keeps-require, Keeps-or_refuse, Keeps-bind, Keeps-ok,
}
use device_pulse.Commands.{Device}
use device_pulse.Releases.{
  AgentRelease, update, Shelf, Target, eligible, of_target, trimmed, activate,
}
use device_pulse.Releases.Publishing.{republish, inserted_or_refuse, release_activate_handler}
use device_pulse.Releases.Checks.{update_check_handler}
use device_pulse.Releases.Offers.{update_check_handler-Offered}

abbrev pub has_version : Text → AgentRelease → Bool
has_version version r = text_eq.beq r.version version

-- An activation has put the version on top: a release of it fits the target and is not held back,
-- and every release of another version is older, whatever its system.
pub record IsActive (t : Target) (rs : List AgentRelease) : Type 0 where
  pub release : AgentRelease
  pub stored : At release rs
  pub fits : eligible false t.os t.arch release ≡ true
  pub others :
      All (λ x. (has_version t.version x ≡ true) ⊎ (x.published_at < release.published_at)) rs

-- The version is what is live for the target, among the releases that an update check may offer: if
-- only signed ones count, a signed release of it is not held back, and the signed releases of the
-- system with another version that are not held back are older.
pub record IsLive (signed_only : Bool) (t : Target) (rs : List AgentRelease) : Type 0 where
  pub release : AgentRelease
  pub stored : At release rs
  pub fits : eligible signed_only t.os t.arch release ≡ true
  pub others :
      All
        (λ x. (has_version t.version x ≡ true) ⊎ (x.published_at < release.published_at))
        (filter (eligible signed_only t.os t.arch) rs)

abbrev Overtaken : Text → ℕ → AgentRelease → Type 0
Overtaken version now x = (has_version version x ≡ true) ⊎ (x.published_at < now)

updated-Overtaken :
    (t : Target) (now : ℕ) (rs : List AgentRelease)
    → All (λ x. x.published_at < now) rs
    → All (Overtaken t.version now) (update_all (of_target t) (activate now) rs)
updated-Overtaken t now [] a = tt
updated-Overtaken t now (r ∷ rs) a = elim (Bool-cases (of_target t r)) [
  | inl e ↦ (rw e (inl (ground (arith, e))), updated-Overtaken t now rs a.1)
  | inr e ↦ (rw e (inr a.0), updated-Overtaken t now rs a.1)
]

updated-At :
    (t : Target) (now : ℕ) (r : AgentRelease) {rs : List AgentRelease}
    → of_target t r ≡ true
    → At r rs
    → At (activate now r) (update_all (of_target t) (activate now) rs)
updated-At t now r h here = rw h here
updated-At t now r h (there m) = there (updated-At t now r h m)

At-append_left : (r : AgentRelease) (rs ss : List AgentRelease) → At r rs → At r (rs ++ ss)
At-append_left r [] ss m = elim m [ ]
At-append_left r (x ∷ rs) ss here = here
At-append_left r (x ∷ rs) ss (there m) = there (At-append_left r rs ss m)

At-filter :
    (p : AgentRelease → Bool) (r : AgentRelease) (rs : List AgentRelease)
    → p r ≡ true
    → At r rs
    → At r (filter p rs)
unfolding filter
At-filter p r [] h m = elim m [ ]
At-filter p r (x ∷ rs) h here = rw h here
At-filter p r (x ∷ rs) h (there m) = elim (Bool-cases (p x)) [
  | inl e ↦ rw e (there (At-filter p r rs h m))
  | inr e ↦ rw e (At-filter p r rs h m)
]

-- What an activation leaves is live, if its release may be offered.
pub IsActive-IsLive :
    (signed_only : Bool) (t : Target) (rs : List AgentRelease) (a : IsActive t rs)
    → eligible signed_only t.os t.arch a.release ≡ true
    → IsLive signed_only t rs
IsActive-IsLive signed_only t rs a fits = record {
  release = a.release;
  stored = a.stored;
  fits = fits;
  others =
      All-filter (λ x. (has_version t.version x ≡ true) ⊎ (x.published_at < a.release.published_at))
        (eligible signed_only t.os t.arch) rs a.others;
}

activated-fits :
    (t : Target) (now : ℕ) (r : AgentRelease)
    → of_target t r ≡ true
    → (eligible false t.os t.arch (activate now r) ≡ true) × (has_version t.version r ≡ true)
activated-fits t now r h = (ground (arith, h), ground (arith, h))

module _ (releases : Driver AgentRelease (λ r. r.id)) where
  insert-IsActive :
      (t : Target) (now : ℕ) (r : AgentRelease) (es : List AgentRelease)
      (done : Inserted AgentRelease)
      → of_target t r ≡ true
      → At (activate now r) es
      → All (Overtaken t.version now) es
      → releases.insert_one (activate now r) es ≡ done
      → Keeps (IsActive t) (inserted_or_refuse done)
  insert-IsActive t now r es (inserted fs) h m a e =
      let (same, _) = releases.insert_one_lem _ es fs e in
      let (f, v) = activated-fits t now r h in
      kept (record {
        release = activate now r;
        stored = rw same (At-append_left (activate now r) es _ m);
        fits = f;
        others = rw same (All-append (Overtaken t.version now) es _ a (inl v, tt));
      })
  insert-IsActive t now r es duplicate_key h m a e = refused
  insert-IsActive t now r es insert_failed h m a e = refused

  republish-IsActive :
      (t : Target) (now : ℕ) (r : AgentRelease) (rs : List AgentRelease)
      → of_target t r ≡ true
      → At r rs
      → All (λ x. x.published_at < now) rs
      → Keeps (IsActive t) (republish releases t now r rs)
  unfolding republish
  republish-IsActive t now r rs h m a = Keeps-or_refuse (IsActive t) _ _ _ _ λ res updated.
      let (_, same) = releases.update_many_lem _ _ rs res.1 res.0 updated in
      let stored : At (activate now r) res.1 = rw same (updated-At t now r h m) in
      let overtaken : All (Overtaken t.version now) res.1 =
        rw same (updated-Overtaken t now rs a) in
      elim (Bool-cases (res.0 == 0)) [
        | inl e ↦ rw e (insert-IsActive t now r res.1 _ h stored overtaken refl)
        | inr e ↦
            let (f, v) = activated-fits t now r h in
            rw e (
              kept (record {
                release = activate now r;
                stored = stored;
                fits = f;
                others = overtaken;
              }))
      ]

  -- An activation that succeeds, at a time after every publication so far, makes the version of the
  -- request the live one for its system: a release of it is no longer held back, and every release
  -- of another version is older.
  pub release_activate_handler-IsActive :
      (method actor : Text) (b : Target) (now : ℕ) (s s' : Shelf) (rel : AgentRelease)
      → All (λ x. x.published_at < now) s.releases
      → release_activate_handler releases method actor (some b) now s ≡ (ok rel, s')
      → IsActive (trimmed b) s'.releases
  unfolding release_activate_handler
  release_activate_handler-IsActive method actor b now s s' rel a h =
      let P : AgentRelease × Shelf → Type 0 = λ r. IsActive (trimmed b) r.1.releases in
      Keeps-ok P (outcome-ok s _ h) (
        Keeps-require P _ _ _ _ λ _. Keeps-or_refuse P _ _ _ _ λ b' same.
          Keeps-require P _ _ _ _ λ _. Keeps-or_refuse P _ _ _ _ λ r found.
            let (m, t, _) = releases.find_latest_lem _ _ s.releases r found in
            Keeps-bind P (IsActive (trimmed b)) _ _
              (subst
                (λ x.
                  Keeps (IsActive (trimmed x)) (republish releases (trimmed b') now r s.releases))
                {x = b'} {y = b} (ground (arith, same))
                (republish-IsActive (trimmed b') now r s.releases t m a))
              λ rs active. kept active)

  -- While a version is live for a system, no update check of that system offers another version,
  -- where live is meant among all the releases that the server may offer: the signed ones only, if
  -- it requires signatures, and all otherwise.
  pub IsLive-offered :
      (devices : Driver Device (λ d. d.id)) (hash : Text → Text) (signed_only : Bool) (t : Target)
      (method key current : Text) (now : ℕ) (rs : List AgentRelease) (ds ds' : List Device)
      (r : AgentRelease)
      → IsLive signed_only t rs
      → update_check_handler releases devices hash signed_only method key current t.os t.arch now rs
          ds
        ≡ (ok (update r), ds')
      → r.version ≡ t.version
  IsLive-offered devices hash signed_only t method key current now rs ds ds' r a h =
      let o =
        update_check_handler-Offered releases devices hash signed_only method key current t.os
          t.arch now rs ds ds' r h in
      let fits = eligible signed_only t.os t.arch in
      elim (All-at
        (λ x. (has_version t.version x ≡ true) ⊎ (x.published_at < a.release.published_at)) a.others
        (At-filter fits r rs o.fits o.published)) [
          | inl e ↦ (text_eq.beq_iff r.version t.version).0 e
          | inr lt ↦
              let le : a.release.published_at ≤ r.published_at =
                All-at (λ x. x.published_at ≤ r.published_at) o.newest
                  (At-filter fits a.release rs a.fits a.stored) in
              absurd (omega arith)
        ]
