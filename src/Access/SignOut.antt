-- ===== src/Access/SignOut.antt =====
-- Signing a user out: a token that was good before is refused afterwards.
use device_pulse.Prelude.{
  ℕ, ◌+◌, Text, codes, Bool, false, List, Option, some, ◌==◌, text_eq, ◌≡◌, refl, arith, inl, inr,
  All-at, ◌≢◌,
}
use device_pulse.Db.{Driver}
use device_pulse.Http.{ok, done, kept, Keeps-require, Keeps-or_refuse, Keeps-ok}
use device_pulse.Access.{ObjectIds, User}
use device_pulse.Access.Sessions.{SessionClaims, Signing, require_auth}
use device_pulse.Http.{Keeps-done}
use device_pulse.Access.Ids.{UniqueIds, unique_user, Updates-inverse}
use device_pulse.Access.Users.{
  Request, Admin, segment_of, user_segment, load_user, end_sessions, set_password,
  user_revoke_sessions_handler, user_password_handler,
}
use device_pulse.Access.Tokens.{IsSignedIn, require_auth-Keeps}

module _ (ids : ObjectIds) (signing : Signing) (db : Driver User (λ u. u.id)) where
  -- The write behind a reply of 200: the addressed user's document, with a later epoch.
  record Ended (f : User → User) (i : ℕ) (before after : Admin) : Type 0 where
    matched : ℕ
    there_is : (matched ≡ 0) → ⊥
    written : db.update_one (λ u. u.id == i) f before.users ≡ some (matched, after.users)

  Ended-signs_out :
      (f : User → User) (i : ℕ) (before after : Admin) (cookie : Option Text) (now : ℕ)
      (c c' : SessionClaims)
      → ((u : User) → (f u).id ≡ u.id)
      → ((u : User) → (f u).token_epoch ≡ u.token_epoch + 1)
      → UniqueIds before.users
      → Ended f i before after
      → (h : IsSignedIn ids signing db cookie now before.users c) → h.user.id ≡ i
      → ¬ IsSignedIn ids signing db cookie now after.users c'
  Ended-signs_out f i before after cookie now c c' keeps moves unique w h e h' =
      elim (db.update_one_lem (λ u. u.id == i) f before.users after.users w.matched w.written) [
        | inl (z, same, none') ↦ w.there_is z
        | inr (o, x) ↦
            let token : h'.token ≡ h.token = ground (arith, h.presented, h'.presented) in
            let claims : h'.claims ≡ h.claims = ground (arith, h.parsed, h'.parsed, token) in
            let id : h'.user.id ≡ i = ground (arith, h.identified, h'.identified, claims) in
            let (u, m, same) = Updates-inverse i f keeps x unique h'.user h'.stored id in
            let again : u ≡ h.user =
              unique_user u h.user unique m h.stored (ground (arith, same, keeps u)) in
            ground (arith, moves u, same, again, claims, h.current, h'.current)
      ]

  found_matches :
      (f : User → User) (i : ℕ) (s : Admin) (res : ℕ × List User) (target : User)
      → load_user ids db i s.users ≡ some target
      → db.update_one (λ u. u.id == i) f s.users ≡ some res
      → (res.0 ≡ 0)
      → ⊥
  found_matches f i s res target found updated z =
      let (m, e) = db.find_one_lem (λ u. u.id == i) s.users target found in
      elim (db.update_one_lem (λ u. u.id == i) f s.users res.1 res.0 updated) [
        | inl (_, _, none') ↦
            let miss : (target.id == i) ≡ false = All-at (λ u. (u.id == i) ≡ false) none' m in
            ground arith
        | inr (o, x) ↦ omega arith
      ]

  refused_unless :
      (encrypted : Bool) (cookie : Option Text) (now : ℕ) (users : List User)
      → ((c : SessionClaims) → ¬ IsSignedIn ids signing db cookie now users c)
      → (c : SessionClaims) → require_auth ids signing db encrypted cookie now users ≢ ok c
  refused_unless encrypted cookie now users no' c e = no' c (
      Keeps-ok (IsSignedIn ids signing db cookie now users) e
        (require_auth-Keeps ids signing db encrypted cookie now users))

  abbrev pub Addressed : ℕ → List Text → ℕ → Type 0
  Addressed n parts i =
      (segment : Text) × (segment_of n parts ≡ some segment) × (ids.from_hex segment ≡ some i)

  revoke-Ended :
      (r : Request (Unit {0})) (s s' : Admin)
      → user_revoke_sessions_handler ids db r s ≡ (done 200, s')
      → (i : ℕ) × Addressed 4 r.parts i × Ended end_sessions i s s'
  unfolding user_revoke_sessions_handler
  revoke-Ended r s s' e =
      let P = λ (s' : Admin). (i : ℕ) × Addressed 4 r.parts i × Ended end_sessions i s s' in
      Keeps-done P s _ _ e (
        Keeps-require P _ _ _ _ λ _. Keeps-or_refuse P _ _ _ _ λ segment at'.
          Keeps-or_refuse P _ _ _ _ λ i hex. Keeps-or_refuse P _ _ _ _ λ target found.
            Keeps-or_refuse P _ _ _ _ λ res updated. kept (
              i,
              (segment, at', hex),
              record {
                matched = res.0;
                there_is = found_matches end_sessions i s res target found updated;
                written = updated;
              },
            ))

  -- Signing a user out ends every session of theirs: where the users' ids are unique, a token that
  -- was good for the addressed user is refused once the request has been answered with 200.
  pub revoke_signs_out :
      (r : Request (Unit {0})) (s s' : Admin) (encrypted : Bool) (cookie : Option Text) (now : ℕ)
      (c c' : SessionClaims)
      → UniqueIds s.users
      → user_revoke_sessions_handler ids db r s ≡ (done 200, s')
      → (h : IsSignedIn ids signing db cookie now s.users c) → Addressed 4 r.parts h.user.id
      → require_auth ids signing db encrypted cookie now s'.users ≢ ok c'
  revoke_signs_out r s s' encrypted cookie now c c' unique e h (segment, at', hex) =
      let (i, (segment', at2, hex2), w) = revoke-Ended r s s' e in
      let same : segment ≡ segment' = ground arith in
      let i_is : h.user.id ≡ i = ground (arith, same) in
      refused_unless encrypted cookie now s'.users
        (λ d.
          Ended-signs_out end_sessions i s s' cookie now c d (λ u. refl) (λ u. refl) unique w h
            i_is)
        c'

  module _ (bcrypt : Text → Option Text) where
    password-Ended :
        (r : Request Text) (s s' : Admin)
        → user_password_handler ids db bcrypt r s ≡ (done 200, s')
        → (segment : Text) × (i : ℕ) × (hash : Text) × (user_segment (codes "password") r.parts
            ≡ some segment)
          × (ids.from_hex segment ≡ some i)
          × Ended (set_password hash r.now) i s s'
    unfolding user_password_handler
    password-Ended r s s' e =
        let P = λ (s' : Admin).
          (segment : Text) × (i : ℕ) × (hash : Text) × (user_segment (codes "password") r.parts
            ≡ some segment)
          × (ids.from_hex segment ≡ some i)
          × Ended (set_password hash r.now) i s s' in
        Keeps-done P s _ _ e (
          Keeps-require P _ _ _ _ λ _. Keeps-or_refuse P _ _ _ _ λ segment at'.
            Keeps-or_refuse P _ _ _ _ λ i hex. Keeps-or_refuse P _ _ _ _ λ password _.
              Keeps-require P _ _ _ _ λ _. Keeps-or_refuse P _ _ _ _ λ hash _.
                Keeps-or_refuse P _ _ _ _ λ res updated. Keeps-require P _ _ _ _ λ found. kept (
                  segment,
                  i,
                  hash,
                  at',
                  hex,
                  record { matched = res.0; there_is = λ z. ground arith; written = updated },
                ))

    -- A password reset ends every session of the user: where the users' ids are unique, a token that
    -- was good for the addressed user is refused once the reset has been answered with 200.
    pub password_signs_out :
        (r : Request Text) (s s' : Admin) (encrypted : Bool) (cookie : Option Text) (now : ℕ)
        (c c' : SessionClaims) (segment : Text)
        → UniqueIds s.users
        → user_password_handler ids db bcrypt r s ≡ (done 200, s')
        → (h : IsSignedIn ids signing db cookie now s.users c)
        → user_segment (codes "password") r.parts ≡ some segment
        → ids.from_hex segment ≡ some h.user.id
        → require_auth ids signing db encrypted cookie now s'.users ≢ ok c'
    password_signs_out r s s' encrypted cookie now c c' segment unique e h at' hex =
        let (segment', i, hash, at2, hex2, w) = password-Ended r s s' e in
        let same : segment ≡ segment' = ground arith in
        let i_is : h.user.id ≡ i = ground (arith, same) in
        refused_unless encrypted cookie now s'.users
          (λ d.
            Ended-signs_out (set_password hash r.now) i s s' cookie now c d (λ u. refl) (λ u. refl)
              unique w h i_is)
          c'
