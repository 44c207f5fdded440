-- ===== src/Access/Tokens.antt =====
-- What a session token is worth.
use device_pulse.Prelude.{
  ℕ, ◌+◌, ◌≤◌, Text, Bool, true, false, List, [], ◌∷◌, ◌++◌, Option, some, ◌==◌, text_eq, All, At,
  ◌≡◌, refl, ap, ◌∙◌, arith, inl, inr, Option-cases,
}
use device_pulse.Db.{Driver}
use device_pulse.Http.{ok, Keeps, kept, Keeps-require, Keeps-or_refuse, Keeps-ok, Keeps-bind}
use device_pulse.Access.{active, valid_role, ObjectIds, User, role_rank, can_access_role}
use device_pulse.Go.Strings.{split, split_onto}
use device_pulse.Access.Sessions.{
  SessionClaims, Signing, day_seconds, claims_of, create_session_token, parse_session_token,
  signed_in_filter, require_auth, require_role,
}
use mathlib.Core.List.{append_assoc, append-nil}

abbrev NoDot : Text → Type 0
NoDot = All (λ b. (b == b'.') ≡ false)

split_onto-plain : (piece s : Text) → NoDot s → split_onto piece b'.' s ≡ (piece ++ s) ∷ []
unfolding split_onto
split_onto-plain piece [] h = rw append-nil
split_onto-plain piece (c ∷ s) h =
    rw h.0 (split_onto-plain (piece ++ c ∷ []) s h.1 ∙ rw append_assoc)

split_onto-dot :
    (piece s rest : Text)
    → NoDot s
    → split_onto piece b'.' (s ++ b'.' ∷ rest) ≡ (piece ++ s) ∷ split_onto [] b'.' rest
unfolding split_onto
split_onto-dot piece [] rest h = rw append-nil
split_onto-dot piece (c ∷ s) rest h =
    rw h.0 (split_onto-dot (piece ++ c ∷ []) s rest h.1 ∙ rw append_assoc)

module _ (ids : ObjectIds) (signing : Signing) where
  open ids use {to_hex, from_hex}
  open signing use {
    encode, decode, sign, decode-encode, encode_no_dot, encode_ne, sign_no_dot, sign_ne,
  }

  split_token :
      (payload : Text)
      → NoDot payload
      → split b'.' (payload ++ b'.' ∷ sign payload) ≡ payload ∷ sign payload ∷ []
  split_token payload h =
      split_onto-dot [] payload (sign payload) h
      ∙ ap (◌∷◌ payload) (split_onto-plain [] (sign payload) (sign_no_dot payload))

  -- A token that was created for a user of a valid role and an id that is not empty is read back as exactly that user's claims, until the
  -- second in which it expires.
  pub parse-create :
      (u : User) (issued now : ℕ) (token : Text)
      → create_session_token ids signing u issued ≡ some token
      → now ≤ issued + day_seconds
      → valid_role u.role ≡ true
      → text_eq.beq (to_hex u.id) [] ≡ false
      → parse_session_token ids signing token now ≡ some (claims_of ids signing u issued)
  unfolding create_session_token parse_session_token
  parse-create u issued now token made fresh role id =
      elim (Option-cases (encode (claims_of ids signing u issued))) [
        | inl e ↦ absurd (ground arith)
        | inr (payload, e) ↦
            let c = claims_of ids signing u issued in
            let token' : payload ++ b'.' ∷ sign payload ≡ token = ground arith in
            rw (← token') (
              rw (split_token payload (encode_no_dot c payload e)) (
                ground (
                  arith,
                  encode_ne c payload e,
                  sign_ne payload,
                  text_eq.beq_iff (sign payload) (sign payload),
                  decode-encode c payload e,
                )))
      ]

  module _ (db : Driver User (λ u. u.id)) where
    -- What lets a request through: a token that is read, of a user who is active and has not been
    -- signed out since; the role, the email and the name are the stored ones.
    pub record IsSignedIn (cookie : Option Text) (now : ℕ) (users : List User) (c : SessionClaims)
        : Type 0 where
      pub token : Text
      pub presented : cookie ≡ some token
      pub claims : SessionClaims
      pub parsed : parse_session_token ids signing token now ≡ some claims
      pub user : User
      pub stored : At user users
      pub identified : from_hex claims.user_id ≡ some user.id
      pub is_active : user.status ≡ active
      pub current : claims.epoch ≡ user.token_epoch
      pub role : c.role ≡ user.role
      pub email : c.email ≡ user.email
      pub name : c.name ≡ user.name

    pub require_auth-Keeps :
        (encrypted : Bool) (cookie : Option Text) (now : ℕ) (users : List User)
        → Keeps
            (IsSignedIn cookie now users)
            (require_auth ids signing db encrypted cookie now users)
    unfolding require_auth
    require_auth-Keeps encrypted cookie now users =
        let P = IsSignedIn cookie now users in
        Keeps-require P _ _ _ _ λ _. Keeps-or_refuse P _ _ _ _ λ token presented.
          Keeps-or_refuse P _ _ _ _ λ claims parsed. Keeps-or_refuse P _ _ _ _ λ i hex.
            Keeps-or_refuse P _ _ _ _ λ user found. Keeps-require P _ _ _ _ λ epoch.
              let (stored, passes) =
                db.find_one_lem (signed_in_filter ids signing db i) users user found in
              let same : user.id ≡ i = ground arith in
              kept (record {
                token = token;
                presented = presented;
                claims = claims;
                parsed = parsed;
                user = user;
                stored = stored;
                identified = rw same hex;
                is_active = ground (arith, text_eq.beq_iff user.status active);
                current = ground arith;
                role = refl;
                email = refl;
                name = refl;
              })

    -- A request that `requireRole` lets through carries a token of a user who is active, has not
    -- been signed out since, and whose stored role, not the token's, reaches the required one.
    pub require_role_sound :
        (required : Text) (encrypted : Bool) (cookie : Option Text) (now : ℕ) (users : List User)
        (c : SessionClaims)
        → require_role ids signing db required encrypted cookie now users ≡ ok c
        → IsSignedIn cookie now users c × (role_rank required ≤ role_rank c.role)
    unfolding require_role can_access_role
    require_role_sound required encrypted cookie now users c e =
        let P = λ (c : SessionClaims).
          IsSignedIn cookie now users c × (role_rank required ≤ role_rank c.role) in
        Keeps-ok P e (
          Keeps-bind P (IsSignedIn cookie now users) _ _
            (require_auth-Keeps encrypted cookie now users)
            λ d s. Keeps-require P _ _ _ _ λ allowed. kept (s, ground arith))
