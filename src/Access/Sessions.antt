-- ===== src/Access/Sessions.antt =====
-- Sessions of api/main.go: `createSessionToken`, `parseSessionToken`, `requireAuth` and
-- `requireRole`. The signature and the encodings are an interface; instants are Unix seconds.
use device_pulse.Prelude.{
  ℕ, ◌+◌, ◌*◌, Text, Bool, false, not, ◌&&◌, ◌||◌, List, [], ◌∷◌, ◌++◌, Option, none, some, ltb,
  ◌==◌, text_eq, if◌then◌else◌, All, ◌≡◌,
}
use device_pulse.Go.Strings.{split, split_onto}
use device_pulse.Db.{Driver}
use device_pulse.Http.{Checked, ok, ◌>>=◌, ◌>>◌, require, or_refuse}
use device_pulse.Access.{active, valid_role, can_access_role, ObjectIds, User}

pub record SessionClaims : Type 0 where
  pub user_id : Text
  pub email : Text
  pub name : Text
  pub role : Text
  pub exp : ℕ
  pub epoch : ℕ

-- `json.Marshal`, `base64.RawURLEncoding` and `signSessionPayload`. What is encoded is read back;
-- neither alphabet has a dot, and neither text is empty.
pub record Signing : Type 0 where
  pub encode : SessionClaims → Option Text
  pub decode : Text → Option SessionClaims
  pub sign : Text → Text
  pub decode-encode : (c : SessionClaims) (t : Text) → encode c ≡ some t → decode t ≡ some c
  pub encode_no_dot :
      (c : SessionClaims) (t : Text) → encode c ≡ some t → All (λ b. (b == b'.') ≡ false) t
  pub encode_ne : (c : SessionClaims) (t : Text) → encode c ≡ some t → text_eq.beq t [] ≡ false
  pub sign_no_dot : (t : Text) → All (λ b. (b == b'.') ≡ false) (sign t)
  pub sign_ne : (t : Text) → text_eq.beq (sign t) [] ≡ false

abbrev pub day_seconds : ℕ
day_seconds = 24 * 3600

module _ (ids : ObjectIds) (signing : Signing) where
  open ids use {to_hex, from_hex}
  open signing use {encode, decode, sign}

  abbrev pub claims_of : User → ℕ → SessionClaims
  claims_of u now = record {
    user_id = to_hex u.id;
    email = u.email;
    name = u.name;
    role = u.role;
    exp = now + day_seconds;
    epoch = u.token_epoch;
  }

  unfoldable pub create_session_token : User → ℕ → Option Text
  create_session_token u now = elim (encode (claims_of u now)) [
    | none ↦ none
    | some payload ↦ some (payload ++ b'.' ∷ sign payload)
  ]

  -- The last test of `parseSessionToken`.
  abbrev pub usable : SessionClaims → ℕ → Bool
  usable c now = not (ltb c.exp now) && not (text_eq.beq c.user_id []) && valid_role c.role

  unfoldable pub read_claims : Option SessionClaims → ℕ → Option SessionClaims
  read_claims none now = none
  read_claims (some c) now = if usable c now then some c else none

  unfoldable pub parse_parts : List Text → ℕ → Option SessionClaims
  unfolding read_claims
  parse_parts (payload ∷ signature ∷ []) now =
      if text_eq.beq payload [] || text_eq.beq signature []
      then none
      else if text_eq.beq (sign payload) signature
      then read_claims (decode payload) now
      else none
  parse_parts _ now = none

  unfoldable pub parse_session_token : Text → ℕ → Option SessionClaims
  unfolding parse_parts split_onto
  parse_session_token token now = parse_parts (split b'.' token) now

  module _ (db : Driver User (λ u. u.id)) where
    abbrev pub signed_in_filter : ℕ → User → Bool
    signed_in_filter i u = u.id == i && text_eq.beq u.status active

    -- `requireAuth` up to its call of `next`, with the claims that it puts in the context.
    -- `encrypted` says that the writer is the encrypting one, which `requireEncryptedResponse` wants.
    unfoldable pub require_auth : Bool → Option Text → ℕ → List User → Checked SessionClaims
    unfolding parse_session_token
    require_auth encrypted cookie now users = do
      require encrypted 400 "Dashboard response encryption required"
      token ← or_refuse cookie 401 "Unauthorized"
      claims ← or_refuse (parse_session_token token now) 401 "Unauthorized"
      i ← or_refuse (from_hex claims.user_id) 401 "Unauthorized"
      user ← or_refuse (db.find_one (signed_in_filter i) users) 401 "Unauthorized"
      require (claims.epoch == user.token_epoch) 401 "Unauthorized"
      ok (record claims { email = user.email; name = user.name; role = user.role })

    unfoldable pub require_role : Text → Bool → Option Text → ℕ → List User → Checked SessionClaims
    unfolding require_auth
    require_role required encrypted cookie now users = do
      claims ← require_auth encrypted cookie now users
      require (can_access_role claims.role required) 403 "Forbidden"
      ok claims
