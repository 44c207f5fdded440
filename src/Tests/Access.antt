-- ===== src/Tests/Access.antt =====
-- User administration and session tokens on two users.
use device_pulse.Prelude.{
  ◌≤◌, ◌<◌, Text, codes, list_beq, text_eq, true, false, List, [], ◌∷◌, some, filter, here, there,
  ◌≡◌, ◌≢◌, refl, arith,
}
use device_pulse.Go.Strings.{split_onto}
use device_pulse.Db.InMemory.{find_first, update_first}
use device_pulse.Http.{ok, ◌>>=◌, ◌>>◌, require, or_refuse, finish, Reply, done}
use device_pulse.Access.{
  role_admin, role_manager, valid_role, role_rank, can_access_role, is_active_admin,
}
use device_pulse.Access.Ids.{UniqueIds, admins}
use device_pulse.Access.Users.{
  Admin, Request, post, user_segment, user_revoke_sessions_handler, user_password_handler,
}
use device_pulse.Access.Governed.{IsGoverned}
use device_pulse.Access.Admins.{
  Change, role_change, revoke, password_reset, handle_all, handle_all-IsGoverned,
}
use device_pulse.Access.Sessions.{
  claims_of, create_session_token, parse_session_token, parse_parts, read_claims, require_auth,
  require_role,
}
use device_pulse.Access.Tokens.{IsSignedIn, parse-create, require_role_sound}
use device_pulse.Access.SignOut.{revoke_signs_out}
use device_pulse.Tests.Accounts.{
  ids, bob, claims, signing, users_db, bcrypt, users, state, token, hex_number,
}

creates : create_session_token ids signing bob 0 ≡ some token
unfolding create_session_token list_beq
creates = refl

valid_manager : valid_role role_manager ≡ true
unfolding valid_role list_beq
valid_manager = refl

named : text_eq.beq (codes "b") [] ≡ false
unfolding list_beq
named = refl

parse-create_example : parse_session_token ids signing token 5 ≡ some (claims_of ids signing bob 0)
parse-create_example =
    parse-create ids signing bob 0 5 token creates (omega arith) valid_manager named

admitted : require_role ids signing users_db role_manager true (some token) 5 users ≡ ok claims
unfolding require_role require_auth parse_session_token parse_parts read_claims split_onto
    valid_role can_access_role role_rank require or_refuse ◌>>=◌ ◌>>◌ find_first list_beq hex_number
admitted = refl

require_role_sound_example :
    IsSignedIn ids signing users_db (some token) 5 users claims
    × (role_rank role_manager ≤ role_rank role_manager)
require_role_sound_example =
    require_role_sound ids signing users_db role_manager true (some token) 5 users claims admitted

parses : parse_session_token ids signing token 5 ≡ some claims
unfolding parse_session_token parse_parts read_claims split_onto valid_role list_beq
parses = refl

hex_of_bob : hex_number (codes "b") ≡ some 1
unfolding hex_number
hex_of_bob = refl

abbrev signed_in : IsSignedIn ids signing users_db (some token) 5 users claims
signed_in = record {
  token = token;
  presented = refl;
  claims = claims;
  parsed = parses;
  user = bob;
  stored = there here;
  identified = hex_of_bob;
  is_active = refl;
  current = refl;
  role = refl;
  email = refl;
  name = refl;
}

users_unique : UniqueIds users
users_unique = ((refl, tt), (tt, tt))

abbrev request : {B : Type 0} → List Text → B → Request B
request parts body = record {
  method = post;
  parts = parts;
  body = some body;
  actor = some (record { user_id = codes "a"; email = codes "e" });
  now = 6;
}

abbrev revoke_request : Request (Unit {0})
revoke_request = request (codes "users" ∷ codes "b" ∷ codes "sessions" ∷ codes "revoke" ∷ []) tt

abbrev revoked : Reply × Admin
revoked = user_revoke_sessions_handler ids users_db revoke_request state

revokes : revoked ≡ (done 200, revoked.1)
unfolding user_revoke_sessions_handler finish require or_refuse ◌>>=◌ ◌>>◌ list_beq find_first
    update_first hex_number
revokes = refl

revoke_signs_out_example :
    require_auth ids signing users_db true (some token) 5 revoked.1.users ≢ ok claims
revoke_signs_out_example =
    revoke_signs_out ids signing users_db revoke_request state revoked.1 true (some token) 5 claims
      claims users_unique revokes signed_in (codes "b", refl, hex_of_bob)

abbrev password_request : Request Text
password_request =
    request (codes "users" ∷ codes "b" ∷ codes "password" ∷ []) (codes "longpassword")

abbrev reset_password : Reply × Admin
reset_password = user_password_handler ids users_db bcrypt password_request state

resets : reset_password ≡ (done 200, reset_password.1)
unfolding user_password_handler finish require or_refuse ◌>>=◌ ◌>>◌ list_beq find_first update_first
    hex_number
resets = refl

addressed : user_segment (codes "password") password_request.parts ≡ some (codes "b")
unfolding list_beq
addressed = refl

governed : 0 < admins users
unfolding admins filter is_active_admin list_beq
governed = omega arith

state-IsGoverned : IsGoverned state
state-IsGoverned = record { unique = users_unique; governed = governed }

abbrev changes : List (Change ids users_db bcrypt)
changes =
    role_change (request (codes "users" ∷ codes "b" ∷ codes "role" ∷ []) role_admin)
    ∷ password_reset password_request
    ∷ revoke revoke_request
    ∷ []

handle_all-IsGoverned_example : IsGoverned (handle_all ids users_db bcrypt changes state)
handle_all-IsGoverned_example =
    handle_all-IsGoverned ids users_db bcrypt changes state state-IsGoverned
