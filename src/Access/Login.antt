-- ===== src/Access/Login.antt =====
-- The sign-in of a dashboard user, `authLoginHandler` of api/main.go. `matches` is bcrypt's
-- comparison of a hash with a password; the instants of the limiter are in nanoseconds, and the
-- one of the token in Unix seconds. What the handler answers is the cookie and the user.
pub mod Sound
pub mod Guesses
use device_pulse.Prelude.{
  ℕ, Text, codes, Bool, true, false, not, ◌&&◌, List, ◌++◌, ◌∷◌, Option, none, some, text_eq,
  if◌then◌else◌,
}
use device_pulse.Go.Strings.{trim_space, to_lower}
use device_pulse.Db.{Driver}
use device_pulse.Http.{Checked, ok, refuse}
use device_pulse.RateLimit.{RateLimiter, blocked, hit, reset}
use device_pulse.Access.{active, ObjectIds, User}
use device_pulse.Access.Users.{post}
use device_pulse.Access.Sessions.{Signing, create_session_token}

pub record AuthRequest : Type 0 where
  pub email : Text
  pub password : Text

-- One request: `now` is when the limiter is asked, `checked` when the password has been compared.
pub record Attempt : Type 0 where
  pub method : Text
  pub body : Option AuthRequest
  pub ip : Text
  pub now : ℕ
  pub checked : ℕ
  pub issued : ℕ

unfoldable pub normalize_email : Text → Text
normalize_email email = to_lower (trim_space email)

abbrev pub fail_key : AuthRequest → Text → Text
fail_key body ip = normalize_email body.email ++ b'|' ∷ ip

abbrev pub login_filter : AuthRequest → User → Bool
login_filter body u =
    text_eq.beq u.email (normalize_email body.email) && text_eq.beq u.status active

module _ (ids : ObjectIds) (signing : Signing) (db : Driver User (λ u. u.id))
    (matches : Text → Text → Bool) where
  -- The password has been found right: the failures are forgotten, and the session begins.
  unfoldable pub sign_in :
      Text → ℕ → User → Option RateLimiter → Checked (Text × User) × Option RateLimiter
  sign_in key issued u rl = (
    elim (create_session_token ids signing u issued) [
      | none ↦ refuse 500 "Session error"
      | some token ↦ ok (token, u)
    ],
    reset rl key,
  )

  unfoldable pub refuse_login :
      Text → ℕ → Option RateLimiter → Checked (Text × User) × Option RateLimiter
  refuse_login key checked rl = (refuse 401 "Invalid email or password", hit rl key checked)

  unfoldable pub check_login :
      AuthRequest
      → Attempt
      → List User
      → Option RateLimiter
      → Checked (Text × User) × Option RateLimiter
  check_login body r users rl =
      let key = fail_key body r.ip in
      if blocked rl key r.now
      then (refuse 429 "Too many failed sign-in attempts. Try again later.", rl)
      else elim (db.find_one (login_filter body) users) [
        | none ↦ refuse_login key r.checked rl
        | some u ↦
            if matches u.password_hash body.password
            then sign_in key r.issued u rl
            else refuse_login key r.checked rl
      ]

  unfoldable pub auth_login_handler :
      Attempt → List User → Option RateLimiter → Checked (Text × User) × Option RateLimiter
  auth_login_handler r users rl =
      if not (text_eq.beq r.method post)
      then (refuse 405 "Method not allowed", rl)
      else elim r.body [
        | none ↦ (refuse 400 "Bad JSON", rl)
        | some body ↦ check_login body r users rl
      ]
