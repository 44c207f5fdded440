-- ===== src/Tests/SignIn.antt =====
-- Sign-ins with one user in the collection, and registrations with none.
use device_pulse.Prelude.{
  ◌*◌, ◌+◌, erase, ℕ, ◌+◌, ◌≤◌, ◌<◌, Text, codes, Bool, true, false, List, [], ◌∷◌, some, text_eq,
  list_beq, nat_eq, length, filter, lookup, insert, ◌≡◌, refl, arith,
}
use device_pulse.Go.Strings.{trim_space, trim_left, trim_right}
use device_pulse.Db.InMemory.{find_first, add_document, has_id}
use device_pulse.RateLimit.{
  RateLimiter, reset, new_rate_limiter, blocked, blocked_by, hit, allow, count_hit, current_window,
}
use device_pulse.Access.{User}
use device_pulse.Access.Users.{post}
use device_pulse.Access.Sessions.{create_session_token}
use device_pulse.Access.Login.{
  AuthRequest, Attempt, normalize_email, sign_in, refuse_login, check_login, auth_login_handler,
}
use device_pulse.Access.Login.Sound.{SignsIn, auth_login_handler_sound}
use device_pulse.Access.Login.Guesses.{guesses, sign_ins, IsTry, guesses-le_limits}
use device_pulse.Access.Bootstrap.{
  Registration, validated, Shared, Answers, count_users, take_lock, store_admin, advance,
}
use device_pulse.Access.Bootstrap.Exclusion.{System, IsExclusive, turn, run, run-IsExclusive}
use device_pulse.Tests.Accounts.{ids, bob, signing, users_db, token}

abbrev compare : Text → Text → Bool
compare hash password = list_beq hash password

abbrev attempt : Text → ℕ → Attempt
attempt password at = record {
  method = post;
  body = some (record { email = codes " E "; password = password });
  ip = codes "::1";
  now = at;
  checked = at + 1;
  issued = 0;
}

abbrev limiter : RateLimiter
limiter = new_rate_limiter 2 1000

auth_login_handler_sound_example :
    (body : AuthRequest) × SignsIn ids signing users_db compare body
      (attempt [] 5)
      (bob ∷ [])
      (some limiter)
      token
      bob
unfolding auth_login_handler check_login sign_in create_session_token blocked blocked_by
    normalize_email find_first trim_space trim_left trim_right list_beq lookup
auth_login_handler_sound_example =
    auth_login_handler_sound ids signing users_db compare (attempt [] 5) (bob ∷ []) (some limiter)
      token bob refl

-- Bob knows the empty password.
abbrev tries : List (Attempt × List User)
tries =
    (attempt (codes "1") 5, bob ∷ [])
    ∷ (attempt [] 8, bob ∷ [])
    ∷ (attempt (codes "2") 10, bob ∷ [])
    ∷ (attempt (codes "3") 20, bob ∷ [])
    ∷ (attempt (codes "4") 30, bob ∷ [])
    ∷ []

-- The last guess is refused without a look at the password.
three_guesses :
    (guesses ids signing users_db compare tries (some limiter) ≡ 3)
    × (sign_ins ids signing users_db compare tries (some limiter) ≡ 1)
unfolding guesses sign_ins auth_login_handler check_login refuse_login sign_in create_session_token
    hit allow count_hit current_window blocked blocked_by reset erase normalize_email find_first
    trim_space trim_left trim_right list_beq lookup insert
three_guesses = (refl, refl)

abbrev try_key : Text
try_key = codes "e|::1"

is_try : (password : Text) (at : ℕ) → at < 900 → IsTry try_key 0 1000 (attempt password at)
unfolding normalize_email trim_space trim_left trim_right
is_try password at h = record {
  of_key = (refl, tt);
  ordered = omega arith;
  from_start = omega arith;
  to_end = omega (arith, h);
}

guesses-le_limits_example :
    guesses ids signing users_db compare tries (some limiter)
    ≤ 4 + sign_ins ids signing users_db compare tries (some limiter) * 2
guesses-le_limits_example =
    guesses-le_limits ids signing users_db compare try_key 0 tries limiter (omega arith) (
      is_try (codes "1") 5 (omega arith),
      (
        is_try [] 8 (omega arith),
        (
          is_try (codes "2") 10 (omega arith),
          (is_try (codes "3") 20 (omega arith), (is_try (codes "4") 30 (omega arith), tt)),
        ),
      ),
    )

abbrev registration : Text → Registration
registration email = record { email = email; password = codes "password"; name = codes "n" }

abbrev works : ℕ → Answers
works id = record {
  config_works = true;
  password_hash = some (codes "h");
  new_id = id;
  now = 7;
  cookie_works = true;
}

abbrev nobody : Shared
nobody = record { users = []; lock = false }

-- Both requests count no users; then one registers to its end, and the other after it.
abbrev race : List (ℕ × Answers)
race =
    (0, works 1)
    ∷ (1, works 2)
    ∷ (0, works 1)
    ∷ (0, works 1)
    ∷ (0, works 1)
    ∷ (1, works 2)
    ∷ (1, works 2)
    ∷ (1, works 2)
    ∷ []

abbrev two_requests : System
two_requests = record { shared = nobody; phases = λ i. validated (registration ((97 + i) ∷ [])) }

two_admins : length (run users_db race two_requests).shared.users ≡ 2
unfolding run turn advance count_users take_lock store_admin add_document has_id filter
two_admins = refl

run-IsExclusive_example : IsExclusive (run users_db race two_requests)
run-IsExclusive_example =
    run-IsExclusive users_db race two_requests
      (record { single = λ i j hi hj. cc hi; taken = λ i hi. cc hi })
