-- ===== src/Access/Login/Sound.antt =====
-- Who signs in at api/main.go.
use device_pulse.Prelude.{
  Text, Bool, true, false, List, Option, some, text_eq, At, ◌≡◌, ap, subst, ◌∙◌, arith, inl, inr,
  Bool-cases, Option-cases,
}
use device_pulse.Db.{Driver}
use device_pulse.Http.{Checked, ok, refuse}
use device_pulse.RateLimit.{RateLimiter, blocked}
use device_pulse.Access.{active, ObjectIds, User}
use device_pulse.Access.Users.{post}
use device_pulse.Access.Sessions.{Signing, create_session_token}
use device_pulse.Access.Login.{
  AuthRequest, Attempt, normalize_email, fail_key, login_filter, sign_in, refuse_login, check_login,
  auth_login_handler,
}

module _ (ids : ObjectIds) (signing : Signing) (db : Driver User (λ u. u.id))
    (matches : Text → Text → Bool) where
  -- What lets somebody sign in.
  pub record SignsIn (body : AuthRequest) (r : Attempt) (users : List User)
      (rl : Option RateLimiter) (token : Text) (u : User) : Type 0 where
    pub requested : r.body ≡ some body
    pub stored : At u users
    pub same_email : u.email ≡ normalize_email body.email
    pub is_active : u.status ≡ active
    pub right_password : matches u.password_hash body.password ≡ true
    pub not_blocked : blocked rl (fail_key body r.ip) r.now ≡ false
    pub cookie : create_session_token ids signing u r.issued ≡ some token

  check_login_sound :
      (body : AuthRequest) (r : Attempt) (users : List User) (rl : Option RateLimiter)
      (token : Text) (u : User)
      → r.body ≡ some body
      → (check_login ids signing db matches body r users rl).0 ≡ ok (token, u)
      → SignsIn body r users rl token u
  unfolding check_login sign_in refuse_login
  check_login_sound body r users rl token u b e =
      elim (Bool-cases (blocked rl (fail_key body r.ip) r.now)) [
        | inl x ↦
            let h : ◌≡◌ {A = Checked (Text × User)}
                (refuse 429 "Too many failed sign-in attempts. Try again later.") (ok (token, u)) =
              rw x at e in
            cc h
        | inr x ↦ elim (Option-cases (db.find_one (login_filter body) users)) [
          | inl f ↦
              let h : ◌≡◌ {A = Checked (Text × User)} (refuse 401 "Invalid email or password")
                  (ok (token, u)) =
                rw (x, f) at e in
              cc h
          | inr (v, f) ↦ elim (Bool-cases (matches v.password_hash body.password)) [
            | inr m ↦
                let h : ◌≡◌ {A = Checked (Text × User)} (refuse 401 "Invalid email or password")
                    (ok (token, u)) =
                  rw (x, f, m) at e in
                cc h
            | inl m ↦ elim (Option-cases (create_session_token ids signing v r.issued)) [
              | inl c ↦
                  let h : ◌≡◌ {A = Checked (Text × User)} (refuse 500 "Session error")
                      (ok (token, u)) =
                    rw (x, f, m, sign_in, c) at e in
                  cc h
              | inr (made, c) ↦
                  let h : ◌≡◌ {A = Checked (Text × User)} (ok (made, v)) (ok (token, u)) =
                    rw (x, f, m, sign_in, c) at e in
                  let same_token : made ≡ token = ground arith in
                  let same : v ≡ u = ground arith in
                  let (stored, passes) = db.find_one_lem (login_filter body) users v f in
                  subst (λ w. SignsIn body r users rl token w) same
                    (record {
                      requested = b;
                      stored = stored;
                      same_email =
                          ground (arith, text_eq.beq_iff v.email (normalize_email body.email));
                      is_active = ground (arith, text_eq.beq_iff v.status active);
                      right_password = m;
                      not_blocked = x;
                      cookie = c ∙ ap some same_token;
                    })
            ]
          ]
        ]
      ]

  -- A sign-in that succeeds was one of a stored, active user with that email, whose password hash
  -- the password matches, when the limiter did not block the email and the address; and the cookie is a session token for that user.
  pub auth_login_handler_sound :
      (r : Attempt) (users : List User) (rl : Option RateLimiter) (token : Text) (u : User)
      → (auth_login_handler ids signing db matches r users rl).0 ≡ ok (token, u)
      → (body : AuthRequest) × SignsIn body r users rl token u
  unfolding auth_login_handler
  auth_login_handler_sound r users rl token u e = elim (Bool-cases (text_eq.beq r.method post)) [
    | inr m ↦
        let h : ◌≡◌ {A = Checked (Text × User)} (refuse 405 "Method not allowed") (ok (token, u)) =
          rw m at e in
        cc h
    | inl m ↦ elim (Option-cases r.body) [
      | inl n ↦
          let h : ◌≡◌ {A = Checked (Text × User)} (refuse 400 "Bad JSON") (ok (token, u)) =
            rw (m, n) at e in
          cc h
      | inr (body, b) ↦ (body, check_login_sound body r users rl token u b (rw (m, b) at e))
    ]
  ]
