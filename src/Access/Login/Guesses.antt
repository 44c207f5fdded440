-- ===== src/Access/Login/Guesses.antt =====
-- How many wrong passwords can be tried at the sign-in of api/main.go.
use device_pulse.Prelude.{
  ℕ, suc, ◌+◌, ◌≤◌, ◌<◌, Text, Bool, true, false, not, ◌&&◌, List, [], ◌∷◌, Option, none, some, leb,
  ◌==◌, text_eq, if◌then◌else◌, lookup, erase, ◌*◌, beq_refl, All, ◌≡◌, refl, sym, ap, subst, arith,
  inl, inr, Bool-cases, Option-cases,
}
use native.Mathlib.Nat.{suc-mul}
use device_pulse.Db.{Driver}
use device_pulse.Http.{Checked, ok, refuse}
use device_pulse.RateLimit.{
  RateLimiter, expired, blocked, blocked_by, current_window, count_hit, allow, hit, reset,
}
use device_pulse.RateLimit.Passed.{Hit, Within, count_hit_kept}
use device_pulse.RateLimit.Window.{allowed, allowed-le_twice, allowed-reset-le}
use device_pulse.Access.{ObjectIds, User}
use device_pulse.Access.Users.{post}
use device_pulse.Access.Sessions.{Signing, create_session_token}
use device_pulse.Access.Login.{
  AuthRequest, Attempt, fail_key, login_filter, sign_in, refuse_login, check_login,
  auth_login_handler,
}

-- A key that is not blocked at `now` may still be hit at a later time.
allow_later :
    (rl : RateLimiter) (key : Text) (now later : ℕ)
    → 0 < rl.limit
    → now ≤ later
    → blocked (some rl) key now ≡ false
    → (allow (some rl) key later ≡ (true, some (count_hit rl key later).1))
unfolding allow count_hit blocked blocked_by current_window
allow_later rl key now later positive le free =
    let some_limit : (rl.limit == 0) ≡ false = ground arith in
    elim (Option-cases (lookup key rl.hits)) [
      | inl e ↦ let fits : leb 1 rl.limit ≡ true = ground arith in rw (some_limit, e, fits) refl
      | inr (w, e) ↦
          let live : (not (expired rl w now) && leb rl.limit w.count) ≡ false =
            rw (some_limit, e) at free in
          elim (Bool-cases (expired rl w later)) [
            | inl old ↦
                let fits : leb 1 rl.limit ≡ true = ground arith in
                rw (some_limit, e, old, fits) refl
            | inr young ↦
                let fits : leb (w.count + 1) rl.limit ≡ true = ground arith in
                rw (some_limit, e, young, fits) refl
          ]
    ]

allowed_hit :
    (key : Text) (at : ℕ) (rl : RateLimiter) (hs : List Hit)
    → allow (some rl) key at ≡ (true, some (count_hit rl key at).1)
    → allowed key (some rl) (record { key = key; at = at } ∷ hs)
      ≡ suc (allowed key (some (count_hit rl key at).1) hs)
unfolding allowed
allowed_hit key at rl hs e =
    let self : text_eq.beq key key ≡ true = beq_refl key in rw (e, self) (omega arith)

-- The wrong passwords among the answers.
abbrev pub count_wrong : {A : Type 0} → Checked A → ℕ → ℕ
count_wrong (ok a) rest = rest
count_wrong (refuse code message) rest = if code == 401 then suc rest else rest

-- The right ones, with those whose session could not be made (500).
abbrev pub count_right : {A : Type 0} → Checked A → ℕ → ℕ
count_right (ok a) rest = suc rest
count_right (refuse code message) rest = if code == 500 then suc rest else rest

abbrev pub bodies : Option AuthRequest → List AuthRequest
bodies none = []
bodies (some body) = body ∷ []

-- A request for the key in a span of time.
pub record IsTry (key : Text) (a window : ℕ) (r : Attempt) : Type 0 where
  pub of_key : All (λ body. fail_key body r.ip ≡ key) (bodies r.body)
  pub ordered : r.now ≤ r.checked
  pub from_start : a ≤ r.checked
  pub to_end : r.checked < a + window

module _ (ids : ObjectIds) (signing : Signing) (db : Driver User (λ u. u.id))
    (matches : Text → Text → Bool) where
  -- The requests come one after the other, each with the users that are stored when it comes.
  unfoldable pub guesses : List (Attempt × List User) → Option RateLimiter → ℕ
  guesses [] rl = 0
  guesses ((r, users) ∷ rs) rl =
      let (answer, rl') = auth_login_handler ids signing db matches r users rl in
      count_wrong answer (guesses rs rl')

  unfoldable pub sign_ins : List (Attempt × List User) → Option RateLimiter → ℕ
  sign_ins [] rl = 0
  sign_ins ((r, users) ∷ rs) rl =
      let (answer, rl') = auth_login_handler ids signing db matches r users rl in
      count_right answer (sign_ins rs rl')

  -- The wrong passwords are hits that pass, and up to the limit more for each sign-in.
  abbrev Counted : Text → ℕ → List (Attempt × List User) → RateLimiter → Type 0
  Counted key a rs rl =
      (hs : List Hit) × Within a rl.window hs
      × (guesses rs (some rl) ≤ allowed key (some rl) hs + sign_ins rs (some rl) * rl.limit)

  -- A wrong password is a hit that passes.
  wrong_hit :
      (key : Text) (a at : ℕ) (rs : List (Attempt × List User)) (rl : RateLimiter)
      → a ≤ at
      → at < a + rl.window
      → allow (some rl) key at ≡ (true, some (count_hit rl key at).1)
      → Counted key a rs (count_hit rl key at).1
      → (hs : List Hit) × Within a rl.window hs
        × (suc (guesses rs (hit (some rl) key at))
            ≤ allowed key (some rl) hs + sign_ins rs (hit (some rl) key at) * rl.limit)
  unfolding hit
  wrong_hit key a at rs rl lo hi e (hs, within, le) =
      let next : hit (some rl) key at ≡ some (count_hit rl key at).1 = ap (λ r. r.1) e in
      let (limit, window) = count_hit_kept rl key at in
      let count = allowed_hit key at rl hs e in
      let le' : guesses rs (some (count_hit rl key at).1)
          ≤ allowed key (some (count_hit rl key at).1) hs
            + sign_ins rs (some (count_hit rl key at).1) * rl.limit =
        rw (← limit) le in
      (
        record { key = key; at = at } ∷ hs,
        ((lo, hi), subst (λ w. Within a w hs) window within),
        rw next (omega (arith, le', count)),
      )

  -- A right password resets the key.
  right_reset :
      (key : Text) (a : ℕ) (rs : List (Attempt × List User)) (rl : RateLimiter)
      → 0 < rl.limit
      → Counted key a rs (record rl { hits = erase key rl.hits })
      → (hs : List Hit) × Within a rl.window hs
        × (guesses rs (reset (some rl) key)
            ≤ allowed key (some rl) hs + suc (sign_ins rs (reset (some rl) key)) * rl.limit)
  unfolding reset
  right_reset key a rs rl positive (hs, within, le) =
      let few : allowed key (some (record rl { hits = erase key rl.hits })) hs ≤ rl.limit =
        allowed-reset-le key rl a hs positive within in
      (
        [],
        tt,
        rw (suc-mul (sign_ins rs (some (record rl { hits = erase key rl.hits }))) rl.limit)
            (omega (arith, le, few)),
      )

  counted :
      (key : Text) (a : ℕ) (rs : List (Attempt × List User)) (rl : RateLimiter)
      → 0 < rl.limit
      → All (λ r. IsTry key a rl.window r.0) rs
      → Counted key a rs rl
  unfolding guesses sign_ins auth_login_handler check_login refuse_login sign_in
  counted key a [] rl positive t = ([], tt, omega arith)
  counted key a ((r, users) ∷ rs) rl positive t =
      let same = counted key a rs rl positive t.1 in
      elim (Bool-cases (text_eq.beq r.method post)) [
        | inr m ↦ rw m same
        | inl m ↦ elim (Option-cases r.body) [
          | inl n ↦ rw (m, n) same
          | inr (body, b) ↦
              let k : fail_key body r.ip ≡ key = (rw b at t.0.of_key).0 in
              elim (Bool-cases (blocked (some rl) (fail_key body r.ip) r.now)) [
                | inl x ↦ rw (m, b, x) same
                | inr x ↦
                    let passes =
                      allow_later rl key r.now r.checked positive t.0.ordered (rw k at x) in
                    let (limit, window) = count_hit_kept rl key r.checked in
                    let rl' = (count_hit rl key r.checked).1 in
                    let again =
                      counted key a rs rl' (rw limit positive)
                        (subst (λ w. All (λ r. IsTry key a w r.0) rs) (sym window) t.1) in
                    let wrong =
                      wrong_hit key a r.checked rs rl t.0.from_start t.0.to_end passes again in
                    let right =
                      right_reset key a rs rl positive
                        (counted key a rs (record rl { hits = erase key rl.hits }) positive t.1) in
                    elim (Option-cases (db.find_one (login_filter body) users)) [
                      | inl f ↦ rw (m, b, x, f, refuse_login, k) wrong
                      | inr (u, f) ↦ elim (Bool-cases (matches u.password_hash body.password)) [
                        | inr w ↦ rw (m, b, x, f, w, refuse_login, k) wrong
                        | inl w ↦
                            elim (Option-cases (create_session_token ids signing u r.issued)) [
                              | inl c ↦ rw (m, b, x, f, w, sign_in, c, k) right
                              | inr (token, c) ↦ rw (m, b, x, f, w, sign_in, c, k) right
                            ]
                      ]
                    ]
              ]
        ]
      ]

  -- Of any requests for one email and address, one after the other in a span as long as the
  -- limiter's window, the wrong passwords are at most twice the limit, which is positive, and the
  -- limit once more for each right password, which resets the limiter; whatever users are stored,
  -- and whatever the limiter holds at first.
  pub guesses-le_limits :
      (key : Text) (a : ℕ) (rs : List (Attempt × List User)) (rl : RateLimiter)
      → 0 < rl.limit
      → All (λ r. IsTry key a rl.window r.0) rs
      → guesses rs (some rl) ≤ rl.limit + rl.limit + sign_ins rs (some rl) * rl.limit
  guesses-le_limits key a rs rl positive t =
      let (hs, within, le) = counted key a rs rl positive t in
      omega (arith, le, allowed-le_twice key rl a hs positive within)
