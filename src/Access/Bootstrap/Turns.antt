-- ===== src/Access/Bootstrap/Turns.antt =====
-- Registrations of api/main.go that are served one after the other.
use device_pulse.Prelude.{
  ◌+◌, ◌≤◌, Text, true, ◌||◌, text_eq, List, [], ◌∷◌, Option, none, some, ltb, length,
  length-append, filter, ◌≡◌, refl, sym, ap, subst, ◌∙◌, ◌⊎◌, inl, inr, arith, Bool-cases,
  Option-cases,
}
use device_pulse.Db.{Driver, Inserted, inserted, duplicate_key, insert_failed}
use device_pulse.Access.{User}
use device_pulse.Access.Users.{post}
use device_pulse.Access.Login.{normalize_email}
use device_pulse.Access.Bootstrap.{
  Registration, Phase, validated, counted, locked, stored, answered, Shared, Answers, validate,
  first_admin, count_users, take_lock, store_admin, unlock, advance, auth_register_handler,
}

filter_all : (us : List User) → filter (λ u. true) us ≡ us
unfolding filter
filter_all [] = refl
filter_all (u ∷ us) = ap (λ vs. u ∷ vs) (filter_all us)

pub record Request : Type 0 where
  pub answers : Answers
  pub method : Text
  pub body : Option Registration

pub Inserted-cases :
    (o : Inserted User)
    → ((users : List User) × (o ≡ inserted users)) ⊎ ((o ≡ duplicate_key) ⊎ (o ≡ insert_failed))
Inserted-cases (inserted users) = inl (users, refl)
Inserted-cases duplicate_key = inr (inl refl)
Inserted-cases insert_failed = inr (inr refl)

module _ (db : Driver User (λ u. u.id)) where
  -- What a request may rely on, when no other runs between its steps.
  abbrev Clear : Phase → Shared → Type 0
  Clear (validated r) s = length s.users ≤ 1
  Clear (counted r) s = length s.users ≡ 0
  Clear (locked r) s = length s.users ≡ 0
  Clear stored s = length s.users ≤ 1
  Clear (answered code) s = length s.users ≤ 1

  abbrev Safe : Phase × Shared → Type 0
  Safe t = Clear t.0 t.1

  count_users-Safe :
      (r : Registration) (s : Shared) → length s.users ≤ 1 → Safe (count_users db r s, s)
  unfolding count_users
  count_users-Safe r s le =
      let becomes = λ (p : Phase) (q : count_users db r s ≡ p) (h : Safe (p, s)).
        subst (λ x. Safe (x, s)) (sym q) h in
      elim (Option-cases (db.count (λ u. true) s.users)) [
        | inl e ↦ becomes (answered 500) (rw (e, count_users) refl) le
        | inr (n, e) ↦ elim (Bool-cases (ltb 0 n)) [
          | inl f ↦ becomes (answered 403) (rw (e, count_users, f) refl) le
          | inr f ↦
              let counts : n ≡ length s.users =
                db.count_lem (λ u. true) s.users n e ∙ ap length (filter_all s.users) in
              becomes (counted r) (rw (e, count_users, f) refl) (ground (arith, counts))
        ]
      ]

  take_lock-Safe :
      (a : Answers) (r : Registration) (s : Shared) → length s.users ≡ 0 → Safe (take_lock db a r s)
  unfolding take_lock
  take_lock-Safe a r s z = elim (Bool-cases a.config_works) [
    | inr e ↦ rw e (omega (arith, z))
    | inl e ↦ elim (Bool-cases s.lock) [
      | inl f ↦ rw (e, f) (omega (arith, z))
      | inr f ↦ rw (e, f) z
    ]
  ]

  store_admin-Safe :
      (a : Answers) (hash : Option Text) (r : Registration) (s : Shared)
      → length s.users ≡ 0
      → Safe (store_admin db a hash r s)
  unfolding store_admin
  store_admin-Safe a none r s z = omega (arith, z)
  store_admin-Safe a (some hash) r s z =
      let becomes = λ (t : Phase × Shared) (q : store_admin db a (some hash) r s ≡ t) (h : Safe t).
        subst Safe (sym q) h in
      elim (Inserted-cases (db.insert_one (first_admin r hash a) s.users)) [
        | inl (users, f) ↦
            let (same, fresh) = db.insert_one_lem (first_admin r hash a) s.users users f in
            let one : length users ≡ length s.users + 1 =
              ap length same ∙ length-append s.users (first_admin r hash a ∷ []) in
            becomes (stored, record s { users = users }) (rw (f, store_admin) refl)
              (omega (arith, one, z))
        | inr (inl f) ↦
            becomes (answered 409, unlock a s) (rw (f, store_admin) refl) (omega (arith, z))
        | inr (inr f) ↦
            becomes (answered 500, unlock a s) (rw (f, store_admin) refl) (omega (arith, z))
      ]

  advance-Safe : (a : Answers) (p : Phase) (s : Shared) → Safe (p, s) → Safe (advance db a p s)
  unfolding advance
  advance-Safe a (validated r) s h = count_users-Safe r s h
  advance-Safe a (counted r) s h = take_lock-Safe a r s h
  advance-Safe a (locked r) s h = store_admin-Safe a a.password_hash r s h
  advance-Safe a stored s h = h
  advance-Safe a (answered code) s h = h

  validate-Safe :
      (method : Text) (body : Option Registration) (s : Shared)
      → length s.users ≤ 1
      → Safe (validate method body, s)
  unfolding validate
  validate-Safe method none s le = elim (Bool-cases (text_eq.beq method post)) [
    | inl e ↦ rw e le
    | inr e ↦ rw e le
  ]
  validate-Safe method (some r) s le = elim (Bool-cases (text_eq.beq method post)) [
    | inr e ↦ rw e le
    | inl e ↦
        elim (Bool-cases (text_eq.beq (normalize_email r.email) [] || ltb (length r.password) 8)) [
          | inl f ↦ rw (e, f) le
          | inr f ↦ rw (e, f) le
        ]
  ]

  Safe-le : (t : Phase × Shared) → Safe t → length t.1.users ≤ 1
  Safe-le (validated r, s) h = h
  Safe-le (counted r, s) h = omega (arith, h)
  Safe-le (locked r, s) h = omega (arith, h)
  Safe-le (stored, s) h = h
  Safe-le (answered code, s) h = h

  unfoldable pub serve_all : List Request → Shared → Shared
  serve_all [] s = s
  serve_all (r ∷ rs) s = serve_all rs (auth_register_handler db r.answers r.method r.body s).1

  -- However many registrations are asked for, one after the other, and whatever fails in them, at most one admin is made
  -- where there was no user.
  pub serve_all-le_one :
      (rs : List Request) (s : Shared) → length s.users ≤ 1 → length (serve_all rs s).users ≤ 1
  unfolding serve_all auth_register_handler
  serve_all-le_one [] s le = le
  serve_all-le_one (r ∷ rs) s le =
      let t1 = advance db r.answers (validate r.method r.body) s in
      let t2 = advance db r.answers t1.0 t1.1 in
      let t3 = advance db r.answers t2.0 t2.1 in
      let h1 =
        advance-Safe r.answers (validate r.method r.body) s (validate-Safe r.method r.body s le) in
      let h2 = advance-Safe r.answers t1.0 t1.1 h1 in
      let h3 = advance-Safe r.answers t2.0 t2.1 h2 in
      let t4 = advance db r.answers t3.0 t3.1 in
      serve_all-le_one rs t4.1 (Safe-le t4 (advance-Safe r.answers t3.0 t3.1 h3))
