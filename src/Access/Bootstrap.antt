-- ===== src/Access/Bootstrap.antt =====
-- The registration of the first admin, `authRegisterHandler` of api/main.go. Its calls of the
-- database are steps between which other requests may run: it counts the users, takes the lock
-- document `dashboard_bootstrap`, stores the admin and removes the lock.
pub mod Turns
pub mod Exclusion
use device_pulse.Prelude.{
  ℕ, Text, codes, Bool, true, false, not, ◌||◌, List, [], Option, none, some, ltb, ◌==◌, text_eq,
  if◌then◌else◌, length,
}
use device_pulse.Go.Strings.{trim_space}
use device_pulse.Db.{Driver, Inserted, inserted, duplicate_key, insert_failed}
use device_pulse.Access.{role_admin, active, User}
use device_pulse.Access.Users.{post, or_default}
use device_pulse.Access.Login.{normalize_email}

pub record Registration : Type 0 where
  pub email : Text
  pub password : Text
  pub name : Text

-- Where a request stands; `answered` has the status of the reply.
pub data Phase : Type 0 where
  validated : Registration → Phase
  counted : Registration → Phase
  locked : Registration → Phase
  stored : Phase
  answered : ℕ → Phase

pub record Shared : Type 0 where
  pub users : List User
  pub lock : Bool

-- What the calls of one step answer: whether those on the lock work, bcrypt's hash, and whether a
-- session cookie can be made.
pub record Answers : Type 0 where
  pub config_works : Bool
  pub password_hash : Option Text
  pub new_id : ℕ
  pub now : ℕ
  pub cookie_works : Bool

unfoldable pub validate : Text → Option Registration → Phase
validate method none = if not (text_eq.beq method post) then answered 405 else answered 400
validate method (some r) =
    let email = normalize_email r.email in
    if not (text_eq.beq method post)
    then answered 405
    else if text_eq.beq email [] || ltb (length r.password) 8
    then answered 400
    else validated (record {
      email = email;
      password = r.password;
      name = or_default email (trim_space r.name);
    })

abbrev pub first_admin : Registration → Text → Answers → User
first_admin r hash a = record {
  id = a.new_id;
  email = r.email;
  name = r.name;
  password_hash = hash;
  role = role_admin;
  status = active;
  created_at = a.now;
  updated_at = a.now;
  token_epoch = 0;
}

-- `DeleteOne` of the lock, whose failure is only logged.
abbrev pub unlock : Answers → Shared → Shared
unlock a s = record s { lock = if a.config_works then false else s.lock }

module _ (db : Driver User (λ u. u.id)) where
  unfoldable pub count_users : Registration → Shared → Phase
  count_users r s = elim (db.count (λ u. true) s.users) [
    | none ↦ answered 500
    | some n ↦ if ltb 0 n then answered 403 else counted r
  ]

  unfoldable pub take_lock : Answers → Registration → Shared → Phase × Shared
  take_lock a r s =
      if not a.config_works
      then (answered 500, s)
      else if s.lock
      then (answered 403, s)
      else (locked r, record s { lock = true })

  -- `hash` is what bcrypt makes of the password.
  unfoldable pub store_admin : Answers → Option Text → Registration → Shared → Phase × Shared
  store_admin a none r s = (answered 500, unlock a s)
  store_admin a (some hash) r s = elim (db.insert_one (first_admin r hash a) s.users) [
    | inserted users ↦ (stored, record s { users = users })
    | duplicate_key ↦ (answered 409, unlock a s)
    | insert_failed ↦ (answered 500, unlock a s)
  ]

  -- The next step of a request.
  unfoldable pub advance : Answers → Phase → Shared → Phase × Shared
  advance a (validated r) s = (count_users r s, s)
  advance a (counted r) s = take_lock a r s
  advance a (locked r) s = store_admin a a.password_hash r s
  advance a stored s = (answered (if a.cookie_works then 200 else 500), unlock a s)
  advance a (answered code) s = (answered code, s)

  -- A request that nothing interrupts.
  unfoldable pub auth_register_handler :
      Answers → Text → Option Registration → Shared → Phase × Shared
  auth_register_handler a method body s =
      let (p1, s1) = advance a (validate method body) s in
      let (p2, s2) = advance a p1 s1 in let (p3, s3) = advance a p2 s2 in advance a p3 s3
