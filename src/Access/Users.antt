-- ===== src/Access/Users.antt =====
-- The handlers of api/main.go that change a dashboard user: `usersHandler` (POST),
-- `userPasswordHandler`, `userStatusHandler`, `userRevokeSessionsHandler` and `userRoleHandler`.
-- `parts` are the segments of the path; `bcrypt` is the password hash, which may fail; the audit
-- log holds the events in the order in which they are handed to the background write.
use device_pulse.Prelude.{
  ℕ, ◌+◌, Text, codes, not, ◌&&◌, ◌||◌, List, [], ◌∷◌, ◌++◌, Option, none, some, leb, ◌==◌, text_eq,
  if◌then◌else◌, length,
}
use mathlib.Core.Option.{get_or}
use device_pulse.Go.Strings.{trim_space, to_lower}
use device_pulse.Db.{Driver, Inserted, inserted, duplicate_key, insert_failed}
use device_pulse.Http.{Checked, ok, refuse, ◌>>=◌, ◌>>◌, require, or_refuse, Reply, finish}
use device_pulse.Access.{
  role_viewer, active, disabled, valid_role, ObjectIds, User, AccessError, self_change, last_admin,
  check_role_change, check_deactivate, is_active_admin, AuditEvent, logged,
}

-- The part of a signed-in user's claims that the handlers read.
pub record Actor : Type 0 where
  pub user_id : Text
  pub email : Text

pub record Admin : Type 0 where
  pub users : List User
  pub audit : List AuditEvent

pub record Request (Body : Type 0) : Type 0 where
  pub method : Text
  pub parts : List Text
  pub body : Option Body
  pub actor : Option Actor
  pub now : ℕ

abbrev pub post : Text
post = codes "POST"

-- `actor, _ := currentUser(r)`: the zero claims where nobody is signed in.
abbrev pub actor_id : Option Actor → Text
actor_id none = []
actor_id (some a) = a.user_id

abbrev pub actor_email : Option Actor → Text
actor_email none = codes "system"
actor_email (some a) = a.email

abbrev pub record_audit : {B : Type 0} → Request B → Text → Text → Text → Admin → Admin
record_audit r action target detail s = record s {
  audit = logged (actor_email r.actor) action target detail r.now s.audit;
}

-- `len(parts) == 3 && parts[0] == "users" && parts[1] != "" && parts[2] == last`, then `parts[1]`.
abbrev pub user_segment : Text → List Text → Option Text
user_segment last (users ∷ id ∷ what ∷ []) =
    if text_eq.beq users (codes "users") && not (text_eq.beq id []) && text_eq.beq what last
    then some id
    else none
user_segment last _ = none

-- `parts[1]`, of `n` segments. The routes lead here only with two segments at least.
abbrev pub segment_of : ℕ → List Text → Option Text
segment_of n (first ∷ id ∷ rest) = if length (first ∷ id ∷ rest) == n then some id else none
segment_of n _ = none

unfoldable pub checked_access : Option AccessError → Checked (Unit {0})
checked_access none = ok tt
checked_access (some self_change) = refuse 409 "You cannot change your own role or status"
checked_access (some last_admin) = refuse 409 "At least one active admin must remain"

unfoldable pub checked_insert : Inserted User → Checked (List User)
checked_insert (inserted users) = ok users
checked_insert duplicate_key = refuse 409 "User already exists"
checked_insert insert_failed = refuse 500 "Database error"

pub record NewUser : Type 0 where
  pub email : Text
  pub password : Text
  pub name : Text
  pub role : Text

abbrev pub or_default : Text → Text → Text
or_default default [] = default
or_default default (c ∷ s) = c ∷ s

abbrev pub set_role : Text → ℕ → User → User
set_role role now u = record u { role = role; updated_at = now }

-- The update document: disabling also ends the sessions.
abbrev pub set_status : Text → ℕ → User → User
set_status status now u =
    if text_eq.beq status disabled
    then record u { status = status; updated_at = now; token_epoch = u.token_epoch + 1 }
    else record u { status = status; updated_at = now }

abbrev pub end_sessions : User → User
end_sessions u = record u { token_epoch = u.token_epoch + 1 }

abbrev pub set_password : Text → ℕ → User → User
set_password hash now u = record u {
  password_hash = hash;
  updated_at = now;
  token_epoch = u.token_epoch + 1;
}

module _ (ids : ObjectIds) (db : Driver User (λ u. u.id)) where
  open ids use {to_hex, from_hex}

  -- `loadUserByID`
  abbrev pub load_user : ℕ → List User → Option User
  load_user i = db.find_one (λ u. u.id == i)

  -- `activeAdminCount`: a failed count reads as no admin.
  abbrev pub active_admin_count : List User → ℕ
  active_admin_count users = get_or (db.count is_active_admin users) 0

  -- `UpdateOne` by `_id`, with the number of documents matched.
  abbrev pub update_user : ℕ → (User → User) → List User → Checked (ℕ × List User)
  update_user i f users = or_refuse (db.update_one (λ u. u.id == i) f users) 500 "Database error"

  unfoldable pub user_role_handler : Request Text → Admin → Reply × Admin
  unfolding check_role_change is_active_admin valid_role trim_space
  user_role_handler r s = finish s 200 (do
    require (text_eq.beq r.method post) 405 "Method not allowed"
    segment ← or_refuse (user_segment (codes "role") r.parts) 400 "Invalid URL"
    i ← or_refuse (from_hex segment) 400 "Invalid user id"
    body ← or_refuse r.body 400 "Bad JSON"
    let role = trim_space body
    require (valid_role role) 400 "Valid role is required"
    target ← or_refuse (load_user i s.users) 404 "User not found"
    checked_access (
        check_role_change (actor_id r.actor) (to_hex target.id) target.role role
          (text_eq.beq target.status active) (active_admin_count s.users))
    (matched, users) ← update_user i (set_role role r.now) s.users
    ok (
        record_audit r (codes "user.role_changed") target.email (target.role ++ codes " → " ++ role)
          (record s { users = users })))

  unfoldable pub user_status_handler : Request Text → Admin → Reply × Admin
  unfolding check_deactivate is_active_admin
  user_status_handler r s = finish s 200 (do
    require (text_eq.beq r.method post) 405 "Method not allowed"
    segment ← or_refuse (segment_of 3 r.parts) 400 "Invalid URL"
    i ← or_refuse (from_hex segment) 400 "Invalid URL"
    status ← or_refuse r.body 400 "Status must be active or disabled"
    require (text_eq.beq status active || text_eq.beq status disabled) 400
        "Status must be active or disabled"
    target ← or_refuse (load_user i s.users) 404 "User not found"
    checked_access (
        if text_eq.beq status disabled
        then check_deactivate (actor_id r.actor) (to_hex target.id) target.role
            (text_eq.beq target.status active) (active_admin_count s.users)
        else none)
    (matched, users) ← update_user i (set_status status r.now) s.users
    let action =
        if text_eq.beq status active then codes "user.reactivate" else codes "user.deactivate"
    ok (record_audit r action target.email [] (record s { users = users })))

  unfoldable pub user_revoke_sessions_handler : Request (Unit {0}) → Admin → Reply × Admin
  unfolding is_active_admin
  user_revoke_sessions_handler r s = finish s 200 (do
    require (text_eq.beq r.method post) 405 "Method not allowed"
    segment ← or_refuse (segment_of 4 r.parts) 400 "Invalid URL"
    i ← or_refuse (from_hex segment) 400 "Invalid URL"
    target ← or_refuse (load_user i s.users) 404 "User not found"
    (matched, users) ← update_user i end_sessions s.users
    ok (
        record_audit r (codes "user.sessions_revoked") target.email []
          (record s { users = users })))

  module _ (bcrypt : Text → Option Text) where
    -- Behind the write, the target of the audit event is the user's email, or the id as text.
    abbrev pub audit_target : ℕ → Option User → Text
    audit_target i none = to_hex i
    audit_target i (some u) = u.email

    unfoldable pub user_password_handler : Request Text → Admin → Reply × Admin
    user_password_handler r s = finish s 200 (do
      require (text_eq.beq r.method post) 405 "Method not allowed"
      segment ← or_refuse (user_segment (codes "password") r.parts) 400 "Invalid URL"
      i ← or_refuse (from_hex segment) 400 "Invalid user id"
      password ← or_refuse r.body 400 "Bad JSON"
      require (leb 8 (length password)) 400 "Password with at least 8 characters is required"
      hash ← or_refuse (bcrypt password) 500 "Password hashing error"
      (matched, users) ← update_user i (set_password hash r.now) s.users
      require (not (matched == 0)) 404 "User not found"
      ok (
          record_audit r (codes "user.password_reset") (audit_target i (load_user i users)) []
            (record s { users = users })))

    -- The POST of `usersHandler`; `id` is the value of `primitive.NewObjectID()`.
    unfoldable pub create_user : ℕ → Request NewUser → Admin → Reply × Admin
    unfolding valid_role trim_space
    create_user id r s = finish s 201 (do
      body ← or_refuse r.body 400 "Bad JSON"
      let email = to_lower (trim_space body.email)
      let role = or_default role_viewer (trim_space body.role)
      let name = or_default email (trim_space body.name)
      require (not (text_eq.beq email []) && leb 8 (length body.password) && valid_role role) 400
          "Email, valid role and password with at least 8 characters are required"
      hash ← or_refuse (bcrypt body.password) 500 "Password hashing error"
      let user : User = record {
        id = id;
        email = email;
        name = name;
        password_hash = hash;
        role = role;
        status = active;
        created_at = r.now;
        updated_at = r.now;
        token_epoch = 0;
      }
      users ← checked_insert (db.insert_one user s.users)
      ok (record_audit r (codes "user.created") email role (record s { users = users })))
