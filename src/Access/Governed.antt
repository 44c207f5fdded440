-- ===== src/Access/Governed.antt =====
-- What a change of one user must leave: unique ids and an active admin.
use device_pulse.Prelude.{
  ℕ, ◌≤◌, ◌<◌, Text, true, ◌||◌, List, Option, none, some, ltb, text_eq, if◌then◌else◌, ◌≡◌, refl,
  arith, ◌⊎◌, inl, inr, Bool-cases,
}
use device_pulse.Db.{Inserted, inserted, duplicate_key, insert_failed}
use device_pulse.Http.{Checked, ◌>>=◌, ◌>>◌, Keeps, refused}
use device_pulse.Access.{
  active, disabled, User, AccessError, self_change, last_admin, check_role_change, check_deactivate,
  is_active_admin,
}
use device_pulse.Access.Ids.{UniqueIds, one_if_admin, admins}
use device_pulse.Access.Users.{Admin, checked_access, checked_insert, set_role, set_status}

-- Every id is a user's once, and at least one active admin is there.
pub record IsGoverned (s : Admin) : Type 0 where
  pub unique : UniqueIds s.users
  pub governed : 0 < admins s.users

module _ (P : Admin → Type 0) where
  pub Keeps-checked_access :
      (o : Option AccessError) (k : Checked Admin)
      → (o ≡ none → Keeps P k)
      → Keeps P (checked_access o >> k)
  unfolding checked_access ◌>>◌
  Keeps-checked_access none k h = h refl
  Keeps-checked_access (some self_change) k h = refused
  Keeps-checked_access (some last_admin) k h = refused

  pub Keeps-checked_insert :
      (o : Inserted User) (f : List User → Checked Admin)
      → ((users : List User) → o ≡ inserted users → Keeps P (f users))
      → Keeps P (checked_insert o >>= f)
  unfolding checked_insert ◌>>=◌
  Keeps-checked_insert (inserted users) f h = h users refl
  Keeps-checked_insert duplicate_key f h = refused
  Keeps-checked_insert insert_failed f h = refused

pub IsGoverned-of : {s : Admin} → UniqueIds s.users × (0 < admins s.users) → IsGoverned s
IsGoverned-of (u, g) = record { unique = u; governed = g }

pub set_status_id : (status : Text) (now : ℕ) (u : User) → (set_status status now u).id ≡ u.id
set_status_id status now u = ground arith

pub one_if_admin-le : (u : User) → one_if_admin u ≤ 1
one_if_admin-le u = ground arith

pub role_safe :
    (actor target_id role : Text) (now n k : ℕ) (target : User)
    → check_role_change actor target_id target.role role (text_eq.beq target.status active) n ≡ none
    → n ≤ k
    → (one_if_admin target ≤ one_if_admin (set_role role now target)) ⊎ (1 < k)
unfolding check_role_change is_active_admin
role_safe actor target_id role now n k target h le = elim (Bool-cases (ltb 1 n)) [
  | inl two ↦ inr (ground arith)
  | inr few ↦ inl (ground arith)
]

pub deactivate_safe :
    (actor target_id status : Text) (now n k : ℕ) (target : User)
    → (if text_eq.beq status disabled
        then check_deactivate actor target_id target.role (text_eq.beq target.status active) n
        else none)
      ≡ none
    → (text_eq.beq status active || text_eq.beq status disabled) ≡ true
    → n ≤ k
    → (one_if_admin target ≤ one_if_admin (set_status status now target)) ⊎ (1 < k)
unfolding check_deactivate is_active_admin
deactivate_safe actor target_id status now n k target h valid le = elim (Bool-cases (ltb 1 n)) [
  | inl two ↦ inr (ground arith)
  | inr few ↦ inl (ground (arith, text_eq.beq_iff status active))
]
