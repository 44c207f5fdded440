-- ===== src/Access/Admins.antt =====
-- Administration never locks everybody out: an active admin remains, whatever is requested.
use device_pulse.Prelude.{
  ℕ, ◌≤◌, ◌<◌, Text, List, [], ◌∷◌, Option, some, ◌==◌, text_eq, ◌≡◌, refl, arith, ◌⊎◌, inl, inr,
  Option-cases,
}
use mathlib.Core.Option.{get_or}
use device_pulse.Db.{Driver}
use device_pulse.Http.{Reply, kept, Keeps-require, Keeps-or_refuse, Keeps-finish}
use device_pulse.Access.{ObjectIds, User, is_active_admin}
use device_pulse.Go.Strings.{trim_space}
use device_pulse.Access.Ids.{
  UniqueIds, one_if_admin, admins, UniqueIds-Updates, admins-Updates, admins-Updates_same,
  admins-append, UniqueIds-append,
}
use device_pulse.Access.Users.{
  Request, Admin, NewUser, end_sessions, set_password, user_role_handler, user_status_handler,
  user_revoke_sessions_handler, user_password_handler, create_user,
}
use device_pulse.Access.Governed.{
  IsGoverned, Keeps-checked_access, Keeps-checked_insert, IsGoverned-of, set_status_id,
  one_if_admin-le, role_safe, deactivate_safe,
}

module _ (ids : ObjectIds) (db : Driver User (λ u. u.id)) where
  -- A change of one user, found by id, that the last admin survives.
  update_governed :
      (f : User → User) (s : Admin) (users : List User) (i n : ℕ) (target : User)
      → ((u : User) → (f u).id ≡ u.id)
      → IsGoverned s
      → db.find_one (λ u. u.id == i) s.users ≡ some target
      → db.update_one (λ u. u.id == i) f s.users ≡ some (n, users)
      → one_if_admin target ≤ one_if_admin (f target) ⊎ (1 < admins s.users)
      → UniqueIds users × (0 < admins users)
  update_governed f s users i n target keeps g found updated safe =
      let (m, e) = db.find_one_lem (λ u. u.id == i) s.users target found in
      elim (db.update_one_lem (λ u. u.id == i) f s.users users n updated) [
        | inl (z, same, none') ↦ rw same (g.unique, g.governed)
        | inr (o, x) ↦ (
          UniqueIds-Updates i f keeps x g.unique,
          elim safe [
            | inl more ↦ omega (arith, admins-Updates i f keeps target x g.unique m (ground arith))
            | inr two ↦ omega (
              arith,
              admins-Updates i f keeps target x g.unique m (ground arith),
              one_if_admin-le target,
            )
          ],
        )
      ]

  count-le : (us : List User) → get_or (db.count is_active_admin us) 0 ≤ admins us
  unfolding admins
  count-le us = elim (Option-cases (db.count is_active_admin us)) [
    | inl e ↦ rw e (omega arith)
    | inr (n, e) ↦ rw e (omega (arith, db.count_lem is_active_admin us n e))
  ]

  user_role_handler-IsGoverned :
      (r : Request Text) (s : Admin) → IsGoverned s → IsGoverned (user_role_handler ids db r s).1
  unfolding user_role_handler
  user_role_handler-IsGoverned r s g = Keeps-finish IsGoverned s _ _ g (
      Keeps-require IsGoverned _ _ _ _ λ _. Keeps-or_refuse IsGoverned _ _ _ _ λ segment _.
        Keeps-or_refuse IsGoverned _ _ _ _ λ i _. Keeps-or_refuse IsGoverned _ _ _ _ λ body _.
          Keeps-require IsGoverned _ _ _ _ λ _. Keeps-or_refuse IsGoverned _ _ _ _ λ target found.
            Keeps-checked_access IsGoverned _ _ λ allowed.
              Keeps-or_refuse IsGoverned _ _ _ _ λ res updated. kept (
                IsGoverned-of (
                  update_governed _ s res.1 i res.0 target (λ u. refl) g found updated
                    (role_safe _ _ (trim_space body) r.now _ (admins s.users) target allowed
                      (count-le s.users)))))

  user_status_handler-IsGoverned :
      (r : Request Text) (s : Admin) → IsGoverned s → IsGoverned (user_status_handler ids db r s).1
  unfolding user_status_handler
  user_status_handler-IsGoverned r s g = Keeps-finish IsGoverned s _ _ g (
      Keeps-require IsGoverned _ _ _ _ λ _. Keeps-or_refuse IsGoverned _ _ _ _ λ segment _.
        Keeps-or_refuse IsGoverned _ _ _ _ λ i _. Keeps-or_refuse IsGoverned _ _ _ _ λ status _.
          Keeps-require IsGoverned _ _ _ _ λ valid.
            Keeps-or_refuse IsGoverned _ _ _ _ λ target found.
              Keeps-checked_access IsGoverned _ _ λ allowed.
                Keeps-or_refuse IsGoverned _ _ _ _ λ res updated. kept (
                  IsGoverned-of (
                    update_governed _ s res.1 i res.0 target (set_status_id status r.now) g found
                      updated
                      (deactivate_safe _ _ status r.now _ (admins s.users) target allowed valid
                        (count-le s.users)))))

  update_same :
      (f : User → User) (s : Admin) (users : List User) (i n : ℕ)
      → ((u : User) → (f u).id ≡ u.id)
      → ((u : User) → one_if_admin (f u) ≡ one_if_admin u)
      → IsGoverned s
      → db.update_one (λ u. u.id == i) f s.users ≡ some (n, users)
      → UniqueIds users × (0 < admins users)
  update_same f s users i n keeps same g updated =
      elim (db.update_one_lem (λ u. u.id == i) f s.users users n updated) [
        | inl (z, unchanged, none') ↦ rw unchanged (g.unique, g.governed)
        | inr (o, x) ↦ (
          UniqueIds-Updates i f keeps x g.unique,
          omega (arith, admins-Updates_same i f keeps same x, g.governed),
        )
      ]

  user_revoke_sessions_handler-IsGoverned :
      (r : Request (Unit {0})) (s : Admin)
      → IsGoverned s
      → IsGoverned (user_revoke_sessions_handler ids db r s).1
  unfolding user_revoke_sessions_handler
  user_revoke_sessions_handler-IsGoverned r s g = Keeps-finish IsGoverned s _ _ g (
      Keeps-require IsGoverned _ _ _ _ λ _. Keeps-or_refuse IsGoverned _ _ _ _ λ segment _.
        Keeps-or_refuse IsGoverned _ _ _ _ λ i _. Keeps-or_refuse IsGoverned _ _ _ _ λ target found.
          Keeps-or_refuse IsGoverned _ _ _ _ λ res updated. kept (
            IsGoverned-of
              (update_same end_sessions s res.1 i res.0 (λ u. refl) (λ u. refl) g updated)))

  module _ (bcrypt : Text → Option Text) where
    user_password_handler-IsGoverned :
        (r : Request Text) (s : Admin)
        → IsGoverned s
        → IsGoverned (user_password_handler ids db bcrypt r s).1
    unfolding user_password_handler is_active_admin
    user_password_handler-IsGoverned r s g = Keeps-finish IsGoverned s _ _ g (
        Keeps-require IsGoverned _ _ _ _ λ _. Keeps-or_refuse IsGoverned _ _ _ _ λ segment _.
          Keeps-or_refuse IsGoverned _ _ _ _ λ i _. Keeps-or_refuse IsGoverned _ _ _ _ λ password _.
            Keeps-require IsGoverned _ _ _ _ λ _. Keeps-or_refuse IsGoverned _ _ _ _ λ hash _.
              Keeps-or_refuse IsGoverned _ _ _ _ λ res updated.
                Keeps-require IsGoverned _ _ _ _ λ _. kept (
                  IsGoverned-of (
                    update_same (set_password hash r.now) s res.1 i res.0 (λ u. refl) (λ u. refl) g
                      updated)))

    create_user-IsGoverned :
        (id : ℕ) (r : Request NewUser) (s : Admin)
        → IsGoverned s
        → IsGoverned (create_user ids db bcrypt id r s).1
    unfolding create_user
    create_user-IsGoverned id r s g = Keeps-finish IsGoverned s _ _ g (
        Keeps-or_refuse IsGoverned _ _ _ _ λ body _. Keeps-require IsGoverned _ _ _ _ λ _.
          Keeps-or_refuse IsGoverned _ _ _ _ λ hash _.
            Keeps-checked_insert IsGoverned _ _ λ users e.
              let (same, fresh) = db.insert_one_lem _ s.users users e in
              kept (
                IsGoverned-of (
                  rw same (
                    UniqueIds-append s.users _ g.unique fresh,
                    omega (arith, admins-append s.users, g.governed),
                  ))))

    -- The administration requests that change a user.
    pub data Change : Type 0 where
      role_change : Request Text → Change
      status_change : Request Text → Change
      revoke : Request (Unit {0}) → Change
      password_reset : Request Text → Change
      creation : ℕ → Request NewUser → Change

    unfoldable pub handle : Change → Admin → Reply × Admin
    handle (role_change r) s = user_role_handler ids db r s
    handle (status_change r) s = user_status_handler ids db r s
    handle (revoke r) s = user_revoke_sessions_handler ids db r s
    handle (password_reset r) s = user_password_handler ids db bcrypt r s
    handle (creation id r) s = create_user ids db bcrypt id r s

    unfoldable pub handle_all : List Change → Admin → Admin
    unfolding handle
    handle_all [] s = s
    handle_all (c ∷ cs) s = handle_all cs (handle c s).1

    handle-IsGoverned : (c : Change) (s : Admin) → IsGoverned s → IsGoverned (handle c s).1
    unfolding handle
    handle-IsGoverned (role_change r) s g = user_role_handler-IsGoverned r s g
    handle-IsGoverned (status_change r) s g = user_status_handler-IsGoverned r s g
    handle-IsGoverned (revoke r) s g = user_revoke_sessions_handler-IsGoverned r s g
    handle-IsGoverned (password_reset r) s g = user_password_handler-IsGoverned r s g
    handle-IsGoverned (creation id r) s g = create_user-IsGoverned id r s g

    -- Starting from users with unique ids and an active admin: however role changes, deactivations, sign-outs, password resets and new accounts follow one
    -- another, and whichever database calls fail, an active admin remains and ids stay unique.
    pub handle_all-IsGoverned :
        (cs : List Change) (s : Admin) → IsGoverned s → IsGoverned (handle_all cs s)
    unfolding handle_all
    handle_all-IsGoverned [] s g = g
    handle_all-IsGoverned (c ∷ cs) s g =
        handle_all-IsGoverned cs (handle c s).1 (handle-IsGoverned c s g)
