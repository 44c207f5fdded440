-- ===== src/Access/Ids.antt =====
-- The users' ids are unique, and what one update of a user with a given id changes.
use device_pulse.Prelude.{
  ℕ, ◌+◌, false, List, [], ◌∷◌, ◌++◌, ◌==◌, text_eq, if◌then◌else◌, length, filter, All, At, here,
  there, ◌≡◌, refl, arith, All-at, All-append,
}
use device_pulse.Db.{Updates, at, past}
use device_pulse.Access.{User, is_active_admin}

-- No user of the list has the id.
abbrev pub Fresh : ℕ → List User → Type 0
Fresh i = All (λ u. (u.id == i) ≡ false)

abbrev pub UniqueIds : List User → Type 0
UniqueIds [] = Unit
UniqueIds (u ∷ us) = Fresh u.id us × UniqueIds us

-- One if the user is an active admin.
abbrev pub one_if_admin : User → ℕ
one_if_admin u = if is_active_admin u then 1 else 0

unfoldable pub admins : List User → ℕ
admins us = length (filter is_active_admin us)

pub admins-cons : (u : User) (us : List User) → admins (u ∷ us) ≡ one_if_admin u + admins us
unfolding admins filter
admins-cons u us = ground arith

module _ (i : ℕ) (f : User → User) (keeps : (u : User) → (f u).id ≡ u.id) where
  abbrev pub ById : List User → List User → Type 0
  ById = Updates (λ u. u.id == i) f

  Fresh-Updates : {us vs : List User} (j : ℕ) → ById us vs → Fresh j us → Fresh j vs
  Fresh-Updates j (at {d = u} h) a = (rw (keeps u) a.0, a.1)
  Fresh-Updates j (past u) a = (a.0, Fresh-Updates j u a.1)

  pub UniqueIds-Updates : {us vs : List User} → ById us vs → UniqueIds us → UniqueIds vs
  UniqueIds-Updates (at {d = u} h) a = (rw (keeps u) a.0, a.1)
  UniqueIds-Updates (past {d = u} x) a = (Fresh-Updates u.id x a.0, UniqueIds-Updates x a.1)

  Updates-Fresh : {us vs : List User} → ById us vs → Fresh i us → ⊥
  Updates-Fresh (at h) a = ground arith
  Updates-Fresh (past x) a = Updates-Fresh x a.1

  -- The user that was found by the id is the one that is updated.
  pub admins-Updates :
      {us vs : List User} (t : User)
      → ById us vs
      → UniqueIds us
      → At t us
      → t.id ≡ i
      → admins vs + one_if_admin t ≡ admins us + one_if_admin (f t)
  admins-Updates t (at {ds = us} h) a here e = omega (arith, admins-cons t us, admins-cons (f t) us)
  admins-Updates t (at {d = u} {ds = us} h) a (there m) e =
      let other : (t.id == u.id) ≡ false = All-at (λ v. (v.id == u.id) ≡ false) a.0 m in
      absurd (ground arith)
  admins-Updates t (past x) a here e = absurd (Updates-Fresh x (rw e at a.0))
  admins-Updates t (past {d = u} {ds = us} {es = vs} x) a (there m) e =
      omega (arith, admins-cons u us, admins-cons u vs, admins-Updates t x a.1 m e)

  -- An update that changes no user's standing changes no count.
  pub admins-Updates_same :
      {us vs : List User}
      → ((u : User) → one_if_admin (f u) ≡ one_if_admin u)
      → ById us vs
      → admins vs ≡ admins us
  admins-Updates_same same (at {d = u} {ds = us} h) =
      omega (arith, admins-cons u us, admins-cons (f u) us, same u)
  admins-Updates_same same (past {d = u} {ds = us} {es = vs} x) =
      omega (arith, admins-cons u us, admins-cons u vs, admins-Updates_same same x)

pub admins-append : (us : List User) (u : User) → admins (us ++ u ∷ []) ≡ admins us + one_if_admin u
admins-append [] u = omega (arith, admins-cons u [])
admins-append (v ∷ us) u =
    omega (arith, admins-cons v us, admins-cons v (us ++ u ∷ []), admins-append us u)

pub UniqueIds-append :
    (us : List User) (u : User) → UniqueIds us → Fresh u.id us → UniqueIds (us ++ u ∷ [])
UniqueIds-append [] u a h = (tt, tt)
UniqueIds-append (v ∷ us) u a h = (
  All-append (λ x. (x.id == v.id) ≡ false) us (u ∷ []) a.0 (ground arith, tt),
  UniqueIds-append us u a.1 h.1,
)

pub unique_user :
    (u v : User) {us : List User} → UniqueIds us → At u us → At v us → u.id ≡ v.id → u ≡ v
unique_user u v a here here e = refl
unique_user u v a here (there m) e =
    let other : (v.id == u.id) ≡ false = All-at (λ x. (x.id == u.id) ≡ false) a.0 m in
    absurd (ground arith)
unique_user u v a (there m) here e =
    let other : (u.id == v.id) ≡ false = All-at (λ x. (x.id == v.id) ≡ false) a.0 m in
    absurd (ground arith)
unique_user u v a (there m) (there n) e = unique_user u v a.1 m n e

-- Behind an update, the users with the id are the updated ones.
pub Updates-inverse :
    (i : ℕ) (f : User → User)
    → ((u : User) → (f u).id ≡ u.id)
    → {us vs : List User} → Updates (λ u. u.id == i) f us vs
    → UniqueIds us
    → (v : User) → At v vs
    → v.id ≡ i
    → (u : User) × At u us × (v ≡ f u)
Updates-inverse i f keeps (at {d = u} h) a v here e = (u, here, refl)
Updates-inverse i f keeps (at {d = u} h) a v (there m) e =
    let other : (v.id == u.id) ≡ false = All-at (λ x. (x.id == u.id) ≡ false) a.0 m in
    absurd (ground arith)
Updates-inverse i f keeps (past {d = u} x) a v here e =
    absurd (Updates-Fresh i f keeps x (rw e at a.0))
Updates-inverse i f keeps (past x) a v (there m) e =
    let (u, k, same) = Updates-inverse i f keeps x a.1 v m e in (u, there k, same)
