-- ===== src/Access.antt =====
-- Access control of api/main.go: the roles, the dashboard users and the checks that guard a
-- change of them.
pub mod Users
pub mod Ids
pub mod Governed
pub mod Admins
pub mod Sessions
pub mod Tokens
pub mod SignOut
pub mod Login
pub mod Bootstrap
use device_pulse.Prelude.{
  ℕ, Text, codes, Bool, true, false, not, ◌&&◌, ◌||◌, List, [], ◌∷◌, ◌++◌, Option, none, some, ltb,
  leb, ◌==◌, text_eq, if◌then◌else◌,
}

abbrev pub role_admin : Text
role_admin = codes "admin"

abbrev pub role_manager : Text
role_manager = codes "manager"

abbrev pub role_viewer : Text
role_viewer = codes "viewer"

abbrev pub active : Text
active = codes "active"

abbrev pub disabled : Text
disabled = codes "disabled"

unfoldable pub valid_role : Text → Bool
valid_role role =
    text_eq.beq role role_admin || text_eq.beq role role_manager || text_eq.beq role role_viewer

unfoldable pub role_rank : Text → ℕ
role_rank role =
    if text_eq.beq role role_admin
    then 3
    else if text_eq.beq role role_manager
    then 2
    else if text_eq.beq role role_viewer
    then 1
    else 0

unfoldable pub can_access_role : Text → Text → Bool
unfolding role_rank
can_access_role actual required = leb (role_rank required) (role_rank actual)

-- An ObjectID is a number here; `Hex` and `ObjectIDFromHex` belong to the driver.
pub record ObjectIds : Type 0 where
  pub to_hex : ℕ → Text
  pub from_hex : Text → Option ℕ

pub record User : Type 0 where
  pub id : ℕ
  pub email : Text
  pub name : Text
  pub password_hash : Text
  pub role : Text
  pub status : Text
  pub created_at : ℕ
  pub updated_at : ℕ
  pub token_epoch : ℕ

pub data AccessError : Type 0 where
  self_change last_admin : AccessError

-- `none` is a nil error.
unfoldable pub check_role_change : Text → Text → Text → Text → Bool → ℕ → Option AccessError
check_role_change actor target target_role new_role target_active active_admins =
    if text_eq.beq actor target
    then some self_change
    else if text_eq.beq target_role role_admin
        && not (text_eq.beq new_role role_admin)
        && target_active
        && leb active_admins 1
    then some last_admin
    else none

unfoldable pub check_deactivate : Text → Text → Text → Bool → ℕ → Option AccessError
check_deactivate actor target target_role target_active active_admins =
    if text_eq.beq actor target
    then some self_change
    else if text_eq.beq target_role role_admin && target_active && leb active_admins 1
    then some last_admin
    else none

-- The filter of `activeAdminCount`.
unfoldable pub is_active_admin : User → Bool
is_active_admin u = text_eq.beq u.role role_admin && text_eq.beq u.status active

pub record AuditEvent : Type 0 where
  pub action : Text
  pub actor : Text
  pub target : Text
  pub detail : Text
  pub at : ℕ

-- The audit log with an event of `recordAudit`.
abbrev pub logged : Text → Text → Text → Text → ℕ → List AuditEvent → List AuditEvent
logged actor action target detail now log =
    log
    ++ record { action = action; actor = actor; target = target; detail = detail; at = now } ∷ []
