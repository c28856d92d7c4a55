-- ===== src/Access.antt =====
-- packages/shared-types/src/roles.ts, and the rules of packages/shared-types/src/alerts.ts on who may
-- acknowledge or close an alert; the user of apps/api/src/common/types/auth-user.ts.
-- An id of the database is a number: the code only compares ids.
pub mod Scope
pub mod Ability
mod Tests
use fcare.Base.{
  ℕ, Bool, true, false, not, ◌&&◌, ◌||◌, Option, none, some, List, [], ◌∷◌, ◌==◌, leb, ltb,
  if◌then◌else◌, any, all, length, or_else, opt_eq,
}
use fcare.Base.Texts.{Text}

pub data RoleKey : Type 0 where
  admin head_of_dept lecturer training_officer sa_officer sa_head : RoleKey

abbrev pub role_index : RoleKey → ℕ
role_index admin = 0
role_index head_of_dept = 1
role_index lecturer = 2
role_index training_officer = 3
role_index sa_officer = 4
role_index sa_head = 5

abbrev pub same_role : RoleKey → RoleKey → Bool
same_role a b = role_index a == role_index b

-- `roles.includes(role)`
abbrev pub has_role : List RoleKey → RoleKey → Bool
has_role roles role = any (λ r. same_role r role) roles

-- `roles.some((role) => listed.includes(role))`
abbrev pub some_role : List RoleKey → List RoleKey → Bool
some_role listed roles = any (λ r. has_role listed r) roles

pub record AuthUser : Type 0 where
  pub id : ℕ
  pub staff_code : Text
  pub full_name : Text
  pub roles : List RoleKey
  pub department_id : Option ℕ
  pub consented : Bool
  pub must_change_password : Bool

abbrev pub excel_io_roles : List RoleKey
excel_io_roles = admin ∷ head_of_dept ∷ training_officer ∷ sa_officer ∷ sa_head ∷ []

unfoldable pub can_use_excel_io : List RoleKey → Bool
can_use_excel_io roles = some_role excel_io_roles roles

abbrev pub sa_min_alert_level : ℕ
sa_min_alert_level = 3

abbrev pub sa_roles : List RoleKey
sa_roles = sa_officer ∷ sa_head ∷ []

-- The least level that a user sees: 3 for one who has roles, all of them of student affairs.
unfoldable pub min_visible_alert_level : List RoleKey → ℕ
min_visible_alert_level roles =
    let sa_only = ltb 0 (length roles) && all (λ r. has_role sa_roles r) roles in
    if sa_only then sa_min_alert_level else 1

abbrev pub alert_closer_roles : List RoleKey
alert_closer_roles = admin ∷ head_of_dept ∷ []

-- `canCloseAlert`; its fields are arguments in the order of the interface.
unfoldable pub can_close_alert : ℕ → List RoleKey → Option ℕ → Option ℕ → Bool
can_close_alert user_id roles section_lecturer_id raised_by_id =
    if some_role alert_closer_roles roles
    then true
    else if not (has_role roles lecturer)
    then false
    else opt_eq (or_else section_lecturer_id raised_by_id) (some user_id)

abbrev pub alert_acknowledger_roles : List RoleKey
alert_acknowledger_roles = admin ∷ head_of_dept ∷ training_officer ∷ sa_head ∷ []

unfoldable pub can_acknowledge_alert : ℕ → List RoleKey → Option ℕ → Bool
can_acknowledge_alert user_id roles raised_by_id =
    if some_role alert_acknowledger_roles roles
    then true
    else has_role roles lecturer && not (opt_eq raised_by_id (some user_id))
