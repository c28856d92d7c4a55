-- ===== src/Access/Ability.antt =====
-- apps/api/src/casl/ability.factory.ts: what each role may do; and the role lists by which the web
-- application shows the same actions (apps/web/src/lib/alert-actions.ts).
-- In CASL `manage` stands for every action and `all` for every subject.
pub mod Laws
use fcare.Base.{
  ℕ, Bool, true, false, not, ◌&&◌, ◌||◌, Option, none, some, List, [], ◌∷◌, ◌==◌, if◌then◌else◌,
  any,
}
use fcare.Access.{
  RoleKey, admin, head_of_dept, lecturer, training_officer, sa_officer, sa_head, AuthUser,
  some_role, can_close_alert, can_acknowledge_alert,
}

pub data Action : Type 0 where
  manage read create update delete import_excel export_excel resolve acknowledge review : Action

pub data Subject : Type 0 where
  student evaluation care_log discussion alert attendance_alert notification master_data : Subject
  staff mail_settings monitoring statistics excel backup security_settings all_subjects : Subject

abbrev pub action_index : Action → ℕ
action_index manage = 0
action_index read = 1
action_index create = 2
action_index update = 3
action_index delete = 4
action_index import_excel = 5
action_index export_excel = 6
action_index resolve = 7
action_index acknowledge = 8
action_index review = 9

abbrev pub subject_index : Subject → ℕ
subject_index student = 0
subject_index evaluation = 1
subject_index care_log = 2
subject_index discussion = 3
subject_index alert = 4
subject_index attendance_alert = 5
subject_index notification = 6
subject_index master_data = 7
subject_index staff = 8
subject_index mail_settings = 9
subject_index monitoring = 10
subject_index statistics = 11
subject_index excel = 12
subject_index backup = 13
subject_index security_settings = 14
subject_index all_subjects = 15

-- `can(actions, subjects)`
pub record Rule : Type 0 where
  pub actions : List Action
  pub subjects : List Subject

abbrev pub can : List Action → List Subject → Rule
can actions subjects = record { actions = actions; subjects = subjects }

-- The rules of a role, in the order of its `case`.
unfoldable pub rules_of : RoleKey → List Rule
rules_of admin = can (manage ∷ []) (all_subjects ∷ []) ∷ []
rules_of head_of_dept =
    can (read ∷ []) (student ∷ evaluation ∷ care_log ∷ alert ∷ master_data ∷ statistics ∷ [])
    ∷ can (create ∷ update ∷ []) (student ∷ evaluation ∷ care_log ∷ alert ∷ [])
    ∷ can (acknowledge ∷ resolve ∷ []) (alert ∷ [])
    ∷ can (import_excel ∷ export_excel ∷ []) (excel ∷ [])
    ∷ can (read ∷ create ∷ []) (discussion ∷ [])
    ∷ []
rules_of lecturer =
    can (read ∷ []) (student ∷ evaluation ∷ care_log ∷ alert ∷ master_data ∷ statistics ∷ [])
    ∷ can (create ∷ update ∷ []) (evaluation ∷ care_log ∷ alert ∷ [])
    ∷ can (resolve ∷ []) (alert ∷ [])
    ∷ can (acknowledge ∷ []) (alert ∷ [])
    ∷ can (read ∷ create ∷ []) (discussion ∷ [])
    ∷ []
rules_of training_officer =
    can (read ∷ []) (student ∷ evaluation ∷ care_log ∷ alert ∷ statistics ∷ [])
    ∷ can (create ∷ update ∷ []) (student ∷ [])
    ∷ can (manage ∷ []) (master_data ∷ [])
    ∷ can (acknowledge ∷ []) (alert ∷ [])
    ∷ can (review ∷ []) (attendance_alert ∷ [])
    ∷ can (import_excel ∷ export_excel ∷ []) (excel ∷ [])
    ∷ can (read ∷ create ∷ []) (discussion ∷ [])
    ∷ []
rules_of sa_officer =
    can (read ∷ []) (student ∷ care_log ∷ alert ∷ master_data ∷ statistics ∷ [])
    ∷ can (create ∷ update ∷ []) (care_log ∷ [])
    ∷ can (create ∷ []) (alert ∷ [])
    ∷ can (import_excel ∷ export_excel ∷ []) (excel ∷ [])
    ∷ can (read ∷ create ∷ []) (discussion ∷ [])
    ∷ []
rules_of sa_head =
    can (read ∷ []) (student ∷ evaluation ∷ care_log ∷ alert ∷ master_data ∷ statistics ∷ [])
    ∷ can (create ∷ update ∷ []) (care_log ∷ [])
    ∷ can (create ∷ acknowledge ∷ []) (alert ∷ [])
    ∷ can (import_excel ∷ export_excel ∷ []) (excel ∷ [])
    ∷ can (read ∷ create ∷ []) (discussion ∷ [])
    ∷ []

-- Whether a rule covers an action on a subject.
abbrev pub covers : Action → Subject → Rule → Bool
covers action subject rule =
    any (λ a. action_index a == 0 || action_index a == action_index action) rule.actions
    && any (λ s. subject_index s == 15 || subject_index s == subject_index subject) rule.subjects

unfoldable pub role_can : Action → Subject → RoleKey → Bool
unfolding rules_of
role_can action subject role = any (covers action subject) (rules_of role)

-- `createForUser(user).can(action, subject)`
unfoldable pub user_can : List RoleKey → Action → Subject → Bool
user_can roles action subject = any (role_can action subject) roles

abbrev pub raiser_roles : List RoleKey
raiser_roles = admin ∷ head_of_dept ∷ lecturer ∷ sa_officer ∷ sa_head ∷ []

-- `canRaiseAlert`
unfoldable pub can_raise_alert : Option (List RoleKey) → Bool
can_raise_alert none = false
can_raise_alert (some roles) = some_role raiser_roles roles

abbrev pub deleter_roles : List RoleKey
deleter_roles = admin ∷ []

pub data AlertStatus : Type 0 where
  open_status acknowledged resolved : AlertStatus

abbrev pub is_open : AlertStatus → Bool
is_open open_status = true
is_open _ = false

abbrev pub is_resolved : AlertStatus → Bool
is_resolved resolved = true
is_resolved _ = false

pub record AlertRowActions : Type 0 where
  pub can_acknowledge : Bool
  pub can_resolve : Bool
  pub can_delete : Bool

-- `alertRowActions`; an undefined list of roles is the empty one.
unfoldable pub alert_row_actions :
    List RoleKey
    → AlertStatus
    → (user_id : Option ℕ) → (section_lecturer_id raised_by_id : Option ℕ) → AlertRowActions
alert_row_actions roles status none section_lecturer_id raised_by_id = record {
  can_acknowledge = false;
  can_resolve = false;
  can_delete = some_role deleter_roles roles;
}
alert_row_actions roles status (some user_id) section_lecturer_id raised_by_id = record {
  can_acknowledge = can_acknowledge_alert user_id roles raised_by_id && is_open status;
  can_resolve =
      can_close_alert user_id roles section_lecturer_id raised_by_id && not (is_resolved status);
  can_delete = some_role deleter_roles roles;
}
