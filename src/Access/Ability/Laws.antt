-- ===== src/Access/Ability/Laws.antt =====
-- The matrix of rights agrees with the role lists by which services and pages decide.
use fcare.Base.{
  ℕ, Bool, true, false, ◌&&◌, ◌≡◌, refl, Option, none, some, List, arith, any_cong, any_mono,
}
use fcare.Access.{
  RoleKey, admin, head_of_dept, lecturer, training_officer, sa_officer, sa_head, same_role,
  has_role, some_role, excel_io_roles, can_use_excel_io, alert_acknowledger_roles,
  alert_closer_roles, can_close_alert, can_acknowledge_alert,
}
use fcare.Access.Ability.{
  Action, create, delete, import_excel, export_excel, resolve, acknowledge, Subject, alert, staff,
  mail_settings, monitoring, excel, backup, security_settings, role_can, user_can, can_raise_alert,
  raiser_roles, deleter_roles, AlertStatus, alert_row_actions,
}

excel_role : (role : RoleKey) → role_can import_excel excel role ≡ has_role excel_io_roles role
unfolding role_can
excel_role admin = refl
excel_role _ = refl

export_role : (role : RoleKey) → role_can export_excel excel role ≡ has_role excel_io_roles role
unfolding role_can
export_role admin = refl
export_role _ = refl

raise_role : (role : RoleKey) → role_can create alert role ≡ has_role raiser_roles role
unfolding role_can
raise_role admin = refl
raise_role _ = refl

-- The rights to import and to export Excel files are those of `EXCEL_IO_ROLES`, and the right to
-- create an alert is that by which the web application shows the button.
pub user_can-lists :
    (roles : List RoleKey)
    → (user_can roles import_excel excel ≡ can_use_excel_io roles)
      × (user_can roles export_excel excel ≡ can_use_excel_io roles)
      × (user_can roles create alert ≡ can_raise_alert (some roles))
unfolding user_can can_use_excel_io can_raise_alert
user_can-lists roles = (
  any_cong (role_can import_excel excel) (has_role excel_io_roles) roles excel_role,
  any_cong (role_can export_excel excel) (has_role excel_io_roles) roles export_role,
  any_cong (role_can create alert) (has_role raiser_roles) roles raise_role,
)

acknowledger_can :
    (role : RoleKey)
    → has_role alert_acknowledger_roles role ≡ true
    → role_can acknowledge alert role ≡ true
unfolding role_can
acknowledger_can admin h = refl
acknowledger_can lecturer h = refl
acknowledger_can sa_officer h = cc
acknowledger_can _ h = refl

closer_can :
    (role : RoleKey) → has_role alert_closer_roles role ≡ true → role_can resolve alert role ≡ true
unfolding role_can
closer_can admin h = refl
closer_can head_of_dept h = refl
closer_can lecturer h = refl
closer_can training_officer h = cc
closer_can sa_officer h = cc
closer_can sa_head h = cc

lecturer_may :
    (role : RoleKey)
    → same_role role lecturer ≡ true
    → (role_can acknowledge alert role ≡ true) × (role_can resolve alert role ≡ true)
unfolding role_can
lecturer_may lecturer h = (refl, refl)
lecturer_may admin h = cc
lecturer_may head_of_dept h = cc
lecturer_may training_officer h = cc
lecturer_may sa_officer h = cc
lecturer_may sa_head h = cc

-- Whoever the rules on single alerts let acknowledge or close one also has the right to that action.
pub user_can-alert_rules :
    (user_id : ℕ) (roles : List RoleKey) (section_lecturer_id raised_by_id : Option ℕ)
    → (can_acknowledge_alert user_id roles raised_by_id ≡ true
        → user_can roles acknowledge alert ≡ true)
      × (can_close_alert user_id roles section_lecturer_id raised_by_id ≡ true
          → user_can roles resolve alert ≡ true)
unfolding can_acknowledge_alert can_close_alert user_can
user_can-alert_rules user_id roles section_lecturer_id raised_by_id =
    let teaching =
      λ (action : Action)
          (p : (r : RoleKey) → same_role r lecturer ≡ true → role_can action alert r ≡ true).
        any_mono (λ r. same_role r lecturer) (role_can action alert) roles p in
    (
      ground (
        arith,
        any_mono (has_role alert_acknowledger_roles) (role_can acknowledge alert) roles
            acknowledger_can,
        teaching acknowledge (λ r h. (lecturer_may r h).0),
      ),
      ground (
        arith,
        any_mono (has_role alert_closer_roles) (role_can resolve alert) roles closer_can,
        teaching resolve (λ r h. (lecturer_may r h).1),
      ),
    )

-- The subjects of the system's administration.
abbrev pub admin_only : Subject → Bool
admin_only staff = true
admin_only mail_settings = true
admin_only monitoring = true
admin_only backup = true
admin_only security_settings = true
admin_only _ = false

and_none : (b : Bool) → (b && false) ≡ false
and_none true = refl
and_none false = refl

staff_role : (action : Action) (role : RoleKey) → role_can action staff role ≡ same_role role admin
unfolding role_can
staff_role action admin = refl
staff_role action _ = simp and_none

mail_settings_role :
    (action : Action) (role : RoleKey) → role_can action mail_settings role ≡ same_role role admin
unfolding role_can
mail_settings_role action admin = refl
mail_settings_role action _ = simp and_none

monitoring_role :
    (action : Action) (role : RoleKey) → role_can action monitoring role ≡ same_role role admin
unfolding role_can
monitoring_role action admin = refl
monitoring_role action _ = simp and_none

backup_role :
    (action : Action) (role : RoleKey) → role_can action backup role ≡ same_role role admin
unfolding role_can
backup_role action admin = refl
backup_role action _ = simp and_none

security_settings_role :
    (action : Action) (role : RoleKey)
    → role_can action security_settings role ≡ same_role role admin
unfolding role_can
security_settings_role action admin = refl
security_settings_role action _ = simp and_none

admin_role :
    (action : Action) (subject : Subject)
    → admin_only subject ≡ true
    → (role : RoleKey) → role_can action subject role ≡ same_role role admin
admin_role action staff h = staff_role action
admin_role action mail_settings h = mail_settings_role action
admin_role action monitoring h = monitoring_role action
admin_role action backup h = backup_role action
admin_role action security_settings h = security_settings_role action
admin_role action _ h = cc

delete_role : (role : RoleKey) → role_can delete alert role ≡ same_role role admin
unfolding role_can
delete_role admin = refl
delete_role _ = refl

-- Accounts, mail settings, monitoring, backups and security settings are the administrator's alone,
-- for every action, and so is the deletion of alerts.
pub user_can-admin_only :
    (roles : List RoleKey) (action : Action) (subject : Subject)
    → admin_only subject ≡ true
    → (user_can roles action subject ≡ has_role roles admin)
      × (user_can roles delete alert ≡ has_role roles admin)
unfolding user_can
user_can-admin_only roles action subject h = (
  any_cong (role_can action subject) (λ r. same_role r admin) roles (admin_role action subject h),
  any_cong (role_can delete alert) (λ r. same_role r admin) roles delete_role,
)

admin_listed : (role : RoleKey) → has_role deleter_roles role ≡ role_can delete alert role
unfolding role_can
admin_listed admin = refl
admin_listed _ = refl

deleters : (roles : List RoleKey) → some_role deleter_roles roles ≡ user_can roles delete alert
unfolding user_can
deleters roles = any_cong (has_role deleter_roles) (role_can delete alert) roles admin_listed

and_left : (a b : Bool) → (a && b) ≡ true → a ≡ true
and_left a b h = ground arith

-- A button of the web application that acknowledges, closes or deletes an alert is shown only to a
-- user with the right to that action.
pub alert_row_actions-rights :
    (roles : List RoleKey) (status : AlertStatus)
    (user_id section_lecturer_id raised_by_id : Option ℕ)
    → let row = alert_row_actions roles status user_id section_lecturer_id raised_by_id in
      (row.can_acknowledge ≡ true → user_can roles acknowledge alert ≡ true)
      × (row.can_resolve ≡ true → user_can roles resolve alert ≡ true)
      × (row.can_delete ≡ user_can roles delete alert)
unfolding alert_row_actions
alert_row_actions-rights roles status none section_lecturer_id raised_by_id =
    (λ h. cc, λ h. cc, deleters roles)
alert_row_actions-rights roles status (some user_id) section_lecturer_id raised_by_id =
    let (may_acknowledge, may_close) =
      user_can-alert_rules user_id roles section_lecturer_id raised_by_id in
    (λ h. may_acknowledge (and_left _ _ h), λ h. may_close (and_left _ _ h), deleters roles)
