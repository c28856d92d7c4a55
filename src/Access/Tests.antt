-- ===== src/Access/Tests.antt =====
-- Who sees and may do what, at concrete users.
use fcare.Base.{◌≡◌, ◌↔◌, refl, true, false, none, some, [], ◌∷◌, any}
use fcare.Access.{
  admin, head_of_dept, lecturer, sa_officer, has_role, AuthUser, can_use_excel_io, can_close_alert,
}
use fcare.Access.Scope.{
  Section, Student, student_scope, section_scope, student_scope_within, is_pure_lecturer,
}
use fcare.Access.Scope.Laws.{
  stats_scope-le, with_role, scope-with_role, student_scope-pure_lecturer,
}
use fcare.Access.Ability.{
  import_excel, resolve, delete, alert, excel, staff, user_can, open_status, alert_row_actions,
}
use fcare.Access.Ability.Laws.{
  user_can-lists, user_can-alert_rules, user_can-admin_only, alert_row_actions-rights,
}

abbrev teacher : AuthUser
teacher = record {
  id = 7;
  staff_code = b'G' ∷ b'V' ∷ [];
  full_name = [];
  roles = lecturer ∷ [];
  department_id = some 1;
  consented = true;
  must_change_password = false;
}

abbrev taught : Section
taught = record { id = 31; lecturer_id = some 7; subject_department_id = 2; term = 1 }

abbrev pupil : Student
pupil = record { id = 100; department_id = 2; enrolled = taught ∷ [] }

test_student_scope : student_scope teacher pupil ≡ true
unfolding student_scope
test_student_scope = refl

stats_scope-le_example : student_scope teacher pupil ≡ true
unfolding student_scope_within
stats_scope-le_example = (stats_scope-le teacher pupil taught (λ s. true)).2 refl

scope-with_role_example : student_scope (with_role head_of_dept teacher) pupil ≡ true
unfolding student_scope
scope-with_role_example = (scope-with_role head_of_dept teacher pupil taught).0 refl

student_scope-pure_lecturer_example :
    (student_scope teacher pupil ≡ true) ↔ (any (section_scope teacher) (taught ∷ []) ≡ true)
unfolding is_pure_lecturer
student_scope-pure_lecturer_example = student_scope-pure_lecturer teacher pupil refl

user_can-lists_example :
    user_can (lecturer ∷ sa_officer ∷ []) import_excel excel
    ≡ can_use_excel_io (lecturer ∷ sa_officer ∷ [])
user_can-lists_example = (user_can-lists (lecturer ∷ sa_officer ∷ [])).0

user_can-alert_rules_example : user_can (lecturer ∷ []) resolve alert ≡ true
unfolding can_close_alert
user_can-alert_rules_example = (user_can-alert_rules 7 (lecturer ∷ []) (some 7) none).1 refl

user_can-admin_only_example :
    user_can (head_of_dept ∷ []) delete staff ≡ has_role (head_of_dept ∷ []) admin
user_can-admin_only_example = (user_can-admin_only (head_of_dept ∷ []) delete staff refl).0

alert_row_actions-rights_example :
    (alert_row_actions (lecturer ∷ []) open_status (some 7) (some 7) none).can_delete
    ≡ user_can (lecturer ∷ []) delete alert
alert_row_actions-rights_example =
    (alert_row_actions-rights (lecturer ∷ []) open_status (some 7) (some 7) none).2
