-- ===== src/Alert/Tests.antt =====
-- A lecturer raises an alert for a student of a section; the theorems at that school.
use fcare.Base.{ℕ, ◌≤◌, ◌≡◌, ◌⊎◌, refl, true, false, none, some, [], ◌∷◌, ◌==◌, arith, any, count}
use fcare.Base.Results.{is_ok}
use fcare.Access.{admin, lecturer, head_of_dept, AuthUser}
use fcare.Access.Scope.{Section, is_student_in_scope}
use fcare.Access.Ability.{AlertStatus, open_status, resolved}
use fcare.Alert.{
  Alert, auto_attendance, decide_raise, merged_reason, decide_action, OpenAttendanceAlert,
}
use fcare.Alert.Rows.{in_person, School, Outside}
use fcare.Alert.Recipients.{
  compute_recipient_ids, preview_recipient_groups, find_active_staff_by_roles,
  find_heads_of_student_dept,
}
use fcare.Alert.Service.{RaiseAlertDto, raise, level_of}
use fcare.Alert.Closing.{require_all_in_scope, remove_many}
use fcare.Alert.Decisions.{
  decide_raise-level, merged_reason-merged_reason, decide_action-level, level_after,
}
use fcare.Alert.Consistency.{IsConsistent}
use fcare.Alert.Steps.{raised}
use fcare.Alert.Resolved.{IsClosed, Step-resolved}
use fcare.Alert.Deletion.{IsLinked, remove_many-all_or_nothing}
use fcare.Alert.Told.{compute_recipient_ids_lem}

abbrev teacher : AuthUser
teacher = record {
  id = 7;
  staff_code = b'G' ∷ [];
  full_name = [];
  roles = lecturer ∷ [];
  department_id = some 2;
  consented = true;
  must_change_password = false;
}

abbrev taught : Section
taught = record { id = 31; lecturer_id = some 7; subject_department_id = 2; term = 1 }

abbrev alert_with : ℕ → AlertStatus → Alert
alert_with id status = record {
  id = id;
  student_id = 100;
  raised_by_id = none;
  level = 2;
  reason = b'v' ∷ [];
  status = status;
  source = auto_attendance;
  class_section_id = some 31;
  term = some 1;
  absent_sessions = some 2;
  owner_cared_at = none;
  resolved_by_id = none;
  resolved_at = none;
  resolution_note = none;
  outcome = none;
  created_at = 5;
}

-- The head of the department, 9, and the teacher.
abbrev school : School
school = record {
  staff =
      record { id = 7; is_active = true; department_id = some 2; roles = lecturer ∷ [] }
      ∷ record { id = 9; is_active = true; department_id = some 2; roles = head_of_dept ∷ [] }
      ∷ [];
  students = record { id = 100; department_id = 2; enrolled = taught ∷ [] } ∷ [];
  sections = taught ∷ [];
  evaluations = [];
  alerts = alert_with 1 open_status ∷ alert_with 2 resolved ∷ [];
  care_logs =
      record {
        id = 50;
        student_id = 100;
        staff_id = 7;
        alert_id = some 1;
        class_section_id = some 31;
        channel = in_person;
        content = [];
        outcome = none;
        next_action = none;
      }
      ∷ [];
  notifications =
      record {
        id = 60;
        recipient_id = 9;
        alert_id = some 2;
        analysis_version_id = none;
        discussion_message_id = none;
        title = [];
        body = [];
        target_url = none;
        read_at = none;
        created_at = 5;
      }
      ∷ record {
        id = 61;
        recipient_id = 9;
        alert_id = none;
        analysis_version_id = none;
        discussion_message_id = some 80;
        title = [];
        body = [];
        target_url = none;
        read_at = none;
        created_at = 5;
      }
      ∷ [];
  analysis_versions = record { id = 70; alert_id = some 1 } ∷ [];
  messages = record { id = 80; student_id = 100 } ∷ [];
  reads = [];
  jobs = [];
  audit = [];
}

abbrev monday : Outside
monday = record { now = 10; today = b'1' ∷ []; fresh_id = 3 }

abbrev worse_now : RaiseAlertDto
worse_now = record { student_id = 100; level = 3; reason = b'w' ∷ []; class_section_id = some 31 }

consistent : IsConsistent school.alerts
consistent = record { one_id = λ id. ground arith; one_open = λ student section term. ground arith }

Step-resolved_example :
    IsClosed 2 (alert_with 2 resolved) (raise monday teacher worse_now school).0.alerts
    ⊎ (any (λ x. x.id == 2) (raise monday teacher worse_now school).0.alerts ≡ false)
Step-resolved_example =
    Step-resolved 2 (alert_with 2 resolved) (raised monday teacher worse_now refl) consistent
      (record { there = refl; over = refl })

abbrev administrator : AuthUser
administrator = record teacher { id = 1; roles = admin ∷ [] }

linked : IsLinked school
linked = record { care = refl; told = refl; discussed = refl; analysed = refl }

remove_many-all_or_nothing_example :
    (((remove_many administrator (1 ∷ 1 ∷ []) school).0 ≡ school)
      × (is_ok (remove_many administrator (1 ∷ 1 ∷ []) school).1 ≡ false))
    ⊎ (((remove_many administrator (1 ∷ 1 ∷ []) school).0.alerts ≡ alert_with 2 resolved ∷ [])
        × IsLinked (remove_many administrator (1 ∷ 1 ∷ []) school).0)
remove_many-all_or_nothing_example =
    remove_many-all_or_nothing administrator (1 ∷ 1 ∷ []) school linked

decide_raise-level_example : level_of (decide_raise 2 3 (some (record { id = 1; level = 2 }))) ≡ 3
decide_raise-level_example = decide_raise-level 2 3 (some (record { id = 1; level = 2 }))

merged_reason-merged_reason_example :
    merged_reason (merged_reason (b'v' ∷ []) (b'w' ∷ []) (b'1' ∷ [])) (b'w' ∷ []) (b'2' ∷ [])
    ≡ merged_reason (b'v' ∷ []) (b'w' ∷ []) (b'1' ∷ [])
merged_reason-merged_reason_example =
    merged_reason-merged_reason (b'v' ∷ []) (b'w' ∷ []) (b'1' ∷ []) (b'2' ∷ [])

abbrev at_two : OpenAttendanceAlert
at_two = record { level = 2; absent_sessions = some 2 }

decide_action-level_example : 2 ≤ level_after (decide_action (some 3) (some at_two)) at_two
decide_action-level_example = (decide_action-level (some 3) at_two).0

compute_recipient_ids_lem_example :
    count (λ x. x == 9) (compute_recipient_ids 100 3 (some 7) school) ≤ 1
compute_recipient_ids_lem_example = (compute_recipient_ids_lem 100 3 4 7 school (omega arith)).1 9

test_recipients : compute_recipient_ids 100 3 (some 7) school ≡ 9 ∷ []
unfolding compute_recipient_ids preview_recipient_groups find_active_staff_by_roles
    find_heads_of_student_dept
test_recipients = refl

test_remove_many : is_ok (remove_many administrator (1 ∷ 1 ∷ []) school).1 ≡ true
unfolding remove_many require_all_in_scope is_student_in_scope
test_remove_many = refl
