-- ===== src/Care/Tests.antt =====
-- The lecturer of a section cares for a student with an alert, and the log is deleted again.
use fcare.Base.{◌≡◌, refl, true, false, none, some, [], ◌∷◌, arith}
use fcare.Base.Results.{is_ok}
use fcare.Access.{admin, lecturer, AuthUser}
use fcare.Access.Scope.{Section, student_scope}
use fcare.Access.Ability.{open_status, acknowledged}
use fcare.Alert.{Alert, auto_attendance}
use fcare.Alert.Rows.{School, Outside, in_person}
use fcare.Care.{CreateCareLogDto, create_care_log, remove_care_log}
use fcare.Care.Kept.{IsCaredFor}
use fcare.Care.Steps.{no_care, then_care, logged, unlogged, CareSteps-IsCaredFor}

abbrev teacher : AuthUser
teacher = record {
  id = 7;
  staff_code = b'G' ∷ [];
  full_name = [];
  roles = lecturer ∷ [];
  department_id = some 2;
  consented = true;
  must_change_password = false;
}

abbrev administrator : AuthUser
administrator = record teacher { id = 1; roles = admin ∷ [] }

abbrev taught : Section
taught = record { id = 31; lecturer_id = some 7; subject_department_id = 2; term = 1 }

abbrev missed : Alert
missed = record {
  id = 1;
  student_id = 100;
  raised_by_id = none;
  level = 2;
  reason = b'v' ∷ [];
  status = open_status;
  source = auto_attendance;
  class_section_id = some 31;
  term = some 1;
  absent_sessions = some 2;
  owner_cared_at = none;
  resolved_by_id = none;
  resolved_at = none;
  resolution_note = none;
  outcome = none;
  created_at = 5;
}

abbrev school : School
school = record {
  staff = [];
  students = record { id = 100; department_id = 2; enrolled = taught ∷ [] } ∷ [];
  sections = taught ∷ [];
  evaluations = [];
  alerts = missed ∷ [];
  care_logs = [];
  notifications = [];
  analysis_versions = [];
  messages = [];
  reads = [];
  jobs = [];
  audit = [];
}

abbrev monday : Outside
monday = record { now = 10; today = b'1' ∷ []; fresh_id = 50 }

abbrev talk : CreateCareLogDto
talk = record {
  student_id = 100;
  channel = in_person;
  content = b'h' ∷ [];
  outcome = none;
  next_action = none;
  alert_id = some 1;
  class_section_id = none;
}

cared_for : IsCaredFor school
cared_for = record {
  consistent = record {
    one_id = λ id. ground arith;
    one_open = λ student section term. ground arith;
  };
  one_log = λ id. ground arith;
  marks = refl;
}

CareSteps-IsCaredFor_example :
    IsCaredFor (remove_care_log administrator 50 (create_care_log monday teacher talk school).0).0
CareSteps-IsCaredFor_example =
    CareSteps-IsCaredFor
      (then_care (then_care no_care (logged monday teacher talk refl)) (unlogged administrator 50))
      cared_for

-- The log marks the alert, and the mark goes with the log.
test_marked : is_ok (create_care_log monday teacher talk school).1 ≡ true
unfolding create_care_log student_scope
test_marked = refl

test_unmarked :
    (remove_care_log administrator 50 (create_care_log monday teacher talk school).0).0.alerts
    ≡ record missed { status = acknowledged } ∷ []
unfolding create_care_log remove_care_log student_scope
test_unmarked = refl
