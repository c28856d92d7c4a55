-- ===== src/Attendance/Tests.antt =====
-- Two students of one section, of whom one has an alert, and a subject that bars nobody.
use fcare.Base.{◌+◌, ◌≡◌, refl, true, false, none, some, [], ◌∷◌, arith}
use fcare.Access.{lecturer, AuthUser}
use fcare.Access.Scope.{Section}
use fcare.Access.Ability.{open_status}
use fcare.Alert.{Alert, auto_attendance}
use fcare.Alert.Rows.{School, Outside}
use fcare.Alert.Closing.{acknowledge_alert}
use fcare.Alert.Steps.{acknowledged_one}
use fcare.Attendance.Steps.{
  TermSteps, no_step, then_step, requested, reviewed, TermSteps-IsConsistent,
}
use fcare.Alert.Consistency.{IsConsistent}
use fcare.Attendance.{
  studying, ClassSection, Register, Surroundings, AttendanceReviewOptions, current_term_block,
  highest_by_key,
}
use fcare.Attendance.Review.{review_rows, review_row, review_term}
use fcare.Alert.Recipients.{compute_recipient_ids}
use fcare.Attendance.Invariant.{review_term-IsConsistent}

abbrev taught : Section
taught = record { id = 31; lecturer_id = some 7; subject_department_id = 2; term = 1 }

abbrev missed : Alert
missed = record {
  id = 1;
  student_id = 100;
  raised_by_id = none;
  level = 2;
  reason = b'v' ∷ [];
  status = open_status;
  source = auto_attendance;
  class_section_id = some 31;
  term = some 1;
  absent_sessions = some 2;
  owner_cared_at = some 4;
  resolved_by_id = none;
  resolved_at = none;
  resolution_note = none;
  outcome = none;
  created_at = 5;
}

-- An alert of the section of a subject without an attendance to reach.
abbrev exempt : Alert
exempt = record missed { id = 2; class_section_id = some 32 }

abbrev school : School
school = record {
  staff = record { id = 7; is_active = true; department_id = some 2; roles = lecturer ∷ [] } ∷ [];
  students =
      record { id = 100; department_id = 2; enrolled = taught ∷ [] }
      ∷ record { id = 101; department_id = 2; enrolled = taught ∷ [] }
      ∷ [];
  sections = taught ∷ [];
  evaluations = [];
  alerts = missed ∷ exempt ∷ [];
  care_logs = [];
  notifications = [];
  analysis_versions = [];
  messages = [];
  reads = [];
  jobs = [];
  audit = [];
}

abbrev section : ClassSection
section = record {
  id = 31;
  code = b'C' ∷ [];
  term = 1;
  block = some 1;
  lecturer_id = some 7;
  attendance_rate_required = some 80;
}

abbrev register : Register
register = record {
  school = school;
  sections = section ∷ record section { id = 32; attendance_rate_required = some 0 } ∷ [];
  enrollments =
      record {
        student_id = 100;
        student_status = studying;
        class_section = section;
        absent_sessions = some 3;
      }
      ∷ record {
        student_id = 101;
        student_status = studying;
        class_section = section;
        absent_sessions = some 2;
      }
      ∷ [];
  terms = record { code = 1; start_date = 0; end_date = 100; current_block_override = none } ∷ [];
  reviews = [];
}

abbrev around : Surroundings
around = record { show_number = λ n. (48 + n) ∷ []; term_code = λ n. b'T' ∷ []; dispatches = true }

abbrev friday : Outside
friday = record { now = 40; today = b'5' ∷ []; fresh_id = 10 }

abbrev by_import : AttendanceReviewOptions
by_import = record { batch_id = some 3; actor_id = some 9 }

-- The first student's alert is raised to level 3, the second gets one, and the exempt one is closed.
test_review_term :
    (review_term friday around 1 by_import register).1
    ≡ record { created = 1; upgraded = 1; unchanged_rows = 0; notified = 2; closed = 1 }
unfolding review_term review_rows current_term_block review_row highest_by_key compute_recipient_ids
test_review_term = refl

-- In the second half of the term, the section of the first is not reviewed.
test_review_term_later :
    (review_term (record friday { now = 60 }) around 1 by_import register).1
    ≡ record { created = 0; upgraded = 0; unchanged_rows = 0; notified = 0; closed = 1 }
unfolding review_term review_rows current_term_block
test_review_term_later = refl

review_term-IsConsistent_example :
    IsConsistent (review_term friday around 1 by_import register).0.school.alerts
review_term-IsConsistent_example =
    review_term-IsConsistent friday around 1 by_import register refl
      (record { one_id = λ id. ground arith; one_open = λ student section term. ground arith })

abbrev teacher : AuthUser
teacher = record {
  id = 7;
  staff_code = b'G' ∷ [];
  full_name = [];
  roles = lecturer ∷ [];
  department_id = some 2;
  consented = true;
  must_change_password = false;
}

abbrev reviewed_register : Register
reviewed_register = (review_term friday around 1 by_import register).0

-- The review, and then the teacher acknowledges the alert that it raised.
review_and_acknowledge :
    TermSteps register (record reviewed_register {
      school = (acknowledge_alert teacher 1 reviewed_register.school).0;
    })
review_and_acknowledge =
    then_step (then_step no_step (reviewed friday around 1 by_import refl))
      (requested (acknowledged_one teacher 1))

TermSteps-IsConsistent_example :
    IsConsistent (acknowledge_alert teacher 1 reviewed_register.school).0.alerts
TermSteps-IsConsistent_example =
    TermSteps-IsConsistent review_and_acknowledge
      (record { one_id = λ id. ground arith; one_open = λ student section term. ground arith })
