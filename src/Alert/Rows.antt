-- ===== src/Alert/Rows.antt =====
-- The rows that apps/api/src/modules/alerts reads and writes, and what it takes from outside.
use fcare.Base.{ℕ, Bool, Option, List, ◌==◌, or_else, keep, map, ◌&&◌}
use fcare.Base.Texts.{Text}
use fcare.Access.{RoleKey, AuthUser}
use fcare.Access.Scope.{Student, Section, student_scope}
use fcare.Alert.{Alert}
use fcare.Risk.{EvaluationCriterion, EvaluationInput}

pub record StaffMember : Type 0 where
  pub id : ℕ
  pub is_active : Bool
  pub department_id : Option ℕ
  pub roles : List RoleKey

-- An evaluation, with the absences that were imported for its student and section.
pub record Evaluation : Type 0 where
  pub student_id : ℕ
  pub class_section_id : ℕ
  pub lecturer_id : ℕ
  pub updated_at : ℕ
  pub term : ℕ
  pub academic_score : ℕ
  pub attitude_score : ℕ
  pub absent_sessions : Option ℕ
  pub imported_absent : Option ℕ
  pub criteria : List EvaluationCriterion

pub data CareChannel : Type 0 where
  in_person online : CareChannel

pub record CareLog : Type 0 where
  pub id : ℕ
  pub student_id : ℕ
  pub staff_id : ℕ
  pub alert_id : Option ℕ
  pub class_section_id : Option ℕ
  pub channel : CareChannel
  pub content : Text
  pub outcome : Option Text
  pub next_action : Option Text

pub record Notification : Type 0 where
  pub id : ℕ
  pub recipient_id : ℕ
  pub alert_id : Option ℕ
  pub analysis_version_id : Option ℕ
  pub discussion_message_id : Option ℕ
  pub title : Text
  pub body : Text
  pub target_url : Option Text
  pub read_at : Option ℕ
  pub created_at : ℕ

-- A row that belongs to an alert (an analysis), or to a student (a message, a read mark).
pub record AlertRow : Type 0 where
  pub id : ℕ
  pub alert_id : Option ℕ

pub record StudentRow : Type 0 where
  pub id : ℕ
  pub student_id : ℕ

pub data AlertAction : Type 0 where
  alert_raised alert_escalated alert_merged alert_resolved alert_deleted : AlertAction
  alert_owner_cared care_log_updated care_log_deleted : AlertAction

pub record AlertAudit : Type 0 where
  pub staff_id : ℕ
  pub action : AlertAction
  pub entity_id : ℕ

-- A job for the dispatch of notifications.
pub record EscalationJob : Type 0 where
  pub alert_id : ℕ
  pub recipient_ids : List ℕ
  pub replay : Bool

pub record School : Type 0 where
  pub staff : List StaffMember
  pub students : List Student
  pub sections : List Section
  pub evaluations : List Evaluation
  pub alerts : List Alert
  pub care_logs : List CareLog
  pub notifications : List Notification
  pub analysis_versions : List AlertRow
  pub messages : List StudentRow
  pub reads : List StudentRow
  pub jobs : List EscalationJob
  pub audit : List AlertAudit

-- The clock, the date that it shows, and the id of the next row.
pub record Outside : Type 0 where
  pub now : ℕ
  pub today : Text
  pub fresh_id : ℕ

unfoldable pub effective_absent_sessions : Evaluation → Option ℕ
effective_absent_sessions row = or_else row.absent_sessions row.imported_absent

abbrev pub input_of : Evaluation → EvaluationInput
unfolding effective_absent_sessions
input_of row = record {
  academic_score = row.academic_score;
  attitude_score = row.attitude_score;
  absent_sessions = effective_absent_sessions row;
  criteria = row.criteria;
}

-- `forStudentTerm`: the inputs of the score, of the evaluations that the user may see.
unfoldable pub inputs_for : AuthUser → Student → (term : ℕ) → School → List EvaluationInput
unfolding input_of
inputs_for user student term db = map input_of (
    keep (λ row. row.student_id == student.id && (row.term == term && student_scope user student))
      db.evaluations)
