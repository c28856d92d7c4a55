-- ===== src/Alert/Service.antt =====
-- apps/api/src/modules/alerts/alerts.service.ts: raise, acknowledge, resolve and delete alerts.
-- A transaction is one step on the rows. A title and body of a notification are left out of its job.
use fcare.Base.{
  first_by, ℕ, max, Bool, true, false, not, ◌&&◌, ◌||◌, Option, none, some, List, [], ◌∷◌, ◌++◌,
  ◌==◌, ltb, leb, opt_eq, if◌then◌else◌, length, keep, find, update_where, Result, ok, err,
}
use fcare.Base.Texts.{Text, trim}
use fcare.Access.{AuthUser, min_visible_alert_level}
use fcare.Access.Scope.{Student, Section, student_scope}
use fcare.Access.Ability.{open_status, is_resolved}
use fcare.Risk.{compute_risk_score}
use fcare.Alert.{
  Alert, manual, OpenAlert, RaiseDecision, create_alert, escalate_alert, merge_alert, decide_raise,
  system_raise_note, merged_reason,
}
use fcare.Alert.Rows.{
  School, Outside, EscalationJob, AlertAudit, AlertAction, alert_raised, alert_escalated,
  alert_merged, inputs_for,
}
use fcare.Alert.Recipients.{compute_recipient_ids}

pub data AlertError : Type 0 where
  reason_too_short level_not_visible not_enrolled not_open already_resolved : AlertError
  student_not_found alert_not_found not_in_scope not_allowed : AlertError

pub record RaiseAlertDto : Type 0 where
  pub student_id : ℕ
  pub level : ℕ
  pub reason : Text
  pub class_section_id : Option ℕ

abbrev pub min_critical_reason_length : ℕ
min_critical_reason_length = 40

-- `visibleLevelFilter`, as the test of a level
unfoldable pub visible_level_filter : AuthUser → Option ℕ → ℕ → Bool
visible_level_filter user none level = leb (min_visible_alert_level user.roles) level
visible_level_filter user (some asked) level =
    leb (min_visible_alert_level user.roles) asked && level == asked

-- The unresolved alert of a student, section and term.
abbrev pub is_open_for : ℕ → Option ℕ → Option ℕ → Alert → Bool
is_open_for student_id section_id term a =
    a.student_id == student_id
    && (opt_eq a.class_section_id section_id && (opt_eq a.term term && not (is_resolved a.status)))

-- `orderBy: [{ level: 'desc' }, { createdAt: 'desc' }]`
abbrev pub comes_first : Alert → Alert → Bool
comes_first a b = ltb b.level a.level || (a.level == b.level && ltb b.created_at a.created_at)

abbrev pub first_ordered : List Alert → Option Alert
first_ordered = first_by comes_first

abbrev pub section_id_of : Option Section → Option ℕ
section_id_of none = none
section_id_of (some s) = some s.id

abbrev pub term_of : Option Section → Option ℕ
term_of none = none
term_of (some s) = some s.term

-- `requireEnrolledSection`
abbrev pub require_enrolled_section : Student → Option ℕ → Result AlertError (Option Section)
require_enrolled_section student none = ok none
require_enrolled_section student (some id) = elim (find (λ s. s.id == id) student.enrolled) [
  | none ↦ err not_enrolled
  | some s ↦ ok (some s)
]

-- `systemLevelOf`, with a database that answers
unfoldable pub system_level_of : AuthUser → Student → Option ℕ → School → ℕ
system_level_of user student none db = 1
system_level_of user student (some term) db =
    let risk = compute_risk_score (inputs_for user student term db) in
    max risk.drs_level risk.data_forced_level

abbrev pub open_alert_of : Option Alert → Option OpenAlert
open_alert_of none = none
open_alert_of (some a) = some (record { id = a.id; level = a.level })

abbrev pub reason_of : Option Alert → Text
reason_of none = []
reason_of (some a) = a.reason

abbrev pub new_line : Text
new_line = 10 ∷ []

abbrev pub level_of : RaiseDecision → ℕ
level_of (create_alert level by_system) = level
level_of (escalate_alert id from_level level by_system) = level
level_of (merge_alert id level) = level

-- What `raise` returns beside the row: `level` and `previousLevel` are those of the decision.
pub record RaiseResult : Type 0 where
  pub alert_id : ℕ
  pub decision : RaiseDecision
  pub notified_count : ℕ
  pub requested_level : ℕ
  pub system_level : ℕ

abbrev pub action_of : RaiseDecision → AlertAction
action_of (create_alert level by_system) = alert_raised
action_of (escalate_alert id from_level level by_system) = alert_escalated
action_of (merge_alert id level) = alert_merged

module _ (out : Outside) (user : AuthUser) (dto : RaiseAlertDto) where
  abbrev pub noted : Text → Bool → ℕ → Text
  noted gap by_system level =
      if by_system then dto.reason ++ (gap ++ system_raise_note dto.level level) else dto.reason

  abbrev pub new_alert : Option Section → ℕ → Bool → Alert
  new_alert section level by_system = record {
    id = out.fresh_id;
    student_id = dto.student_id;
    raised_by_id = some user.id;
    level = level;
    reason = noted (new_line ++ new_line) by_system level;
    status = open_status;
    source = manual;
    class_section_id = section_id_of section;
    term = term_of section;
    absent_sessions = none;
    owner_cared_at = none;
    resolved_by_id = none;
    resolved_at = none;
    resolution_note = none;
    outcome = none;
    created_at = out.now;
  }

  abbrev pub escalated : Option Alert → ℕ → Bool → Alert → Alert
  escalated current level by_system a = record a {
    level = level;
    reason = merged_reason (reason_of current) (noted new_line by_system level) out.today;
    status = open_status;
    owner_cared_at = none;
  }

  abbrev pub merged : Option Alert → Alert → Alert
  merged current a = record a { reason = merged_reason (reason_of current) dto.reason out.today }

  -- The alerts after the transaction, and the id of the alert that was written.
  unfoldable pub write_decision :
      Option Section → Option Alert → RaiseDecision → List Alert → List Alert × ℕ
  write_decision section current (create_alert level by_system) alerts =
      (alerts ++ new_alert section level by_system ∷ [], out.fresh_id)
  write_decision section current (escalate_alert id from_level level by_system) alerts =
      (update_where (λ a. a.id == id) (escalated current level by_system) alerts, id)
  write_decision section current (merge_alert id level) alerts =
      (update_where (λ a. a.id == id) (merged current) alerts, id)

  abbrev pub recipients_of : RaiseDecision → School → List ℕ
  recipients_of (create_alert level by_system) db =
      compute_recipient_ids dto.student_id level (some user.id) db
  recipients_of (escalate_alert id from_level level by_system) db =
      compute_recipient_ids dto.student_id level (some user.id) db
  recipients_of (merge_alert id level) db = []

  abbrev pub is_replay : RaiseDecision → Bool
  is_replay (escalate_alert id from_level level by_system) = true
  is_replay _ = false

  abbrev pub job_for : RaiseDecision → ℕ → List ℕ → List EscalationJob
  job_for decision alert_id [] = []
  job_for decision alert_id (r ∷ rest) =
      record { alert_id = alert_id; recipient_ids = r ∷ rest; replay = is_replay decision } ∷ []

  abbrev pub current_alert : Option Section → School → Option Alert
  current_alert section db =
      first_ordered
        (keep (is_open_for dto.student_id (section_id_of section) (term_of section)) db.alerts)

  abbrev pub decision_for : Student → Option Section → School → RaiseDecision
  decision_for student section db =
      decide_raise dto.level (system_level_of user student (term_of section) db)
        (open_alert_of (current_alert section db))

  -- What follows the checks: the transaction, then the notifications, then the audit.
  unfoldable pub raise_in :
      Student → Option Section → School → School × Result AlertError RaiseResult
  unfolding write_decision
  raise_in student section db =
      let decision = decision_for student section db in
      let (alerts, alert_id) =
        write_decision section (current_alert section db) decision db.alerts in
      let recipient_ids = recipients_of decision db in
      let entry : AlertAudit = record {
        staff_id = user.id;
        action = action_of decision;
        entity_id = alert_id;
      } in
      (
        record db {
          alerts = alerts;
          jobs = db.jobs ++ job_for decision alert_id recipient_ids;
          audit = db.audit ++ entry ∷ [];
        },
        ok (record {
          alert_id = alert_id;
          decision = decision;
          notified_count = length recipient_ids;
          requested_level = dto.level;
          system_level = system_level_of user student (term_of section) db;
        }),
      )

  abbrev pub raise_for :
      Student → Result AlertError (Option Section) → School → School × Result AlertError RaiseResult
  unfolding raise_in
  raise_for student (ok section) db = raise_in student section db
  raise_for student (err e) db = (db, err e)

  unfoldable pub raise : School → School × Result AlertError RaiseResult
  unfolding raise_in
  raise db =
      let student = find (λ s. s.id == dto.student_id && student_scope user s) db.students in
      if dto.level == 4 && ltb (length (trim dto.reason)) min_critical_reason_length
      then (db, err reason_too_short)
      else if ltb dto.level (min_visible_alert_level user.roles)
      then (db, err level_not_visible)
      else elim student [
        | none ↦ (db, err student_not_found)
        | some s ↦ raise_for s (require_enrolled_section s dto.class_section_id) db
      ]
