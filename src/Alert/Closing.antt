-- ===== src/Alert/Closing.antt =====
-- apps/api/src/modules/alerts/alerts.service.ts: acknowledge and resolve an alert, and delete alerts
-- with the data of their students.
use fcare.Base.{
  ℕ, Bool, false, not, ◌||◌, Option, none, some, List, [], ◌∷◌, ◌++◌, ◌==◌, if◌then◌else◌, length,
  keep, map, all, find, count, contains, update_where, Result, ok, err,
}
use fcare.Base.Texts.{Text}
use fcare.Access.{AuthUser, can_close_alert, can_acknowledge_alert}
use fcare.Access.Scope.{Section, is_student_in_scope}
use fcare.Access.Ability.{acknowledged, resolved, is_open, is_resolved}
use fcare.Alert.{Alert, AlertOutcome}
use fcare.Alert.Rows.{
  School, Outside, AlertAudit, alert_resolved, alert_deleted, AlertRow, StudentRow, Notification,
}
use fcare.Alert.Recipients.{distinct}
use fcare.Alert.Service.{
  AlertError, not_open, already_resolved, alert_not_found, not_in_scope, not_allowed,
}

abbrev pub alert_by_id : ℕ → School → Option Alert
alert_by_id id db = find (λ a. a.id == id) db.alerts

abbrev pub in_scope_or : AuthUser → School → Alert → Result AlertError Alert
in_scope_or user db alert =
    if is_student_in_scope db.students user alert.student_id then ok alert else err not_in_scope

unfoldable pub require_in_scope : AuthUser → ℕ → School → Result AlertError Alert
require_in_scope user id db = elim (alert_by_id id db) [
  | none ↦ err alert_not_found
  | some alert ↦ in_scope_or user db alert
]

abbrev pub acknowledge_found :
    AuthUser → ℕ → Result AlertError Alert → School → School × Result AlertError (Unit {0})
acknowledge_found user id (err e) db = (db, err e)
acknowledge_found user id (ok alert) db =
    if not (is_open alert.status)
    then (db, err not_open)
    else if not (can_acknowledge_alert user.id user.roles alert.raised_by_id)
    then (db, err not_allowed)
    else (
      record db {
        alerts = update_where (λ a. a.id == id) (λ a. record a { status = acknowledged }) db.alerts;
      },
      ok tt,
    )

unfoldable pub acknowledge_alert : AuthUser → ℕ → School → School × Result AlertError (Unit {0})
unfolding require_in_scope
acknowledge_alert user id db = acknowledge_found user id (require_in_scope user id db) db

-- `alert.classSection?.lecturerId`
abbrev pub lecturer_of : Option ℕ → List Section → Option ℕ
lecturer_of none sections = none
lecturer_of (some id) sections = elim (find (λ s. s.id == id) sections) [
  | none ↦ none
  | some s ↦ s.lecturer_id
]

abbrev pub section_lecturer : Option ℕ → School → Option ℕ
section_lecturer id db = lecturer_of id db.sections

pub record ResolveAlertDto : Type 0 where
  pub outcome : AlertOutcome
  pub resolution_note : Text

abbrev pub closed_by : Outside → AuthUser → ResolveAlertDto → Alert → Alert
closed_by out user dto a = record a {
  status = resolved;
  resolved_by_id = some user.id;
  resolved_at = some out.now;
  resolution_note = some dto.resolution_note;
  outcome = some dto.outcome;
}

abbrev pub resolve_found :
    Outside
    → AuthUser
    → ℕ
    → ResolveAlertDto
    → Result AlertError Alert
    → School
    → School × Result AlertError (Unit {0})
resolve_found out user id dto (err e) db = (db, err e)
resolve_found out user id dto (ok alert) db =
    let entry : AlertAudit = record {
      staff_id = user.id;
      action = alert_resolved;
      entity_id = id;
    } in
    if is_resolved alert.status
    then (db, err already_resolved)
    else if not (
        can_close_alert user.id user.roles (section_lecturer alert.class_section_id db)
          alert.raised_by_id)
    then (db, err not_allowed)
    else (
      record db {
        alerts = update_where (λ a. a.id == id) (closed_by out user dto) db.alerts;
        audit = db.audit ++ entry ∷ [];
      },
      ok tt,
    )

unfoldable pub resolve_alert :
    Outside → AuthUser → ℕ → ResolveAlertDto → School → School × Result AlertError (Unit {0})
unfolding require_in_scope
resolve_alert out user id dto db = resolve_found out user id dto (require_in_scope user id db) db

pub record DeletionSummary : Type 0 where
  pub care_logs : ℕ
  pub evaluations : ℕ
  pub discussion_messages : ℕ
  pub notifications : ℕ
  pub analysis_versions_unlinked : ℕ

-- `{ in: ids }`, of a column that can be missing
abbrev pub alert_in : List ℕ → Option ℕ → Bool
alert_in alert_ids none = false
alert_in alert_ids (some id) = contains alert_ids id

abbrev pub unlink : List ℕ → AlertRow → AlertRow
unlink alert_ids row =
    if alert_in alert_ids row.alert_id then record row { alert_id = none } else row

abbrev pub summary_of : List ℕ → List ℕ → School → DeletionSummary
summary_of alert_ids student_ids db = record {
  care_logs = count (λ c. alert_in alert_ids c.alert_id) db.care_logs;
  evaluations = count (λ e. contains student_ids e.student_id) db.evaluations;
  discussion_messages = count (λ m. contains student_ids m.student_id) db.messages;
  notifications = count (λ n. alert_in alert_ids n.alert_id) db.notifications;
  analysis_versions_unlinked = count (λ v. alert_in alert_ids v.alert_id) db.analysis_versions;
}

-- The messages that go with the threads of the students.
abbrev pub message_ids_of : List ℕ → List StudentRow → List ℕ
message_ids_of student_ids messages =
    map (λ m. m.id) (keep (λ m. contains student_ids m.student_id) messages)

-- A notification goes with its alert and with its message.
abbrev pub is_cascaded : List ℕ → List ℕ → Notification → Bool
is_cascaded alert_ids message_ids n =
    alert_in alert_ids n.alert_id || alert_in message_ids n.discussion_message_id

-- The transaction. Notifications go with their alert or message, and analyses lose the link, by the
-- foreign keys.
abbrev pub without : List ℕ → List ℕ → School → School
without alert_ids student_ids db = record db {
  care_logs = keep (λ c. not (alert_in alert_ids c.alert_id)) db.care_logs;
  evaluations = keep (λ e. not (contains student_ids e.student_id)) db.evaluations;
  messages = keep (λ m. not (contains student_ids m.student_id)) db.messages;
  reads = keep (λ r. not (contains student_ids r.student_id)) db.reads;
  alerts = keep (λ a. not (contains alert_ids a.id)) db.alerts;
  notifications =
      keep (λ n. not (is_cascaded alert_ids (message_ids_of student_ids db.messages) n))
        db.notifications;
  analysis_versions = map (unlink alert_ids) db.analysis_versions;
}

abbrev pub deleted_entry : AuthUser → Alert → AlertAudit
deleted_entry user a = record { staff_id = user.id; action = alert_deleted; entity_id = a.id }

abbrev pub alert_ids_of : List Alert → List ℕ
alert_ids_of alerts = map (λ a. a.id) alerts

abbrev pub student_ids_of : List Alert → List ℕ
student_ids_of alerts = distinct (map (λ a. a.student_id) alerts)

unfoldable pub delete_batch : AuthUser → List Alert → School → School × DeletionSummary
delete_batch user alerts db =
    let alert_ids = alert_ids_of alerts in
    let student_ids = student_ids_of alerts in
    (
      record (without alert_ids student_ids db) {
        audit = db.audit ++ map (deleted_entry user) alerts;
      },
      summary_of alert_ids student_ids db,
    )

-- `requireAllInScope`: the alerts of the given ids, all of them there and in scope.
unfoldable pub require_all_in_scope : AuthUser → List ℕ → School → Result AlertError (List Alert)
require_all_in_scope user ids db =
    let alert_ids = distinct ids in
    let alerts = keep (λ a. contains alert_ids a.id) db.alerts in
    if not (length alerts == length alert_ids)
    then err alert_not_found
    else if not (all (is_student_in_scope db.students user) (student_ids_of alerts))
    then err not_in_scope
    else ok alerts

abbrev pub remove_found :
    AuthUser → Result AlertError (List Alert) → School → School × Result AlertError DeletionSummary
unfolding delete_batch
remove_found user (err e) db = (db, err e)
remove_found user (ok alerts) db =
    let (db', summary) = delete_batch user alerts db in (db', ok summary)

unfoldable pub remove_many : AuthUser → List ℕ → School → School × Result AlertError DeletionSummary
unfolding remove_found require_all_in_scope
remove_many user ids db = remove_found user (require_all_in_scope user ids db) db

abbrev pub as_batch : Result AlertError Alert → Result AlertError (List Alert)
as_batch (err e) = err e
as_batch (ok alert) = ok (alert ∷ [])

unfoldable pub remove : AuthUser → ℕ → School → School × Result AlertError DeletionSummary
unfolding remove_found require_in_scope
remove user id db = remove_found user (as_batch (require_in_scope user id db)) db
