-- ===== src/Care.antt =====
-- apps/api/src/modules/care-logs/care-logs.service.ts: what staff note about a student, and the mark on
-- an alert that the lecturer of its section has cared. The list, the mails and the fields of the audit
-- beside its action are left out. The detector of personal data (common/utils/pii-text.ts) is an argument.
mod Marks
mod Logs
mod Kept
mod Removal
mod Unlogged
mod Steps
mod Tests
use fcare.Base.{
  ℕ, Bool, true, false, not, ◌&&◌, ◌||◌, Option, none, some, List, [], ◌∷◌, ◌++◌, ◌==◌, ltb,
  if◌then◌else◌, any, keep, find, count, update_where, opt_eq, is_some, or_else, Result, ok, err,
}
use fcare.Base.Texts.{Text, trim}
use fcare.Access.{AuthUser, admin, has_role}
use fcare.Access.Scope.{Student, student_scope}
use fcare.Access.Ability.{AlertStatus, open_status, acknowledged, resolved}
use fcare.Alert.{Alert}
use fcare.Alert.Rows.{
  School, Outside, CareLog, CareChannel, AlertAudit, AlertAction, alert_owner_cared,
  care_log_updated, care_log_deleted,
}
use fcare.Alert.Closing.{section_lecturer}

pub data CareError : Type 0 where
  student_not_found alert_not_found not_of_student not_enrolled : CareError
  care_log_not_found not_own nothing_to_save pii_in_message : CareError

pub record CreateCareLogDto : Type 0 where
  pub student_id : ℕ
  pub channel : CareChannel
  pub content : Text
  pub outcome : Option Text
  pub next_action : Option Text
  pub alert_id : Option ℕ
  pub class_section_id : Option ℕ

pub record UpdateCareLogDto : Type 0 where
  pub channel : Option CareChannel
  pub content : Option Text
  pub outcome : Option Text
  pub next_action : Option Text

abbrev pub log_audit : ℕ → AlertAction → ℕ → School → School
log_audit staff_id action id db =
    let entry : AlertAudit = record { staff_id = staff_id; action = action; entity_id = id } in
    record db { audit = db.audit ++ entry ∷ [] }

abbrev pub check_student : ℕ → Option Alert → Result CareError (Option Alert)
check_student student_id none = err alert_not_found
check_student student_id (some a) =
    if a.student_id == student_id then ok (some a) else err not_of_student

-- `requireLinkedAlert`, where an alert is named
abbrev pub require_linked_alert : Option ℕ → ℕ → School → Result CareError (Option Alert)
require_linked_alert none student_id db = ok none
require_linked_alert (some id) student_id db =
    check_student student_id (find (λ a. a.id == id) db.alerts)

abbrev pub alert_section : Option Alert → Option ℕ
alert_section none = none
alert_section (some a) = a.class_section_id

-- `requireEnrolledSection`, where a section is named; else the section of the alert
abbrev pub section_for : Student → Option ℕ → Option Alert → Result CareError (Option ℕ)
section_for student none alert = ok (alert_section alert)
section_for student (some id) alert =
    if any (λ s. s.id == id) student.enrolled then ok (some id) else err not_enrolled

abbrev pub acknowledged_if_open : AlertStatus → AlertStatus
acknowledged_if_open open_status = acknowledged
acknowledged_if_open acknowledged = acknowledged
acknowledged_if_open resolved = resolved

module _ (out : Outside) (user : AuthUser) where
  abbrev pub cared : Alert → Alert
  cared a = record a { owner_cared_at = some out.now; status = acknowledged_if_open a.status }

  -- Whether `markOwnerCared` marks the alert.
  abbrev pub marks_owner : Option Alert → School → Bool
  marks_owner none db = false
  marks_owner (some a) db =
      opt_eq (section_lecturer a.class_section_id db) (some user.id)
      && not (is_some a.owner_cared_at)

  abbrev pub mark_owner_cared : Option Alert → School → School
  mark_owner_cared none db = db
  mark_owner_cared (some a) db =
      if marks_owner (some a) db
      then log_audit user.id alert_owner_cared a.id
          (record db { alerts = update_where (λ x. x.id == a.id) cared db.alerts })
      else db

  abbrev pub new_log : CreateCareLogDto → Option ℕ → CareLog
  new_log dto section_id = record {
    id = out.fresh_id;
    student_id = dto.student_id;
    staff_id = user.id;
    alert_id = dto.alert_id;
    class_section_id = section_id;
    channel = dto.channel;
    content = dto.content;
    outcome = dto.outcome;
    next_action = dto.next_action;
  }

  abbrev pub log_care :
      CreateCareLogDto
      → Option Alert
      → Result CareError (Option ℕ)
      → School
      → School × Result CareError CareLog
  log_care dto alert (err e) db = (db, err e)
  log_care dto alert (ok section_id) db =
      let log = new_log dto section_id in
      (mark_owner_cared alert (record db { care_logs = db.care_logs ++ log ∷ [] }), ok log)

  abbrev pub create_for :
      CreateCareLogDto
      → Student
      → Result CareError (Option Alert)
      → School
      → School × Result CareError CareLog
  create_for dto student (err e) db = (db, err e)
  create_for dto student (ok alert) db =
      log_care dto alert (section_for student dto.class_section_id alert) db

  abbrev pub create_of :
      CreateCareLogDto → Option Student → School → School × Result CareError CareLog
  create_of dto none db = (db, err student_not_found)
  create_of dto (some student) db =
      create_for dto student (require_linked_alert dto.alert_id dto.student_id db) db

  unfoldable pub create_care_log : CreateCareLogDto → School → School × Result CareError CareLog
  create_care_log dto db =
      create_of dto (find (λ s. s.id == dto.student_id && student_scope user s) db.students) db

-- `{ id, student: studentScope(user) }`
abbrev pub visible_log : AuthUser → ℕ → School → Option CareLog
visible_log user id db =
    find (λ c. c.id == id && any (λ s. s.id == c.student_id && student_scope user s) db.students)
      db.care_logs

-- Whether the log was the last of the section's lecturer on an alert that is marked.
abbrev pub is_last_of_owner : CareLog → Option Alert → School → Bool
is_last_of_owner log none db = false
is_last_of_owner log (some a) db =
    is_some a.owner_cared_at
    && (opt_eq (section_lecturer a.class_section_id db) (some log.staff_id)
        && count (λ c. opt_eq c.alert_id (some a.id) && c.staff_id == log.staff_id) db.care_logs
          == 0)

abbrev pub unmarked : Alert → Alert
unmarked a = record a { owner_cared_at = none }

abbrev pub linked_alert : Option ℕ → School → Option Alert
linked_alert none db = none
linked_alert (some id) db = find (λ a. a.id == id) db.alerts

-- `resetOwnerCaredIfLast`, after the log is deleted
abbrev pub reset_owner_cared_if_last : CareLog → Option Alert → School → School
reset_owner_cared_if_last log none db = db
reset_owner_cared_if_last log (some a) db =
    if is_last_of_owner log (some a) db
    then record db { alerts = update_where (λ x. x.id == a.id) unmarked db.alerts }
    else db

abbrev pub remove_log : AuthUser → Option CareLog → School → School × Result CareError Bool
remove_log user none db = (db, err care_log_not_found)
remove_log user (some log) db =
    let left = record db { care_logs = keep (λ c. not (c.id == log.id)) db.care_logs } in
    let alert = linked_alert log.alert_id db in
    (
      log_audit user.id care_log_deleted log.id (reset_owner_cared_if_last log alert left),
      ok (is_last_of_owner log alert left),
    )

unfoldable pub remove_care_log : AuthUser → ℕ → School → School × Result CareError Bool
remove_care_log user id db = remove_log user (visible_log user id db) db

abbrev pub is_absent : UpdateCareLogDto → Bool
is_absent dto = not (
    is_some dto.channel
    || (is_some dto.content || (is_some dto.outcome || is_some dto.next_action)))

-- `value.trim() || null`, where a value is given
abbrev pub text_or_null : Text → Option Text
text_or_null [] = none
text_or_null (c ∷ s) = some (c ∷ s)

abbrev pub optional : Option Text → Option Text → Option Text
optional none old = old
optional (some value) old = text_or_null (trim value)

abbrev pub or_old {ℓ} : {A : Type ℓ} → Option A → A → A
or_old none old = old
or_old (some a) old = a

abbrev pub trimmed_or : Option Text → Text → Text
trimmed_or none old = old
trimmed_or (some t) old = trim t

-- The columns that `buildCareLogUpdate` names, written.
abbrev pub updated_log : UpdateCareLogDto → CareLog → CareLog
updated_log dto c = record c {
  channel = or_old dto.channel c.channel;
  content = trimmed_or dto.content c.content;
  outcome = optional dto.outcome c.outcome;
  next_action = optional dto.next_action c.next_action;
}

module _ (detect_pii : Text → Bool) where
  abbrev pub has_pii : Option Text → Bool
  has_pii none = false
  has_pii (some []) = false
  has_pii (some (c ∷ s)) = detect_pii (c ∷ s)

  abbrev pub update_found :
      AuthUser → UpdateCareLogDto → Option CareLog → School → School × Result CareError Bool
  update_found user dto none db = (db, err care_log_not_found)
  update_found user dto (some log) db =
      if not (log.staff_id == user.id) && not (has_role user.roles admin)
      then (db, err not_own)
      else if is_absent dto
      then (db, err nothing_to_save)
      else if has_pii dto.content || (has_pii dto.outcome || has_pii dto.next_action)
      then (db, err pii_in_message)
      else (
        log_audit user.id care_log_updated log.id (record db {
          care_logs = update_where (λ c. c.id == log.id) (updated_log dto) db.care_logs;
        }),
        ok true,
      )

  unfoldable pub update_care_log :
      AuthUser → ℕ → UpdateCareLogDto → School → School × Result CareError Bool
  update_care_log user id dto db = update_found user dto (visible_log user id db) db
