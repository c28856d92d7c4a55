-- ===== src/Analyses/Sending.antt =====
-- student-analyses.service.ts: a draft is sent. An alert is raised, the recipients are fixed, and a job
-- delivers the notifications; a delivery that fails before it told anybody gives the draft back.
use fcare.Base.{
  ℕ, Bool, true, false, not, ◌&&◌, Option, none, some, List, [], ◌∷◌, ◌++◌, ◌==◌, ltb, length, map,
  if◌then◌else◌, any, keep, find, first_by, update_where, or_else, opt_eq, contains, Result, ok,
  err,
}
use fcare.Base.Results.{after}
use fcare.Base.Texts.{Text}
use fcare.Access.{AuthUser}
use fcare.Access.Ability.{open_status}
use fcare.Alert.{Alert, manual}
use fcare.Alert.Rows.{School, Outside, AlertRow, Evaluation, Notification}
use fcare.Alert.Recipients.{compute_recipient_ids, collect}
use fcare.Notify.{NotificationDeliveryData, analysis_source, Post, deliver}
use fcare.Notify.Inbox.{AnalysisRecipient}
use fcare.Analyses.{
  AnalysisStatus, send_queued, sent, draft, AnalysisContentSource, ai, lecturer_text,
  AcademicAnalysisOutput, RiskLevel, low, medium, high, Version, Analysis, deliver_job, sent_out,
  Desk, AnalysisError, not_decider, not_draft, level_below_system, reason_too_short, stale_analysis,
  no_recipients, state_changed, is_draft, is_send_queued,
}
use fcare.Analyses.Content.{reason_min_length, system_level, send_content, SendAnalysisDto}
use fcare.Analyses.Versions.{log_analysis, put, has_version}
use fcare.Analyses.Requests.{
  Engine, enabled_or, output_of, parse_output, require_version, can_decide,
}

abbrev pub changed_later : Evaluation → Evaluation → Bool
changed_later a b = ltb b.updated_at a.updated_at

abbrev pub section_in : Option Evaluation → Option ℕ
section_in none = none
section_in (some e) = some e.class_section_id

-- `sectionOfAlert`, over the lecturers in turn
abbrev pub section_by : List Evaluation → ℕ → ℕ → List ℕ → Option ℕ
section_by rows student_id term [] = none
section_by rows student_id term (l ∷ rest) =
    or_else
      (section_in (
        first_by changed_later
          (keep (λ e. e.student_id == student_id && (e.term == term && e.lecturer_id == l)) rows)))
      (section_by rows student_id term rest)

abbrev pub section_of_alert : List Evaluation → Version → Analysis → ℕ → Option ℕ
section_of_alert rows v a actor_id =
    section_by rows a.student_id a.term (collect [] (v.created_by_id ∷ actor_id ∷ []))

pub record CommitInput : Type 0 where
  pub version : Version
  pub analysis : Analysis
  pub actor_id : ℕ
  pub level : ℕ
  pub reason : Text

pub record Sent : Type 0 where
  pub recipients : List ℕ
  pub alert_id : ℕ

abbrev pub recipient_row : ℕ → ℕ → AnalysisRecipient
recipient_row version_id id = record {
  version_id = version_id;
  recipient_id = id;
  notification_id = none;
  opened_at = none;
}

abbrev pub title_start : Text
title_start = b'P' ∷ b'h' ∷ 226 ∷ b'n' ∷ 32 ∷ b't' ∷ 237 ∷ b'c' ∷ b'h' ∷ 32 ∷ b'A' ∷ b'I' ∷ 32 ∷ []

abbrev pub url_start : Text
url_start =
    b'/' ∷ b's' ∷ b't' ∷ b'u' ∷ b'd' ∷ b'e' ∷ b'n' ∷ b't' ∷ b'-' ∷ b'a' ∷ b'n' ∷ b'a' ∷ b'l' ∷ b'y'
    ∷ b's' ∷ b'e' ∷ b's' ∷ b'/' ∷ []

abbrev pub risk_text : RiskLevel → Text
risk_text low = b'L' ∷ b'O' ∷ b'W' ∷ []
risk_text medium = b'M' ∷ b'E' ∷ b'D' ∷ b'I' ∷ b'U' ∷ b'M' ∷ []
risk_text high = b'H' ∷ b'I' ∷ b'G' ∷ b'H' ∷ []

-- The recipients that are members of staff: `staff.findMany`.
abbrev pub resolved_staff : List ℕ → School → List ℕ
resolved_staff ids db = map (λ m. m.id) (keep (λ m. contains ids m.id) db.staff)

abbrev pub is_nobody : List ℕ → Bool
is_nobody [] = true
is_nobody (r ∷ rest) = false

abbrev pub link_of : Option AlertRow → Option ℕ
link_of none = none
link_of (some row) = row.alert_id

-- The row of the notification that a recipient was sent.
abbrev pub told_by : ℕ → List Notification → AnalysisRecipient → AnalysisRecipient
told_by id rows r =
    elim (find (λ n. opt_eq n.analysis_version_id (some id) && n.recipient_id == r.recipient_id)
      rows) [ none ↦ r | some n ↦ record r { notification_id = some n.id } ]

abbrev pub any_status : AnalysisStatus → Bool
any_status s = true

abbrev pub noted_content : AnalysisContentSource → Text → Option Text
noted_content ai content = none
noted_content lecturer_text content = some content

abbrev pub with_content : AnalysisContentSource → Text → Version → Version
with_content content_source content v = record v {
  content_source = some content_source;
  lecturer_note = noted_content content_source content;
  needs_send_decision = false;
}

-- A critical alert needs a long content.
abbrev pub long_enough : ℕ → Result AnalysisError (Text × Text) → Result AnalysisError (Text × Text)
long_enough level (err e) = err e
long_enough level (ok (content, reason)) =
    if level == 4 && ltb (length content) reason_min_length
    then err reason_too_short
    else ok (content, reason)

module _ (engine : Engine) (out : Outside) where
  -- The alert of a sent analysis; the columns that are not given have their defaults.
  abbrev pub analysis_alert : List Evaluation → CommitInput → Alert
  analysis_alert evaluations input = record {
    id = out.fresh_id;
    student_id = input.analysis.student_id;
    raised_by_id = some input.actor_id;
    level = input.level;
    reason = input.reason;
    status = open_status;
    source = manual;
    class_section_id = section_of_alert evaluations input.version input.analysis input.actor_id;
    term = some input.analysis.term;
    absent_sessions = none;
    owner_cared_at = none;
    resolved_by_id = none;
    resolved_at = none;
    resolution_note = none;
    outcome = none;
    created_at = out.now;
  }

  abbrev pub queued_by : ℕ → Version → Version
  queued_by actor_id v = record v {
    status = send_queued;
    reviewed_by_id = some actor_id;
    reviewed_at = some out.now;
  }

  -- What the transaction writes when its checks pass.
  abbrev pub commit_rows : CommitInput → List ℕ → Desk → Desk
  commit_rows input recipients db =
      let id = input.version.id in
      record (put id is_draft (queued_by input.actor_id) db) {
        recipients =
            keep (λ r. not (r.version_id == id)) db.recipients ++ map (recipient_row id) recipients;
        school = record db.school {
          alerts = db.school.alerts ++ analysis_alert db.school.evaluations input ∷ [];
          analysis_versions =
              update_where (λ row. row.id == id)
                (λ row. record row { alert_id = some out.fresh_id }) db.school.analysis_versions;
        };
      }

  -- The transaction of `commitSend`.
  abbrev pub commit_rows_or_fail : CommitInput → Desk → Desk × Result AnalysisError Sent
  commit_rows_or_fail input db =
      let student_id = input.analysis.student_id in
      after (db, engine.build_snapshot student_id input.analysis.term db.school)
        (λ source _.
          let told = compute_recipient_ids student_id input.level (some input.actor_id) db.school in
          let staff = resolved_staff told db.school in
          if not (source.1 == input.version.source_hash)
          then (db, err stale_analysis)
          else if is_nobody told
          then (db, err no_recipients)
          else if not (has_version input.version.id is_draft db)
          then (db, err state_changed)
          else (
            commit_rows input staff db,
            ok (record { recipients = staff; alert_id = out.fresh_id }),
          ))

  abbrev pub delivery_of :
      Version → AcademicAnalysisOutput → List ℕ → Desk → NotificationDeliveryData
  delivery_of v output recipient_ids db = record {
    recipient_ids = recipient_ids;
    title = title_start ++ risk_text output.risk_level;
    body = output.notification_summary;
    source =
        analysis_source v.id (link_of (find (λ row. row.id == v.id) db.school.analysis_versions))
          (url_start ++ engine.js.id_text v.id);
    replay = false;
  }

  -- `notifications.deliver`, on the rows of the school.
  unfoldable pub delivered : NotificationDeliveryData → Desk → Desk
  unfolding deliver
  delivered input db =
      let post : Post = record {
        notifications = db.school.notifications;
        alerts = db.school.alerts;
        events = db.events;
        emails = db.emails;
        pushes = db.pushes;
        has_email = db.has_email;
        has_push = db.has_push;
      } in
      let after_it = (deliver out input post).0 in
      record db {
        school = record db.school { notifications = after_it.notifications };
        events = after_it.events;
        emails = after_it.emails;
        pushes = after_it.pushes;
      }

  abbrev pub sent_on : Version → Version
  sent_on v = record v { status = sent; sent_at = some out.now }

  -- The transaction that ends a delivery, and its audit.
  abbrev pub finish_delivery : Version → Desk → Desk
  finish_delivery v db =
      if has_version v.id is_send_queued db
      then log_analysis (or_else v.reviewed_by_id (some v.created_by_id)) sent_out v.id
          (record (put v.id is_send_queued sent_on db) {
            recipients =
                update_where (λ r. r.version_id == v.id) (told_by v.id db.school.notifications)
                  db.recipients;
          })
      else db

  unfoldable pub deliver_found : Version → Desk → Desk × Result AnalysisError Bool
  unfolding delivered
  deliver_found v db =
      if is_send_queued v.status
      then after (db, parse_output (output_of v))
          (λ output _.
            let recipient_ids =
              map (λ r. r.recipient_id) (keep (λ r. r.version_id == v.id) db.recipients) in
            (finish_delivery v (delivered (delivery_of v output recipient_ids db) db), ok true))
      else (db, ok false)

  unfoldable pub process_delivery : ℕ → Desk → Desk × Result AnalysisError Bool
  unfolding deliver_found
  process_delivery id db = after (db, require_version id db) (λ found _. deliver_found found.0 db)

  -- `commitSend`: a queue that refuses the job is replaced by a delivery now.
  unfoldable pub commit_send : Bool → CommitInput → Desk → Desk × Result AnalysisError Sent
  unfolding process_delivery
  commit_send queue_accepts input db = after (commit_rows_or_fail input db) (λ result db'.
      if queue_accepts
      then (record db' { queue = db'.queue ++ deliver_job input.version.id ∷ [] }, ok result)
      else after (process_delivery input.version.id db') (λ _ last. (last, ok result)))

  -- The checks of `sendVersion`, and the content and reason that it sends.
  unfoldable pub check_send :
      AuthUser → Version → Analysis → SendAnalysisDto → Result AnalysisError (Text × Text)
  unfolding system_level send_content
  check_send user v a dto =
      let system = system_level engine.js v.source_snapshot (output_of v) in
      if not (can_decide user v a)
      then err not_decider
      else if not (is_draft v.status)
      then err not_draft
      else if ltb dto.confirmed_level system
      then err level_below_system
      else elim (parse_output (output_of v)) [
        | err e ↦ err e
        | ok output ↦
            long_enough dto.confirmed_level
              (send_content engine.js a.student_id v.source_snapshot dto output)
      ]

  unfoldable pub send_version :
      Bool → AuthUser → ℕ → SendAnalysisDto → Desk → Desk × Result AnalysisError Sent
  unfolding commit_send check_send
  send_version queue_accepts user id dto db =
      enabled_or engine
        (after (db, require_version id db)
          (λ found _.
            after (db, check_send user found.0 found.1 dto)
              (λ texts _.
                let input : CommitInput = record {
                  version = found.0;
                  analysis = found.1;
                  actor_id = user.id;
                  level = dto.confirmed_level;
                  reason = texts.1;
                } in
                after (commit_send queue_accepts input db) (λ result last.
                  (put id any_status (with_content dto.content_source texts.0) last, ok result)))))
        db

  -- `markDeliveryFailed`: after a notification was written, the delivery is tried again or queued again.
  unfoldable pub mark_delivery_failed : ℕ → Desk → Desk
  unfolding process_delivery
  mark_delivery_failed id db =
      if any (λ n. opt_eq n.analysis_version_id (some id)) db.school.notifications
      then elim (process_delivery id db).1 [
        | ok _ ↦ (process_delivery id db).0
        | err _ ↦ record (process_delivery id db).0 {
          queue = (process_delivery id db).0.queue ++ deliver_job id ∷ [];
        }
      ]
      else put id is_send_queued (λ v. record v { status = draft }) db
