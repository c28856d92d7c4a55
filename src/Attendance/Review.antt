-- ===== src/Attendance/Review.antt =====
-- attendance-review.service.ts: one row after the other is reviewed, and then the term.
use fcare.Base.{
  ℕ, suc, Bool, true, false, not, ◌&&◌, Option, none, some, List, [], ◌∷◌, ◌++◌, ◌==◌,
  if◌then◌else◌, any, keep, length, update_where, opt_eq,
}
use fcare.Base.Texts.{Text}
use fcare.Access.Ability.{open_status, is_resolved}
use fcare.Alert.{
  Alert, auto_attendance, ReviewAction, skip_row, unchanged, create_at, upgrade_to, refresh_at,
  decide_action, merged_reason,
}
use fcare.Alert.Rows.{School, Outside}
use fcare.Alert.Recipients.{compute_recipient_ids}
use fcare.Attendance.{
  Enrollment, AttendanceReviewResult, Register, AttendanceReviewOptions, Surroundings, empty_result,
  add_result, is_auto, current_block, close_exempt_subject_alerts, is_reviewed, load_open_alerts,
  has_key, highest_by_key, reason_for, open_of,
}

module _ (out : Outside) (around : Surroundings) (term : ℕ) where
  -- `nextReason`
  abbrev pub next_reason : Enrollment → Alert → Text
  next_reason row existing =
      if is_auto existing.source
      then reason_for around row term
      else merged_reason existing.reason (reason_for around row term) out.today

  abbrev pub refreshed_row : Enrollment → Alert → Alert → Alert
  refreshed_row row existing a = record a {
    absent_sessions = row.absent_sessions;
    reason = next_reason row existing;
  }

  abbrev pub upgraded_row : Enrollment → Alert → ℕ → Alert → Alert
  upgraded_row row existing level a = record a {
    level = level;
    absent_sessions = row.absent_sessions;
    reason = next_reason row existing;
    status = open_status;
    owner_cared_at = none;
  }

  -- What `tryCreate` inserts.
  abbrev pub auto_alert : Enrollment → ℕ → ℕ → Alert
  auto_alert row level id = record {
    id = id;
    student_id = row.student_id;
    raised_by_id = none;
    level = level;
    reason = reason_for around row term;
    status = open_status;
    source = auto_attendance;
    class_section_id = some row.class_section.id;
    term = some term;
    absent_sessions = row.absent_sessions;
    owner_cared_at = none;
    resolved_by_id = none;
    resolved_at = none;
    resolution_note = none;
    outcome = none;
    created_at = out.now;
  }

  -- `alerts_auto_attendance_open_key`
  abbrev pub violates_unique : Enrollment → Alert → Bool
  violates_unique row a =
      has_key row a
      && (opt_eq a.term (some term) && (is_auto a.source && not (is_resolved a.status)))

  -- `notify`: a row of the alert's table is named by its id.
  abbrev pub notify_of : ℕ → Bool → List ℕ → School → School × ℕ
  notify_of alert_id replay [] db = (db, 0)
  notify_of alert_id replay (r ∷ rest) db =
      if around.dispatches
      then (
        record db {
          jobs =
              db.jobs
              ++ record { alert_id = alert_id; recipient_ids = r ∷ rest; replay = replay } ∷ [];
        },
        length (r ∷ rest),
      )
      else (db, 0)

  abbrev pub notify : Enrollment → ℕ → ℕ → Bool → School → School × ℕ
  notify row alert_id level replay db =
      notify_of alert_id replay (compute_recipient_ids row.student_id level none db) db

  abbrev pub create_in : Enrollment → ℕ → ℕ → School → School × AttendanceReviewResult
  create_in row level id db =
      if any (violates_unique row) db.alerts
      then (db, record empty_result { unchanged_rows = 1 })
      else let after =
          notify row id level false
            (record db { alerts = db.alerts ++ auto_alert row level id ∷ [] }) in
        (after.0, record empty_result { created = 1; notified = after.1 })

  abbrev pub upgrade_in : Enrollment → Alert → ℕ → School → School × AttendanceReviewResult
  upgrade_in row existing level db =
      let after = notify row existing.id level true (record db {
        alerts =
            update_where (λ a. a.id == existing.id) (upgraded_row row existing level) db.alerts;
      }) in
      (after.0, record empty_result { upgraded = 1; notified = after.1 })

  -- A `switch` on the action, which names an existing alert only where there is one.
  abbrev pub act :
      Enrollment → Option Alert → ℕ → ReviewAction → School → School × AttendanceReviewResult
  act row existing id skip_row db = (db, empty_result)
  act row existing id unchanged db = (db, record empty_result { unchanged_rows = 1 })
  act row existing id (create_at level) db = create_in row level id db
  act row (some a) id (upgrade_to level) db = upgrade_in row a level db
  act row (some a) id (refresh_at level) db = (
    record db { alerts = update_where (λ x. x.id == a.id) (refreshed_row row a) db.alerts },
    record empty_result { unchanged_rows = 1 },
  )
  act row none id (upgrade_to level) db = (db, empty_result)
  act row none id (refresh_at level) db = (db, empty_result)

  unfoldable pub review_row :
      Enrollment → Option Alert → ℕ → School → School × AttendanceReviewResult
  unfolding decide_action
  review_row row existing id db =
      act row existing id (decide_action row.absent_sessions (open_of existing)) db

  -- The loop of `reviewTerm`, from the id of the next row that is created.
  unfoldable pub review_rows :
      List Enrollment
      → List Alert
      → ℕ
      → AttendanceReviewResult
      → School
      → School × AttendanceReviewResult
  review_rows [] open_alerts id result db = (db, result)
  review_rows (row ∷ rest) open_alerts id result db =
      let done = review_row row (highest_by_key row none open_alerts) id db in
      review_rows rest open_alerts (suc id) (add_result result done.1) done.0

  unfoldable pub review_term :
      AttendanceReviewOptions → Register → Register × AttendanceReviewResult
  unfolding close_exempt_subject_alerts
  review_term options db =
      let closed =
        close_exempt_subject_alerts out.now term options.actor_id db.sections db.school.alerts in
      let school : School = record db.school { alerts = closed.0 } in
      let block = current_block out.now term db in
      let rows = keep (is_reviewed term block) db.enrollments in
      let done =
        review_rows rows (load_open_alerts term closed.0) out.fresh_id
          (add_result empty_result (record empty_result { closed = closed.1 })) school in
      (
        record db {
          school = done.0;
          reviews =
              db.reviews
              ++ record {
                staff_id = options.actor_id;
                batch_id = options.batch_id;
                term = term;
                block = block;
                result = done.1;
              }
                ∷ [];
        },
        done.1,
      )
