-- ===== src/Attendance/Invariant.antt =====
-- A review of a term, from its first row to its last, keeps the alerts consistent.
use fcare.Base.{
  ℕ, suc, ◌≡◌, refl, ◌∙◌, Bool, true, false, not, ◌&&◌, Option, none, some, List, [], ◌∷◌, ◌==◌,
  ltb, arith, all, any, keep, update_where, all_imply, all_of, one_all, keep-all,
  count-update_where, any-keep, all-update_same, Bool-cases, Option-cases, inl, inr, ==_refl,
  any_mono, opt_eq,
}
use fcare.Access.Ability.{is_resolved}
use fcare.Alert.{
  Alert, OpenAttendanceAlert, refresh_or_keep, is_more, decide_at, decide_action,
  attendance_level_for,
}
use fcare.Alert.Rows.{School, Outside}
use fcare.Alert.Service.{is_open_for}
use fcare.Alert.Consistency.{IsConsistent}
use fcare.Attendance.{
  Enrollment, ClassSection, Register, Surroundings, AttendanceReviewOptions, AttendanceReviewResult,
  has_key, highest_by_key, load_open_alerts, is_to_close, closed_exempt,
  close_exempt_subject_alerts, is_reviewed, current_block,
}
use fcare.Attendance.Review.{
  refreshed_row, upgraded_row, violates_unique, act, notify_of, review_row, review_rows,
  review_term,
}
use fcare.Attendance.Kept.{
  highest-any, highest-none, IsReady, revised-IsReady, created-IsReady, later-IsReady,
  refreshed-IsRevision, upgraded-IsRevision,
}

module _ (out : Outside) (around : Surroundings) (term : ℕ) where
  notify_of-alerts :
      (alert_id : ℕ) (replay : Bool) (recipient_ids : List ℕ) (db : School)
      → (notify_of out around term alert_id replay recipient_ids db).0.alerts ≡ db.alerts
  notify_of-alerts alert_id replay [] db = refl
  notify_of-alerts alert_id replay (r ∷ rest) db = elim (Bool-cases around.dispatches) [
    | inl taken ↦ rw taken refl
    | inr lost ↦ rw lost refl
  ]

  module _ (opens : List Alert) (row : Enrollment) (id : ℕ) (db : School) where
    existing-IsReady :
        (c : Alert) (o : OpenAttendanceAlert) (level absent : Option ℕ)
        → highest_by_key row none opens ≡ some c
        → IsReady term opens id db.alerts
        → IsReady term opens
            (suc id)
            (act out around term row (some c) id (decide_at level absent (some o)) db).0.alerts
    existing-IsReady c o level absent e s = at_level level
      where
        kept : IsReady term opens (suc id) db.alerts
        kept = later-IsReady term opens id db.alerts s

        refreshed :
            (a : Option ℕ)
            → IsReady term opens
                (suc id)
                (act out around term row (some c) id (refresh_or_keep a o) db).0.alerts
        refreshed none = kept
        refreshed (some n) = elim (Bool-cases (is_more n o.absent_sessions)) [
          | inl more ↦ rw more (
              revised-IsReady term opens (suc id) row c (refreshed_row out around term row c)
                db.alerts e (refreshed-IsRevision out around term row c) kept)
          | inr less ↦ rw less kept
        ]

        at_level :
            (l : Option ℕ)
            → IsReady term opens
                (suc id)
                (act out around term row (some c) id (decide_at l absent (some o)) db).0.alerts
        at_level none = refreshed absent
        at_level (some l) = elim (Bool-cases (ltb o.level l)) [
          | inl higher ↦ rw higher (
              rw (notify_of-alerts c.id true _ _) (
                revised-IsReady term opens (suc id) row c (upgraded_row out around term row c 3)
                  db.alerts e (upgraded-IsRevision out around term row c 3) kept))
          | inr lower ↦ rw lower (refreshed absent)
        ]

    missing-IsReady :
        (level absent : Option ℕ)
        → highest_by_key row none opens ≡ none
        → IsReady term opens id db.alerts
        → IsReady term opens
            (suc id)
            (act out around term row none id (decide_at level absent none) db).0.alerts
    missing-IsReady none absent e s = later-IsReady term opens id db.alerts s
    missing-IsReady (some level) absent e s =
        elim (Bool-cases (any (violates_unique out around term row) db.alerts)) [
          | inl barred_by ↦ rw barred_by (later-IsReady term opens id db.alerts s)
          | inr free ↦ rw free (
              rw (notify_of-alerts id false _ _)
                (created-IsReady out around term opens id row level db.alerts e free s))
        ]

    review_row-IsReady :
        IsReady term opens id db.alerts
        → IsReady term opens
            (suc id)
            (review_row out around term row (highest_by_key row none opens) id db).0.alerts
    unfolding review_row decide_action
    review_row-IsReady s = elim (Option-cases (highest_by_key row none opens)) [
      | inl missing ↦
          rw missing (
            missing-IsReady (attendance_level_for row.absent_sessions) row.absent_sessions missing
              s)
      | inr (c, there) ↦ rw there (
          existing-IsReady c (record { level = c.level; absent_sessions = c.absent_sessions })
            (attendance_level_for row.absent_sessions) row.absent_sessions there s)
    ]

  review_rows-IsConsistent :
      (rows : List Enrollment) (opens : List Alert) (id : ℕ) (result : AttendanceReviewResult)
      (db : School)
      → IsReady term opens id db.alerts
      → IsConsistent (review_rows out around term rows opens id result db).0.alerts
  unfolding review_rows
  review_rows-IsConsistent [] opens id result db s = s.consistent
  review_rows-IsConsistent (row ∷ rest) opens id result db s =
      review_rows-IsConsistent rest opens (suc id) _ _ (review_row-IsReady opens row id db s)

  -- The alerts that are open when the rows are read.
  loaded-IsReady :
      (id : ℕ) (alerts : List Alert)
      → all (λ a. ltb a.id id) alerts ≡ true
      → IsConsistent alerts
      → IsReady term (load_open_alerts term alerts) id alerts
  loaded-IsReady id alerts below s = record {
    consistent = s;
    below = below;
    running = λ row c e.
        one_all (λ a. a.id == c.id) (λ a. not (is_resolved a.status)) alerts (s.one_id c.id)
          (elim (highest-any row (λ a. a.id == c.id) none (load_open_alerts term alerts) c e
            (==_refl c.id)) [
              | inl nothing ↦ cc
              | inr there ↦
                  any_mono _ (λ a. a.id == c.id && not (is_resolved a.status)) alerts
                    (λ a h. ground (arith, h))
                    (any-keep (λ a. opt_eq a.term (some term) && not (is_resolved a.status)) _
                      alerts there)
            ]);
    own = λ row e.
        all_imply _ _ alerts (λ a h. ground (arith, h))
          (keep-all (λ a. opt_eq a.term (some term) && not (is_resolved a.status))
            (λ a. not (has_key row a)) alerts
            (highest-none row none (load_open_alerts term alerts) e).1);
  }

  closed-IsConsistent :
      (now : ℕ) (actor_id : Option ℕ) (sections : List ClassSection) (alerts : List Alert)
      → IsConsistent alerts
      → IsConsistent (update_where (is_to_close term sections) (closed_exempt now actor_id) alerts)
  closed-IsConsistent now actor_id sections alerts s = record {
    one_id = λ id. omega (
      arith,
      s.one_id id,
      count-update_where (λ a. a.id == id) (is_to_close term sections) (closed_exempt now actor_id)
          alerts (all_of _ alerts (λ a. ground arith)),
    );
    one_open = λ student section t. omega (
      arith,
      s.one_open student section t,
      count-update_where (is_open_for student section t) (is_to_close term sections)
          (closed_exempt now actor_id) alerts (all_of _ alerts (λ a. ground arith)),
    );
  }

  -- A review of a term, whatever it closes, raises and upgrades, keeps alerts of different ids, and of a
  -- student at most one unresolved alert for each section and term, where the ids that it gives to new
  -- alerts are above those in use.
  pub review_term-IsConsistent :
      (options : AttendanceReviewOptions) (db : Register)
      → all (λ a. ltb a.id out.fresh_id) db.school.alerts ≡ true
      → IsConsistent db.school.alerts
      → IsConsistent (review_term out around term options db).0.school.alerts
  unfolding review_term close_exempt_subject_alerts
  review_term-IsConsistent options db below s =
      let closing = is_to_close term db.sections in
      let close = closed_exempt out.now options.actor_id in
      let alerts = update_where closing close db.school.alerts in
      review_rows-IsConsistent
        (keep (is_reviewed term (current_block out.now term db)) db.enrollments)
        (load_open_alerts term alerts) out.fresh_id _ (record db.school { alerts = alerts })
        (loaded-IsReady out.fresh_id alerts
          (all-update_same (λ a. ltb a.id out.fresh_id) closing close db.school.alerts (λ a. refl)
            ∙ below)
          (closed-IsConsistent out.now options.actor_id db.sections db.school.alerts s))
