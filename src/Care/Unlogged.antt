-- ===== src/Care/Unlogged.antt =====
-- care-logs.service.ts: `remove`, from the search of the log to the mark of its alert.
use fcare.Base.{
  ℕ, ◌≡◌, ◌∙◌, refl, sym, ap, true, not, ◌&&◌, inl, inr, Option, none, some, ◌==◌, arith, any, all,
  all_both, find-any, find-none, all_imply, all_of, any_mono, find, find_fits, opt_eq, opt_eq_refl,
  and_split, Option-cases, Bool-cases, ==_iff, ==_refl,
}
use fcare.Access.{AuthUser}
use fcare.Access.Scope.{student_scope}
use fcare.Alert.{Alert}
use fcare.Alert.Rows.{School, CareLog, care_log_deleted}
use fcare.Care.{
  remove_care_log, visible_log, is_last_of_owner, log_audit, linked_alert,
  reset_owner_cared_if_last,
}
use fcare.Care.Marks.{is_cared_by, AllCared}
use fcare.Care.Kept.{IsCaredFor, log_audit-IsCaredFor}
use fcare.Care.Removal.{left_of, left-one_log, other_kept, unmarked-IsCaredFor, kept-AllCared}

linked_alert_lem :
    (o : Option ℕ) (db : School) (a : Alert)
    → linked_alert o db ≡ some a
    → (o ≡ some a.id) × (find (λ x. x.id == a.id) db.alerts ≡ some a)
linked_alert_lem none db a h = cc
linked_alert_lem (some i) db a h =
    let same = (==_iff a.id i).0 (find_fits (λ x. x.id == i) db.alerts {a = a} h) in
    (ap some (sym same), ap (λ n. find (λ x. x.id == n) db.alerts) same ∙ h)

-- A log that names no alert that is there.
unlinked-AllCared :
    (user : AuthUser) (db : School) (log : CareLog) (s : IsCaredFor db)
    → any
        (λ c. c.id == log.id && (opt_eq c.alert_id log.alert_id && c.staff_id == log.staff_id))
        db.care_logs
      ≡ true
    → linked_alert log.alert_id db ≡ none
    → AllCared (left_of db log)
unlinked-AllCared user db log s there missing =
    all_imply (λ x. is_cared_by db x && not (opt_eq log.alert_id (some x.id))) _ db.alerts
      (λ x h.
        let (before, other) = and_split (is_cared_by db x) _ h in
        other_kept user db log s there x before (ground (arith, other)))
      (all_both (is_cared_by db) _ db.alerts s.marks (nowhere log.alert_id missing))
  where
    nowhere :
        (o : Option ℕ)
        → linked_alert o db ≡ none
        → all (λ x. not (opt_eq o (some x.id))) db.alerts ≡ true
    nowhere none e = all_of _ db.alerts (λ x. refl)
    nowhere (some i) e =
        all_imply (λ x. not (x.id == i)) _ db.alerts (λ x h. ground (arith, h))
          (find-none (λ x. x.id == i) db.alerts e)

remove_log-IsCaredFor :
    (user : AuthUser) (db : School) (log : CareLog) (s : IsCaredFor db)
    → any
        (λ c. c.id == log.id && (opt_eq c.alert_id log.alert_id && c.staff_id == log.staff_id))
        db.care_logs
      ≡ true
    → (o : Option Alert) → linked_alert log.alert_id db ≡ o
    → IsCaredFor (
        log_audit user.id care_log_deleted log.id
          (reset_owner_cared_if_last log o (left_of db log)))
remove_log-IsCaredFor user db log s there none e =
    log_audit-IsCaredFor user.id care_log_deleted log.id _ (record {
      consistent = s.consistent;
      one_log = left-one_log user db log s there;
      marks = unlinked-AllCared user db log s there e;
    })
remove_log-IsCaredFor user db log s there (some a) e =
    let (linked, found) = linked_alert_lem log.alert_id db a e in
    log_audit-IsCaredFor user.id care_log_deleted log.id _
      (elim (Bool-cases (is_last_of_owner log (some a) (left_of db log))) [
        | inl last ↦
            rw last
              (unmarked-IsCaredFor user db log s there a (rw linked (opt_eq_refl (some a.id))))
        | inr stays ↦ rw stays (record {
          consistent = s.consistent;
          one_log = left-one_log user db log s there;
          marks = kept-AllCared user db log s there a linked found stays;
        })
      ])

pub remove-IsCaredFor :
    (user : AuthUser) (id : ℕ) (db : School)
    → IsCaredFor db
    → IsCaredFor (remove_care_log user id db).0
unfolding remove_care_log
remove-IsCaredFor user id db s =
    let is_visible = λ (c : CareLog).
      c.id == id && any (λ t. t.id == c.student_id && student_scope user t) db.students in
    elim (Option-cases (visible_log user id db)) [
      | inl missing ↦ rw (missing, remove_care_log) s
      | inr (log, seen) ↦
          let itself =
            any_mono _
              (λ c.
                c.id == log.id && (opt_eq c.alert_id log.alert_id && c.staff_id == log.staff_id))
              db.care_logs (λ c h. (and_split (is_visible c) _ h).1)
              (find-any is_visible
                (λ c.
                  c.id == log.id && (opt_eq c.alert_id log.alert_id && c.staff_id == log.staff_id))
                db.care_logs {a = log} seen
                (rw (==_refl log.id, opt_eq_refl log.alert_id, ==_refl log.staff_id) refl)) in
          rw (seen, remove_care_log)
            (remove_log-IsCaredFor user db log s itself (linked_alert log.alert_id db) refl)
    ]
