-- ===== src/Care/Kept.antt =====
-- Writing and editing care logs keeps the marks on alerts.
use fcare.Base.{
  ℕ, ◌≤◌, ◌≡◌, ◌∙◌, refl, sym, Bool, true, not, ◌&&◌, ◌||◌, inl, inr, Option, none, some, [], ◌∷◌,
  ◌++◌, ◌==◌, arith, any, all_both, all_imply, all_of, any-append, count, count-append,
  count-update_where, any-update_where, all-update_where, find, opt_eq, update_where, and_split,
  and_join, Bool-cases, ==_iff, ==_refl, ok,
}
use fcare.Base.Texts.{Text}
use fcare.Access.{AuthUser}
use fcare.Access.Ability.{AlertStatus, open_status, acknowledged, resolved, is_resolved}
use fcare.Alert.{Alert}
use fcare.Alert.Rows.{School, Outside, AlertAction, alert_owner_cared, care_log_updated}
use fcare.Alert.Closing.{section_lecturer}
use fcare.Alert.Consistency.{IsConsistent, update-IsConsistent}
use fcare.Alert.Steps.{found-all}
use fcare.Care.{
  CreateCareLogDto, UpdateCareLogDto, require_linked_alert, log_care, new_log, cared, marks_owner,
  acknowledged_if_open, create_care_log, update_care_log, updated_log, log_audit,
}
use fcare.Care.Marks.{supports, is_cared_by, AllCared}
use fcare.Care.Logs.{linked_lem, create-keeps, update_care_log_lem}

-- Alerts are consistent, care logs have different ids, and an alert that is marked as cared for by its
-- lecturer has a log of the lecturer of its section.
pub record IsCaredFor (db : School) : Type 0 where
  pub consistent : IsConsistent db.alerts
  pub one_log : (id : ℕ) → count (λ c. c.id == id) db.care_logs ≤ 1
  pub marks : AllCared db

pub log_audit-IsCaredFor :
    (staff_id : ℕ) (action : AlertAction) (id : ℕ) (db : School)
    → IsCaredFor db
    → IsCaredFor (log_audit staff_id action id db)
log_audit-IsCaredFor staff_id action id db s = record {
  consistent = s.consistent;
  one_log = s.one_log;
  marks = s.marks;
}

same_resolved : (s : AlertStatus) → is_resolved (acknowledged_if_open s) ≡ is_resolved s
same_resolved open_status = refl
same_resolved acknowledged = refl
same_resolved resolved = refl

module _ (out : Outside) (user : AuthUser) (dto : CreateCareLogDto) (db : School)
    (fresh : count (λ c. c.id == out.fresh_id) db.care_logs ≡ 0) (s : IsCaredFor db) where
  abbrev logged : Option ℕ → School
  logged section = record db { care_logs = db.care_logs ++ new_log out user dto section ∷ [] }

  logged-IsCaredFor : (section : Option ℕ) → IsCaredFor (logged section)
  logged-IsCaredFor section = record {
    consistent = s.consistent;
    one_log = λ id.
        rw (count-append (λ c. c.id == id) db.care_logs (new_log out user dto section ∷ []))
          (elim (Bool-cases (out.fresh_id == id)) [
            | inl same ↦
                let none_yet : count (λ c. c.id == id) db.care_logs ≡ 0 =
                  rw (sym ((==_iff out.fresh_id id).0 same)) fresh in
                ground (arith, none_yet, same)
            | inr other ↦ ground (arith, other, s.one_log id)
          ]);
    marks =
        all_imply (is_cared_by db) _ db.alerts
          (λ a h. ground (
            arith,
            h,
            any-append (supports a.id (section_lecturer a.class_section_id db)) db.care_logs
                (new_log out user dto section ∷ []),
          ))
          s.marks;
  }

  -- The alert that is linked, where its section's lecturer writes the log.
  abbrev marked_in : Alert → Option ℕ → School
  marked_in a section = record (logged section) {
    alerts = update_where (λ x. x.id == a.id) (cared out user) db.alerts;
  }

  new_supports :
      (a x : Alert) (section : Option ℕ)
      → dto.alert_id ≡ some a.id
      → (x.id == a.id) ≡ true
      → opt_eq (section_lecturer x.class_section_id db) (some user.id) ≡ true
      → any (supports x.id (section_lecturer x.class_section_id db)) (logged section).care_logs
        ≡ true
  new_supports a x section linked same owner =
      let own : opt_eq dto.alert_id (some x.id) ≡ true =
        rw linked (rw ((==_iff x.id a.id).0 same) (==_refl a.id)) in
      any-append (supports x.id (section_lecturer x.class_section_id db)) db.care_logs
        (new_log out user dto section ∷ [])
      ∙ ground (arith, own, owner)

  marked-AllCared :
      (a : Alert) (section : Option ℕ)
      → dto.alert_id ≡ some a.id
      → find (λ x. x.id == a.id) db.alerts ≡ some a
      → opt_eq (section_lecturer a.class_section_id db) (some user.id) ≡ true
      → AllCared (marked_in a section)
  marked-AllCared a section linked there owner =
      let owned = λ (x : Alert). opt_eq (section_lecturer x.class_section_id db) (some user.id) in
      let first = λ (x : Alert). not (x.id == a.id) || owned x in
      let before =
        all_both (is_cared_by (logged section)) first db.alerts (logged-IsCaredFor section).marks
          (found-all owned a.id db.alerts a s.consistent there owner) in
      all_imply (λ x. is_cared_by (logged section) x && first x) _ _
        (λ x h. (and_split (is_cared_by (logged section) x) (first x) h).0)
        (all-update_where (λ x. is_cared_by (logged section) x && first x) (λ x. x.id == a.id)
          (cared out user) db.alerts
          (λ x same h.
            let (_, mine) = and_split (is_cared_by (logged section) x) (first x) h in
            and_join {a = is_cared_by (logged section) (cared out user x)} {b = first x}
              (new_supports a x section linked same (rw same at mine)) mine)
          before)

  marked-IsCaredFor :
      (a : Alert) (section : Option ℕ)
      → dto.alert_id ≡ some a.id
      → find (λ x. x.id == a.id) db.alerts ≡ some a
      → marks_owner out user (some a) (logged section) ≡ true
      → IsCaredFor (marked_in a section)
  marked-IsCaredFor a section linked there marked = record {
    consistent =
        update-IsConsistent a.id (cared out user) db.alerts (λ _. refl)
          (λ student sec term. all_of _ db.alerts (λ x. rw (same_resolved x.status) (ground arith)))
          s.consistent;
    one_log = (logged-IsCaredFor section).one_log;
    marks =
        marked-AllCared a section linked there
          (and_split (opt_eq (section_lecturer a.class_section_id db) (some user.id)) _ marked).0;
  }

  log_care-IsCaredFor :
      (alert : Option Alert) (section : Option ℕ)
      → require_linked_alert dto.alert_id dto.student_id db ≡ ok alert
      → IsCaredFor (log_care out user dto alert (ok section) db).0
  log_care-IsCaredFor none section e = logged-IsCaredFor section
  log_care-IsCaredFor (some a) section e =
      let (linked, there) = linked_lem dto.alert_id dto.student_id db a e in
      elim (Bool-cases (marks_owner out user (some a) (logged section))) [
        | inl marked ↦ rw marked (
            log_audit-IsCaredFor user.id alert_owner_cared a.id (marked_in a section)
              (marked-IsCaredFor a section linked there marked))
        | inr not_marked ↦ rw not_marked (logged-IsCaredFor section)
      ]

pub create-IsCaredFor :
    (out : Outside) (user : AuthUser) (dto : CreateCareLogDto) (db : School)
    → count (λ c. c.id == out.fresh_id) db.care_logs ≡ 0
    → IsCaredFor db
    → IsCaredFor (create_care_log out user dto db).0
create-IsCaredFor out user dto db fresh s =
    create-keeps out user dto db IsCaredFor
      (λ alert section e. log_care-IsCaredFor out user dto db fresh s alert section e) s

pub update-IsCaredFor :
    (detect_pii : Text → Bool) (user : AuthUser) (id : ℕ) (dto : UpdateCareLogDto) (db : School)
    → IsCaredFor db
    → IsCaredFor (update_care_log detect_pii user id dto db).0
update-IsCaredFor detect_pii user id dto db s =
    elim (update_care_log_lem detect_pii user id dto db) [
      | inl same ↦ rw same s
      | inr (log, there, written) ↦ rw written (
          log_audit-IsCaredFor user.id care_log_updated log.id _ (record {
            consistent = s.consistent;
            one_log = λ i. omega (
              arith,
              s.one_log i,
              count-update_where (λ c. c.id == i) (λ c. c.id == log.id) (updated_log dto)
                  db.care_logs (all_of _ db.care_logs (λ c. ground arith)),
            );
            marks =
                all_imply (is_cared_by db) _ db.alerts
                  (λ a h. ground (
                    arith,
                    h,
                    any-update_where (supports a.id (section_lecturer a.class_section_id db))
                        (supports a.id (section_lecturer a.class_section_id db))
                        (λ c. c.id == log.id) (updated_log dto) db.care_logs
                        (λ c k. ground (arith, k)),
                  ))
                  s.marks;
          }))
    ]
