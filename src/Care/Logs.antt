-- ===== src/Care/Logs.antt =====
-- What writing, editing and deleting a care log do to the database.
use fcare.Base.{
  ℕ, ◌≡◌, ◌∙◌, refl, sym, ap, Bool, not, ◌&&◌, ◌||◌, ◌⊎◌, inl, inr, Option, none, some, ◌==◌, find,
  find_fits, Option-cases, Bool-cases, ==_iff, Result, ok, err,
}
use fcare.Base.Texts.{Text}
use fcare.Access.{AuthUser, admin, has_role}
use fcare.Access.Scope.{Student, student_scope}
use fcare.Alert.{Alert}
use fcare.Alert.Rows.{School, Outside, CareLog}
use fcare.Care.{
  not_of_student, CareError, CreateCareLogDto, UpdateCareLogDto, require_linked_alert,
  check_student, section_for, log_care, create_for, create_of, create_care_log, visible_log,
  updated_log, is_absent, has_pii, update_care_log, log_audit,
}
use fcare.Alert.Rows.{care_log_updated}
use fcare.Base.{update_where}

-- The alert that a log may be linked to is the one that is named.
pub linked_lem :
    (o : Option ℕ) (student_id : ℕ) (db : School) (a : Alert)
    → require_linked_alert o student_id db ≡ ok (some a)
    → (o ≡ some a.id) × (find (λ x. x.id == a.id) db.alerts ≡ some a)
linked_lem none student_id db a h = cc
linked_lem (some id) student_id db a h = of_found (find (λ x. x.id == id) db.alerts) refl h
  where
    of_found :
        (o : Option Alert)
        → find (λ x. x.id == id) db.alerts ≡ o
        → check_student student_id o ≡ ok (some a)
        → (some id ≡ some a.id) × (find (λ x. x.id == a.id) db.alerts ≡ some a)
    of_found none e k = cc
    of_found (some b) e k = elim (Bool-cases (b.student_id == student_id)) [
      | inr other ↦
          let clash : ◌≡◌ {A = Result CareError (Option Alert)} (err not_of_student) (ok (some a)) =
            rw other at k in
          cc
      | inl same ↦
          let this : ◌≡◌ {A = Result CareError (Option Alert)} (ok (some b)) (ok (some a)) =
            rw same at k in
          let found : b ≡ a = cc in
          let id_same : a.id ≡ id =
            (==_iff a.id id).0
              (find_fits (λ x. x.id == id) db.alerts {a = a} (e ∙ ap some found)) in
          (
            ap some (sym id_same),
            ap (λ i. find (λ x. x.id == i) db.alerts) id_same ∙ (e ∙ ap some found),
          )
    ]

module _ (out : Outside) (user : AuthUser) (dto : CreateCareLogDto) (db : School)
    (p : School → Type 0) where
  -- What every written log keeps, the method keeps, since it writes nothing where it refuses.
  pub create-keeps :
      ((alert : Option Alert) (section : Option ℕ)
        → require_linked_alert dto.alert_id dto.student_id db ≡ ok alert
        → p (log_care out user dto alert (ok section) db).0)
      → p db
      → p (create_care_log out user dto db).0
  unfolding create_care_log
  create-keeps kept s =
      of_student (find (λ s. s.id == dto.student_id && student_scope user s) db.students)
    where
      of_section :
          (alert : Option Alert) (r : Result CareError (Option ℕ))
          → require_linked_alert dto.alert_id dto.student_id db ≡ ok alert
          → p (log_care out user dto alert r db).0
      of_section alert (ok section) e = kept alert section e
      of_section alert (err e) _ = s

      of_alert :
          (student : Student) (r : Result CareError (Option Alert))
          → require_linked_alert dto.alert_id dto.student_id db ≡ r
          → p (create_for out user dto student r db).0
      of_alert student (ok alert) e =
          of_section alert (section_for student dto.class_section_id alert) e
      of_alert student (err e) _ = s

      of_student : (o : Option Student) → p (create_of out user dto o db).0
      of_student none = s
      of_student (some student) =
          of_alert student (require_linked_alert dto.alert_id dto.student_id db) refl

-- An edit changes nothing, or the log of its id that its writer or an administrator may change.
pub update_care_log_lem :
    (detect_pii : Text → Bool) (user : AuthUser) (id : ℕ) (dto : UpdateCareLogDto) (db : School)
    → ((update_care_log detect_pii user id dto db).0 ≡ db)
      ⊎ ((log : CareLog) × (visible_log user id db ≡ some log)
          × ((update_care_log detect_pii user id dto db).0
              ≡ log_audit user.id care_log_updated log.id (record db {
                care_logs = update_where (λ c. c.id == log.id) (updated_log dto) db.care_logs;
              })))
unfolding update_care_log
update_care_log_lem detect_pii user id dto db = elim (Option-cases (visible_log user id db)) [
  | inl missing ↦ inl (rw (missing, update_care_log) refl)
  | inr (log, there) ↦
      elim (Bool-cases (not (log.staff_id == user.id) && not (has_role user.roles admin))) [
        | inl barred ↦ inl (rw (there, update_care_log) (rw barred refl))
        | inr allowed ↦ elim (Bool-cases (is_absent dto)) [
          | inl nothing ↦ inl (rw (there, update_care_log) (rw allowed (rw nothing refl)))
          | inr something ↦
              elim (Bool-cases (
                has_pii detect_pii dto.content
                || (has_pii detect_pii dto.outcome || has_pii detect_pii dto.next_action))) [
                  | inl personal ↦
                      inl
                        (rw (there, update_care_log) (rw allowed (rw something (rw personal refl))))
                  | inr clean ↦ inr (
                    log,
                    there,
                    rw (there, update_care_log) (rw allowed (rw something (rw clean refl))),
                  )
                ]
        ]
      ]
]
