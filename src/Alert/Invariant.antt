-- ===== src/Alert/Invariant.antt =====
-- Raising an alert keeps the alerts consistent.
use fcare.Base.{
  first_by-all, first_by-any, count-none, all-keep, all_of, all_imply, one_all, ℕ, ◌≡◌, refl, true,
  not, ◌&&◌, ◌||◌, Option, none, some, ◌==◌, ltb, max, length, arith, all, keep, find, count,
  Result, ok, err, Bool-cases, inl, inr, ==_refl,
}
use fcare.Base.Texts.{trim}
use fcare.Access.{AuthUser, min_visible_alert_level}
use fcare.Access.Scope.{Student, Section, student_scope}
use fcare.Access.Ability.{is_resolved}
use fcare.Alert.{Alert, decide_raise, clamp_level}
use fcare.Alert.Rows.{School, Outside}
use fcare.Alert.Service.{
  AlertError, RaiseResult, student_not_found, raise_for, min_critical_reason_length, is_open_for,
  comes_first, raise, raise_in, write_decision, RaiseAlertDto, escalated, merged, new_alert,
  require_enrolled_section, current_alert, section_id_of, term_of, open_alert_of, system_level_of,
}
use fcare.Alert.Consistency.{IsConsistent, update-IsConsistent, append-IsConsistent}

module _ (out : Outside) (user : AuthUser) (dto : RaiseAlertDto) where
  -- The row of the alert that is open is not resolved.
  pub current_unresolved :
      (section : Option Section) (db : School) (c : Alert)
      → IsConsistent db.alerts
      → current_alert out user dto section db ≡ some c
      → all (λ a. not (a.id == c.id) || not (is_resolved a.status)) db.alerts ≡ true
  current_unresolved section db c s e =
      let key = is_open_for dto.student_id (section_id_of section) (term_of section) in
      let fits = first_by-all comes_first key (keep key db.alerts) (all-keep key db.alerts) c e in
      one_all (λ a. a.id == c.id) (λ a. not (is_resolved a.status)) db.alerts (s.one_id c.id)
        (first_by-any comes_first key (λ a. a.id == c.id && not (is_resolved a.status)) db.alerts c
          e (ground (arith, ==_refl c.id)))

  write_decision-IsConsistent :
      (section : Option Section) (db : School) (system : ℕ) (o : Option Alert)
      → count (λ a. a.id == out.fresh_id) db.alerts ≡ 0
      → current_alert out user dto section db ≡ o
      → IsConsistent db.alerts
      → IsConsistent
          (write_decision out user dto section o
            (decide_raise dto.level system (open_alert_of o))
            db.alerts).0
  unfolding write_decision decide_raise
  write_decision-IsConsistent section db system none fresh e s =
      append-IsConsistent (new_alert out user dto section _ _) db.alerts fresh
        (count-none comes_first
          (is_open_for dto.student_id (section_id_of section) (term_of section)) db.alerts e)
        s
  write_decision-IsConsistent section db system (some c) fresh e s =
      let unresolved = current_unresolved section db c s e in
      let level = max (clamp_level dto.level) (clamp_level system) in
      elim (Bool-cases (ltb c.level level)) [
        | inl higher ↦ rw higher (
            update-IsConsistent c.id
              (escalated out user dto (some c) level (ltb (clamp_level dto.level) level)) db.alerts
              (λ _. refl)
              (λ student sec term.
                all_imply (λ a. not (a.id == c.id) || not (is_resolved a.status)) _ db.alerts
                  (λ a h. ground (arith, h)) unresolved)
              s)
        | inr lower ↦ rw lower (
            update-IsConsistent c.id (merged out user dto (some c)) db.alerts (λ _. refl)
              (λ student sec term. all_of _ db.alerts (λ a. ground arith)) s)
      ]

  raise_in-IsConsistent :
      (student : Student) (section : Option Section) (db : School)
      → count (λ a. a.id == out.fresh_id) db.alerts ≡ 0
      → IsConsistent db.alerts
      → IsConsistent (raise_in out user dto student section db).0.alerts
  unfolding raise_in
  raise_in-IsConsistent student section db fresh s =
      write_decision-IsConsistent section db (system_level_of user student (term_of section) db)
        (current_alert out user dto section db) fresh refl s

-- What the transaction keeps, `raise` keeps, since it writes nothing where it refuses.
pub raise-keeps :
    (out : Outside) (user : AuthUser) (dto : RaiseAlertDto) (db : School) (p : School → Type 0)
    → ((student : Student) (section : Option Section)
        → p (raise_in out user dto student section db).0)
    → p db
    → p (raise out user dto db).0
unfolding raise
raise-keeps out user dto db p kept s =
    elim (Bool-cases
      (dto.level == 4 && ltb (length (trim dto.reason)) min_critical_reason_length)) [
        | inl short ↦ rw short s
        | inr long ↦ elim (Bool-cases (ltb dto.level (min_visible_alert_level user.roles))) [
          | inl hidden ↦ rw long (rw hidden s)
          | inr visible ↦ rw long (
              rw visible (
                for_student
                  (find (λ s. s.id == dto.student_id && student_scope user s) db.students)))
        ]
      ]
  where
    for_section :
        (student : Student) (r : Result AlertError (Option Section))
        → p (raise_for out user dto student r db).0
    for_section student (ok section) = kept student section
    for_section student (err e) = s

    for_student :
        (o : Option Student)
        → p
            (elim o as (λ _. School × Result AlertError RaiseResult) [
              | none ↦ (db, err student_not_found)
              | some student ↦
                  raise_for out user dto student
                    (require_enrolled_section student dto.class_section_id)
                    db
            ]).0
    for_student none = s
    for_student (some student) =
        for_section student (require_enrolled_section student dto.class_section_id)

-- Raising an alert, whatever it decides or refuses, keeps the ids apart and leaves at most one
-- unresolved alert of each student, section and term.
pub raise-IsConsistent :
    (out : Outside) (user : AuthUser) (dto : RaiseAlertDto) (db : School)
    → count (λ a. a.id == out.fresh_id) db.alerts ≡ 0
    → IsConsistent db.alerts
    → IsConsistent (raise out user dto db).0.alerts
raise-IsConsistent out user dto db fresh s =
    raise-keeps out user dto db (λ d. IsConsistent d.alerts)
      (λ student section. raise_in-IsConsistent out user dto student section db fresh s) s
