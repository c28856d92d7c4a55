-- ===== src/Alert/Handling.antt =====
-- What acknowledging and resolving write: the row of one alert, which was open, or not resolved.
use fcare.Base.{
  ℕ, ◌≡◌, refl, true, false, ◌⊎◌, inl, inr, some, [], ◌∷◌, ◌++◌, ◌==◌, update_where, ok, err,
  Bool-cases, Option-cases,
}
use fcare.Access.{AuthUser, can_acknowledge_alert, can_close_alert}
use fcare.Access.Scope.{is_student_in_scope}
use fcare.Access.Ability.{acknowledged, is_open, is_resolved}
use fcare.Alert.{Alert}
use fcare.Alert.Rows.{alert_resolved, School, Outside}
use fcare.Alert.Service.{AlertError, alert_not_found, not_in_scope}
use fcare.Alert.Closing.{
  alert_by_id, require_in_scope, acknowledge_alert, section_lecturer, ResolveAlertDto, closed_by,
  resolve_alert,
}

-- The alert that is found in scope is the one of its id.
pub require_in_scope_cases :
    (user : AuthUser) (id : ℕ) (db : School)
    → ((e : AlertError) × (require_in_scope user id db ≡ err e))
      ⊎ ((a : Alert) × (require_in_scope user id db ≡ ok a) × (alert_by_id id db ≡ some a))
unfolding require_in_scope
require_in_scope_cases user id db = elim (Option-cases (alert_by_id id db)) [
  | inl missing ↦ inl (alert_not_found, rw (missing, require_in_scope) refl)
  | inr (a, there) ↦ elim (Bool-cases (is_student_in_scope db.students user a.student_id)) [
    | inr hidden ↦ inl (not_in_scope, rw (there, require_in_scope) (rw hidden refl))
    | inl seen ↦ inr (a, rw (there, require_in_scope) (rw seen refl), there)
  ]
]

abbrev pub put_acknowledged : Alert → Alert
put_acknowledged a = record a { status = acknowledged }

-- Acknowledging changes no alert, or only the one of its id, which was open.
pub acknowledge_alert_lem :
    (user : AuthUser) (id : ℕ) (db : School)
    → ((acknowledge_alert user id db).0 ≡ db)
      ⊎ ((a : Alert) × (alert_by_id id db ≡ some a)
          × (is_open a.status ≡ true)
          × ((acknowledge_alert user id db).0
              ≡ record db { alerts = update_where (λ r. r.id == id) put_acknowledged db.alerts }))
unfolding acknowledge_alert
acknowledge_alert_lem user id db = elim (require_in_scope_cases user id db) [
  | inl (e, refused) ↦ inl (rw (refused, acknowledge_alert) refl)
  | inr (a, found, there) ↦ elim (Bool-cases (is_open a.status)) [
    | inr handled ↦ inl (rw (found, acknowledge_alert) (rw handled refl))
    | inl waiting ↦ elim (Bool-cases (can_acknowledge_alert user.id user.roles a.raised_by_id)) [
      | inr barred ↦ inl (rw (found, acknowledge_alert) (rw waiting (rw barred refl)))
      | inl allowed ↦
          inr (a, there, waiting, rw (found, acknowledge_alert) (rw waiting (rw allowed refl)))
    ]
  ]
]

-- Resolving changes no alert, or only the one of its id, which was not resolved.
pub resolve_alert_lem :
    (out : Outside) (user : AuthUser) (id : ℕ) (dto : ResolveAlertDto) (db : School)
    → ((resolve_alert out user id dto db).0 ≡ db)
      ⊎ ((a : Alert) × (alert_by_id id db ≡ some a)
          × (is_resolved a.status ≡ false)
          × ((resolve_alert out user id dto db).0 ≡ record db {
            alerts = update_where (λ r. r.id == id) (closed_by out user dto) db.alerts;
            audit =
                db.audit
                ++ record { staff_id = user.id; action = alert_resolved; entity_id = id } ∷ [];
          }))
unfolding resolve_alert
resolve_alert_lem out user id dto db = elim (require_in_scope_cases user id db) [
  | inl (e, refused) ↦ inl (rw (refused, resolve_alert) refl)
  | inr (a, found, there) ↦ elim (Bool-cases (is_resolved a.status)) [
    | inl over ↦ inl (rw (found, resolve_alert) (rw over refl))
    | inr running ↦
        elim (Bool-cases (
          can_close_alert user.id user.roles (section_lecturer a.class_section_id db)
            a.raised_by_id)) [
              | inr barred ↦ inl (rw (found, resolve_alert) (rw running (rw barred refl)))
              | inl allowed ↦
                  inr (a, there, running, rw (found, resolve_alert) (rw running (rw allowed refl)))
            ]
  ]
]
