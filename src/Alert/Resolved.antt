-- ===== src/Alert/Resolved.antt =====
-- A resolved alert stays as it is.
use fcare.Base.{
  ℕ, ◌≡◌, ◌∙◌, refl, ap, true, false, not, ◌||◌, ◌⊎◌, inl, inr, Option, none, some, List, [], ◌∷◌,
  ◌==◌, ltb, max, arith, keep, all, any, find, find-append, find-update_where, all-find, contains,
  update_where, Bool-cases, ==_iff,
}
use fcare.Access.{AuthUser}
use fcare.Access.Scope.{Student, Section}
use fcare.Access.Ability.{is_resolved}
use fcare.Alert.{Alert, decide_raise, clamp_level}
use fcare.Alert.Rows.{School, Outside}
use fcare.Alert.Service.{
  RaiseAlertDto, raise, raise_in, write_decision, escalated, merged, current_alert, open_alert_of,
  system_level_of, term_of,
}
use fcare.Alert.Closing.{closed_by, alert_ids_of}
use fcare.Alert.Consistency.{IsConsistent}
use fcare.Alert.Invariant.{current_unresolved, raise-keeps}
use fcare.Alert.Handling.{put_acknowledged, acknowledge_alert_lem, resolve_alert_lem}
use fcare.Alert.Deletion.{remove_lem, remove_many_lem, deleted_alerts, left_alerts}
use fcare.Alert.Steps.{
  Step, raised, acknowledged_one, resolved_one, removed_one, removed, found-all, open_running,
}

-- The alert of an id, resolved.
pub record IsClosed (i : ℕ) (a : Alert) (alerts : List Alert) : Type 0 where
  pub there : find (λ x. x.id == i) alerts ≡ some a
  pub over : is_resolved a.status ≡ true

-- An update of an alert that is not resolved leaves it.
update-IsClosed :
    (i j : ℕ) (a : Alert) (f : Alert → Alert) (xs : List Alert)
    → ((x : Alert) → (f x).id ≡ x.id)
    → all (λ x. not (x.id == j) || not (is_resolved x.status)) xs ≡ true
    → IsClosed i a xs
    → IsClosed i a (update_where (λ x. x.id == j) f xs)
update-IsClosed i j a f xs g running c =
    let other : (a.id == j) ≡ false = ground (
      arith,
      c.over,
      all-find (λ x. not (x.id == j) || not (is_resolved x.status)) (λ x. x.id == i) xs {a = a}
          running c.there,
    ) in
    record {
      there =
          find-update_where (λ x. x.id == i) (λ x. x.id == j) f xs (λ x. rw (g x) refl) c.there
          ∙ rw other refl;
      over = c.over;
    }

module _ (out : Outside) (user : AuthUser) (dto : RaiseAlertDto) (i : ℕ) (a : Alert) where
  write_decision-IsClosed :
      (section : Option Section) (db : School) (system : ℕ) (o : Option Alert)
      → current_alert out user dto section db ≡ o
      → IsConsistent db.alerts
      → IsClosed i a db.alerts
      → IsClosed i a
          (write_decision out user dto section o
            (decide_raise dto.level system (open_alert_of o))
            db.alerts).0
  unfolding write_decision decide_raise
  write_decision-IsClosed section db system none e s c = record {
    there = find-append (λ x. x.id == i) db.alerts _ c.there;
    over = c.over;
  }
  write_decision-IsClosed section db system (some current) e s c =
      let running = current_unresolved out user dto section db current s e in
      let level = max (clamp_level dto.level) (clamp_level system) in
      elim (Bool-cases (ltb current.level level)) [
        | inl higher ↦ rw higher (
            update-IsClosed i current.id a
              (escalated out user dto (some current) level (ltb (clamp_level dto.level) level))
              db.alerts (λ _. refl) running c)
        | inr lower ↦ rw lower (
            update-IsClosed i current.id a (merged out user dto (some current)) db.alerts
              (λ _. refl) running c)
      ]

  raise_in-IsClosed :
      (student : Student) (section : Option Section) (db : School)
      → IsConsistent db.alerts
      → IsClosed i a db.alerts
      → IsClosed i a (raise_in out user dto student section db).0.alerts
  unfolding raise_in
  raise_in-IsClosed student section db s c =
      write_decision-IsClosed section db (system_level_of user student (term_of section) db)
        (current_alert out user dto section db) refl s c

  raise-IsClosed :
      (db : School)
      → IsConsistent db.alerts
      → IsClosed i a db.alerts
      → IsClosed i a (raise out user dto db).0.alerts
  raise-IsClosed db s c =
      raise-keeps out user dto db (λ d. IsClosed i a d.alerts)
        (λ student section. raise_in-IsClosed student section db s c) c

module _ (ids : List ℕ) (i : ℕ) where
  find-left :
      (xs : List Alert)
      → contains ids i ≡ false
      → find (λ x. x.id == i) (keep (λ x. not (contains ids x.id)) xs) ≡ find (λ x. x.id == i) xs
  find-left [] h = refl
  find-left (x ∷ xs) h = elim (Bool-cases (x.id == i)) [
    | inl same ↦ ground (arith, h, ap (contains ids) ((==_iff x.id i).0 same))
    | inr other ↦ ground (arith, find-left xs h)
  ]

  none-left :
      (xs : List Alert)
      → contains ids i ≡ true
      → any (λ x. x.id == i) (keep (λ x. not (contains ids x.id)) xs) ≡ false
  none-left [] h = refl
  none-left (x ∷ xs) h = elim (Bool-cases (x.id == i)) [
    | inl same ↦ ground (arith, h, none-left xs h, ap (contains ids) ((==_iff x.id i).0 same))
    | inr other ↦ ground (arith, none-left xs h)
  ]

-- Among consistent alerts, no request to raise, acknowledge, resolve or delete alerts (one or several),
-- each as one step, changes a resolved one: it stays, field by field, unless it is deleted.
pub Step-resolved :
    {db db' : School} (i : ℕ) (a : Alert)
    → Step db db'
    → IsConsistent db.alerts
    → IsClosed i a db.alerts
    → IsClosed i a db'.alerts ⊎ (any (λ x. x.id == i) db'.alerts ≡ false)
Step-resolved i a (raised out user dto {db} fresh) s c =
    inl (raise-IsClosed out user dto i a db s c)
Step-resolved i a (acknowledged_one user id {db}) s c = elim (acknowledge_alert_lem user id db) [
  | inl same ↦ inl (rw same c)
  | inr (b, there, waiting, written) ↦ inl (
      rw written (
        update-IsClosed i id a put_acknowledged db.alerts (λ _. refl)
          (found-all (λ x. not (is_resolved x.status)) id db.alerts b s there
            (rw (open_running b.status waiting) refl))
          c))
]
Step-resolved i a (resolved_one out user id dto {db}) s c =
    elim (resolve_alert_lem out user id dto db) [
      | inl same ↦ inl (rw same c)
      | inr (b, there, running, written) ↦ inl (
          rw written (
            update-IsClosed i id a (closed_by out user dto) db.alerts (λ _. refl)
              (found-all (λ x. not (is_resolved x.status)) id db.alerts b s there (rw running refl))
              c))
    ]
Step-resolved i a (removed_one user id {db}) s c = elim (remove_lem user id db) [
  | inl same ↦ inl (rw same c)
  | inr (b, _, deleted) ↦ elim (Bool-cases (contains (alert_ids_of (b ∷ [])) i)) [
    | inl chosen ↦ inr (
        rw deleted (
          rw (deleted_alerts user (b ∷ []) db)
            (none-left (alert_ids_of (b ∷ [])) i db.alerts chosen)))
    | inr spared ↦ inl (
        rw deleted (
          rw (deleted_alerts user (b ∷ []) db) (record {
            there = find-left (alert_ids_of (b ∷ [])) i db.alerts spared ∙ c.there;
            over = c.over;
          })))
  ]
]
Step-resolved i a (removed user ids {db}) s c = elim (remove_many_lem user ids db) [
  | inl (same, _) ↦ inl (rw same c)
  | inr (_, deleted) ↦ elim (Bool-cases (contains ids i)) [
    | inl chosen ↦ inr (
        rw deleted (
          rw (deleted_alerts user _ db ∙ left_alerts ids db.alerts)
            (none-left ids i db.alerts chosen)))
    | inr spared ↦ inl (
        rw deleted (
          rw (deleted_alerts user _ db ∙ left_alerts ids db.alerts)
            (record { there = find-left ids i db.alerts spared ∙ c.there; over = c.over })))
  ]
]
