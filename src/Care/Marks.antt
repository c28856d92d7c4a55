-- ===== src/Care/Marks.antt =====
-- The mark that the lecturer has cared stands on the log of that lecturer. What alerts' requests keep of it.
use fcare.Base.{
  ℕ, ◌≤◌, ◌≡◌, refl, Bool, true, false, not, ◌&&◌, ◌||◌, Option, none, some, List, [], ◌∷◌, ◌==◌,
  ltb, max, arith, and_split, opt_eq, opt_eq_iff, is_some, all, any, count, count-keep, contains,
  all-kept, any-kept, all-snoc, all-update_where, Bool-cases, inl, inr,
}
use fcare.Access.{AuthUser}
use fcare.Access.Scope.{Student, Section}
use fcare.Alert.{Alert, decide_raise, clamp_level}
use fcare.Alert.Rows.{School, Outside, CareLog}
use fcare.Alert.Service.{
  RaiseAlertDto, raise, raise_in, write_decision, current_alert, open_alert_of, system_level_of,
  term_of,
}
use fcare.Alert.Closing.{section_lecturer, alert_in, alert_ids_of, delete_batch}
use fcare.Alert.Invariant.{raise-keeps}
use fcare.Alert.Handling.{acknowledge_alert_lem, resolve_alert_lem}
use fcare.Alert.Deletion.{remove_lem, remove_many_lem}
use fcare.Alert.Steps.{Step, raised, acknowledged_one, resolved_one, removed_one, removed}

-- A log on an alert, by a given lecturer.
abbrev pub supports : ℕ → Option ℕ → CareLog → Bool
supports id lecturer c = opt_eq c.alert_id (some id) && opt_eq lecturer (some c.staff_id)

abbrev pub is_cared_by : School → Alert → Bool
is_cared_by db a =
    not (is_some a.owner_cared_at)
    || any (supports a.id (section_lecturer a.class_section_id db)) db.care_logs

abbrev pub AllCared : School → Type 0
AllCared db = all (is_cared_by db) db.alerts ≡ true

module _ (out : Outside) (user : AuthUser) (dto : RaiseAlertDto) (db : School) where
  write_decision-AllCared :
      (section : Option Section) (system : ℕ) (o : Option Alert)
      → AllCared db
      → all
          (is_cared_by db)
          (write_decision out user dto section o
            (decide_raise dto.level system (open_alert_of o))
            db.alerts).0
        ≡ true
  unfolding write_decision decide_raise
  write_decision-AllCared section system none h = all-snoc (is_cared_by db) db.alerts _ h refl
  write_decision-AllCared section system (some c) h =
      elim (Bool-cases (ltb c.level (max (clamp_level dto.level) (clamp_level system)))) [
        | inl higher ↦
            rw higher
              (all-update_where (is_cared_by db) (λ a. a.id == c.id) _ db.alerts (λ a _ _. refl) h)
        | inr lower ↦
            rw lower
              (all-update_where (is_cared_by db) (λ a. a.id == c.id) _ db.alerts (λ a _ k. k) h)
      ]

  raise_in-AllCared :
      (student : Student) (section : Option Section)
      → AllCared db
      → AllCared (raise_in out user dto student section db).0
  unfolding raise_in
  raise_in-AllCared student section h =
      write_decision-AllCared section (system_level_of user student (term_of section) db)
        (current_alert out user dto section db) h

  raise-AllCared : AllCared db → AllCared (raise out user dto db).0
  raise-AllCared h =
      raise-keeps out user dto db AllCared (λ student section. raise_in-AllCared student section h)
        h

-- A log that supports an alert that is left is not on a deleted one.
spared :
    (gone : List ℕ) (a : Alert) (lecturer : Option ℕ) (c : CareLog)
    → contains gone a.id ≡ false
    → supports a.id lecturer c ≡ true
    → alert_in gone c.alert_id ≡ false
spared gone a lecturer c left s =
    let (own, _) = and_split (opt_eq c.alert_id (some a.id)) _ s in
    rw ((opt_eq_iff c.alert_id (some a.id)).0 own) left

delete_batch-AllCared :
    (user : AuthUser) (alerts : List Alert) (db : School)
    → AllCared db
    → AllCared (delete_batch user alerts db).0
unfolding delete_batch
delete_batch-AllCared user alerts db h =
    let gone = alert_ids_of alerts in
    all-kept (is_cared_by db) (λ a. contains gone a.id) _ db.alerts
      (λ a k left. elim (Bool-cases (is_some a.owner_cared_at)) [
        | inr unmarked ↦ rw unmarked refl
        | inl marked ↦ rw marked (
            any-kept (supports a.id (section_lecturer a.class_section_id db))
              (λ c. alert_in gone c.alert_id) db.care_logs (λ c s. spared gone a _ c left s)
              (rw marked at k))
      ])
      h

raise_in-care_logs :
    (out : Outside) (user : AuthUser) (dto : RaiseAlertDto) (db : School) (student : Student)
    (section : Option Section) (id : ℕ)
    → count (λ c. c.id == id) db.care_logs ≤ 1
    → count (λ c. c.id == id) (raise_in out user dto student section db).0.care_logs ≤ 1
unfolding raise_in
raise_in-care_logs out user dto db student section id k = k

delete_batch-care_logs :
    (user : AuthUser) (alerts : List Alert) (db : School) (id : ℕ)
    → count (λ c. c.id == id) db.care_logs ≤ 1
    → count (λ c. c.id == id) (delete_batch user alerts db).0.care_logs ≤ 1
unfolding delete_batch
delete_batch-care_logs user alerts db id k = omega (
  arith,
  k,
  count-keep (λ c. c.id == id) (λ c. not (alert_in (alert_ids_of alerts) c.alert_id)) db.care_logs,
)

pub Step-AllCared : {db db' : School} → Step db db' → AllCared db → AllCared db'
Step-AllCared (raised out user dto {db} fresh) h = raise-AllCared out user dto db h
Step-AllCared (acknowledged_one user id {db}) h = elim (acknowledge_alert_lem user id db) [
  | inl same ↦ rw same h
  | inr (a, there, waiting, written) ↦
      rw written (all-update_where (is_cared_by db) (λ x. x.id == id) _ db.alerts (λ a _ k. k) h)
]
Step-AllCared (resolved_one out user id dto {db}) h = elim (resolve_alert_lem out user id dto db) [
  | inl same ↦ rw same h
  | inr (a, there, running, written) ↦
      rw written (all-update_where (is_cared_by db) (λ x. x.id == id) _ db.alerts (λ a _ k. k) h)
]
Step-AllCared (removed_one user id {db}) h = elim (remove_lem user id db) [
  | inl same ↦ rw same h
  | inr (a, _, deleted) ↦ rw deleted (delete_batch-AllCared user (a ∷ []) db h)
]
Step-AllCared (removed user ids {db}) h = elim (remove_many_lem user ids db) [
  | inl (same, _) ↦ rw same h
  | inr (_, deleted) ↦ rw deleted (delete_batch-AllCared user _ db h)
]

-- No request about alerts writes a care log.
pub Step-one_log :
    {db db' : School}
    → Step db db'
    → ((id : ℕ) → count (λ c. c.id == id) db.care_logs ≤ 1)
    → (id : ℕ) → count (λ c. c.id == id) db'.care_logs ≤ 1
Step-one_log (raised out user dto {db} fresh) h id =
    raise-keeps out user dto db (λ d. count (λ c. c.id == id) d.care_logs ≤ 1) (in_school (h id))
      (h id)
  where
    in_school :
        count (λ c. c.id == id) db.care_logs ≤ 1
        → (student : Student) (section : Option Section)
        → count (λ c. c.id == id) (raise_in out user dto student section db).0.care_logs ≤ 1
    in_school k student section = raise_in-care_logs out user dto db student section id k
Step-one_log (acknowledged_one user id {db}) h i = elim (acknowledge_alert_lem user id db) [
  | inl same ↦ rw same (h i)
  | inr (a, there, waiting, written) ↦ rw written (h i)
]
Step-one_log (resolved_one out user id dto {db}) h i = elim (resolve_alert_lem out user id dto db) [
  | inl same ↦ rw same (h i)
  | inr (a, there, running, written) ↦ rw written (h i)
]
Step-one_log (removed_one user id {db}) h i = elim (remove_lem user id db) [
  | inl same ↦ rw same (h i)
  | inr (a, _, deleted) ↦ rw deleted (delete_batch-care_logs user (a ∷ []) db i (h i))
]
Step-one_log (removed user ids {db}) h i = elim (remove_many_lem user ids db) [
  | inl (same, _) ↦ rw same (h i)
  | inr (_, deleted) ↦ rw deleted (delete_batch-care_logs user _ db i (h i))
]
