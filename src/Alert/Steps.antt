-- ===== src/Alert/Steps.antt =====
-- A request about alerts keeps them consistent.
use fcare.Base.{
  all_of, all_imply, one_all, count-keep, ℕ, ◌≡◌, refl, Bool, true, false, not, ◌&&◌, ◌||◌, inl,
  inr, some, List, [], ◌∷◌, ◌==◌, arith, keep, all, any, find, find_fits, all-find, count,
  Bool-cases,
}
use fcare.Access.{AuthUser}
use fcare.Access.Ability.{AlertStatus, open_status, acknowledged, resolved, is_open, is_resolved}
use fcare.Alert.{Alert}
use fcare.Alert.Rows.{School, Outside}
use fcare.Alert.Service.{is_open_for, RaiseAlertDto, raise}
use fcare.Alert.Closing.{
  acknowledge_alert, resolve_alert, ResolveAlertDto, closed_by, remove, remove_many,
}
use fcare.Alert.Consistency.{IsConsistent, update-IsConsistent}
use fcare.Alert.Invariant.{raise-IsConsistent}
use fcare.Alert.Handling.{put_acknowledged, acknowledge_alert_lem, resolve_alert_lem}
use fcare.Alert.Deletion.{remove_lem, remove_many_lem, deleted_alerts}

-- A request of the alerts service that writes, as one step; a raise takes an id that no alert has.
pub data Step : School → School → Type 0 where
  raised :
      (out : Outside) (user : AuthUser) (dto : RaiseAlertDto) {db : School}
      → count (λ a. a.id == out.fresh_id) db.alerts ≡ 0
      → Step db (raise out user dto db).0
  acknowledged_one :
      (user : AuthUser) (id : ℕ) {db : School} → Step db (acknowledge_alert user id db).0
  resolved_one :
      (out : Outside) (user : AuthUser) (id : ℕ) (dto : ResolveAlertDto) {db : School}
      → Step db (resolve_alert out user id dto db).0
  removed_one : (user : AuthUser) (id : ℕ) {db : School} → Step db (remove user id db).0
  removed : (user : AuthUser) (ids : List ℕ) {db : School} → Step db (remove_many user ids db).0

keep-IsConsistent :
    (q : Alert → Bool) (xs : List Alert) → IsConsistent xs → IsConsistent (keep q xs)
keep-IsConsistent q xs s = record {
  one_id = λ id. omega (arith, s.one_id id, count-keep (λ a. a.id == id) q xs);
  one_open = λ student section term.
      omega (
        arith,
        s.one_open student section term,
        count-keep (is_open_for student section term) q xs,
      );
}

-- A row that a search by id finds speaks for all rows of the id.
pub found-all :
    (r : Alert → Bool) (id : ℕ) (xs : List Alert) (a : Alert)
    → IsConsistent xs
    → find (λ x. x.id == id) xs ≡ some a
    → r a ≡ true
    → all (λ x. not (x.id == id) || r x) xs ≡ true
found-all r id xs a s e h = one_all (λ x. x.id == id) r xs (s.one_id id) there
  where
    nowhere :
        (ys : List Alert)
        → any (λ x. x.id == id && r x) ys ≡ false
        → all (λ x. not (x.id == id && r x)) ys ≡ true
    nowhere [] n = refl
    nowhere (y ∷ ys) n = ground (arith, nowhere ys)

    there : any (λ x. x.id == id && r x) xs ≡ true
    there = elim (Bool-cases (any (λ x. x.id == id && r x) xs)) [
      | inl found ↦ found
      | inr missing ↦ ground (
        arith,
        h,
        all-find (λ x. not (x.id == id && r x)) (λ x. x.id == id) xs {a = a} (nowhere xs missing) e,
        find_fits (λ x. x.id == id) xs {a = a} e,
      )
    ]

pub open_running : (status : AlertStatus) → is_open status ≡ true → is_resolved status ≡ false
open_running open_status h = refl
open_running acknowledged h = refl
open_running resolved h = ground arith

pub Step-IsConsistent :
    {db db' : School} → Step db db' → IsConsistent db.alerts → IsConsistent db'.alerts
Step-IsConsistent (raised out user dto {db} fresh) s = raise-IsConsistent out user dto db fresh s
Step-IsConsistent (acknowledged_one user id {db}) s = elim (acknowledge_alert_lem user id db) [
  | inl same ↦ rw same s
  | inr (a, there, waiting, written) ↦ rw written (
      update-IsConsistent id put_acknowledged db.alerts (λ _. refl)
        (λ student section term.
          all_imply (λ x. not (x.id == id) || is_open x.status) _ db.alerts
            (λ x h. ground (arith, h, open_running x.status))
            (found-all (λ x. is_open x.status) id db.alerts a s there waiting))
        s)
]
Step-IsConsistent (resolved_one out user id dto {db}) s =
    elim (resolve_alert_lem out user id dto db) [
      | inl same ↦ rw same s
      | inr (a, there, running, written) ↦ rw written (
          update-IsConsistent id (closed_by out user dto) db.alerts (λ _. refl)
            (λ student section term. all_of _ db.alerts (λ x. ground arith)) s)
    ]
Step-IsConsistent (removed_one user id {db}) s = elim (remove_lem user id db) [
  | inl same ↦ rw same s
  | inr (a, _, deleted) ↦
      rw deleted (rw (deleted_alerts user (a ∷ []) db) (keep-IsConsistent _ db.alerts s))
]
Step-IsConsistent (removed user ids {db}) s = elim (remove_many_lem user ids db) [
  | inl (same, _) ↦ rw same s
  | inr (_, deleted) ↦ rw deleted (rw (deleted_alerts user _ db) (keep-IsConsistent _ db.alerts s))
]
