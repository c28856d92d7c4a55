-- ===== src/Alert/Deletion.antt =====
-- What a deletion takes away: all of the chosen alerts with their rows, or nothing.
use fcare.Base.{
  all-kept, all-map, all_imply, ℕ, ◌≡◌, ◌∙◌, refl, sym, ap, Bool, true, false, not, ◌&&◌, ◌||◌, ◌⊎◌,
  inl, inr, Option, none, some, List, [], ◌∷◌, ◌++◌, ◌==◌, arith, length, keep, any, all, contains,
  ok, err, Bool-cases, ==_refl, ==_iff, any-append,
}
use fcare.Base.Results.{is_ok}
use fcare.Access.{AuthUser}
use fcare.Access.Scope.{is_student_in_scope}
use fcare.Alert.{Alert}
use fcare.Alert.Rows.{School, StudentRow, Notification}
use fcare.Alert.Recipients.{collect, distinct}
use fcare.Alert.Service.{AlertError, alert_not_found, not_in_scope}
use fcare.Alert.Handling.{require_in_scope_cases}
use fcare.Alert.Closing.{
  require_all_in_scope, remove_many, delete_batch, alert_ids_of, student_ids_of, alert_in, unlink,
  message_ids_of, is_cascaded, remove, alert_by_id,
}

-- A deletion of one alert changes nothing, or deletes the alert that is found in scope.
pub remove_lem :
    (user : AuthUser) (id : ℕ) (db : School)
    → ((remove user id db).0 ≡ db)
      ⊎ ((a : Alert) × (alert_by_id id db ≡ some a)
          × ((remove user id db).0 ≡ (delete_batch user (a ∷ []) db).0))
unfolding remove
remove_lem user id db = elim (require_in_scope_cases user id db) [
  | inl (e, refused) ↦ inl (rw (refused, remove) refl)
  | inr (a, found, there) ↦ inr (a, there, rw (found, remove) refl)
]

pub require_all_in_scope_cases :
    (user : AuthUser) (ids : List ℕ) (db : School)
    → ((e : AlertError) × (require_all_in_scope user ids db ≡ err e))
      ⊎ ((require_all_in_scope user ids db
            ≡ ok (keep (λ a. contains (distinct ids) a.id) db.alerts))
          × (length (keep (λ a. contains (distinct ids) a.id) db.alerts) ≡ length (distinct ids)))
unfolding require_all_in_scope
require_all_in_scope_cases user ids db =
    let alerts = keep (λ a. contains (distinct ids) a.id) db.alerts in
    elim (Bool-cases (length alerts == length (distinct ids))) [
      | inr fewer ↦ inl (alert_not_found, rw (fewer, require_all_in_scope) refl)
      | inl there ↦
          elim (Bool-cases (all (is_student_in_scope db.students user) (student_ids_of alerts))) [
            | inr hidden ↦ inl (not_in_scope, rw (there, require_all_in_scope) (rw hidden refl))
            | inl seen ↦
                inr (rw (there, require_all_in_scope) (rw seen refl), ground (arith, there))
          ]
    ]

collect-contains :
    (seen xs : List ℕ) (n : ℕ) → contains (collect seen xs) n ≡ (contains seen n || contains xs n)
collect-contains seen [] n = ground arith
collect-contains seen (x ∷ xs) n = elim (Bool-cases (contains seen x)) [
  | inl known ↦ rw known (collect-contains seen xs n ∙ absorbed known)
  | inr new ↦ rw new (
      collect-contains (seen ++ x ∷ []) xs n
      ∙ (rw (any-append (λ y. y == n) seen (x ∷ [])) (ground arith)))
]
  where
    absorbed :
        contains seen x ≡ true
        → (contains seen n || contains xs n) ≡ (contains seen n || contains (x ∷ xs) n)
    absorbed known = elim (Bool-cases (x == n)) [
      | inl same ↦
          let there : contains seen n ≡ true = rw (sym ((==_iff x n).0 same)) known in
          ground (arith, there)
      | inr other ↦ ground arith
    ]

-- The distinct values are the values.
pub distinct-contains : (xs : List ℕ) (n : ℕ) → contains (distinct xs) n ≡ contains xs n
distinct-contains xs n = collect-contains [] xs n

contains-ids :
    (p : ℕ → Bool) (xs : List Alert) (i : ℕ)
    → contains (alert_ids_of (keep (λ a. p a.id) xs)) i ≡ (p i && any (λ a. a.id == i) xs)
contains-ids p [] i = ground arith
contains-ids p (x ∷ xs) i = elim (Bool-cases (x.id == i)) [
  | inl same ↦ ground (arith, ap p ((==_iff x.id i).0 same), contains-ids p xs i)
  | inr other ↦ ground (arith, contains-ids p xs i)
]

any-ids : (xs : List Alert) (i : ℕ) → any (λ a. a.id == i) xs ≡ contains (alert_ids_of xs) i
any-ids [] i = refl
any-ids (x ∷ xs) i = ground (arith, any-ids xs i)

-- A deletion of several alerts changes nothing, or deletes the loaded ones.
pub remove_many_lem :
    (user : AuthUser) (ids : List ℕ) (db : School)
    → let alerts = keep (λ a. contains (distinct ids) a.id) db.alerts in
      (((remove_many user ids db).0 ≡ db) × (is_ok (remove_many user ids db).1 ≡ false))
      ⊎ ((length alerts ≡ length (distinct ids))
          × ((remove_many user ids db).0 ≡ (delete_batch user alerts db).0))
unfolding remove_many
remove_many_lem user ids db = elim (require_all_in_scope_cases user ids db) [
  | inl (e, refused) ↦ inl (rw (refused, remove_many) refl, rw (refused, remove_many) refl)
  | inr (found, enough) ↦ inr (enough, rw (found, remove_many) refl)
]

-- A reference to an alert that is there, or none.
abbrev pub links_to : List Alert → Option ℕ → Bool
links_to alerts none = true
links_to alerts (some i) = any (λ a. a.id == i) alerts

-- A reference to a message that is there, or none.
abbrev pub replies_to : List StudentRow → Option ℕ → Bool
replies_to messages none = true
replies_to messages (some i) = any (λ m. m.id == i) messages

-- What the foreign keys promise: care logs, notifications and analyses name alerts that are there, and
-- notifications messages that are there.
pub record IsLinked (db : School) : Type 0 where
  pub care : all (λ c. links_to db.alerts c.alert_id) db.care_logs ≡ true
  pub told : all (λ n. links_to db.alerts n.alert_id) db.notifications ≡ true
  pub discussed : all (λ n. replies_to db.messages n.discussion_message_id) db.notifications ≡ true
  pub analysed : all (λ v. links_to db.alerts v.alert_id) db.analysis_versions ≡ true

-- A reference that is not to a deleted alert is to one that is left.
still-links_to :
    (removed : List ℕ) (alerts : List Alert) (o : Option ℕ)
    → links_to alerts o ≡ true
    → alert_in removed o ≡ false
    → links_to (keep (λ a. not (contains removed a.id)) alerts) o ≡ true
still-links_to removed alerts none h k = refl
still-links_to removed alerts (some i) h k =
    any-ids (keep (λ a. not (contains removed a.id)) alerts) i
    ∙ contains-ids (λ n. not (contains removed n)) alerts i
    ∙ rw k h

left_message :
    (student_ids : List ℕ) (messages : List StudentRow) (i : ℕ)
    → any (λ m. m.id == i) messages ≡ true
    → contains (message_ids_of student_ids messages) i ≡ false
    → any (λ m. m.id == i) (keep (λ m. not (contains student_ids m.student_id)) messages) ≡ true
left_message student_ids [] i h k = h
left_message student_ids (m ∷ rest) i h k = elim (Bool-cases (contains student_ids m.student_id)) [
  | inl gone ↦
      let (other, later) : ((m.id == i) ≡ false)
          × (contains (message_ids_of student_ids rest) i ≡ false) =
        or_split (m.id == i) _ (rw gone at k) in
      rw gone (left_message student_ids rest i (rw other at h) later)
  | inr left ↦ rw left (elim (Bool-cases (m.id == i)) [
    | inl same ↦ rw same refl
    | inr other ↦ rw other (left_message student_ids rest i (rw other at h) (rw left at k))
  ])
]
  where
    or_split : (a b : Bool) → (a || b) ≡ false → (a ≡ false) × (b ≡ false)
    or_split a b e = ground (arith, e)

still-replies_to :
    (student_ids : List ℕ) (messages : List StudentRow) (o : Option ℕ)
    → replies_to messages o ≡ true
    → alert_in (message_ids_of student_ids messages) o ≡ false
    → replies_to (keep (λ m. not (contains student_ids m.student_id)) messages) o ≡ true
still-replies_to student_ids messages none h k = refl
still-replies_to student_ids messages (some i) h k = left_message student_ids messages i h k

-- A notification that does not go names neither a deleted alert nor a deleted message.
uncascaded :
    (alert_ids message_ids : List ℕ) (n : Notification)
    → is_cascaded alert_ids message_ids n ≡ false
    → (alert_in alert_ids n.alert_id ≡ false)
      × (alert_in message_ids n.discussion_message_id ≡ false)
uncascaded alert_ids message_ids n h = (
  falls_left (alert_in alert_ids n.alert_id) _ h,
  falls_right (alert_in alert_ids n.alert_id) _ h,
)
  where
    falls_left : (a b : Bool) → (a || b) ≡ false → a ≡ false
    falls_left a b e = ground (arith, e)

    falls_right : (a b : Bool) → (a || b) ≡ false → b ≡ false
    falls_right a b e = ground (arith, e)

delete_batch-IsLinked :
    (user : AuthUser) (alerts : List Alert) (db : School)
    → IsLinked db
    → IsLinked (delete_batch user alerts db).0
unfolding delete_batch
delete_batch-IsLinked user alerts db s =
    let removed = alert_ids_of alerts in
    let students = student_ids_of alerts in
    let unsaid = message_ids_of students db.messages in
    record {
      care =
          all-kept _ (λ c. alert_in removed c.alert_id) _ db.care_logs
            (λ c. still-links_to removed db.alerts c.alert_id) s.care;
      told =
          all-kept _ (is_cascaded removed unsaid) _ db.notifications
            (λ n h left.
              still-links_to removed db.alerts n.alert_id h (uncascaded removed unsaid n left).0)
            s.told;
      discussed =
          all-kept _ (is_cascaded removed unsaid) _ db.notifications
            (λ n h left.
              still-replies_to students db.messages n.discussion_message_id h
                (uncascaded removed unsaid n left).1)
            s.discussed;
      analysed =
          all-map (λ v. links_to db.alerts v.alert_id) _ (unlink removed) db.analysis_versions
            (λ v h. elim (Bool-cases (alert_in removed v.alert_id)) [
              | inl gone ↦ rw gone refl
              | inr left ↦ rw left (still-links_to removed db.alerts v.alert_id h left)
            ])
            s.analysed;
    }

keep_cong :
    (p q r : Alert → Bool) (xs : List Alert)
    → ((a : Alert) → r a ≡ true → p a ≡ q a)
    → all r xs ≡ true
    → keep p xs ≡ keep q xs
keep_cong p q r [] h e = refl
keep_cong p q r (x ∷ xs) h e = ground (arith, h x, keep_cong p q r xs h)

each_there : (xs : List Alert) → all (λ a. any (λ b. b.id == a.id) xs) xs ≡ true
each_there [] = refl
each_there (x ∷ xs) = ground (
  arith,
  ==_refl x.id,
  all_imply (λ a. any (λ b. b.id == a.id) xs) (λ a. any (λ b. b.id == a.id) (x ∷ xs)) xs
      (λ a h. ground arith) (each_there xs),
)

-- The rows whose ids are not those of the loaded alerts are those whose ids were not asked for.
pub left_alerts :
    (ids : List ℕ) (alerts : List Alert)
    → keep
        (λ a. not (contains (alert_ids_of (keep (λ b. contains (distinct ids) b.id) alerts)) a.id))
        alerts
      ≡ keep (λ a. not (contains ids a.id)) alerts
left_alerts ids alerts =
    keep_cong _ _ (λ a. any (λ b. b.id == a.id) alerts) alerts
      (λ a there. ap not (
        contains-ids (contains (distinct ids)) alerts a.id
        ∙ rw there (ground (arith, distinct-contains ids a.id))))
      (each_there alerts)

pub deleted_alerts :
    (user : AuthUser) (alerts : List Alert) (db : School)
    → (delete_batch user alerts db).0.alerts
      ≡ keep (λ a. not (contains (alert_ids_of alerts) a.id)) db.alerts
unfolding delete_batch
deleted_alerts user alerts db = refl

-- Deleting alerts by their ids either is refused and changes nothing, or leaves exactly the alerts of
-- the other ids; no care log, notification or analysis then names an alert that is gone, and no
-- notification a message of a discussion that is gone, if none did before.
pub remove_many-all_or_nothing :
    (user : AuthUser) (ids : List ℕ) (db : School)
    → IsLinked db
    → (((remove_many user ids db).0 ≡ db) × (is_ok (remove_many user ids db).1 ≡ false))
      ⊎ (((remove_many user ids db).0.alerts ≡ keep (λ a. not (contains ids a.id)) db.alerts)
          × IsLinked (remove_many user ids db).0)
remove_many-all_or_nothing user ids db s = elim (remove_many_lem user ids db) [
  | inl refused ↦ inl refused
  | inr (enough, deleted) ↦
      let alerts = keep (λ a. contains (distinct ids) a.id) db.alerts in
      inr (
        rw deleted (deleted_alerts user alerts db ∙ left_alerts ids db.alerts),
        rw deleted (delete_batch-IsLinked user alerts db s),
      )
]
