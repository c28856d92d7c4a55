-- ===== src/Notify/Inbox.antt =====
-- apps/api/src/modules/alerts/notifications.service.ts: the notifications of a member of staff, read
-- one by one or all at once. The list for the page is left out.
use fcare.Base.{
  ℕ, ◌≡◌, refl, Bool, true, false, not, ◌&&◌, Option, none, some, List, [], ◌∷◌, ◌==◌, arith, count,
  find, update_where, is_some, Bool-cases, inl, inr,
}
use fcare.Base.Results.{Result, ok, err}
use fcare.Alert.Rows.{Notification}

-- A recipient of an analysis (`StudentTermAnalysisRecipient`).
pub record AnalysisRecipient : Type 0 where
  pub version_id : ℕ
  pub recipient_id : ℕ
  pub notification_id : Option ℕ
  pub opened_at : Option ℕ

pub data InboxError : Type 0 where
  notification_not_found : InboxError

pub record Inbox : Type 0 where
  pub notifications : List Notification
  pub recipients : List AnalysisRecipient

abbrev pub is_unread_of : ℕ → Notification → Bool
is_unread_of staff_id n = n.recipient_id == staff_id && not (is_some n.read_at)

unfoldable pub unread_count : ℕ → Inbox → ℕ
unread_count staff_id db = count (is_unread_of staff_id) db.notifications

abbrev pub read_on : ℕ → Notification → Notification
read_on now n = record n { read_at = some now }

abbrev pub is_unopened : ℕ → ℕ → AnalysisRecipient → Bool
is_unopened id staff_id r = elim r.notification_id [
  | none ↦ false
  | some n ↦ n == id && (r.recipient_id == staff_id && not (is_some r.opened_at))
]

abbrev pub open_on : ℕ → AnalysisRecipient → AnalysisRecipient
open_on now r = record r { opened_at = some now }

-- What `markRead` does with the notification that it finds.
abbrev pub read_found :
    (now staff_id : ℕ) → Option Notification → Inbox → Inbox × Result InboxError Bool
read_found now staff_id none db = (db, err notification_not_found)
read_found now staff_id (some n) db = (
  record {
    notifications = update_where (λ x. x.id == n.id) (read_on now) db.notifications;
    recipients = update_where (is_unopened n.id staff_id) (open_on now) db.recipients;
  },
  ok true,
)

unfoldable pub mark_read : (now staff_id id : ℕ) → Inbox → Inbox × Result InboxError Bool
mark_read now staff_id id db =
    read_found now staff_id (find (λ n. n.id == id && n.recipient_id == staff_id) db.notifications)
      db

-- The inbox after `markAllRead`, and the number of notifications that it marks.
unfoldable pub mark_all_read : (now staff_id : ℕ) → Inbox → Inbox × ℕ
mark_all_read now staff_id db = (
  record db { notifications = update_where (is_unread_of staff_id) (read_on now) db.notifications },
  count (is_unread_of staff_id) db.notifications,
)

none_unread :
    (now staff_id : ℕ) (rows : List Notification)
    → count (is_unread_of staff_id) (update_where (is_unread_of staff_id) (read_on now) rows) ≡ 0
none_unread now staff_id [] = refl
none_unread now staff_id (n ∷ rest) = elim (Bool-cases (is_unread_of staff_id n)) [
  | inl unread ↦ rw unread (ground (arith, none_unread now staff_id rest))
  | inr others ↦ rw others (rw others (none_unread now staff_id rest))
]

others_unread :
    (now staff_id other : ℕ) (rows : List Notification)
    → (staff_id == other) ≡ false
    → count (is_unread_of other) (update_where (is_unread_of staff_id) (read_on now) rows)
      ≡ count (is_unread_of other) rows
others_unread now staff_id other [] e = refl
others_unread now staff_id other (n ∷ rest) e =
    ground (arith, others_unread now staff_id other rest e)

-- Marking all read leaves nothing unread to its caller, reports as many as were unread, and changes no
-- other member's number of unread notifications.
pub mark_all_read-unread_count :
    (now staff_id other : ℕ) (db : Inbox)
    → (staff_id == other) ≡ false
    → (unread_count staff_id (mark_all_read now staff_id db).0 ≡ 0)
      × ((mark_all_read now staff_id db).1 ≡ unread_count staff_id db)
      × (unread_count other (mark_all_read now staff_id db).0 ≡ unread_count other db)
unfolding mark_all_read unread_count
mark_all_read-unread_count now staff_id other db e = (
  none_unread now staff_id db.notifications,
  refl,
  others_unread now staff_id other db.notifications e,
)
