-- ===== src/Notify/Tests.antt =====
-- Two members of staff are told of an alert; one of them has read an earlier notification.
use fcare.Base.{ℕ, ◌≡◌, refl, Bool, true, false, none, some, [], ◌∷◌, all, any}
use fcare.Alert.Rows.{Notification, Outside}
use fcare.Notify.{NotificationDeliveryData, Post, alert_source, deliver, written, inserted_rows}
use fcare.Notify.Inbox.{mark_all_read-unread_count, Inbox, unread_count, mark_all_read, mark_read}
use fcare.Notify.Retry.{deliver-deliver}
use fcare.Notify.Reach.{is_told, deliver-told}

abbrev at : ℕ → Outside
at now = record { now = now; today = []; fresh_id = now }

abbrev old_row : Notification
old_row = record {
  id = 60;
  recipient_id = 9;
  alert_id = some 2;
  analysis_version_id = none;
  discussion_message_id = none;
  title = [];
  body = [];
  target_url = none;
  read_at = some 6;
  created_at = 5;
}

abbrev post : Post
post = record {
  notifications = old_row ∷ [];
  alerts = [];
  events = [];
  emails = [];
  pushes = [];
  has_email = true;
  has_push = true;
}

abbrev telling : Bool → NotificationDeliveryData
telling replay = record {
  recipient_ids = 9 ∷ 7 ∷ [];
  title = b't' ∷ [];
  body = b'b' ∷ [];
  source = alert_source 2 none;
  replay = replay;
}

deliver-deliver_example :
    deliver (at 20) (telling false) (deliver (at 10) (telling false) post).0
    ≡ ((deliver (at 10) (telling false) post).0, 0)
deliver-deliver_example = deliver-deliver (at 10) (at 20) (telling false) post refl

deliver-told_example :
    all
      (λ r. any (is_told 2 10 r) (deliver (at 10) (telling true) post).0.notifications)
      (9 ∷ 7 ∷ [])
    ≡ true
deliver-told_example = deliver-told (at 10) 2 none (telling true) post refl refl

-- The first delivery inserts a row for 7 alone; a replay renews the row of 9 too.
test_deliver : (deliver (at 10) (telling false) post).1 ≡ 1
unfolding deliver written inserted_rows
test_deliver = refl

test_replay : (deliver (at 10) (telling true) post).1 ≡ 2
unfolding deliver written inserted_rows
test_replay = refl

abbrev inbox : Inbox
inbox = record { notifications = record old_row { read_at = none } ∷ old_row ∷ []; recipients = [] }

mark_all_read-unread_count_example :
    (unread_count 9 (mark_all_read 20 9 inbox).0 ≡ 0)
    × ((mark_all_read 20 9 inbox).1 ≡ unread_count 9 inbox)
    × (unread_count 7 (mark_all_read 20 9 inbox).0 ≡ unread_count 7 inbox)
mark_all_read-unread_count_example = mark_all_read-unread_count 20 9 7 inbox refl

test_mark_read : unread_count 9 (mark_read 20 9 60 inbox).0 ≡ 0
unfolding mark_read unread_count
test_mark_read = refl
