-- ===== src/Notify.antt =====
-- apps/api/src/modules/alerts/notification-dispatch.service.ts: a delivery writes one notification for
-- each recipient, then tells those whose notification is new or renewed by events, mail and push.
-- The texts that are logged are left out. The database and the queue answer.
pub mod Inbox
pub mod Retry
mod Reach
mod Tests
use fcare.Base.{
  ℕ, ◌+◌, Bool, true, false, not, ◌&&◌, ◌||◌, Option, none, some, List, [], ◌∷◌, ◌++◌, ◌==◌, suc,
  if◌then◌else◌, length, map, any, keep, find, update_where, contains, opt_eq,
}
use fcare.Base.Texts.{Text}
use fcare.Alert.{Alert}
use fcare.Alert.Rows.{Notification, Outside, EscalationJob}

pub data NotificationSource : Type 0 where
  alert_source : ℕ → Option Text → NotificationSource
  analysis_source : ℕ → Option ℕ → Text → NotificationSource
  discussion_source : ℕ → Text → NotificationSource

pub record NotificationDeliveryData : Type 0 where
  pub recipient_ids : List ℕ
  pub title : Text
  pub body : Text
  pub source : NotificationSource
  pub replay : Bool

-- `normalize`, of a job; its title, body and link are given beside it.
abbrev pub normalize : EscalationJob → Text → Text → Option Text → NotificationDeliveryData
normalize job title body target_url = record {
  recipient_ids = job.recipient_ids;
  title = title;
  body = body;
  source = alert_source job.alert_id target_url;
  replay = job.replay;
}

-- An event for the web page of a recipient.
pub record Event : Type 0 where
  pub row : Notification
  pub alert_level : Option ℕ

pub data Email : Type 0 where
  alert_email : ℕ → List ℕ → Email
  discussion_email : ℕ → List ℕ → Email

pub record Push : Type 0 where
  pub alert_id : ℕ
  pub alert_level : ℕ
  pub recipient_ids : List ℕ
  pub title : Text
  pub body : Text
  pub target_url : Option Text

-- The notifications, and what was sent out. The services of mail and push may be missing.
pub record Post : Type 0 where
  pub notifications : List Notification
  pub alerts : List Alert
  pub events : List Event
  pub emails : List Email
  pub pushes : List Push
  pub has_email : Bool
  pub has_push : Bool

abbrev pub alert_of : NotificationSource → Option ℕ
alert_of (alert_source id url) = some id
alert_of (analysis_source id alert_id url) = alert_id
alert_of (discussion_source id url) = none

abbrev pub version_of : NotificationSource → Option ℕ
version_of (analysis_source id alert_id url) = some id
version_of _ = none

abbrev pub message_of : NotificationSource → Option ℕ
message_of (discussion_source id url) = some id
message_of _ = none

abbrev pub url_of : NotificationSource → Option Text
url_of (alert_source id url) = url
url_of (analysis_source id alert_id url) = some url
url_of (discussion_source id url) = some url

-- `buildRow`; the database adds the id and the date.
abbrev pub build_row : ℕ → ℕ → ℕ → NotificationDeliveryData → Notification
build_row id now recipient_id input = record {
  id = id;
  recipient_id = recipient_id;
  alert_id = alert_of input.source;
  analysis_version_id = version_of input.source;
  discussion_message_id = message_of input.source;
  title = input.title;
  body = input.body;
  target_url = url_of input.source;
  read_at = none;
  created_at = now;
}

abbrev pub build_rows : ℕ → ℕ → List ℕ → NotificationDeliveryData → List Notification
build_rows id now [] input = []
build_rows id now (r ∷ rest) input = build_row id now r input ∷ build_rows (suc id) now rest input

-- Columns of a unique index: a missing value equals no other.
abbrev pub same_key : Option ℕ → Option ℕ → Bool
same_key none b = false
same_key (some a) b = opt_eq (some a) b

-- `@@unique([alertId, recipientId])` and the two other indexes
abbrev pub clashes : Notification → Notification → Bool
clashes a b =
    a.recipient_id == b.recipient_id
    && (same_key a.alert_id b.alert_id
        || (same_key a.analysis_version_id b.analysis_version_id
            || same_key a.discussion_message_id b.discussion_message_id))

-- `createManyAndReturn` with `skipDuplicates`: the rows that are inserted, one after the other.
pub inserted_rows : List Notification → List Notification → List Notification
inserted_rows [] rows = []
inserted_rows (r ∷ rest) rows = elim (any (clashes r) rows) [
  | true ↦ inserted_rows rest rows
  | false ↦ r ∷ inserted_rows rest (rows ++ r ∷ [])
]

-- The rows that `refreshForReplay` renews.
abbrev pub is_renewed : ℕ → List ℕ → Notification → Bool
is_renewed alert_id remaining row =
    opt_eq row.alert_id (some alert_id) && contains remaining row.recipient_id

abbrev pub remaining_ids : NotificationDeliveryData → List Notification → List ℕ
remaining_ids input inserted =
    keep (λ r. not (contains (map (λ row. row.recipient_id) inserted) r)) input.recipient_ids

abbrev pub replay_of : Bool → NotificationSource → Option ℕ
replay_of true (alert_source id url) = some id
replay_of _ _ = none

abbrev pub level_in : Option Alert → Option ℕ
level_in none = none
level_in (some a) = some a.level

abbrev pub alert_level_of : NotificationSource → List Alert → Option ℕ
alert_level_of (alert_source id url) alerts = level_in (find (λ a. a.id == id) alerts)
alert_level_of _ alerts = none

abbrev pub dispatch_email : NotificationSource → List ℕ → List Email
dispatch_email (alert_source id url) recipients = alert_email id recipients ∷ []
dispatch_email (discussion_source id url) recipients = discussion_email id recipients ∷ []
dispatch_email (analysis_source id alert_id url) recipients = []

abbrev pub push_of : NotificationDeliveryData → NotificationSource → Option ℕ → List ℕ → List Push
push_of input (alert_source id url) (some level) recipients =
    record {
      alert_id = id;
      alert_level = level;
      recipient_ids = recipients;
      title = input.title;
      body = input.body;
      target_url = url;
    }
    ∷ []
push_of input _ _ recipients = []

-- What follows the writes, for the notifications that are new or renewed.
abbrev pub announce : NotificationDeliveryData → List Notification → Post → Post
announce input [] db = db
announce input (first ∷ rest) db =
    let rows = first ∷ rest in
    let level = alert_level_of input.source db.alerts in
    let recipients = map (λ row. row.recipient_id) rows in
    record db {
      events = db.events ++ map (λ row. record { row = row; alert_level = level }) rows;
      emails = db.emails ++ (if db.has_email then dispatch_email input.source recipients else []);
      pushes =
          db.pushes ++ (if db.has_push then push_of input input.source level recipients else []);
    }

abbrev pub is_no_one : List ℕ → Bool
is_no_one [] = true
is_no_one (r ∷ rest) = false

module _ (out : Outside) where
  abbrev pub refreshed : NotificationDeliveryData → Notification → Notification
  refreshed input row = record row {
    read_at = none;
    created_at = out.now;
    title = input.title;
    body = input.body;
  }

  -- The rows after the renewal, and those renewed.
  abbrev pub refresh_for_replay :
      Option ℕ
      → NotificationDeliveryData
      → List Notification
      → List Notification
      → List Notification × List Notification
  refresh_for_replay none input inserted rows = (rows, [])
  refresh_for_replay (some alert_id) input inserted rows =
      let remaining = remaining_ids input inserted in
      (
        update_where (is_renewed alert_id remaining) (refreshed input) rows,
        map (refreshed input) (keep (is_renewed alert_id remaining) rows),
      )

  -- The notifications after the writes, and those that are new or renewed.
  unfoldable pub written :
      NotificationDeliveryData → List Notification → List Notification × List Notification
  unfolding inserted_rows
  written input rows =
      let inserted =
        inserted_rows (build_rows out.fresh_id out.now input.recipient_ids input) rows in
      let (after, renewed) =
        refresh_for_replay (replay_of input.replay input.source) input inserted
          (rows ++ inserted) in
      (after, inserted ++ renewed)

  -- The database after a delivery, and the number of notifications that are new or renewed.
  unfoldable pub deliver : NotificationDeliveryData → Post → Post × ℕ
  unfolding written
  deliver input db =
      let (rows, told) = written input db.notifications in
      if is_no_one input.recipient_ids
      then (db, 0)
      else (announce input told (record db { notifications = rows }), length told)

  -- `enqueueOrDeliver`: a queue that refuses the job, or is too slow, is replaced by a delivery now.
  unfoldable pub enqueue_or_deliver :
      Bool
      → NotificationDeliveryData
      → List NotificationDeliveryData × Post
      → List NotificationDeliveryData × Post
  unfolding deliver
  enqueue_or_deliver queue_accepts input (queue, db) =
      if queue_accepts then (queue ++ input ∷ [], db) else (queue, (deliver input db).0)
