-- ===== src/Notify/Retry.antt =====
-- Delivering again, as a queue does that retries, and as an enqueue that was too slow does.
use fcare.Base.{
  ℕ, ◌≡◌, ◌∙◌, refl, sym, ap, Bool, true, false, ◌||◌, List, [], ◌∷◌, ◌++◌, suc, length, arith, any,
  all, any-append, Bool-cases, inl, inr, and_split, and_join, ==_refl,
}
use fcare.Alert.Rows.{Notification, Outside}
use fcare.Notify.{
  NotificationDeliveryData, NotificationSource, alert_source, analysis_source, discussion_source,
  Post, build_row, build_rows, clashes, same_key, inserted_rows, written, deliver, announce,
  alert_of, version_of, message_of, is_no_one,
}
use mathlib.Core.Path.{subst}
use mathlib.Core.List.{append_assoc, append-nil}

-- Whether each row of a list meets a clash among the rows.
abbrev all_clash : List Notification → List Notification → Bool
all_clash new rows = all (λ r. any (clashes r) rows) new

pub inserted-there :
    (r : Notification) (rest rows : List Notification)
    → any (clashes r) rows ≡ true
    → inserted_rows (r ∷ rest) rows ≡ inserted_rows rest rows
unfolding inserted_rows
inserted-there r rest rows h = rw (h, inserted_rows) refl

pub inserted-absent :
    (r : Notification) (rest rows : List Notification)
    → any (clashes r) rows ≡ false
    → inserted_rows (r ∷ rest) rows ≡ r ∷ inserted_rows rest (rows ++ r ∷ [])
unfolding inserted_rows
inserted-absent r rest rows h = rw (h, inserted_rows) refl

inserted-none :
    (new rows : List Notification) → all_clash new rows ≡ true → inserted_rows new rows ≡ []
unfolding inserted_rows
inserted-none [] rows h = refl
inserted-none (r ∷ rest) rows h =
    let (this, others) = and_split (any (clashes r) rows) _ h in
    inserted-there r rest rows this ∙ inserted-none rest rows others

source_key :
    (s : NotificationSource)
    → (same_key (alert_of s) (alert_of s)
        || (same_key (version_of s) (version_of s) || same_key (message_of s) (message_of s)))
      ≡ true
source_key (alert_source id url) = ground (arith, ==_refl id)
source_key (analysis_source id alert_id url) = ground (arith, ==_refl id)
source_key (discussion_source id url) = ground (arith, ==_refl id)

-- The rows that are there after a delivery clash with each row of its recipients.
module _ (id id' now now' : ℕ) (input : NotificationDeliveryData) where
  self_clash : (r : ℕ) → clashes (build_row id now r input) (build_row id' now' r input) ≡ true
  self_clash r = rw (==_refl r, source_key input.source) refl

pub inserted-clash :
    (id id' now now' : ℕ) (input : NotificationDeliveryData) (ids : List ℕ)
    (rows : List Notification)
    → all_clash
        (build_rows id now ids input)
        (rows ++ inserted_rows (build_rows id' now' ids input) rows)
      ≡ true
inserted-clash id id' now now' input [] rows = refl
inserted-clash id id' now now' input (r ∷ rest) rows =
    let new = build_row id' now' r input in
    let others = build_rows (suc id') now' rest input in
    let fits = λ (z : List Notification).
      all_clash (build_rows id now (r ∷ rest) input) (rows ++ z) ≡ true in
    elim (Bool-cases (any (clashes new) rows)) [
      | inl there ↦ subst fits (sym (inserted-there new others rows there)) (
          and_join (any-append (clashes new) rows (inserted_rows others rows) ∙ rw there refl)
            (inserted-clash (suc id) (suc id') now now' input rest rows))
      | inr absent ↦
          let later = inserted_rows others (rows ++ new ∷ []) in
          subst fits (sym (inserted-absent new others rows absent)) (
            subst (λ z. all_clash (build_rows id now (r ∷ rest) input) z ≡ true)
              (append_assoc rows (new ∷ []) later)
              (and_join
                (any-append (clashes new) (rows ++ new ∷ []) later
                  ∙ rw
                      (any-append (clashes new) rows (new ∷ []), self_clash id id' now now' input r)
                      (ground arith))
                (inserted-clash (suc id) (suc id') now now' input rest (rows ++ new ∷ []))))
    ]

pub announce-notifications :
    (input : NotificationDeliveryData) (told : List Notification) (db : Post)
    → (announce input told db).notifications ≡ db.notifications
announce-notifications input [] db = refl
announce-notifications input (n ∷ rest) db = refl

-- What a delivery without a replay writes, where there is a recipient.
deliver-one :
    (out : Outside) (input : NotificationDeliveryData) (db : Post) (new : List Notification)
    → input.replay ≡ false
    → is_no_one input.recipient_ids ≡ false
    → inserted_rows (build_rows out.fresh_id out.now input.recipient_ids input) db.notifications
      ≡ new
    → deliver out input db
      ≡ (announce input new (record db { notifications = db.notifications ++ new }), length new)
unfolding deliver written
deliver-one out input db new h k e = rw (e, h, k, append-nil new) refl

deliver-no_one :
    (out : Outside) (input : NotificationDeliveryData) (db : Post)
    → is_no_one input.recipient_ids ≡ true
    → deliver out input db ≡ (db, 0)
unfolding deliver
deliver-no_one out input db k = rw k refl

-- Delivering the same notifications once more, at a later time, changes nothing and tells nobody: no
-- row, event, mail or push is added, and 0 is returned. The delivery does not ask for a replay.
pub deliver-deliver :
    (out later : Outside) (input : NotificationDeliveryData) (db : Post)
    → input.replay ≡ false
    → deliver later input (deliver out input db).0 ≡ ((deliver out input db).0, 0)
deliver-deliver out later input db h = elim (Bool-cases (is_no_one input.recipient_ids)) [
  | inl nobody ↦ rw (deliver-no_one out input db nobody) (deliver-no_one later input db nobody)
  | inr some_one ↦
      let rows = build_rows out.fresh_id out.now input.recipient_ids input in
      let new = inserted_rows rows db.notifications in
      let db' : Post = announce input new (record db { notifications = db.notifications ++ new }) in
      let there : db'.notifications ≡ db.notifications ++ new =
        announce-notifications input new (record db { notifications = db.notifications ++ new }) in
      let again =
        inserted-none (build_rows later.fresh_id later.now input.recipient_ids input)
          db'.notifications
          (rw there (
            inserted-clash later.fresh_id out.fresh_id later.now out.now input input.recipient_ids
              db.notifications)) in
      rw (deliver-one out input db new h some_one refl) (
        deliver-one later input db' [] h some_one again
        ∙ ap (λ z. (record db' { notifications = z }, 0)) (append-nil db'.notifications))
]
