-- ===== src/Notify/Reach.antt =====
-- A delivery with a replay, as an alert that is raised to a higher level asks for, reaches everybody.
use fcare.Base.{
  ℕ, ◌≡◌, ◌∙◌, refl, sym, ap, Bool, true, false, not, ◌&&◌, Option, some, List, [], ◌∷◌, ◌++◌, ◌==◌,
  suc, length, if◌then◌else◌, map, arith, any, all, update_where, contains, opt_eq, is_some,
  any-append, any_mono, any-update_where, all-any, any-map, all_members, contains-keep, Bool-cases,
  inl, inr, and_split, and_join, ==_refl, ==_iff, opt_eq_refl, opt_eq_iff,
}
use fcare.Base.Texts.{Text}
use fcare.Alert.Rows.{Notification, Outside}
use fcare.Notify.{
  NotificationDeliveryData, alert_source, Post, build_row, build_rows, clashes, inserted_rows,
  written, deliver, announce, is_no_one, replay_of, refresh_for_replay, is_renewed, refreshed,
  remaining_ids,
}
use fcare.Notify.Retry.{inserted-there, inserted-absent, inserted-clash, announce-notifications}

-- An unread notification of an alert, of a date.
abbrev pub is_new : ℕ → ℕ → Notification → Bool
is_new alert_id now n =
    opt_eq n.alert_id (some alert_id) && (not (is_some n.read_at) && n.created_at == now)

abbrev pub is_told : ℕ → ℕ → ℕ → Notification → Bool
is_told alert_id now r n = is_new alert_id now n && n.recipient_id == r

module _ (alert_id : ℕ) (url : Option Text) (input : NotificationDeliveryData)
    (e : input.source ≡ alert_source alert_id url) where
  inserted-new :
      (id now : ℕ) (ids : List ℕ) (rows : List Notification)
      → all (is_new alert_id now) (inserted_rows (build_rows id now ids input) rows) ≡ true
  unfolding inserted_rows
  inserted-new id now [] rows = refl
  inserted-new id now (r ∷ rest) rows =
      let new = build_row id now r input in
      let others = build_rows (suc id) now rest input in
      elim (Bool-cases (any (clashes new) rows)) [
        | inl there ↦
            rw (inserted-there new others rows there) (inserted-new (suc id) now rest rows)
        | inr absent ↦ rw (inserted-absent new others rows absent) (
            and_join (rw e (ground (arith, ==_refl alert_id, ==_refl now)))
              (inserted-new (suc id) now rest (rows ++ new ∷ [])))
      ]

  of_clash :
      (id now r : ℕ) (n : Notification)
      → clashes (build_row id now r input) n ≡ true
      → (opt_eq n.alert_id (some alert_id) && n.recipient_id == r) ≡ true
  of_clash id now r n c =
      let (own, keys) = and_split (r == n.recipient_id) _ (rw e at c) in
      let same : opt_eq (some alert_id) n.alert_id ≡ true = ground (arith, keys) in
      and_join {a = opt_eq n.alert_id (some alert_id)} {b = n.recipient_id == r}
        (rw (sym ((opt_eq_iff (some alert_id) n.alert_id).0 same)) (opt_eq_refl (some alert_id)))
        (rw ((==_iff r n.recipient_id).0 own) (==_refl n.recipient_id))

  -- A recipient whose row clashes has a notification of the alert.
  clash-told :
      (id now : ℕ) (ids : List ℕ) (rows : List Notification)
      → all (λ r. any (clashes r) rows) (build_rows id now ids input) ≡ true
      → (r : ℕ) → contains ids r ≡ true
      → any (λ n. opt_eq n.alert_id (some alert_id) && n.recipient_id == r) rows ≡ true
  clash-told id now [] rows h r k = cc
  clash-told id now (s ∷ rest) rows h r k =
      let (this, others) = and_split (any (clashes (build_row id now s input)) rows) _ h in
      elim (Bool-cases (s == r)) [
        | inl same ↦
            any_mono (clashes (build_row id now r input)) _ rows (of_clash id now r)
              (rw (sym ((==_iff s r).0 same)) this)
        | inr other ↦ clash-told (suc id) now rest rows others r (rw other at k)
      ]

  -- After the renewal, each recipient has a new notification: it is inserted, or one that was there
  -- is renewed.
  renewed-told :
      (out : Outside) (rows : List Notification) (r : ℕ)
      → contains input.recipient_ids r ≡ true
      → (let new = inserted_rows (build_rows out.fresh_id out.now input.recipient_ids input) rows in
          any (is_told alert_id out.now r) (
            update_where
              (is_renewed alert_id (remaining_ids input new))
              (refreshed out input)
              (rows ++ new))
          ≡ true)
  renewed-told out rows r k =
      let new = inserted_rows (build_rows out.fresh_id out.now input.recipient_ids input) rows in
      let remaining = remaining_ids input new in
      elim (Bool-cases (contains (map (λ n. n.recipient_id) new) r)) [
        | inl inserted ↦
            any-update_where (is_told alert_id out.now r) _ (is_renewed alert_id remaining)
              (refreshed out input) (rows ++ new) (λ n h. ground (arith, h, ==_refl out.now))
              (any-append (is_told alert_id out.now r) rows new
                ∙ rw
                    (all-any (is_new alert_id out.now) (λ n. n.recipient_id == r) new
                      (inserted-new out.fresh_id out.now input.recipient_ids rows)
                      (sym (any-map (λ m. m == r) (λ n. n.recipient_id) new) ∙ inserted))
                    (ground arith))
        | inr left ↦
            any-update_where (λ n. opt_eq n.alert_id (some alert_id) && n.recipient_id == r) _
              (is_renewed alert_id remaining) (refreshed out input) (rows ++ new)
              (λ n h.
                let (own, who) = and_split (opt_eq n.alert_id (some alert_id)) _ h in
                let among : contains remaining n.recipient_id ≡ true =
                  rw ((==_iff n.recipient_id r).0 who)
                    (contains-keep _ input.recipient_ids r k (rw left refl)) in
                rw (own, among) (rw own (rw who (rw (==_refl out.now) refl))))
              (clash-told out.fresh_id out.now input.recipient_ids (rows ++ new)
                (inserted-clash out.fresh_id out.fresh_id out.now out.now input input.recipient_ids
                  rows)
                r k)
      ]

deliver-rows :
    (out : Outside) (input : NotificationDeliveryData) (db : Post)
    → is_no_one input.recipient_ids ≡ false
    → (deliver out input db).0.notifications ≡ (written out input db.notifications).0
unfolding deliver
deliver-rows out input db k =
    let (rows, told) = written out input db.notifications in
    let posted = announce input told (record db { notifications = rows }) in
    let out_of = λ (b : Bool).
      let r : Post × ℕ = if b then (db, 0) else (posted, length told) in r.0.notifications in
    ap out_of k ∙ announce-notifications input told (record db { notifications = rows })

replayed :
    (input : NotificationDeliveryData) (alert_id : ℕ) (url : Option Text)
    → input.source ≡ alert_source alert_id url
    → input.replay ≡ true
    → replay_of input.replay input.source ≡ some alert_id
replayed input alert_id url e h = ap (λ b. replay_of b input.source) h ∙ ap (replay_of true) e

written-renewed :
    (out : Outside) (alert_id : ℕ) (input : NotificationDeliveryData) (rows : List Notification)
    → replay_of input.replay input.source ≡ some alert_id
    → (written out input rows).0 ≡ (
        let new = inserted_rows (build_rows out.fresh_id out.now input.recipient_ids input) rows in
        update_where
          (is_renewed alert_id (remaining_ids input new))
          (refreshed out input)
          (rows ++ new))
unfolding written
written-renewed out alert_id input rows h =
    let new = inserted_rows (build_rows out.fresh_id out.now input.recipient_ids input) rows in
    ap (λ o. (refresh_for_replay out o input new (rows ++ new)).0) h

someone : (ids : List ℕ) (r : ℕ) → contains ids r ≡ true → is_no_one ids ≡ false
someone [] r k = cc
someone (s ∷ rest) r k = refl

-- After a delivery for an alert that asks for a replay, every recipient has a notification of the alert
-- that is not read and has the date of the delivery, also who had one before.
pub deliver-told :
    (out : Outside) (alert_id : ℕ) (url : Option Text) (input : NotificationDeliveryData)
    (db : Post)
    → input.source ≡ alert_source alert_id url
    → input.replay ≡ true
    → all
        (λ r. any (is_told alert_id out.now r) (deliver out input db).0.notifications)
        input.recipient_ids
      ≡ true
deliver-told out alert_id url input db e h = all_members _ input.recipient_ids (λ r k.
    rw
      (
        deliver-rows out input db (someone input.recipient_ids r k),
        written-renewed out alert_id input db.notifications (replayed input alert_id url e h),
      )
      (renewed-told alert_id url input e out db.notifications r k))
