-- ===== src/Care/Removal.antt =====
-- Deleting a care log keeps the marks on alerts, since the mark goes with its last log.
use fcare.Base.{
  ℕ, ◌≤◌, ◌≡◌, ◌∙◌, refl, sym, ap, true, false, not, ◌&&◌, ◌||◌, inl, inr, Option, some, ◌==◌,
  arith, any, all_both, all-update_cases, all-any, one_all, count-any, all_imply, all_of, any_mono,
  count, count-keep, any-kept, keep, find, is_some, opt_eq, opt_eq_iff, opt_eq_refl, update_where,
  and_split, and_join, Bool-cases, ==_iff,
}
use fcare.Access.{AuthUser}
use fcare.Alert.{Alert}
use fcare.Alert.Rows.{School, CareLog}
use fcare.Alert.Closing.{section_lecturer}
use fcare.Alert.Consistency.{update-IsConsistent}
use fcare.Alert.Steps.{found-all}
use fcare.Care.{is_last_of_owner, unmarked}
use fcare.Care.Marks.{supports, is_cared_by, AllCared}
use fcare.Care.Kept.{IsCaredFor}

-- A log that is like the deleted one supports what the deleted one supports.
not_it :
    (c log : CareLog) (id : ℕ) (lecturer : Option ℕ)
    → ((not (c.id == log.id) || (opt_eq c.alert_id log.alert_id && c.staff_id == log.staff_id))
        && supports id lecturer c)
      ≡ true
    → (opt_eq log.alert_id (some id) && opt_eq lecturer (some log.staff_id)) ≡ false
    → (c.id == log.id) ≡ false
not_it c log id lecturer k other = elim (Bool-cases (c.id == log.id)) [
  | inr apart ↦ apart
  | inl it ↦
      let like : (opt_eq c.alert_id log.alert_id && c.staff_id == log.staff_id) ≡ true =
        ground (arith, k, it) in
      let (same_alert, same_staff) = and_split (opt_eq c.alert_id log.alert_id) _ like in
      let supported : supports id lecturer c ≡ true = ground (arith, k) in
      let clash : (opt_eq log.alert_id (some id) && opt_eq lecturer (some log.staff_id)) ≡ true =
        ap (λ o. opt_eq o (some id) && opt_eq lecturer (some log.staff_id))
          (sym ((opt_eq_iff c.alert_id log.alert_id).0 same_alert))
        ∙ ap (λ n. opt_eq c.alert_id (some id) && opt_eq lecturer (some n))
            (sym ((==_iff c.staff_id log.staff_id).0 same_staff))
        ∙ supported in
      cc
]

abbrev pub left_of : School → CareLog → School
left_of db log = record db { care_logs = keep (λ c. not (c.id == log.id)) db.care_logs }

module _ (user : AuthUser) (db : School) (log : CareLog) (s : IsCaredFor db)
    (there : any
        (λ c. c.id == log.id && (opt_eq c.alert_id log.alert_id && c.staff_id == log.staff_id))
        db.care_logs
      ≡ true) where
  -- An alert that the log does not support has the logs that it had.
  row_kept :
      (x : Alert)
      → is_cared_by db x ≡ true
      → (opt_eq log.alert_id (some x.id)
          && opt_eq (section_lecturer x.class_section_id db) (some log.staff_id))
        ≡ false
      → is_cared_by (left_of db log) x ≡ true
  row_kept x h other =
      let lecturer = section_lecturer x.class_section_id db in
      let same = λ (c : CareLog). opt_eq c.alert_id log.alert_id && c.staff_id == log.staff_id in
      elim (Bool-cases (is_some x.owner_cared_at)) [
        | inr unmarked ↦ rw unmarked refl
        | inl marked ↦
            let supported =
              all-any (λ c. not (c.id == log.id) || same c) (supports x.id lecturer) db.care_logs
                (one_all (λ c. c.id == log.id) same db.care_logs (s.one_log log.id) there)
                (rw marked at h) in
            rw marked (
              any_mono _ (supports x.id lecturer) (left_of db log).care_logs
                (λ c k. (and_split (not (c.id == log.id) || same c) (supports x.id lecturer c) k).1)
                (any-kept _ (λ c. c.id == log.id) db.care_logs
                  (λ c k. not_it c log x.id lecturer k other) supported))
      ]

  pub left-one_log : (id : ℕ) → count (λ c. c.id == id) (left_of db log).care_logs ≤ 1
  left-one_log id =
      omega
        (arith, s.one_log id, count-keep (λ c. c.id == id) (λ c. not (c.id == log.id)) db.care_logs)

  -- Alerts of another id than the log's are not touched by the deletion.
  pub other_kept :
      (x : Alert)
      → is_cared_by db x ≡ true
      → opt_eq log.alert_id (some x.id) ≡ false
      → is_cared_by (left_of db log) x ≡ true
  other_kept x h other = row_kept x h (rw other refl)

  elsewhere :
      (a x : Alert)
      → opt_eq log.alert_id (some a.id) ≡ true
      → (x.id == a.id) ≡ false
      → opt_eq log.alert_id (some x.id) ≡ false
  elsewhere a x linked other =
      rw ((opt_eq_iff log.alert_id (some a.id)).0 linked) (ground (arith, other))

  pub unmarked-IsCaredFor :
      (a : Alert)
      → opt_eq log.alert_id (some a.id) ≡ true
      → IsCaredFor
          (record (left_of db log) { alerts = update_where (λ x. x.id == a.id) unmarked db.alerts })
  unmarked-IsCaredFor a linked = record {
    consistent =
        update-IsConsistent a.id unmarked db.alerts (λ _. refl)
          (λ student sec term. all_of _ db.alerts (λ x. ground arith)) s.consistent;
    one_log = left-one_log;
    marks =
        all-update_cases (is_cared_by db) _ (λ x. x.id == a.id) unmarked db.alerts
          (λ x h. elim (Bool-cases (x.id == a.id)) [
            | inl same ↦ rw same refl
            | inr other ↦ rw other (other_kept x h (elsewhere a x linked other))
          ])
          s.marks;
  }

  -- Where the mark stays, another log of the lecturer is left, or the log was not the lecturer's.
  same_kept :
      (a x : Alert)
      → log.alert_id ≡ some a.id
      → is_last_of_owner log (some a) (left_of db log) ≡ false
      → is_cared_by db x ≡ true
      → x.id ≡ a.id
      → x.owner_cared_at ≡ a.owner_cared_at
      → x.class_section_id ≡ a.class_section_id
      → is_cared_by (left_of db log) x ≡ true
  same_kept a x linked stays h id owner section =
      let lecturer = section_lecturer a.class_section_id db in
      elim (Bool-cases (is_some a.owner_cared_at)) [
        | inr unmarked ↦ rw owner (rw unmarked refl)
        | inl marked ↦ elim (Bool-cases (opt_eq lecturer (some log.staff_id))) [
          | inr another ↦ row_kept x h (rw section (rw another (ground arith)))
          | inl own ↦
              let some_left : (count
                      (λ c. opt_eq c.alert_id (some a.id) && c.staff_id == log.staff_id)
                      (left_of db log).care_logs
                    == 0)
                  ≡ false =
                ground (arith, stays, marked, own) in
              rw (owner, section, id)
                (rw marked (
                  any_mono _ (supports a.id lecturer) (left_of db log).care_logs
                    (λ c k. by_lecturer c k own)
                    (count-any _ (left_of db log).care_logs some_left)))
        ]
      ]
    where
      by_lecturer :
          (c : CareLog)
          → (opt_eq c.alert_id (some a.id) && c.staff_id == log.staff_id) ≡ true
          → opt_eq (section_lecturer a.class_section_id db) (some log.staff_id) ≡ true
          → supports a.id (section_lecturer a.class_section_id db) c ≡ true
      by_lecturer c k own =
          let (on, by) = and_split (opt_eq c.alert_id (some a.id)) _ k in
          and_join {a = opt_eq c.alert_id (some a.id)} on
            (rw ((==_iff c.staff_id log.staff_id).0 by) own)

  pub kept-AllCared :
      (a : Alert)
      → log.alert_id ≡ some a.id
      → find (λ x. x.id == a.id) db.alerts ≡ some a
      → is_last_of_owner log (some a) (left_of db log) ≡ false
      → AllCared (left_of db log)
  kept-AllCared a linked found stays =
      let like = λ (x : Alert).
        opt_eq x.owner_cared_at a.owner_cared_at && opt_eq x.class_section_id a.class_section_id in
      all_imply (λ x. is_cared_by db x && (not (x.id == a.id) || like x)) _ db.alerts
        (λ x h.
          let (before, alike) = and_split (is_cared_by db x) _ h in
          elim (Bool-cases (x.id == a.id)) [
            | inr other ↦
                other_kept x before (elsewhere a x (rw linked (opt_eq_refl (some a.id))) other)
            | inl same ↦
                let (owner, section) =
                  and_split (opt_eq x.owner_cared_at a.owner_cared_at) _ (rw same at alike) in
                same_kept a x linked stays before ((==_iff x.id a.id).0 same)
                  ((opt_eq_iff x.owner_cared_at a.owner_cared_at).0 owner)
                  ((opt_eq_iff x.class_section_id a.class_section_id).0 section)
          ])
        (all_both (is_cared_by db) _ db.alerts s.marks (
          found-all like a.id db.alerts a s.consistent found
            (and_join (opt_eq_refl a.owner_cared_at) (opt_eq_refl a.class_section_id))))
