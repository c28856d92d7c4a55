-- ===== src/Attendance/Kept.antt =====
-- A review keeps the alerts consistent: it writes on alerts that are open, and creates where none is.
use fcare.Base.{
  ℕ, suc, ◌≡◌, ◌⊎◌, refl, ap, ◌∙◌, Bool, true, false, not, ◌&&◌, ◌||◌, Option, none, some, List, [],
  ◌∷◌, ◌++◌, ◌==◌, ltb, arith, all, any, update_where, implies, all_imply, all_both,
  all-update_same, all-update_cases, all-snoc, count-zero, none-any, Bool-cases, inl, inr,
}
use fcare.Access.Ability.{is_resolved}
use fcare.Alert.{Alert}
use fcare.Alert.Rows.{Outside}
use fcare.Alert.Service.{is_open_for}
use fcare.Alert.Consistency.{IsConsistent, update-IsConsistent, append-IsConsistent}
use fcare.Attendance.{Enrollment, Surroundings, is_auto, has_key, is_as_high, highest_by_key}
use fcare.Attendance.Review.{refreshed_row, upgraded_row, auto_alert, violates_unique}

-- The entry of a row: one of the alerts, and none only if no alert has the row's key.
pub highest-any :
    (row : Enrollment) (r : Alert → Bool) (current : Option Alert) (xs : List Alert) (c : Alert)
    → highest_by_key row current xs ≡ some c
    → r c ≡ true
    → ((current ≡ some c) ⊎ (any r xs ≡ true))
unfolding highest_by_key
highest-any row r current [] c e h = inl e
highest-any row r current (a ∷ rest) c e h =
    elim (Bool-cases (has_key row a && not (is_as_high current a))) [
      | inl higher ↦ elim (highest-any row r (some a) rest c (rw higher at e) h) [
        | inl same ↦ inr (let fits : r a ≡ true = cc in ground arith)
        | inr later ↦ inr (ground (arith, later))
      ]
      | inr lower ↦ elim (highest-any row r current rest c (rw lower at e) h) [
        | inl same ↦ inl same
        | inr later ↦ inr (ground (arith, later))
      ]
    ]

pub highest-none :
    (row : Enrollment) (current : Option Alert) (xs : List Alert)
    → highest_by_key row current xs ≡ none
    → (current ≡ none) × (all (λ a. not (has_key row a)) xs ≡ true)
unfolding highest_by_key
highest-none row current [] e = (e, refl)
highest-none row current (a ∷ rest) e =
    elim (Bool-cases (has_key row a && not (is_as_high current a))) [
      | inl higher ↦ let (found, _) = highest-none row (some a) rest (rw higher at e) in cc
      | inr lower ↦
          let (before, after) = highest-none row current rest (rw lower at e) in
          let nothing : is_as_high current a ≡ false = ap (λ o. is_as_high o a) before in
          (before, ground (arith, nothing, after))
    ]

-- Among alerts of the ids below `id`: the entries of the map are open, and where a key has no entry, its
-- open alerts were raised by the review.
pub record IsReady (term : ℕ) (opens : List Alert) (id : ℕ) (alerts : List Alert) : Type 0 where
  pub consistent : IsConsistent alerts
  pub below : all (λ a. ltb a.id id) alerts ≡ true
  pub running :
      (row : Enrollment) (c : Alert)
      → highest_by_key row none opens ≡ some c
      → all (λ a. not (a.id == c.id) || not (is_resolved a.status)) alerts ≡ true
  pub own :
      (row : Enrollment)
      → highest_by_key row none opens ≡ none
      → all
          (λ a.
            not (is_open_for row.student_id (some row.class_section.id) (some term) a)
            || is_auto a.source)
          alerts
        ≡ true

-- A revision keeps the key of a row, and resolves nothing.
pub record IsRevision (f : Alert → Alert) : Type 0 where
  id : (a : Alert) → (f a).id ≡ a.id
  student_id : (a : Alert) → (f a).student_id ≡ a.student_id
  class_section_id : (a : Alert) → (f a).class_section_id ≡ a.class_section_id
  term : (a : Alert) → (f a).term ≡ a.term
  source : (a : Alert) → (f a).source ≡ a.source
  status :
      (a : Alert) → implies (not (is_resolved a.status)) (not (is_resolved (f a).status)) ≡ true

open_revised :
    (f : Alert → Alert) (r : IsRevision f) (student : ℕ) (section term : Option ℕ) (a : Alert)
    → is_resolved a.status ≡ false
    → implies (is_open_for student section term (f a)) (is_open_for student section term a) ≡ true
open_revised f r student section term a h =
    rw (r.student_id a, r.class_section_id a, r.term a) (ground (arith, h))

pub revised-IsReady :
    (term : ℕ) (opens : List Alert) (id : ℕ) (row : Enrollment) (c : Alert) (f : Alert → Alert)
    (alerts : List Alert)
    → highest_by_key row none opens ≡ some c
    → IsRevision f
    → IsReady term opens id alerts
    → IsReady term opens id (update_where (λ a. a.id == c.id) f alerts)
revised-IsReady term opens id row c f alerts e r s =
    let open_now = s.running row c e in
    record {
      consistent =
          update-IsConsistent c.id f alerts r.id
            (λ student section t.
              all_imply (λ a. not (a.id == c.id) || not (is_resolved a.status)) _ alerts
                (λ a h. ground (arith, h, open_revised f r student section t a)) open_now)
            s.consistent;
      below =
          all-update_same (λ a. ltb a.id id) (λ a. a.id == c.id) f alerts (λ a. rw (r.id a) refl)
          ∙ s.below;
      running = λ row' c' e'.
          all-update_cases (λ a. not (a.id == c'.id) || not (is_resolved a.status)) _
            (λ a. a.id == c.id) f alerts
            (λ a h. elim (Bool-cases (a.id == c.id)) [
              | inl same ↦ rw same (rw (r.id a) (ground (arith, h, r.status a)))
              | inr other ↦ rw other h
            ])
            (s.running row' c' e');
      own = λ row' e'.
          all-update_cases
            (λ a.
              (not (a.id == c.id) || not (is_resolved a.status))
              && (not (is_open_for row'.student_id (some row'.class_section.id) (some term) a)
                  || is_auto a.source))
            _ (λ a. a.id == c.id) f alerts
            (λ a h. elim (Bool-cases (a.id == c.id)) [
              | inl same ↦ rw same (
                  rw (r.source a) (
                    ground (
                      arith,
                      h,
                      open_revised f r row'.student_id (some row'.class_section.id) (some term) a,
                    )))
              | inr other ↦ rw other (ground (arith, h))
            ])
            (all_both (λ a. not (a.id == c.id) || not (is_resolved a.status)) _ alerts open_now
              (s.own row' e'));
    }

pub refreshed-IsRevision :
    (out : Outside) (around : Surroundings) (term : ℕ) (row : Enrollment) (c : Alert)
    → IsRevision (refreshed_row out around term row c)
refreshed-IsRevision out around term row c = record {
  id = λ a. refl;
  student_id = λ a. refl;
  class_section_id = λ a. refl;
  term = λ a. refl;
  source = λ a. refl;
  status = λ a. ground arith;
}

pub upgraded-IsRevision :
    (out : Outside) (around : Surroundings) (term : ℕ) (row : Enrollment) (c : Alert) (level : ℕ)
    → IsRevision (upgraded_row out around term row c level)
upgraded-IsRevision out around term row c level = record {
  id = λ a. refl;
  student_id = λ a. refl;
  class_section_id = λ a. refl;
  term = λ a. refl;
  source = λ a. refl;
  status = λ a. ground arith;
}

-- A new alert for a key that has no entry, where the unique index lets it in.
pub created-IsReady :
    (out : Outside) (around : Surroundings) (term : ℕ) (opens : List Alert) (id : ℕ)
    (row : Enrollment) (level : ℕ) (alerts : List Alert)
    → highest_by_key row none opens ≡ none
    → any (violates_unique out around term row) alerts ≡ false
    → IsReady term opens id alerts
    → IsReady term opens (suc id) (alerts ++ auto_alert out around term row level id ∷ [])
created-IsReady out around term opens id row level alerts e free s =
    let new = auto_alert out around term row level id in
    record {
      consistent =
          append-IsConsistent new alerts
            (count-zero (λ a. a.id == id) alerts
              (all_imply (λ a. ltb a.id id) _ alerts (λ a h. ground (arith, h)) s.below))
            (count-zero (is_open_for row.student_id (some row.class_section.id) (some term)) alerts
              (all_imply _ _ alerts (λ a h. ground (arith, h))
                (all_both _ _ alerts (s.own row e)
                  (none-any (violates_unique out around term row) alerts free))))
            s.consistent;
      below =
          all-snoc (λ a. ltb a.id (suc id)) alerts new
            (all_imply (λ a. ltb a.id id) _ alerts (λ a h. ground (arith, h)) s.below)
            (ground arith);
      running = λ row' c' e'. all-snoc _ alerts new (s.running row' c' e') (ground arith);
      own = λ row' e'. all-snoc _ alerts new (s.own row' e') (ground arith);
    }

pub later-IsReady :
    (term : ℕ) (opens : List Alert) (id : ℕ) (alerts : List Alert)
    → IsReady term opens id alerts
    → IsReady term opens (suc id) alerts
later-IsReady term opens id alerts s = record {
  consistent = s.consistent;
  below = all_imply (λ a. ltb a.id id) _ alerts (λ a h. ground (arith, h)) s.below;
  running = s.running;
  own = s.own;
}
