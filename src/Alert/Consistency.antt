-- ===== src/Alert/Consistency.antt =====
-- Consistent alerts: one id, one alert; and at most one unresolved alert of a student, section and term.
-- What updates and appends keep of it.
use fcare.Base.{
  ℕ, ◌≤◌, ◌≡◌, sym, Bool, true, not, ◌||◌, Option, List, [], ◌∷◌, ◌++◌, ◌==◌, arith, opt_eq, all,
  count, count-append, update_where, and_split, implies, count-update_where, all_of, Bool-cases,
  inl, inr, ==_iff, opt_eq_iff,
}
use fcare.Alert.{Alert}
use fcare.Alert.Service.{is_open_for}

pub record IsConsistent (alerts : List Alert) : Type 0 where
  pub one_id : (id : ℕ) → count (λ a. a.id == id) alerts ≤ 1
  pub one_open :
      (student : ℕ) (section term : Option ℕ) → count (is_open_for student section term) alerts ≤ 1

-- An update of the rows of one id that keeps ids and opens no alert for a key.
pub update-IsConsistent :
    (i : ℕ) (f : Alert → Alert) (xs : List Alert)
    → ((a : Alert) → (f a).id ≡ a.id)
    → ((student : ℕ) (section term : Option ℕ)
        → all
            (λ a.
              not (a.id == i)
              || implies
                  (is_open_for student section term (f a))
                  (is_open_for student section term a))
            xs
          ≡ true)
    → IsConsistent xs
    → IsConsistent (update_where (λ a. a.id == i) f xs)
update-IsConsistent i f xs g k s = record {
  one_id = λ id. omega (
    arith,
    s.one_id id,
    count-update_where (λ a. a.id == id) (λ a. a.id == i) f xs
        (all_of _ xs (λ a. rw (g a) (ground arith))),
  );
  one_open = λ student section term. omega (
    arith,
    s.one_open student section term,
    count-update_where (is_open_for student section term) (λ a. a.id == i) f xs
        (k student section term),
  );
}

implies_refl : (b : Bool) → implies b b ≡ true
implies_refl b = ground arith

open_key :
    (a : Alert) (student : ℕ) (section term : Option ℕ)
    → is_open_for student section term a ≡ true
    → (student ≡ a.student_id) × (section ≡ a.class_section_id) × (term ≡ a.term)
open_key a student section term h =
    let (own, rest) = and_split (a.student_id == student) _ h in
    let (taught, rest') = and_split (opt_eq a.class_section_id section) _ rest in
    let (held, _) = and_split (opt_eq a.term term) _ rest' in
    (
      sym ((==_iff a.student_id student).0 own),
      sym ((opt_eq_iff a.class_section_id section).0 taught),
      sym ((opt_eq_iff a.term term).0 held),
    )

-- A new alert of an id that is not in use, for a key without an open alert.
pub append-IsConsistent :
    (new : Alert) (xs : List Alert)
    → count (λ a. a.id == new.id) xs ≡ 0
    → count (is_open_for new.student_id new.class_section_id new.term) xs ≡ 0
    → IsConsistent xs
    → IsConsistent (xs ++ new ∷ [])
append-IsConsistent new xs fresh closed s = record {
  one_id = λ id. elim (Bool-cases (new.id == id)) [
    | inl same ↦
        rw
          (sym ((==_iff new.id id).0 same), count-append (λ a. a.id == new.id) xs (new ∷ []), fresh)
          (ground arith)
    | inr other ↦
        rw (count-append (λ a. a.id == id) xs (new ∷ []), other) (omega (arith, s.one_id id))
  ];
  one_open = λ student section term. elim (Bool-cases (is_open_for student section term new)) [
    | inl same ↦
        let (e, f, g) = open_key new student section term same in
        rw
          (
            e,
            f,
            g,
            count-append (is_open_for new.student_id new.class_section_id new.term) xs (new ∷ []),
            closed,
          )
          (ground arith)
    | inr other ↦
        rw (count-append (is_open_for student section term) xs (new ∷ []), other)
          (omega (arith, s.one_open student section term))
  ];
}
