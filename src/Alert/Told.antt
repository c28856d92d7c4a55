-- ===== src/Alert/Told.antt =====
-- Who is told of an alert: more at a higher level, nobody twice, and not who raised it.
use fcare.Base.{
  ℕ, ◌≤◌, ◌≡◌, ◌∙◌, refl, sym, true, false, not, ◌&&◌, ◌||◌, inl, inr, none, some, List, [], ◌∷◌,
  ◌++◌, ◌==◌, leb, arith, keep, all, count, count-append, contains, any-append, Bool-cases, ==_iff,
}
use fcare.Access.{sa_officer, sa_head, training_officer}
use fcare.Alert.Rows.{School, StaffMember}
use fcare.Alert.Recipients.{
  teaches_student, student_by_id, find_active_staff_by_roles, find_heads_of_student_dept,
  RecipientGroup, collect, others, told, preview_recipient_groups, compute_recipient_ids,
}
use fcare.Alert.Deletion.{distinct-contains}

told-cons :
    (l n : ℕ) (g : RecipientGroup) (groups : List RecipientGroup)
    → contains (told l (g ∷ groups)) n
      ≡ (leb g.min_level l && contains g.members n || contains (told l groups) n)
told-cons l n g groups = elim (Bool-cases (leb g.min_level l)) [
  | inl low ↦ rw low (any-append (λ x. x == n) g.members (told l groups))
  | inr high ↦ rw high refl
]

told_mono :
    (l m n : ℕ) (groups : List RecipientGroup)
    → l ≤ m
    → contains (told l groups) n ≡ true
    → contains (told m groups) n ≡ true
told_mono l m n [] h e = e
told_mono l m n (g ∷ groups) h e =
    told-cons m n g groups
    ∙ ground (arith, sym (told-cons l n g groups) ∙ e, told_mono l m n groups h)

told-none :
    (l n : ℕ) (groups : List RecipientGroup)
    → all (λ g. not (contains g.members n)) groups ≡ true
    → contains (told l groups) n ≡ false
told-none l n [] h = refl
told-none l n (g ∷ groups) h = told-cons l n g groups ∙ ground (arith, told-none l n groups)

no_count : (n : ℕ) (xs : List ℕ) → contains xs n ≡ false → count (λ x. x == n) xs ≡ 0
no_count n [] h = refl
no_count n (x ∷ xs) h = ground (arith, no_count n xs)

one_more :
    (n x : ℕ) (seen : List ℕ)
    → contains seen x ≡ false
    → count (λ y. y == n) seen ≤ 1
    → count (λ y. y == n) (seen ++ x ∷ []) ≤ 1
one_more n x seen new h = elim (Bool-cases (x == n)) [
  | inl same ↦
      let absent : contains seen n ≡ false = rw (sym ((==_iff x n).0 same)) new in
      rw (count-append (λ y. y == n) seen (x ∷ []), same, no_count n seen absent) (ground arith)
  | inr other ↦ rw (count-append (λ y. y == n) seen (x ∷ []), other) (omega (arith, h))
]

collect-count :
    (seen xs : List ℕ) (n : ℕ)
    → count (λ x. x == n) seen ≤ 1
    → count (λ x. x == n) (collect seen xs) ≤ 1
collect-count seen [] n h = h
collect-count seen (x ∷ xs) n h = elim (Bool-cases (contains seen x)) [
  | inl known ↦ rw known (collect-count seen xs n h)
  | inr new ↦ rw new (collect-count (seen ++ x ∷ []) xs n (one_more n x seen new h))
]

others-excludes :
    (user : ℕ) (members : List StaffMember) → contains (others (some user) members) user ≡ false
others-excludes user [] = refl
others-excludes user (m ∷ members) = ground (arith, others-excludes user members)

preview-excludes :
    (student_id user : ℕ) (db : School)
    → all (λ g. not (contains g.members user)) (preview_recipient_groups student_id (some user) db)
      ≡ true
unfolding preview_recipient_groups
preview-excludes student_id user db =
    rw
      (
        others-excludes user
            (keep (λ s. s.is_active && teaches_student (student_by_id student_id db) s) db.staff),
        others-excludes user (find_active_staff_by_roles (sa_officer ∷ sa_head ∷ []) none db),
        others-excludes user (find_heads_of_student_dept student_id db),
        others-excludes user (find_active_staff_by_roles (training_officer ∷ []) none db),
      )
      refl

-- Whoever is told at a level is told at every higher level; nobody is told twice; and who raised the
-- alert is not told.
pub compute_recipient_ids_lem :
    (student_id l m user : ℕ) (db : School)
    → l ≤ m
    → let ids = λ (level : ℕ). compute_recipient_ids student_id level (some user) db in
      ((n : ℕ) → contains (ids l) n ≡ true → contains (ids m) n ≡ true)
      × ((n : ℕ) → count (λ x. x == n) (ids l) ≤ 1)
      × (contains (ids l) user ≡ false)
unfolding compute_recipient_ids
compute_recipient_ids_lem student_id l m user db h =
    let groups = preview_recipient_groups student_id (some user) db in
    (
      λ n e.
          distinct-contains (told m groups) n
          ∙ told_mono l m n groups h (sym (distinct-contains (told l groups) n) ∙ e),
      λ n. collect-count [] (told l groups) n (omega arith),
      distinct-contains (told l groups) user
          ∙ told-none l user groups (preview-excludes student_id user db),
    )
