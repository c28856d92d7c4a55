-- ===== src/Risk/Worse.antt =====
-- A worse evaluation never lowers the score of the term.
use fcare.Base.{
  ℕ, zero, suc, ◌-◌, ◌/◌, ◌≤◌, ◌≡◌, refl, Bool, true, ◌||◌, List, [], ◌∷◌, Option, none, some,
  arith, leb, length, get_or, Bool-cases, inl, inr,
}
use fcare.Risk.{
  EvaluationCriterion, EvaluationInput, insert, sort, median2, score_band, band_points,
  median_points, has, academic_scores, attitude_scores, total_drs, compute_risk_score,
  recorded_sessions, sum_criteria, marked_criteria, Prefix, personal, study,
}
use fcare.Risk.Attendance.{AtMost, none_left, one_more, AtMost-length, attendance_score_mono}
use fcare.Risk.Counts.{count_in, recorded-cons}
use fcare.Risk.Marks.{is_marked, sum_criteria-marked, points_of_mono}
use fcare.Risk.Levels.{level_from_drs_mono}

abbrev IsHead : ℕ → List ℕ → Type 0
IsHead a [] = Unit
IsHead a (x ∷ xs) = a ≤ x

abbrev IsSorted : List ℕ → Type 0
IsSorted [] = Unit
IsSorted (x ∷ xs) = IsHead x xs × IsSorted xs

insert-IsSorted : (x : ℕ) (l : List ℕ) → IsSorted l → IsSorted (insert x l)
unfolding insert
insert-IsSorted x [] h = (tt, tt)
insert-IsSorted x (y ∷ []) h = ground arith
insert-IsSorted x (y ∷ z ∷ l) h = ground (arith, insert-IsSorted x (z ∷ l) h.1)

sort-IsSorted : (xs : List ℕ) → IsSorted (sort xs)
unfolding sort
sort-IsSorted [] = tt
sort-IsSorted (x ∷ xs) = insert-IsSorted x (sort xs) (sort-IsSorted xs)

insert_head : (a : ℕ) (l : List ℕ) → IsHead a l → insert a l ≡ a ∷ l
unfolding insert
insert_head a [] h = refl
insert_head a (x ∷ xs) h = ground arith

insert-AtMost :
    (x y : ℕ) {l m : List ℕ}
    → x ≤ y
    → AtMost l m
    → IsSorted l
    → IsSorted m
    → AtMost (insert x l) (insert y m)
unfolding insert
insert-AtMost x y h none_left s t = one_more h none_left
insert-AtMost x y h (one_more {m = a} {n = b} {ms = l} {ns = m} p r) s t =
    elim (Bool-cases (leb x a)) [
      | inl small ↦ elim (Bool-cases (leb y b)) [
        | inl low ↦ rw small (rw low (one_more h (one_more p r)))
        | inr high ↦
            let rest = insert-AtMost a y {l = l} {m = m} (ground arith) r s.1 t.1 in
            rw small (rw high (one_more (ground arith) (rw (insert_head a l s.0) at rest)))
      ]
      | inr large ↦ elim (Bool-cases (leb y b)) [
        | inl low ↦
            let rest = insert-AtMost x b {l = l} {m = m} (ground arith) r s.1 t.1 in
            rw large (rw low (one_more (ground arith) (rw (insert_head b m t.0) at rest)))
        | inr high ↦ rw large (rw high (one_more p (insert-AtMost x y {l = l} {m = m} h r s.1 t.1)))
      ]
    ]

sort-AtMost : {xs ys : List ℕ} → AtMost xs ys → AtMost (sort xs) (sort ys)
unfolding sort
sort-AtMost none_left = none_left
sort-AtMost (one_more {m = x} {n = y} {ms = xs} {ns = ys} h r) =
    insert-AtMost x y h (sort-AtMost r) (sort-IsSorted xs) (sort-IsSorted ys)

get_or-AtMost : {xs ys : List ℕ} (i : ℕ) → AtMost xs ys → get_or xs i 0 ≤ get_or ys i 0
get_or-AtMost i none_left = omega arith
get_or-AtMost zero (one_more h r) = h
get_or-AtMost (suc i) (one_more h r) = get_or-AtMost i r

-- The median of scores none of which is lower is not lower.
pub median2_mono : (xs ys : List ℕ) → AtMost xs ys → median2 xs ≤ median2 ys
unfolding median2
median2_mono xs ys r =
    let s = sort-AtMost r in
    rw (AtMost-length r, AtMost-length s)
      (ground
        (arith, get_or-AtMost (length (sort ys) / 2) s, get_or-AtMost (length (sort ys) / 2 - 1) s))

band_points_antitone : (m n : ℕ) → m ≤ n → band_points (score_band n) ≤ band_points (score_band m)
unfolding band_points score_band
band_points_antitone m n h = ground arith

median_points_antitone : (xs ys : List ℕ) → AtMost xs ys → median_points ys ≤ median_points xs
unfolding median_points
median_points_antitone xs ys r =
    ground (
      arith,
      AtMost-length r,
      band_points_antitone (median2 xs) (median2 ys) (median2_mono xs ys r),
    )

-- The same lecturer recorded at least as many absences, or still none.
abbrev pub MoreAbsent : Option ℕ → Option ℕ → Type 0
MoreAbsent none none = Unit
MoreAbsent (some m) (some n) = m ≤ n
MoreAbsent _ _ = ⊥

-- The same evaluation, or a worse one: no higher scores, more absences, more criteria.
pub record IsWorse (old new : EvaluationInput) : Type 0 where
  pub academic : new.academic_score ≤ old.academic_score
  pub attitude : new.attitude_score ≤ old.attitude_score
  pub absent : MoreAbsent old.absent_sessions new.absent_sessions
  pub criteria : (c : EvaluationCriterion) → has old.criteria c ≡ true → has new.criteria c ≡ true

pub data Worsened : List EvaluationInput → List EvaluationInput → Type 0 where
  no_lecturer : Worsened [] []
  lecturer :
      {old new : EvaluationInput} {olds news : List EvaluationInput}
      → IsWorse old new
      → Worsened olds news
      → Worsened (old ∷ olds) (new ∷ news)

academic-AtMost :
    {olds news : List EvaluationInput}
    → Worsened olds news
    → AtMost (academic_scores news) (academic_scores olds)
academic-AtMost no_lecturer = none_left
academic-AtMost (lecturer w r) = one_more w.academic (academic-AtMost r)

attitude-AtMost :
    {olds news : List EvaluationInput}
    → Worsened olds news
    → AtMost (attitude_scores news) (attitude_scores olds)
attitude-AtMost no_lecturer = none_left
attitude-AtMost (lecturer w r) = one_more w.attitude (attitude-AtMost r)

count_in-AtMost :
    (o p : Option ℕ) {ms ns : List ℕ}
    → MoreAbsent o p
    → AtMost ms ns
    → AtMost (count_in o ms) (count_in p ns)
count_in-AtMost none none h r = r
count_in-AtMost (some m) (some n) h r = one_more h r
count_in-AtMost none (some n) h r = elim h [ ]
count_in-AtMost (some m) none h r = elim h [ ]

sessions-AtMost :
    {olds news : List EvaluationInput}
    → Worsened olds news
    → AtMost (recorded_sessions olds) (recorded_sessions news)
sessions-AtMost no_lecturer = unfold recorded_sessions in none_left
sessions-AtMost (lecturer {old} {new} {olds} {news} w r) =
    rw (recorded-cons old olds, recorded-cons new news)
      (count_in-AtMost old.absent_sessions new.absent_sessions w.absent (sessions-AtMost r))

or_mono :
    (a b a' b' : Bool)
    → (a ≡ true → a' ≡ true)
    → (b ≡ true → b' ≡ true)
    → (a || b) ≡ true
    → (a' || b') ≡ true
or_mono a b a' b' f g h = ground arith

is_marked-Worsened :
    {olds news : List EvaluationInput}
    → Worsened olds news
    → (c : EvaluationCriterion) → is_marked olds c ≡ true
    → is_marked news c ≡ true
unfolding is_marked
is_marked-Worsened no_lecturer c h = h
is_marked-Worsened (lecturer {old} {new} {olds} {news} w r) c h =
    or_mono (has old.criteria c) (is_marked olds c) (has new.criteria c) (is_marked news c)
      (w.criteria c) (is_marked-Worsened r c) h

sum_criteria-Worsened :
    {olds news : List EvaluationInput} (prefix : Prefix)
    → Worsened olds news
    → sum_criteria (marked_criteria olds) prefix ≤ sum_criteria (marked_criteria news) prefix
sum_criteria-Worsened {olds} {news} prefix r =
    rw (sum_criteria-marked olds prefix, sum_criteria-marked news prefix)
      (points_of_mono prefix (is_marked olds) (is_marked news) (is_marked-Worsened r))

-- If no evaluation of a list is better in another, and the lecturers who recorded absences are the
-- same, the other list has at least the score and the level.
pub compute_risk_score_mono :
    {olds news : List EvaluationInput}
    → Worsened olds news
    → ((compute_risk_score olds).drs ≤ (compute_risk_score news).drs)
      × ((compute_risk_score olds).drs_level ≤ (compute_risk_score news).drs_level)
unfolding compute_risk_score
compute_risk_score_mono {olds} {news} r =
    let more : total_drs olds ≤ total_drs news = omega (
      arith,
      median_points_antitone (academic_scores news) (academic_scores olds) (academic-AtMost r),
      median_points_antitone (attitude_scores news) (attitude_scores olds) (attitude-AtMost r),
      attendance_score_mono (recorded_sessions olds) (recorded_sessions news) (sessions-AtMost r),
      sum_criteria-Worsened personal r,
      sum_criteria-Worsened study r,
    ) in
    (more, level_from_drs_mono (total_drs olds) (total_drs news) more)
