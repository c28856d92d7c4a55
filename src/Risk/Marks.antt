-- ===== src/Risk/Marks.antt =====
-- The set of marked criteria: its points are those of the criteria that somebody marked, each once.
use fcare.Base.{
  ℕ, ◌+◌, ◌≤◌, ◌≡◌, refl, sym, ap, ◌∙◌, Bool, true, false, ◌||◌, List, [], ◌∷◌, ◌++◌, Permᴰ, arith,
  if◌then◌else◌, any, any-append, Bool-cases, inl, inr, ◌==◌,
}
use mathlib.Core.Path.{fun_ext}
use fcare.Risk.{
  EvaluationCriterion, p_not_fit_major, p_part_time_job, p_other_activities, p_family_hardship,
  p_financial_hardship, p_psychological, p_dropout_intent, h_no_quiz_cms, h_exam_ban_risk,
  h_no_response, criterion_points, Prefix, personal, study, starts_with, EvaluationInput, index,
  same, has, add, add_all, all_criteria, marked_criteria, sum_criteria,
}

abbrev part : Prefix → (EvaluationCriterion → Bool) → EvaluationCriterion → ℕ
part prefix m c = if m c then (if starts_with c prefix then criterion_points c else 0) else 0

-- The points of every criterion that a test picks, in the order of the enumeration.
pub points_of : Prefix → (EvaluationCriterion → Bool) → ℕ
points_of prefix m =
    part prefix m p_not_fit_major
    + part prefix m p_part_time_job
    + part prefix m p_other_activities
    + part prefix m p_family_hardship
    + part prefix m p_financial_hardship
    + part prefix m p_psychological
    + part prefix m p_dropout_intent
    + part prefix m h_no_quiz_cms
    + part prefix m h_exam_ban_risk
    + part prefix m h_no_response

-- One more criterion adds its points, unless it was picked already.
points_of-insert :
    (prefix : Prefix) (m : EvaluationCriterion → Bool) (c : EvaluationCriterion)
    → m c ≡ false
    → points_of prefix (λ x. same c x || m x)
      ≡ points_of prefix m + (if starts_with c prefix then criterion_points c else 0)
unfolding points_of
points_of-insert prefix m p_not_fit_major h = rw h (omega arith)
points_of-insert prefix m p_part_time_job h = rw h (omega arith)
points_of-insert prefix m p_other_activities h = rw h (omega arith)
points_of-insert prefix m p_family_hardship h = rw h (omega arith)
points_of-insert prefix m p_financial_hardship h = rw h (omega arith)
points_of-insert prefix m p_psychological h = rw h (omega arith)
points_of-insert prefix m p_dropout_intent h = rw h (omega arith)
points_of-insert prefix m h_no_quiz_cms h = rw h (omega arith)
points_of-insert prefix m h_exam_ban_risk h = rw h (omega arith)
points_of-insert prefix m h_no_response h = rw h (omega arith)

or_swap : (a b : Bool) → (a || (b || false)) ≡ (b || a)
or_swap a b = ground arith

has-add_new :
    (s : List EvaluationCriterion) (c : EvaluationCriterion)
    → has s c ≡ false
    → (x : EvaluationCriterion) → has (add s c) x ≡ (same c x || has s x)
unfolding add
has-add_new s c h x = rw h (any-append (λ y. same y x) s (c ∷ []) ∙ or_swap (has s x) (same c x))

sum-append :
    (xs ys : List EvaluationCriterion) (prefix : Prefix)
    → sum_criteria (xs ++ ys) prefix ≡ sum_criteria xs prefix + sum_criteria ys prefix
unfolding sum_criteria
sum-append [] ys prefix = omega arith
sum-append (x ∷ xs) ys prefix = omega (arith, sum-append xs ys prefix)

sum-add_new :
    (prefix : Prefix) (s : List EvaluationCriterion) (c : EvaluationCriterion)
    → has s c ≡ false
    → sum_criteria (add s c) prefix
      ≡ sum_criteria s prefix + (if starts_with c prefix then criterion_points c else 0)
unfolding add sum_criteria
sum-add_new prefix s c h = rw h (sum-append s (c ∷ []) prefix ∙ omega arith)

-- What a `Set` built by insertions satisfies: its sum is that of its members.
abbrev Sums : Prefix → List EvaluationCriterion → Type 0
Sums prefix s = sum_criteria s prefix ≡ points_of prefix (has s)

add-Sums :
    (prefix : Prefix) (s : List EvaluationCriterion) (c : EvaluationCriterion)
    → Sums prefix s
    → Sums prefix (add s c)
add-Sums prefix s c h = elim (Bool-cases (has s c)) [
  | inl old ↦ unfold add in rw old h
  | inr new ↦
      let members : has (add s c) ≡ (λ x. same c x || has s x) = fun_ext (has-add_new s c new) in
      rw members (sum-add_new prefix s c new ∙ (rw h (sym (points_of-insert prefix (has s) c new))))
]

add_all-Sums :
    (prefix : Prefix) (s cs : List EvaluationCriterion) → Sums prefix s → Sums prefix (add_all s cs)
unfolding add_all
add_all-Sums prefix s [] h = h
add_all-Sums prefix s (c ∷ cs) h = add_all-Sums prefix (add s c) cs (add-Sums prefix s c h)

empty-Sums : (prefix : Prefix) → Sums prefix []
unfolding sum_criteria points_of
empty-Sums prefix = refl

has_cong :
    (s : List EvaluationCriterion) (c x : EvaluationCriterion)
    → index c ≡ index x
    → has s c ≡ has s x
has_cong s c x e = λ i. any (λ y. index y == e i) s

-- Whether a criterion is in the set: it was there, or it is the one inserted.
has-add :
    (s : List EvaluationCriterion) (c x : EvaluationCriterion)
    → has (add s c) x ≡ (same c x || has s x)
has-add s c x = elim (Bool-cases (has s c)) [
  | inl old ↦ unfold add in rw old (ground (arith, has_cong s c x))
  | inr new ↦ has-add_new s c new x
]

swapped : (a b c : Bool) → (a || (b || c)) ≡ (b || (a || c))
swapped a b c = ground arith

has-add_all :
    (s cs : List EvaluationCriterion) (x : EvaluationCriterion)
    → has (add_all s cs) x ≡ (has s x || has cs x)
unfolding add_all
has-add_all s [] x = ground arith
has-add_all s (c ∷ cs) x = ground (arith, has-add_all (add s c) cs x, has-add s c x)

has-marked_criteria :
    (inputs : List EvaluationInput) (x : EvaluationCriterion)
    → has (marked_criteria inputs) x ≡ has (all_criteria inputs) x
unfolding marked_criteria
has-marked_criteria inputs x = has-add_all [] (all_criteria inputs) x

-- Some evaluation marks the criterion.
unfoldable pub is_marked : List EvaluationInput → EvaluationCriterion → Bool
is_marked inputs c = any (λ item. has item.criteria c) inputs

has-all_criteria :
    (inputs : List EvaluationInput) (x : EvaluationCriterion)
    → has (all_criteria inputs) x ≡ is_marked inputs x
unfolding is_marked
has-all_criteria [] x = refl
has-all_criteria (item ∷ items) x =
    any-append (λ y. same y x) item.criteria (all_criteria items)
    ∙ ap (λ b. has item.criteria x || b) (has-all_criteria items x)

pub marked_criteria_iff :
    (inputs : List EvaluationInput) → has (marked_criteria inputs) ≡ is_marked inputs
marked_criteria_iff inputs = fun_ext (λ x. has-marked_criteria inputs x ∙ has-all_criteria inputs x)

marked_criteria-Sums :
    (inputs : List EvaluationInput) (prefix : Prefix) → Sums prefix (marked_criteria inputs)
unfolding marked_criteria
marked_criteria-Sums inputs prefix =
    add_all-Sums prefix [] (all_criteria inputs) (empty-Sums prefix)

-- The sum over the set is the sum over the criteria that somebody marks: no criterion counts twice,
-- however many lecturers mark it and in whatever order.
pub sum_criteria-marked :
    (inputs : List EvaluationInput) (prefix : Prefix)
    → sum_criteria (marked_criteria inputs) prefix ≡ points_of prefix (is_marked inputs)
sum_criteria-marked inputs prefix =
    marked_criteria-Sums inputs prefix ∙ ap (points_of prefix) (marked_criteria_iff inputs)

is_marked-perm :
    {xs ys : List EvaluationInput}
    → Permᴰ xs ys
    → (c : EvaluationCriterion) → is_marked xs c ≡ is_marked ys c
unfolding is_marked
is_marked-perm Permᴰ.nil c = refl
is_marked-perm (Permᴰ.cons {l₂ = l} e p) c = λ i. has ((e i).criteria) c || is_marked-perm p c i
is_marked-perm (Permᴰ.swap {a} {b} {a'} {b'} {l} e f) c =
    swapped (has a.criteria c) (has b.criteria c) (is_marked l c)
    ∙ (λ i. has ((f i).criteria) c || (has ((e i).criteria) c || is_marked l c))
is_marked-perm (Permᴰ.trans p q) c = is_marked-perm p c ∙ is_marked-perm q c

pub sum_criteria-perm :
    {xs ys : List EvaluationInput} (prefix : Prefix)
    → Permᴰ xs ys
    → sum_criteria (marked_criteria xs) prefix ≡ sum_criteria (marked_criteria ys) prefix
sum_criteria-perm {xs} {ys} prefix p =
    sum_criteria-marked xs prefix
    ∙ ap (points_of prefix) (fun_ext (is_marked-perm p))
    ∙ sym (sum_criteria-marked ys prefix)

-- The most that a part of the criteria can add.
pub points_of_le :
    (m : EvaluationCriterion → Bool) → (points_of personal m ≤ 21) × (points_of study m ≤ 9)
unfolding points_of criterion_points
points_of_le m = (ground arith, ground arith)

-- The intention to drop out alone weighs nine points.
pub dropout_points :
    (m : EvaluationCriterion → Bool) → m p_dropout_intent ≡ true → 9 ≤ points_of personal m
unfolding points_of criterion_points
dropout_points m h = rw h (omega arith)

part_mono :
    (prefix : Prefix) (m n : EvaluationCriterion → Bool) (c : EvaluationCriterion)
    → (m c ≡ true → n c ≡ true)
    → part prefix m c ≤ part prefix n c
part_mono prefix m n c h = ground arith

-- More criteria add at least as many points.
pub points_of_mono :
    (prefix : Prefix) (m n : EvaluationCriterion → Bool)
    → ((c : EvaluationCriterion) → m c ≡ true → n c ≡ true)
    → points_of prefix m ≤ points_of prefix n
unfolding points_of
points_of_mono prefix m n h =
    let below = λ (c : EvaluationCriterion). part_mono prefix m n c (h c) in
    omega (
      arith,
      below p_not_fit_major,
      below p_part_time_job,
      below p_other_activities,
      below p_family_hardship,
      below p_financial_hardship,
      below p_psychological,
      below p_dropout_intent,
      below h_no_quiz_cms,
      below h_exam_ban_risk,
      below h_no_response,
    )
