-- ===== src/Risk.antt =====
-- packages/shared-types/src/evaluations.ts and risk-score.ts: the score of a student's term (DRS).
-- A score may be a half, since a median can be: it is a number of halves wherever it is written
-- `score2` or `median2`, so that 7.5 is 15. Scores and counts are not negative (the DTO's 1..10).
pub mod Median
pub mod Marks
mod Counts
pub mod Attendance
pub mod Levels
pub mod Order
pub mod Worse
mod Tests
use fcare.Base.{
  ℕ, ◌+◌, ◌-◌, ◌*◌, ◌/◌, ◌%◌, max, Bool, true, false, ◌&&◌, ◌||◌, not, Option, none, some, List, [],
  ◌∷◌, ◌++◌, map, ltb, leb, ◌==◌, if◌then◌else◌, length, get_or, any, all, keep,
}

pub data ScoreBand : Type 0 where
  band_10_9 band_8_7 band_6_5 band_4_3 band_2_1 : ScoreBand

-- `Math.round`, of a number of halves: a half is rounded up.
abbrev pub round : ℕ → ℕ
round score2 = (score2 + 1) / 2

-- The first floor of `BAND_FLOORS` that the rounded score reaches, and the last band below all.
pub score_band : ℕ → ScoreBand
score_band score2 =
    if leb 9 (round score2)
    then band_10_9
    else if leb 7 (round score2)
    then band_8_7
    else if leb 5 (round score2)
    then band_6_5
    else if leb 3 (round score2)
    then band_4_3
    else band_2_1

pub data EvaluationCriterion : Type 0 where
  p_not_fit_major p_part_time_job p_other_activities p_family_hardship : EvaluationCriterion
  p_financial_hardship p_psychological p_dropout_intent : EvaluationCriterion
  h_no_quiz_cms h_exam_ban_risk h_no_response : EvaluationCriterion

-- `EVALUATION_CRITERIA`
abbrev pub evaluation_criteria : List EvaluationCriterion
evaluation_criteria =
    p_not_fit_major ∷ p_part_time_job ∷ p_other_activities ∷ p_family_hardship
    ∷ p_financial_hardship ∷ p_psychological ∷ p_dropout_intent ∷ h_no_quiz_cms ∷ h_exam_ban_risk
    ∷ h_no_response ∷ []

-- The position in the enumeration, by which two criteria are compared.
abbrev pub index : EvaluationCriterion → ℕ
index p_not_fit_major = 0
index p_part_time_job = 1
index p_other_activities = 2
index p_family_hardship = 3
index p_financial_hardship = 4
index p_psychological = 5
index p_dropout_intent = 6
index h_no_quiz_cms = 7
index h_exam_ban_risk = 8
index h_no_response = 9

abbrev pub same : EvaluationCriterion → EvaluationCriterion → Bool
same a b = index a == index b

-- `CRITERION_POINTS`
unfoldable pub criterion_points : EvaluationCriterion → ℕ
criterion_points p_not_fit_major = 2
criterion_points p_part_time_job = 2
criterion_points p_other_activities = 1
criterion_points p_family_hardship = 2
criterion_points p_financial_hardship = 2
criterion_points p_psychological = 3
criterion_points p_dropout_intent = 9
criterion_points h_no_quiz_cms = 2
criterion_points h_exam_ban_risk = 3
criterion_points h_no_response = 4

-- The prefix of a criterion's key: `P_` for a personal one, `H_` for one of study.
pub data Prefix : Type 0 where
  personal study : Prefix

abbrev pub starts_with : EvaluationCriterion → Prefix → Bool
starts_with h_no_quiz_cms personal = false
starts_with h_exam_ban_risk personal = false
starts_with h_no_response personal = false
starts_with _ personal = true
starts_with h_no_quiz_cms study = true
starts_with h_exam_ban_risk study = true
starts_with h_no_response study = true
starts_with _ study = false

-- `BAND_POINTS`
unfoldable pub band_points : ScoreBand → ℕ
band_points band_10_9 = 0
band_points band_8_7 = 1
band_points band_6_5 = 2
band_points band_4_3 = 3
band_points band_2_1 = 4

pub record EvaluationInput : Type 0 where
  pub academic_score : ℕ
  pub attitude_score : ℕ
  pub absent_sessions : Option ℕ
  pub criteria : List EvaluationCriterion

-- `[...values].sort((left, right) => left - right)`
pub insert : ℕ → List ℕ → List ℕ
insert x [] = x ∷ []
insert x (y ∷ ys) = if leb x y then x ∷ y ∷ ys else y ∷ insert x ys

pub sort : List ℕ → List ℕ
sort [] = []
sort (x ∷ xs) = insert x (sort xs)

-- Twice the median: the middle value twice, or the sum of the two in the middle.
pub median2 : List ℕ → ℕ
median2 values =
    let sorted = sort values in
    let middle = length sorted / 2 in
    if length values == 0
    then 0
    else if length sorted % 2 == 1
    then 2 * get_or sorted middle 0
    else get_or sorted (middle - 1) 0 + get_or sorted middle 0

-- `levelFromDrs`: an `UrgencyLevel`, 1 to 4
unfoldable pub level_from_drs : ℕ → ℕ
level_from_drs drs = if leb 13 drs then 4 else if leb 9 drs then 3 else if leb 5 drs then 2 else 1

absent_point : ℕ → ℕ
absent_point sessions = if ltb sessions 2 then 0 else if sessions == 2 then 2 else 3

-- `Math.max(...values)`, of a list that has a value
abbrev pub max_of : List ℕ → ℕ
max_of [] = 0
max_of (x ∷ xs) = max x (max_of xs)

-- R_C, the points of attendance
pub attendance_score : List ℕ → ℕ
unfolding absent_point
attendance_score sessions =
    let worst = max_of (map absent_point sessions) in
    if length sessions == 0
    then 0
    else if ltb (length sessions) 2
    then worst
    else if all (leb 3) sessions
    then 12
    else if all (leb 2) sessions
    then 9
    else worst

-- A JavaScript `Set`: values in the order of their first insertion.
abbrev pub has : List EvaluationCriterion → EvaluationCriterion → Bool
has marked c = any (λ x. same x c) marked

pub add : List EvaluationCriterion → EvaluationCriterion → List EvaluationCriterion
add marked c = if has marked c then marked else marked ++ c ∷ []

pub add_all : List EvaluationCriterion → List EvaluationCriterion → List EvaluationCriterion
add_all marked [] = marked
add_all marked (c ∷ cs) = add_all (add marked c) cs

abbrev pub all_criteria : List EvaluationInput → List EvaluationCriterion
all_criteria [] = []
all_criteria (item ∷ items) = item.criteria ++ all_criteria items

-- `new Set(inputs.flatMap((item) => item.criteria))`
pub marked_criteria : List EvaluationInput → List EvaluationCriterion
marked_criteria inputs = add_all [] (all_criteria inputs)

-- `sumCriteria`
pub sum_criteria : List EvaluationCriterion → Prefix → ℕ
sum_criteria [] prefix = 0
sum_criteria (c ∷ cs) prefix =
    (if starts_with c prefix then criterion_points c else 0) + sum_criteria cs prefix

-- The recorded counts: `inputs.map(absentSessions).filter(value !== null)`.
pub recorded_sessions : List EvaluationInput → List ℕ
recorded_sessions [] = []
recorded_sessions (item ∷ items) = elim item.absent_sessions [
  | none ↦ recorded_sessions items
  | some n ↦ n ∷ recorded_sessions items
]

-- A line of `reasons`, with the numbers that its text shows.
pub data Reason : Type 0 where
  academic_reason attitude_reason : (score2 : ℕ) → ScoreBand → (points : ℕ) → Reason
  all_absent : (lecturers points : ℕ) → Reason
  most_absent : (sessions points : ℕ) → Reason
  criterion_reason : EvaluationCriterion → (points : ℕ) → Reason

pub record RiskScoreBreakdown : Type 0 where
  pub rl : ℕ
  pub ra : ℕ
  pub rc : ℕ
  pub rh : ℕ
  pub rp : ℕ
  pub drs : ℕ
  pub drs_level : ℕ
  pub data_forced_level : ℕ
  pub evaluation_count : ℕ
  pub median_academic2 : ℕ
  pub median_attitude2 : ℕ
  pub triggered_criteria : List EvaluationCriterion
  pub reasons : List Reason

-- The points of a median: none without an evaluation.
median_points : List ℕ → ℕ
median_points scores = if length scores == 0 then 0 else band_points (score_band (median2 scores))

abbrev academic_scores : List EvaluationInput → List ℕ
academic_scores inputs = map (λ item. item.academic_score) inputs

abbrev attitude_scores : List EvaluationInput → List ℕ
attitude_scores inputs = map (λ item. item.attitude_score) inputs

pub all_absent_three : List ℕ → Bool
all_absent_three sessions = leb 2 (length sessions) && all (leb 3) sessions

pub data_forced : List ℕ → ℕ
data_forced sessions = if all_absent_three sessions then 3 else 1

reasons_of : List EvaluationInput → List Reason
reasons_of inputs =
    let academic2 = median2 (academic_scores inputs) in
    let attitude2 = median2 (attitude_scores inputs) in
    let sessions = recorded_sessions inputs in
    let rc = attendance_score sessions in
    let scores : List Reason =
      if length inputs == 0
      then []
      else academic_reason academic2 (score_band academic2) (median_points (academic_scores inputs))
        ∷ attitude_reason attitude2 (score_band attitude2) (median_points (attitude_scores inputs))
        ∷ [] in
    let absence : List Reason =
      if rc == 0
      then []
      else if all_absent_three sessions
      then all_absent (length sessions) rc ∷ []
      else most_absent (max_of sessions) rc ∷ [] in
    scores
    ++ (absence ++ map (λ c. criterion_reason c (criterion_points c)) (marked_criteria inputs))

-- The five points of the formula, and their sum.
pub total_drs : List EvaluationInput → ℕ
unfolding median_points
total_drs inputs =
    median_points (academic_scores inputs)
    + median_points (attitude_scores inputs)
    + attendance_score (recorded_sessions inputs)
    + sum_criteria (marked_criteria inputs) study
    + sum_criteria (marked_criteria inputs) personal

pub compute_risk_score : List EvaluationInput → RiskScoreBreakdown
unfolding reasons_of median_points total_drs
compute_risk_score inputs = record {
  rl = median_points (academic_scores inputs);
  ra = median_points (attitude_scores inputs);
  rc = attendance_score (recorded_sessions inputs);
  rh = sum_criteria (marked_criteria inputs) study;
  rp = sum_criteria (marked_criteria inputs) personal;
  drs = total_drs inputs;
  drs_level = level_from_drs (total_drs inputs);
  data_forced_level = data_forced (recorded_sessions inputs);
  evaluation_count = length inputs;
  median_academic2 = median2 (academic_scores inputs);
  median_attitude2 = median2 (attitude_scores inputs);
  triggered_criteria = marked_criteria inputs;
  reasons = reasons_of inputs;
}
