-- ===== src/Risk/Tests.antt =====
-- Runs of the score on two lecturers' evaluations, and the theorems at them.
use fcare.Base.{◌≤◌, ◌≡◌, refl, some, List, [], ◌∷◌, arith, Permᴰ}
use fcare.Risk.{
  EvaluationInput, p_psychological, p_dropout_intent, compute_risk_score, median2, level_from_drs,
  band_points, score_band, sort, insert, attendance_score, recorded_sessions, sum_criteria,
  marked_criteria, add_all, add, criterion_points,
}
use fcare.Risk.Order.{compute_risk_score-perm}
use fcare.Risk.Levels.{compute_risk_score_bounds}
use fcare.Risk.Worse.{IsWorse, no_lecturer, lecturer, compute_risk_score_mono}

abbrev calm : EvaluationInput
calm = record { academic_score = 8; attitude_score = 7; absent_sessions = some 1; criteria = [] }

abbrev worried : EvaluationInput
worried = record {
  academic_score = 3;
  attitude_score = 4;
  absent_sessions = some 3;
  criteria = p_psychological ∷ p_dropout_intent ∷ [];
}

abbrev two_lecturers : List EvaluationInput
two_lecturers = calm ∷ worried ∷ []

test_drs : (compute_risk_score two_lecturers).drs ≡ 19
unfolding compute_risk_score band_points score_band median2 sort insert attendance_score
    recorded_sessions sum_criteria marked_criteria add_all add criterion_points
test_drs = refl

test_level : (compute_risk_score (calm ∷ calm ∷ [])).drs_level ≡ 1
unfolding compute_risk_score level_from_drs band_points score_band median2 sort insert
    attendance_score recorded_sessions sum_criteria marked_criteria add_all
test_level = refl

swapped : Permᴰ two_lecturers (worried ∷ calm ∷ [])
swapped = Permᴰ.swap refl refl

worse : IsWorse calm worried
worse = record {
  academic = omega arith;
  attitude = omega arith;
  absent = omega arith;
  criteria = λ c h. ground (arith, h);
}

same_worried : IsWorse worried worried
same_worried = record {
  academic = omega arith;
  attitude = omega arith;
  absent = omega arith;
  criteria = λ c h. h;
}

compute_risk_score-perm_example :
    (compute_risk_score two_lecturers).drs ≡ (compute_risk_score (worried ∷ calm ∷ [])).drs
compute_risk_score-perm_example = (compute_risk_score-perm swapped).0

compute_risk_score_bounds_example : (compute_risk_score two_lecturers).drs ≤ 50
compute_risk_score_bounds_example = (compute_risk_score_bounds two_lecturers).6

compute_risk_score_mono_example :
    (compute_risk_score two_lecturers).drs ≤ (compute_risk_score (worried ∷ worried ∷ [])).drs
compute_risk_score_mono_example =
    (compute_risk_score_mono (lecturer worse (lecturer same_worried no_lecturer))).0
