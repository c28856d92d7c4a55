-- ===== src/Risk/Levels.antt =====
-- The range of the score, and the level that it gives.
use fcare.Base.{ℕ, ◌+◌, ◌≤◌, ◌≡◌, true, List, arith}
use fcare.Risk.{
  EvaluationInput, p_dropout_intent, score_band, band_points, median_points, total_drs,
  compute_risk_score, level_from_drs, data_forced, recorded_sessions, personal, study,
}
use fcare.Risk.Attendance.{attendance_score_le, attendance_score-max_iff}
use fcare.Risk.Marks.{is_marked, sum_criteria-marked, points_of_le, dropout_points}

pub level_from_drs_mono : (m n : ℕ) → m ≤ n → level_from_drs m ≤ level_from_drs n
unfolding level_from_drs
level_from_drs_mono m n h = ground arith

level_from_drs_bounds : (n : ℕ) → (1 ≤ level_from_drs n) × (level_from_drs n ≤ 4)
unfolding level_from_drs
level_from_drs_bounds n = ground arith

median_points_le : (scores : List ℕ) → median_points scores ≤ 4
unfolding median_points band_points score_band
median_points_le scores = ground arith

-- The score is the sum of its five points, which have their own limits, so it is at most 50; the
-- level is 1 to 4.
pub compute_risk_score_bounds :
    (inputs : List EvaluationInput)
    → let r = compute_risk_score inputs in
      (r.drs ≡ r.rl + r.ra + r.rc + r.rh + r.rp)
      × (r.rl ≤ 4)
      × (r.ra ≤ 4)
      × (r.rc ≤ 12)
      × (r.rh ≤ 9)
      × (r.rp ≤ 21)
      × (r.drs ≤ 50)
      × (1 ≤ r.drs_level)
      × (r.drs_level ≤ 4)
unfolding compute_risk_score
compute_risk_score_bounds inputs =
    let b = points_of_le (is_marked inputs) in
    omega (
      arith,
      median_points_le,
      attendance_score_le (recorded_sessions inputs),
      sum_criteria-marked inputs personal,
      sum_criteria-marked inputs study,
      level_from_drs_bounds (total_drs inputs),
    )

-- The level forced by attendance never exceeds the level of the score.
pub data_forced_level-le :
    (inputs : List EvaluationInput)
    → (compute_risk_score inputs).data_forced_level ≤ (compute_risk_score inputs).drs_level
unfolding compute_risk_score data_forced level_from_drs
data_forced_level-le inputs = ground (arith, attendance_score-max_iff (recorded_sessions inputs))

-- One lecturer's mark that the student means to drop out puts the student at level 3 or above.
pub dropout_level :
    (inputs : List EvaluationInput)
    → is_marked inputs p_dropout_intent ≡ true
    → 3 ≤ (compute_risk_score inputs).drs_level
unfolding compute_risk_score level_from_drs
dropout_level inputs h =
    ground (arith, sum_criteria-marked inputs personal, dropout_points (is_marked inputs) h)
