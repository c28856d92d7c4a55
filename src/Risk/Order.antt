-- ===== src/Risk/Order.antt =====
-- The order in which the lecturers' evaluations are read does not matter.
use fcare.Base.{ℕ, ◌≡◌, refl, ap, List, Permᴰ}
use fcare.Risk.{
  EvaluationInput, median_points, total_drs, compute_risk_score, level_from_drs, data_forced,
  personal, study,
}
use fcare.Risk.Median.{median2-perm}
use fcare.Risk.Counts.{length-perm_of, map-perm, recorded_sessions-perm}
use fcare.Risk.Attendance.{attendance_score-perm, all_absent_three-perm}
use fcare.Risk.Marks.{sum_criteria-perm}

median_points-perm : {xs ys : List ℕ} → Permᴰ xs ys → median_points xs ≡ median_points ys
unfolding median_points
median_points-perm p = rw (length-perm_of p, median2-perm p) refl

total_drs-perm : {xs ys : List EvaluationInput} → Permᴰ xs ys → total_drs xs ≡ total_drs ys
unfolding total_drs
total_drs-perm p =
    rw
      (
        median_points-perm (map-perm (λ item. item.academic_score) p),
        median_points-perm (map-perm (λ item. item.attitude_score) p),
        attendance_score-perm (recorded_sessions-perm p),
        sum_criteria-perm study p,
        sum_criteria-perm personal p,
      )
      refl

-- Evaluations read in another order give the same score, urgency level, forced level, count and
-- medians.
pub compute_risk_score-perm :
    {xs ys : List EvaluationInput}
    → Permᴰ xs ys
    → let a = compute_risk_score xs in
      let b = compute_risk_score ys in
      (a.drs ≡ b.drs)
      × (a.drs_level ≡ b.drs_level)
      × (a.data_forced_level ≡ b.data_forced_level)
      × (a.evaluation_count ≡ b.evaluation_count)
      × (a.median_academic2 ≡ b.median_academic2)
      × (a.median_attitude2 ≡ b.median_attitude2)
unfolding compute_risk_score data_forced
compute_risk_score-perm p = (
  total_drs-perm p,
  ap level_from_drs (total_drs-perm p),
  rw (all_absent_three-perm (recorded_sessions-perm p)) refl,
  length-perm_of p,
  median2-perm (map-perm (λ item. item.academic_score) p),
  median2-perm (map-perm (λ item. item.attitude_score) p),
)
