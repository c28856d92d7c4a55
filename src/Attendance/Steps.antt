-- ===== src/Attendance/Steps.antt =====
-- Any sequence of requests of the alerts service and of reviews of attendance.
use fcare.Base.{ℕ, ◌≡◌, true, all, ltb}
use fcare.Alert.Rows.{School, Outside}
use fcare.Alert.Consistency.{IsConsistent}
use fcare.Alert.Steps.{Step, Step-IsConsistent}
use fcare.Attendance.{Register, Surroundings, AttendanceReviewOptions}
use fcare.Attendance.Review.{review_term}
use fcare.Attendance.Invariant.{review_term-IsConsistent}

-- A request about alerts, or a review of a term, which takes ids above those in use.
pub data TermStep : Register → Register → Type 0 where
  requested :
      {db : Register} {school : School}
      → Step db.school school
      → TermStep db (record db { school = school })
  reviewed :
      (out : Outside) (around : Surroundings) (term : ℕ) (options : AttendanceReviewOptions)
      {db : Register}
      → all (λ a. ltb a.id out.fresh_id) db.school.alerts ≡ true
      → TermStep db (review_term out around term options db).0

pub data TermSteps : Register → Register → Type 0 where
  no_step : {db : Register} → TermSteps db db
  then_step : {db db' db'' : Register} → TermSteps db db' → TermStep db' db'' → TermSteps db db''

TermStep-IsConsistent :
    {db db' : Register}
    → TermStep db db'
    → IsConsistent db.school.alerts
    → IsConsistent db'.school.alerts
TermStep-IsConsistent (requested step) s = Step-IsConsistent step s
TermStep-IsConsistent (reviewed out around term options {db} below) s =
    review_term-IsConsistent out around term options db below s

-- Whatever requests to raise, acknowledge, resolve or delete alerts (one or several) and whatever reviews
-- of attendance arrive, in any number and order, each as one step: no two alerts have one id, and a student
-- has at most one unresolved alert for each section and term, if it was so before. Sending an analysis is
-- none of these steps.
pub TermSteps-IsConsistent :
    {db db' : Register}
    → TermSteps db db'
    → IsConsistent db.school.alerts
    → IsConsistent db'.school.alerts
TermSteps-IsConsistent no_step s = s
TermSteps-IsConsistent (then_step steps step) s =
    TermStep-IsConsistent step (TermSteps-IsConsistent steps s)
