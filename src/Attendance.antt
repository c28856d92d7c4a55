-- ===== src/Attendance.antt =====
-- apps/api/src/modules/attendance-alerts/attendance-review.service.ts: after an import of attendance, the
-- absences of a term raise, upgrade and refresh alerts. `currentTermBlock` is that of
-- packages/shared-types/src/term-block.ts. Attendance/Review has the service itself. The title and body
-- of a notification are left out of its job; whether a job can be handed on, how a number is written and
-- a term's code are arguments.
mod Review
mod Kept
mod Invariant
mod Steps
mod Tests
use fcare.Base.{
  ℕ, ◌+◌, ◌*◌, suc, Bool, true, false, not, ◌&&◌, ◌||◌, Option, none, some, List, [], ◌∷◌, ◌++◌,
  ◌==◌, ltb, leb, if◌then◌else◌, any, keep, find, count, length, update_where, opt_eq, is_some,
  or_else,
}
use fcare.Base.Texts.{Text}
use fcare.Access.Ability.{AlertStatus, open_status, resolved, is_resolved}
use fcare.Alert.{
  Alert, AlertSource, auto_attendance, manual, ReviewAction, skip_row, unchanged, create_at,
  upgrade_to, refresh_at, OpenAttendanceAlert, decide_action, merged_reason, medium_threshold,
}
use fcare.Alert.Rows.{School, Outside}
use fcare.Alert.Recipients.{compute_recipient_ids}

pub data StudentStatus : Type 0 where
  studying reserved warned dropped_out graduated : StudentStatus

-- A class section with its subject's rate.
pub record ClassSection : Type 0 where
  pub id : ℕ
  pub code : Text
  pub term : ℕ
  pub block : Option ℕ
  pub lecturer_id : Option ℕ
  pub attendance_rate_required : Option ℕ

-- An enrolment with its student's status and its section.
pub record Enrollment : Type 0 where
  pub student_id : ℕ
  pub student_status : StudentStatus
  pub class_section : ClassSection
  pub absent_sessions : Option ℕ

pub record Term : Type 0 where
  pub code : ℕ
  pub start_date : ℕ
  pub end_date : ℕ
  pub current_block_override : Option ℕ

pub record AttendanceReviewResult : Type 0 where
  pub created : ℕ
  pub upgraded : ℕ
  pub unchanged_rows : ℕ
  pub notified : ℕ
  pub closed : ℕ

pub record ReviewAudit : Type 0 where
  pub staff_id : Option ℕ
  pub batch_id : Option ℕ
  pub term : ℕ
  pub block : Option ℕ
  pub result : AttendanceReviewResult

pub record Register : Type 0 where
  pub school : School
  pub sections : List ClassSection
  pub enrollments : List Enrollment
  pub terms : List Term
  pub reviews : List ReviewAudit

pub record AttendanceReviewOptions : Type 0 where
  pub batch_id : Option ℕ
  pub actor_id : Option ℕ

-- How numbers and terms are written, and whether the dispatch takes a job.
pub record Surroundings : Type 0 where
  pub show_number : ℕ → Text
  pub term_code : ℕ → Text
  pub dispatches : Bool

-- `EMPTY_RESULT`
abbrev pub empty_result : AttendanceReviewResult
empty_result = record { created = 0; upgraded = 0; unchanged_rows = 0; notified = 0; closed = 0 }

-- `add`
abbrev pub add_result : AttendanceReviewResult → AttendanceReviewResult → AttendanceReviewResult
add_result result patch = record {
  created = result.created + patch.created;
  upgraded = result.upgraded + patch.upgraded;
  unchanged_rows = result.unchanged_rows + patch.unchanged_rows;
  notified = result.notified + patch.notified;
  closed = result.closed + patch.closed;
}

-- `EXEMPT_SUBJECT_NOTE`
abbrev pub exempt_subject_note : Text
exempt_subject_note =
    77 ∷ 244 ∷ 110 ∷ 32 ∷ 107 ∷ 104 ∷ 244 ∷ 110 ∷ 103 ∷ 32 ∷ 99 ∷ 7845 ∷ 109 ∷ 32 ∷ 116 ∷ 104 ∷ 105
    ∷ 32 ∷ 100 ∷ 111 ∷ 32 ∷ 273 ∷ 105 ∷ 7875 ∷ 109 ∷ 32 ∷ 100 ∷ 97 ∷ 110 ∷ 104 ∷ 32 ∷ 40 ∷ 116
    ∷ 7927 ∷ 32 ∷ 108 ∷ 7879 ∷ 32 ∷ 112 ∷ 104 ∷ 7843 ∷ 105 ∷ 32 ∷ 273 ∷ 105 ∷ 32 ∷ 104 ∷ 7885 ∷ 99
    ∷ 32 ∷ 61 ∷ 32 ∷ 48 ∷ 41 ∷ 32 ∷ 8212 ∷ 32 ∷ 104 ∷ 7879 ∷ 32 ∷ 116 ∷ 104 ∷ 7889 ∷ 110 ∷ 103 ∷ 32
    ∷ 116 ∷ 7921 ∷ 32 ∷ 273 ∷ 243 ∷ 110 ∷ 103 ∷ 32 ∷ 107 ∷ 104 ∷ 105 ∷ 32 ∷ 114 ∷ 224 ∷ 32 ∷ 115
    ∷ 111 ∷ 225 ∷ 116 ∷ 32 ∷ 115 ∷ 97 ∷ 117 ∷ 32 ∷ 105 ∷ 109 ∷ 112 ∷ 111 ∷ 114 ∷ 116 ∷ 32 ∷ 273
    ∷ 105 ∷ 7875 ∷ 109 ∷ 32 ∷ 100 ∷ 97 ∷ 110 ∷ 104 ∷ []

-- `Vắng `
abbrev pub reason_start : Text
reason_start = 86 ∷ 7855 ∷ 110 ∷ 103 ∷ 32 ∷ []

-- ` buổi tại lớp `
abbrev pub reason_section : Text
reason_section =
    32 ∷ 98 ∷ 117 ∷ 7893 ∷ 105 ∷ 32 ∷ 116 ∷ 7841 ∷ 105 ∷ 32 ∷ 108 ∷ 7899 ∷ 112 ∷ 32 ∷ []

-- ` (học kỳ `
abbrev pub reason_term : Text
reason_term = 32 ∷ 40 ∷ 104 ∷ 7885 ∷ 99 ∷ 32 ∷ 107 ∷ 7923 ∷ 32 ∷ []

-- `) — rà soát tự động sau import điểm danh`
abbrev pub reason_end : Text
reason_end =
    41 ∷ 32 ∷ 8212 ∷ 32 ∷ 114 ∷ 224 ∷ 32 ∷ 115 ∷ 111 ∷ 225 ∷ 116 ∷ 32 ∷ 116 ∷ 7921 ∷ 32 ∷ 273 ∷ 7897
    ∷ 110 ∷ 103 ∷ 32 ∷ 115 ∷ 97 ∷ 117 ∷ 32 ∷ 105 ∷ 109 ∷ 112 ∷ 111 ∷ 114 ∷ 116 ∷ 32 ∷ 273 ∷ 105
    ∷ 7875 ∷ 109 ∷ 32 ∷ 100 ∷ 97 ∷ 110 ∷ 104 ∷ []

-- `currentTermBlock`: before the middle of the term, both doubled, it is the first block.
unfoldable pub current_term_block : Term → ℕ → ℕ
current_term_block term now =
    if opt_eq term.current_block_override (some 1)
    then 1
    else if opt_eq term.current_block_override (some 2)
    then 2
    else if ltb (2 * now) (term.start_date + term.end_date)
    then 1
    else 2

-- `ACTIVE_STATUSES`
abbrev pub is_studying : StudentStatus → Bool
is_studying studying = true
is_studying warned = true
is_studying _ = false

abbrev pub is_auto : AlertSource → Bool
is_auto auto_attendance = true
is_auto manual = false

abbrev pub block_of : ℕ → Option Term → Option ℕ
block_of now none = none
block_of now (some t) = some (current_term_block t now)

-- `currentBlock`
abbrev pub current_block : ℕ → ℕ → Register → Option ℕ
current_block now term db = block_of now (find (λ t. t.code == term) db.terms)

-- Whether the block of a section is that of the term, or the section runs all term.
abbrev pub in_block : Option ℕ → Option ℕ → Bool
in_block none section_block = true
in_block (some b) none = true
in_block (some b) (some c) = b == c

abbrev pub is_exempt : Option ClassSection → Bool
is_exempt none = false
is_exempt (some s) = opt_eq s.attendance_rate_required (some 0)

abbrev pub subject_section : Option ℕ → List ClassSection → Option ClassSection
subject_section none sections = none
subject_section (some id) sections = find (λ s. s.id == id) sections

-- The automatic alert of a subject that bars nobody for absence.
abbrev pub is_to_close : ℕ → List ClassSection → Alert → Bool
is_to_close term sections a =
    opt_eq a.term (some term)
    && (is_auto a.source
        && (not (is_resolved a.status) && is_exempt (subject_section a.class_section_id sections)))

abbrev pub closed_exempt : ℕ → Option ℕ → Alert → Alert
closed_exempt now actor_id a = record a {
  status = resolved;
  resolved_by_id = actor_id;
  resolved_at = some now;
  resolution_note = some exempt_subject_note;
}

-- `closeExemptSubjectAlerts`: the alerts afterwards, and how many were closed.
unfoldable pub close_exempt_subject_alerts :
    (now term : ℕ) → Option ℕ → List ClassSection → List Alert → List Alert × ℕ
close_exempt_subject_alerts now term actor_id sections alerts = (
  update_where (is_to_close term sections) (closed_exempt now actor_id) alerts,
  count (is_to_close term sections) alerts,
)

abbrev pub is_enough : Option ℕ → Bool
is_enough none = false
is_enough (some absent) = leb medium_threshold absent

-- `loadRows`
abbrev pub is_reviewed : ℕ → Option ℕ → Enrollment → Bool
is_reviewed term block e =
    is_enough e.absent_sessions
    && (e.class_section.term == term
        && (in_block block e.class_section.block
            && (is_some e.class_section.lecturer_id
                && (not (is_exempt (some e.class_section)) && is_studying e.student_status))))

-- `loadOpenAlerts`
abbrev pub load_open_alerts : ℕ → List Alert → List Alert
load_open_alerts term alerts =
    keep (λ a. opt_eq a.term (some term) && not (is_resolved a.status)) alerts

abbrev pub has_key : Enrollment → Alert → Bool
has_key row a =
    a.student_id == row.student_id && opt_eq a.class_section_id (some row.class_section.id)

abbrev pub is_as_high : Option Alert → Alert → Bool
is_as_high none a = false
is_as_high (some current) a = leb a.level current.level

-- The entry of a row's key in the map of `highestByKey`, which is filled from the first alert on.
pub highest_by_key : Enrollment → Option Alert → List Alert → Option Alert
highest_by_key row current [] = current
highest_by_key row current (a ∷ rest) =
    highest_by_key row (if has_key row a && not (is_as_high current a) then some a else current)
      rest

-- `row.absentSessions ?? 0`
abbrev pub or_zero : Option ℕ → ℕ
or_zero none = 0
or_zero (some n) = n

abbrev pub reason_for : Surroundings → Enrollment → ℕ → Text
reason_for around row term =
    reason_start
    ++ (around.show_number (or_zero row.absent_sessions)
        ++ (reason_section
            ++ (row.class_section.code ++ (reason_term ++ (around.term_code term ++ reason_end)))))

abbrev pub open_of : Option Alert → Option OpenAttendanceAlert
open_of none = none
open_of (some a) = some (record { level = a.level; absent_sessions = a.absent_sessions })
