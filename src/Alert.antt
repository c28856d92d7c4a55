-- ===== src/Alert.antt =====
-- The alert of a student: the row of apps/api/prisma/schema.prisma, what raising one decides
-- (apps/api/src/modules/alerts/raise-decision.ts) and what a row of attendance decides
-- (attendance-alerts/attendance-review.decision.ts, packages/shared-types/src/alerts.ts).
-- A level is a number; the DTO lets 1 to 4 through, which are one digit in a text.
pub mod Recipients
pub mod Rows
pub mod Service
pub mod Closing
mod Decisions
pub mod Consistency
pub mod Invariant
pub mod Handling
pub mod Deletion
mod Told
pub mod Steps
mod Resolved
mod Tests
use fcare.Base.{
  ℕ, ◌+◌, max, min, Bool, true, false, not, ◌&&◌, ◌||◌, Option, none, some, List, [], ◌∷◌, ◌++◌,
  ◌==◌, ltb, leb, if◌then◌else◌, length,
}
use fcare.Base.Texts.{Text, is_empty, trim, includes}
use fcare.Access.Ability.{AlertStatus}

pub data AlertSource : Type 0 where
  manual auto_attendance : AlertSource

pub data AlertOutcome : Type 0 where
  passed exam_banned failed : AlertOutcome

pub record Alert : Type 0 where
  pub id : ℕ
  pub student_id : ℕ
  pub raised_by_id : Option ℕ
  pub level : ℕ
  pub reason : Text
  pub status : AlertStatus
  pub source : AlertSource
  pub class_section_id : Option ℕ
  pub term : Option ℕ
  pub absent_sessions : Option ℕ
  pub owner_cared_at : Option ℕ
  pub resolved_by_id : Option ℕ
  pub resolved_at : Option ℕ
  pub resolution_note : Option Text
  pub outcome : Option AlertOutcome
  pub created_at : ℕ

-- What a decision reads of the alert that is open.
pub record OpenAlert : Type 0 where
  pub id : ℕ
  pub level : ℕ

pub data RaiseDecision : Type 0 where
  create_alert : (level : ℕ) (raised_by_system : Bool) → RaiseDecision
  escalate_alert : (alert_id from_level level : ℕ) (raised_by_system : Bool) → RaiseDecision
  merge_alert : (alert_id level : ℕ) → RaiseDecision

abbrev pub clamp_level : ℕ → ℕ
clamp_level level = min 4 (max 1 level)

abbrev pub decide_open : (requested level : ℕ) → Option OpenAlert → RaiseDecision
decide_open requested level none = create_alert level (ltb requested level)
decide_open requested level (some open_alert) =
    if ltb open_alert.level level
    then escalate_alert open_alert.id open_alert.level level (ltb requested level)
    else merge_alert open_alert.id open_alert.level

unfoldable pub decide_raise : (requested_level system_level : ℕ) → Option OpenAlert → RaiseDecision
decide_raise requested_level system_level open_alert =
    decide_open (clamp_level requested_level)
      (max (clamp_level requested_level) (clamp_level system_level)) open_alert

-- `Hệ thống tự nâng từ mức `
abbrev pub note_start : Text
note_start =
    72 ∷ 7879 ∷ 32 ∷ 116 ∷ 104 ∷ 7889 ∷ 110 ∷ 103 ∷ 32 ∷ 116 ∷ 7921 ∷ 32 ∷ 110 ∷ 226 ∷ 110 ∷ 103
    ∷ 32 ∷ 116 ∷ 7915 ∷ 32 ∷ 109 ∷ 7913 ∷ 99 ∷ 32 ∷ []

-- ` lên mức `
abbrev pub note_middle : Text
note_middle = 32 ∷ 108 ∷ 234 ∷ 110 ∷ 32 ∷ 109 ∷ 7913 ∷ 99 ∷ 32 ∷ []

-- ` theo điểm rủi ro của học kỳ.`
abbrev pub note_end : Text
note_end =
    32 ∷ 116 ∷ 104 ∷ 101 ∷ 111 ∷ 32 ∷ 273 ∷ 105 ∷ 7875 ∷ 109 ∷ 32 ∷ 114 ∷ 7911 ∷ 105 ∷ 32 ∷ 114
    ∷ 111 ∷ 32 ∷ 99 ∷ 7911 ∷ 97 ∷ 32 ∷ 104 ∷ 7885 ∷ 99 ∷ 32 ∷ 107 ∷ 7923 ∷ 46 ∷ []

-- `\n\n[Cập nhật `
abbrev pub update_start : Text
update_start = 10 ∷ 10 ∷ 91 ∷ 67 ∷ 7853 ∷ 112 ∷ 32 ∷ 110 ∷ 104 ∷ 7853 ∷ 116 ∷ 32 ∷ []

-- `] `
abbrev pub update_end : Text
update_end = 93 ∷ 32 ∷ []

-- A level as a text: one digit.
abbrev pub digit : ℕ → Text
digit level = (48 + level) ∷ []

unfoldable pub system_raise_note : (requested level : ℕ) → Text
system_raise_note requested level =
    note_start ++ (digit requested ++ (note_middle ++ (digit level ++ note_end)))

-- `day` is the date of the update, as `Intl.DateTimeFormat` writes it.
unfoldable pub merged_reason : (current addition : Text) (day : Text) → Text
merged_reason current addition day =
    let next = trim addition in
    if is_empty next || includes current next
    then current
    else current ++ (update_start ++ (day ++ (update_end ++ next)))

abbrev pub medium_threshold : ℕ
medium_threshold = 2

abbrev pub high_threshold : ℕ
high_threshold = 3

-- `attendanceLevelFor`, of a number of sessions that may be absent
unfoldable pub attendance_level_for : Option ℕ → Option ℕ
attendance_level_for none = none
attendance_level_for (some sessions) =
    if leb high_threshold sessions
    then some 3
    else if leb medium_threshold sessions
    then some 2
    else none

pub data ReviewAction : Type 0 where
  skip_row unchanged : ReviewAction
  create_at : (level : ℕ) → ReviewAction
  upgrade_to : (level : ℕ) → ReviewAction
  refresh_at : (level : ℕ) → ReviewAction

pub record OpenAttendanceAlert : Type 0 where
  pub level : ℕ
  pub absent_sessions : Option ℕ

-- `absent > (existing.absentSessions ?? -1)`
abbrev pub is_more : ℕ → Option ℕ → Bool
is_more absent none = true
is_more absent (some known) = ltb known absent

abbrev pub refresh_or_keep : Option ℕ → OpenAttendanceAlert → ReviewAction
refresh_or_keep none existing = unchanged
refresh_or_keep (some absent) existing =
    if is_more absent existing.absent_sessions then refresh_at existing.level else unchanged

abbrev pub decide_at :
    (level : Option ℕ) (absent_sessions : Option ℕ) → Option OpenAttendanceAlert → ReviewAction
decide_at none absent_sessions none = skip_row
decide_at (some level) absent_sessions none = create_at level
decide_at none absent_sessions (some existing) = refresh_or_keep absent_sessions existing
decide_at (some level) absent_sessions (some existing) =
    if ltb existing.level level then upgrade_to 3 else refresh_or_keep absent_sessions existing

unfoldable pub decide_action : Option ℕ → Option OpenAttendanceAlert → ReviewAction
unfolding attendance_level_for
decide_action absent_sessions existing =
    decide_at (attendance_level_for absent_sessions) absent_sessions existing
