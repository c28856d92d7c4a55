-- ===== src/Analyses.antt =====
-- apps/api/src/modules/student-analyses: the analyses of a student and term, each with versions that are
-- generated, edited, sent or superseded. Rows of apps/api/prisma/schema.prisma.
pub mod Content
mod Versions
mod Requests
mod Sending
mod Order
mod Writes
mod Runs
mod Methods
mod Calls
mod Creation
mod Lifecycle
mod Traces
mod Again
mod Levels
mod Sent
mod Refused
mod Digest
mod Tests
use fcare.Base.{
  ℕ, Bool, true, false, not, ◌&&◌, ◌||◌, Option, none, some, List, ◌==◌, ltb, first_by, keep, find,
}
use fcare.Base.Texts.{Text}
use fcare.Alert.Rows.{School}
use fcare.Notify.{Event, Email, Push}
use fcare.Notify.Inbox.{AnalysisRecipient}

pub data AnalysisStatus : Type 0 where
  queued generating draft failed superseded send_queued sent : AnalysisStatus

pub data AnalysisContentSource : Type 0 where
  ai lecturer_text : AnalysisContentSource

pub data RiskLevel : Type 0 where
  low medium high : RiskLevel

pub record ForcedEscalation : Type 0 where
  pub quote : Text
  pub level : ℕ

-- The fields of the output that the code reads.
pub record AcademicAnalysisOutput : Type 0 where
  pub risk_level : RiskLevel
  pub notification_summary : Text
  pub forced_escalation : Option ForcedEscalation

pub record SourceCareLog : Type 0 where
  pub channel : Text
  pub content : Text
  pub outcome : Option Text
  pub created_at : ℕ

-- The fields of the source that the code reads.
pub record AnalysisSourceSnapshot : Type 0 where
  pub notes : List (Option Text)
  pub care_logs : List SourceCareLog
  pub drs_level : ℕ
  pub data_forced_level : ℕ

-- A column of JSON, with what its schema makes of it.
pub data Json (A : Type 0) : Type 0 where
  unreadable : Json A
  readable : A → Json A

pub record Version : Type 0 where
  pub id : ℕ
  pub analysis_id : ℕ
  pub version : ℕ
  pub status : AnalysisStatus
  pub idempotency_key : ℕ
  pub needs_send_decision : Bool
  pub source_snapshot : Json AnalysisSourceSnapshot
  pub source_hash : ℕ
  pub ai_original : Option (Json AcademicAnalysisOutput)
  pub edited_output : Option (Json AcademicAnalysisOutput)
  pub error_message : Option Text
  pub content_source : Option AnalysisContentSource
  pub lecturer_note : Option Text
  pub created_by_id : ℕ
  pub reviewed_by_id : Option ℕ
  pub dismissed_by_id : Option ℕ
  pub dismissed_at : Option ℕ
  pub generated_at : Option ℕ
  pub edited_at : Option ℕ
  pub reviewed_at : Option ℕ
  pub sent_at : Option ℕ

pub record Analysis : Type 0 where
  pub id : ℕ
  pub student_id : ℕ
  pub term : ℕ
  pub owner_id : ℕ

pub data AnalysisJob : Type 0 where
  generate_job deliver_job : ℕ → AnalysisJob

pub data AnalysisAction : Type 0 where
  requested auto_requested edited dismissed generated sent_out generation_failed : AnalysisAction

pub record AnalysisAudit : Type 0 where
  pub staff_id : Option ℕ
  pub action : AnalysisAction
  pub entity_id : ℕ

-- The rows of this component beside those of the school. The column `alertId` of a version stands in
-- the school's list of versions.
pub record Desk : Type 0 where
  pub analyses : List Analysis
  pub versions : List Version
  pub recipients : List AnalysisRecipient
  pub school : School
  pub queue : List AnalysisJob
  pub audit : List AnalysisAudit
  pub events : List Event
  pub emails : List Email
  pub pushes : List Push
  pub has_email : Bool
  pub has_push : Bool

pub data AnalysisError : Type 0 where
  disabled version_not_found student_not_found not_teaching not_owner not_decider : AnalysisError
  not_draft invalid_output level_below_system reason_too_short lecturer_note_too_short :
      AnalysisError
  pii_rejected stale_analysis no_recipients state_changed key_reused active_version : AnalysisError
  source_unchanged queue_unavailable source_refused provider_failed : AnalysisError

abbrev pub is_draft : AnalysisStatus → Bool
is_draft draft = true
is_draft _ = false

abbrev pub is_sent : AnalysisStatus → Bool
is_sent sent = true
is_sent _ = false

abbrev pub is_send_queued : AnalysisStatus → Bool
is_send_queued send_queued = true
is_send_queued _ = false

abbrev pub is_generating : AnalysisStatus → Bool
is_generating generating = true
is_generating _ = false

abbrev pub is_queued : AnalysisStatus → Bool
is_queued queued = true
is_queued _ = false

-- `QUEUED` or `GENERATING`
abbrev pub is_starting : AnalysisStatus → Bool
is_starting s = is_queued s || is_generating s

-- `ACTIVE_STATUSES`
abbrev pub is_active : AnalysisStatus → Bool
is_active s = is_starting s || is_send_queued s

-- `orderBy: { version: 'desc' }`
abbrev pub is_newer : Version → Version → Bool
is_newer a b = ltb b.version a.version

abbrev pub latest_of : ℕ → List Version → Option Version
latest_of analysis_id versions =
    first_by is_newer (keep (λ v. v.analysis_id == analysis_id) versions)

abbrev pub version_by_id : ℕ → Desk → Option Version
version_by_id id db = find (λ v. v.id == id) db.versions

abbrev pub analysis_by_id : ℕ → Desk → Option Analysis
analysis_by_id id db = find (λ a. a.id == id) db.analyses
