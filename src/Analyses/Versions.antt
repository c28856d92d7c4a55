-- ===== src/Analyses/Versions.antt =====
-- student-analyses.service.ts: versions are created, generated, edited, dismissed and read. A transaction
-- is one step on the rows, so the branch for two creations at once is not reached. The database and the
-- audit answer; the queue may refuse a job.
use fcare.Base.{
  ℕ, Bool, true, false, not, ◌&&◌, ◌||◌, Option, none, some, List, [], ◌∷◌, ◌++◌, ◌==◌, suc,
  if◌then◌else◌, any, find, update_where, Result, ok, err,
}
use fcare.Base.Texts.{Text}
use fcare.Access.{AuthUser, admin, has_role}
use fcare.Access.Scope.{Student, student_scope}
use fcare.Alert.Rows.{School, Outside, StaffMember}
use fcare.Analyses.{
  AnalysisStatus, queued, generating, draft, failed, superseded, Json, unreadable, readable,
  AcademicAnalysisOutput, AnalysisSourceSnapshot, Version, Analysis, generate_job, AnalysisAction,
  generated, generation_failed, AnalysisAudit, Desk, AnalysisError, student_not_found, not_teaching,
  state_changed, key_reused, active_version, source_unchanged, queue_unavailable, source_refused,
  provider_failed, is_draft, is_sent, is_starting, is_generating, is_active, latest_of,
  version_by_id,
}

abbrev pub log_analysis : Option ℕ → AnalysisAction → ℕ → Desk → Desk
log_analysis staff_id action id db =
    let entry : AnalysisAudit = record { staff_id = staff_id; action = action; entity_id = id } in
    record db { audit = db.audit ++ entry ∷ [] }

-- `updateMany({ where: { id, status }, data })`
abbrev pub put : ℕ → (AnalysisStatus → Bool) → (Version → Version) → Desk → Desk
put id from change db = record db {
  versions = update_where (λ v. v.id == id && from v.status) change db.versions;
}

-- `transitioned.count`, as a test
abbrev pub has_version : ℕ → (AnalysisStatus → Bool) → Desk → Bool
has_version id from db = any (λ v. v.id == id && from v.status) db.versions

-- `assertCanInitiate`
abbrev pub is_active_staff : ℕ → List StaffMember → Bool
is_active_staff id staff = any (λ m. m.id == id && m.is_active) staff

abbrev pub teaches_in : ℕ → ℕ → Student → Bool
teaches_in user_id term student =
    any (λ s. s.term == term && lecturer_is s.lecturer_id) student.enrolled
  where
    lecturer_is : Option ℕ → Bool
    lecturer_is none = false
    lecturer_is (some l) = l == user_id

abbrev pub initiates : AuthUser → ℕ → Option Student → School → Result AnalysisError Bool
initiates user term none db = err student_not_found
initiates user term (some student) db =
    if has_role user.roles admin
      || (is_active_staff user.id db.staff && teaches_in user.id term student)
    then ok true
    else err not_teaching

abbrev pub assert_can_initiate : AuthUser → ℕ → (term : ℕ) → School → Result AnalysisError Bool
assert_can_initiate user student_id term db =
    initiates user term (find (λ s. s.id == student_id && student_scope user s) db.students) db

abbrev pub found_or_created : Option Analysis → Analysis → Desk → Desk × Analysis
found_or_created (some a) fresh db = (db, a)
found_or_created none fresh db = (record db { analyses = db.analyses ++ fresh ∷ [] }, fresh)

-- `findOrCreateAnalysis`: an upsert on the student and term
abbrev pub find_or_create_analysis : Outside → AuthUser → ℕ → ℕ → Desk → Desk × Analysis
find_or_create_analysis out user student_id term db =
    found_or_created (find (λ a. a.student_id == student_id && a.term == term) db.analyses)
      (record { id = out.fresh_id; student_id = student_id; term = term; owner_id = user.id }) db

pub record CreateInput : Type 0 where
  pub analysis_id : ℕ
  pub user_id : ℕ
  pub idempotency_key : ℕ
  pub snapshot : AnalysisSourceSnapshot
  pub hash : ℕ
  pub needs_send_decision : Bool

abbrev pub version_after : Option Version → ℕ
version_after none = 1
version_after (some v) = suc v.version

abbrev pub new_version : Outside → CreateInput → Option Version → Version
new_version out input latest = record {
  id = out.fresh_id;
  analysis_id = input.analysis_id;
  version = version_after latest;
  status = queued;
  idempotency_key = input.idempotency_key;
  needs_send_decision = input.needs_send_decision;
  source_snapshot = readable input.snapshot;
  source_hash = input.hash;
  ai_original = none;
  edited_output = none;
  error_message = none;
  content_source = none;
  lecturer_note = none;
  created_by_id = input.user_id;
  reviewed_by_id = none;
  dismissed_by_id = none;
  dismissed_at = none;
  generated_at = none;
  edited_at = none;
  reviewed_at = none;
  sent_at = none;
}

abbrev pub is_unchanged : ℕ → Option Version → Bool
is_unchanged hash none = false
is_unchanged hash (some v) = is_sent v.status && v.source_hash == hash

abbrev pub superseding : Version → Version
superseding v = record v { status = superseded }

-- The latest version, if it is a draft, is superseded.
abbrev pub supersede : Option Version → Desk → Desk
supersede none db = db
supersede (some v) db = if is_draft v.status then put v.id is_draft superseding db else db

abbrev pub is_lost : Option Version → Desk → Bool
is_lost none db = false
is_lost (some v) db = is_draft v.status && not (has_version v.id is_draft db)

abbrev pub added : Version → Desk → Desk
added v db = record db {
  versions = db.versions ++ v ∷ [];
  school = record db.school {
    analysis_versions = db.school.analysis_versions ++ record { id = v.id; alert_id = none } ∷ [];
  };
}

-- What the transaction does with a key that is not in use.
abbrev pub create_fresh : Outside → CreateInput → Desk → Desk × Result AnalysisError Version
create_fresh out input db =
    let latest = latest_of input.analysis_id db.versions in
    let fresh = new_version out input latest in
    if any (λ v. v.analysis_id == input.analysis_id && is_active v.status) db.versions
    then (db, err active_version)
    else if is_unchanged input.hash latest
    then (db, err source_unchanged)
    else if is_lost latest db
    then (db, err state_changed)
    else (added fresh (supersede latest db), ok fresh)

abbrev pub create_with :
    Outside → CreateInput → Option Version → Desk → Desk × Result AnalysisError Version
create_with out input none db = create_fresh out input db
create_with out input (some v) db =
    if v.analysis_id == input.analysis_id then (db, ok v) else (db, err key_reused)

unfoldable pub create_version_record :
    Outside → CreateInput → Desk → Desk × Result AnalysisError Version
create_version_record out input db =
    create_with out input (find (λ v. v.idempotency_key == input.idempotency_key) db.versions) db

-- `enqueueOrFail`, for a generation
abbrev pub enqueue_or_fail : Bool → ℕ → Desk → Desk × Result AnalysisError Bool
enqueue_or_fail queue_accepts id db =
    if queue_accepts
    then (record db { queue = db.queue ++ generate_job id ∷ [] }, ok true)
    else (db, err queue_unavailable)

-- What the provider makes of a source: an output, or an error.
abbrev pub Provider : Type 0
Provider = AnalysisSourceSnapshot → Option AcademicAnalysisOutput

abbrev pub start_generation : ℕ → Desk → Desk
start_generation id db = put id is_starting (λ v. record v { status = generating }) db

abbrev pub drafted : ℕ → AcademicAnalysisOutput → Version → Version
drafted now output v = record v {
  status = draft;
  ai_original = some (readable output);
  edited_output = some (readable output);
  generated_at = some now;
}

abbrev pub finish_generation : Outside → ℕ → ℕ → AcademicAnalysisOutput → Desk → Desk
finish_generation out id created_by_id output db =
    if has_version id is_generating db
    then log_analysis (some created_by_id) generated id
        (put id is_generating (drafted out.now output) db)
    else db

abbrev pub generate_from :
    Outside
    → Provider
    → Version
    → Json AnalysisSourceSnapshot
    → Desk
    → Desk × Result AnalysisError Bool
generate_from out provider v unreadable db = (db, err source_refused)
generate_from out provider v (readable snapshot) db = elim (provider snapshot) [
  | none ↦ (db, err provider_failed)
  | some output ↦ (finish_generation out v.id v.created_by_id output db, ok true)
]

abbrev pub generate_found :
    Outside → Provider → Option Version → Desk → Desk × Result AnalysisError Bool
generate_found out provider none db = (db, ok false)
generate_found out provider (some v) db =
    if is_starting v.status
    then generate_from out provider v v.source_snapshot (start_generation v.id db)
    else (db, ok false)

unfoldable pub process_generation : Outside → Provider → ℕ → Desk → Desk × Result AnalysisError Bool
process_generation out provider id db = generate_found out provider (version_by_id id db) db

unfoldable pub mark_generation_failed : Text → ℕ → Desk → Desk
mark_generation_failed message id db =
    if has_version id is_starting db
    then log_analysis none generation_failed id
        (put id is_starting (λ v. record v { status = failed; error_message = some message }) db)
    else db
