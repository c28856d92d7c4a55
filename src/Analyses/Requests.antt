-- ===== src/Analyses/Requests.antt =====
-- student-analyses.service.ts: the requests of staff about versions, but for sending. What is returned of
-- a version is the version itself, where its summary can be made.
use fcare.Base.{
  ℕ, Bool, true, false, not, ◌&&◌, ◌||◌, Option, none, some, ◌==◌, if◌then◌else◌, find,
  update_where, is_some, Result, ok, err,
}
use fcare.Base.Results.{after}
use fcare.Access.{AuthUser, admin, has_role}
use fcare.Alert.Rows.{School, Outside}
use fcare.Notify.Inbox.{AnalysisRecipient, open_on}
use fcare.Analyses.{
  Json, unreadable, readable, AcademicAnalysisOutput, AnalysisSourceSnapshot, Version, Analysis,
  requested, auto_requested, edited, dismissed, Desk, AnalysisError, disabled, version_not_found,
  not_owner, not_decider, not_draft, invalid_output, state_changed, is_draft, is_sent, is_queued,
  version_by_id, analysis_by_id,
}
use fcare.Analyses.Content.{Platform}
use fcare.Analyses.Versions.{
  log_analysis, put, has_version, assert_can_initiate, find_or_create_analysis, CreateInput,
  create_version_record, enqueue_or_fail, Provider, process_generation,
}

-- The switch of the feature, the run time, and the source service's `buildSnapshot` with its hash.
pub record Engine : Type 0 where
  pub enabled : Bool
  pub js : Platform
  pub build_snapshot :
      (student_id term : ℕ) → School → Result AnalysisError (AnalysisSourceSnapshot × ℕ)

abbrev pub enabled_or :
    {A : Type 0} → Engine → Desk × Result AnalysisError A → Desk → Desk × Result AnalysisError A
enabled_or engine rest db = if engine.enabled then rest else (db, err disabled)

-- `version.editedOutput ?? version.aiOriginal`
abbrev pub output_of : Version → Option (Json AcademicAnalysisOutput)
output_of v = elim v.edited_output [ none ↦ v.ai_original | some o ↦ some o ]

-- `parseOutput`
abbrev pub parse_output :
    Option (Json AcademicAnalysisOutput) → Result AnalysisError AcademicAnalysisOutput
parse_output none = err invalid_output
parse_output (some unreadable) = err invalid_output
parse_output (some (readable output)) = ok output

-- `toVersionSummary` throws where an output is there that is not readable.
abbrev pub summary_with :
    Option (Json AcademicAnalysisOutput) → Version → Result AnalysisError Version
summary_with (some unreadable) v = err invalid_output
summary_with _ v = ok v

abbrev pub to_version_summary : Version → Result AnalysisError Version
to_version_summary v = summary_with (output_of v) v

abbrev pub with_analysis : Version → Option Analysis → Result AnalysisError (Version × Analysis)
with_analysis v none = err version_not_found
with_analysis v (some a) = ok (v, a)

abbrev pub require_found : Option Version → Desk → Result AnalysisError (Version × Analysis)
require_found none db = err version_not_found
require_found (some v) db = with_analysis v (analysis_by_id v.analysis_id db)

-- `requireVersion`
abbrev pub require_version : ℕ → Desk → Result AnalysisError (Version × Analysis)
require_version id db = require_found (version_by_id id db) db

abbrev pub is_owner_or_admin : AuthUser → Analysis → Bool
is_owner_or_admin user a = has_role user.roles admin || user.id == a.owner_id

-- `assertCanDecide`
abbrev pub can_decide : AuthUser → Version → Analysis → Bool
can_decide user v a = is_owner_or_admin user a || user.id == v.created_by_id

abbrev pub resume :
    Bool
    → Option Version
    → Desk × Result AnalysisError Version
    → Desk
    → Desk × Result AnalysisError Version
resume queue_accepts none rest db = rest
resume queue_accepts (some v) rest db =
    if is_queued v.status
    then after (enqueue_or_fail queue_accepts v.id db) (λ _ db'. (db', to_version_summary v))
    else (db, to_version_summary v)

module _ (engine : Engine) (out : Outside) (user : AuthUser) (queue_accepts : Bool) where
  abbrev pub create_new :
      (student_id term key : ℕ) → Analysis → Desk → Desk × Result AnalysisError Version
  create_new student_id term key a db =
      after (db, engine.build_snapshot student_id term db.school)
        (λ source db'.
          let input : CreateInput = record {
            analysis_id = a.id;
            user_id = user.id;
            idempotency_key = key;
            snapshot = source.0;
            hash = source.1;
            needs_send_decision = false;
          } in
          after (create_version_record out input db') (λ v db''.
            after (enqueue_or_fail queue_accepts v.id db'')
              (λ _ last. (log_analysis (some user.id) requested v.id last, to_version_summary v))))

  unfoldable pub create_version :
      (student_id term key : ℕ) → Desk → Desk × Result AnalysisError Version
  unfolding create_version_record
  create_version student_id term key db =
      let (db', a) = find_or_create_analysis out user student_id term db in
      let existing = find (λ v. v.analysis_id == a.id && v.idempotency_key == key) db'.versions in
      enabled_or engine
        (after (db, assert_can_initiate user student_id term db.school)
          (λ _ _.
            if not (a.owner_id == user.id) && not (has_role user.roles admin)
            then (db', err not_owner)
            else resume queue_accepts existing (create_new student_id term key a db') db'))
        db

  -- The generation runs at once where the queue refuses the job.
  unfoldable pub enqueue_or_generate : Provider → Version → Desk → Desk × Result AnalysisError Bool
  unfolding process_generation
  enqueue_or_generate provider v db =
      if is_queued v.status
      then elim (enqueue_or_fail queue_accepts v.id db).1 [
        | ok _ ↦ ((enqueue_or_fail queue_accepts v.id db).0, ok true)
        | err _ ↦ process_generation out provider v.id db
      ]
      else (db, ok true)

  -- `requestAutoAnalysis`; `key` is its key for the evaluation and its revision. Errors are swallowed.
  unfoldable pub request_auto_analysis :
      Provider → (student_id term key : ℕ) → Desk → Desk × Option ℕ
  unfolding create_version_record enqueue_or_generate
  request_auto_analysis provider student_id term key db =
      let (db', a) = find_or_create_analysis out user student_id term db in
      let tried =
        after (db, assert_can_initiate user student_id term db.school)
          (λ _ _.
            after (db', engine.build_snapshot student_id term db'.school)
              (λ source start.
                let input : CreateInput = record {
                  analysis_id = a.id;
                  user_id = user.id;
                  idempotency_key = key;
                  snapshot = source.0;
                  hash = source.1;
                  needs_send_decision = true;
                } in
                after (create_version_record out input start) (λ v made.
                  after (enqueue_or_generate provider v made) (λ _ last.
                    (log_analysis (some user.id) auto_requested v.id last, ok v.id))))) in
      if engine.enabled then (tried.0, id_of tried.1) else (db, none)
    where
      id_of : Result AnalysisError ℕ → Option ℕ
      id_of (ok id) = some id
      id_of (err e) = none

-- `getVersion`, for who is neither the owner nor an administrator: it notes when a recipient opens it.
abbrev pub is_recipient : ℕ → ℕ → AnalysisRecipient → Bool
is_recipient version_id staff_id r = r.version_id == version_id && r.recipient_id == staff_id

abbrev pub received :
    Outside
    → AuthUser
    → Version
    → Option AnalysisRecipient
    → Desk
    → Desk × Result AnalysisError Version
received out user v none db = (db, err version_not_found)
received out user v (some r) db =
    if is_sent v.status
    then (
      record db {
        recipients =
            update_where (λ x. is_recipient v.id user.id x && not (is_some r.opened_at))
              (open_on out.now) db.recipients;
      },
      elim (parse_output (output_of v)) [ ok _ ↦ ok v | err e ↦ err e ],
    )
    else (db, err version_not_found)

unfoldable pub get_version :
    Engine → Outside → AuthUser → ℕ → Desk → Desk × Result AnalysisError Version
get_version engine out user id db =
    enabled_or engine
      (after (db, require_version id db)
        (λ found _.
          if is_owner_or_admin user found.1
          then (db, ok found.0)
          else received out user found.0 (find (is_recipient found.0.id user.id) db.recipients) db))
      db

abbrev pub edited_by : Outside → AuthUser → AcademicAnalysisOutput → Version → Version
edited_by out user output v = record v {
  edited_output = some (readable output);
  edited_at = some out.now;
  reviewed_by_id = some user.id;
  reviewed_at = some out.now;
}

abbrev pub edit_draft :
    Outside
    → AuthUser
    → Version
    → Json AcademicAnalysisOutput
    → Desk
    → Desk × Result AnalysisError Bool
edit_draft out user v unreadable db = (db, err invalid_output)
edit_draft out user v (readable output) db =
    if has_version v.id is_draft db
    then (
      log_analysis (some user.id) edited v.id (put v.id is_draft (edited_by out user output) db),
      ok true,
    )
    else (db, err state_changed)

unfoldable pub update_draft :
    Engine
    → Outside
    → AuthUser
    → ℕ
    → Json AcademicAnalysisOutput
    → Desk
    → Desk × Result AnalysisError Bool
update_draft engine out user id edited_output db =
    enabled_or engine
      (after (db, require_version id db)
        (λ found _.
          if not (is_owner_or_admin user found.1)
          then (db, err not_owner)
          else if not (is_draft found.0.status)
          then (db, err not_draft)
          else edit_draft out user found.0 edited_output db))
      db

abbrev pub dismissed_by : Outside → AuthUser → Version → Version
dismissed_by out user v = record v {
  dismissed_by_id = some user.id;
  dismissed_at = some out.now;
  needs_send_decision = false;
}

unfoldable pub dismiss_version :
    Engine → Outside → AuthUser → ℕ → Desk → Desk × Result AnalysisError Bool
dismiss_version engine out user id db =
    enabled_or engine
      (after (db, require_version id db)
        (λ found _.
          if not (can_decide user found.0 found.1)
          then (db, err not_decider)
          else if not (is_draft found.0.status)
          then (db, err not_draft)
          else if has_version id is_draft db
          then (
            log_analysis (some user.id) dismissed id (put id is_draft (dismissed_by out user) db),
            ok true,
          )
          else (db, err state_changed)))
      db
