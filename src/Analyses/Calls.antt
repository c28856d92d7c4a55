-- ===== src/Analyses/Calls.antt =====
-- Each request and job of student-analyses.service.ts is a sequence of the writes.
use fcare.Base.{ℕ, ◌≡◌, refl, Bool, true, false, not, ◌&&◌, Option, none, some, ◌==◌, find, Result}
use fcare.Base.Texts.{Text}
use fcare.Access.{AuthUser, admin, has_role}
use fcare.Alert.Rows.{Outside}
use fcare.Analyses.{Json, AcademicAnalysisOutput, Version, Analysis, Desk, AnalysisError, is_queued}
use fcare.Analyses.Versions.{
  Provider, process_generation, mark_generation_failed, CreateInput, create_version_record,
  assert_can_initiate, find_or_create_analysis, enqueue_or_fail, found_or_created,
}
use fcare.Analyses.Requests.{
  Engine, create_version, create_new, resume, request_auto_analysis, enqueue_or_generate,
  get_version, update_draft, dismiss_version,
}
use fcare.Analyses.Content.{SendAnalysisDto}
use fcare.Analyses.Sending.{send_version, process_delivery, mark_delivery_failed}
use fcare.Analyses.Writes.{Writes, created, gave_up}
use fcare.Analyses.Runs.{
  Writes-trans, one, elsewhere, Run, quiet, after-Run, if-Run, enabled-Run, by_none,
}
use fcare.Analyses.Methods.{
  process_generation-Run, update_draft-Run, dismiss_version-Run, get_version-Run,
  process_delivery-Run, send_version-Run, mark_delivery_failed-Writes,
}

enqueue-Run :
    (queue_accepts : Bool) (id : ℕ) (db : Desk) → Run db (enqueue_or_fail queue_accepts id db)
enqueue-Run queue_accepts id db = if-Run queue_accepts (by_none refl) quiet

resume-Run :
    (queue_accepts : Bool) (o : Option Version) (rest : Desk × Result AnalysisError Version)
    (db : Desk)
    → Run db rest
    → Run db (resume queue_accepts o rest db)
resume-Run queue_accepts none rest db w = w
resume-Run queue_accepts (some v) rest db w =
    if-Run (is_queued v.status)
      (after-Run (enqueue_or_fail queue_accepts v.id db) _ (enqueue-Run queue_accepts v.id db)
        (λ _. quiet))
      quiet

found_or_created-same :
    (o : Option Analysis) (new : Analysis) (db : Desk)
    → (found_or_created o new db).0.versions ≡ db.versions
found_or_created-same (some a) new db = refl
found_or_created-same none new db = refl

create_record-Run :
    (out : Outside) (input : CreateInput) (db : Desk) → Run db (create_version_record out input db)
create_record-Run out input db = record { writes = one (created out input) }

module _ (engine : Engine) (out : Outside) (user : AuthUser) (queue_accepts : Bool) where
  create_new-Run :
      (student_id term key : ℕ) (a : Analysis) (db : Desk)
      → Run db (create_new engine out user queue_accepts student_id term key a db)
  create_new-Run student_id term key a db =
      after-Run (db, engine.build_snapshot student_id term db.school) _ quiet
        (λ source.
          let input : CreateInput = record {
            analysis_id = a.id;
            user_id = user.id;
            idempotency_key = key;
            snapshot = source.0;
            hash = source.1;
            needs_send_decision = false;
          } in
          after-Run (create_version_record out input db) _ (create_record-Run out input db) (λ v.
            let (db', _) = create_version_record out input db in
            after-Run (enqueue_or_fail queue_accepts v.id db') _
              (enqueue-Run queue_accepts v.id db') (λ _. by_none refl)))

  create_version-Run :
      (student_id term key : ℕ) (db : Desk)
      → Run db (create_version engine out user queue_accepts student_id term key db)
  unfolding create_version
  create_version-Run student_id term key db =
      let (db', a) = find_or_create_analysis out user student_id term db in
      let same : db'.versions ≡ db.versions = found_or_created-same _ _ db in
      let existing = find (λ v. v.analysis_id == a.id && v.idempotency_key == key) db'.versions in
      let rest =
        resume-Run queue_accepts existing _ db' (create_new-Run student_id term key a db') in
      enabled-Run engine (
        after-Run (db, assert_can_initiate user student_id term db.school) _ quiet
          (λ _.
            if-Run (not (a.owner_id == user.id) && not (has_role user.roles admin)) (by_none same)
              (record { writes = Writes-trans (elsewhere same) rest.writes })))

generate_now-Run :
    (out : Outside) (user : AuthUser) (engine : Engine) (queue_accepts : Bool) (provider : Provider)
    (v : Version) (db : Desk)
    → Run db (enqueue_or_generate engine out user queue_accepts provider v db)
unfolding enqueue_or_generate
generate_now-Run out user engine true provider v db =
    if-Run (is_queued v.status) (by_none refl) quiet
generate_now-Run out user engine false provider v db =
    if-Run (is_queued v.status) (process_generation-Run out provider v.id db) quiet

request_auto_analysis-Writes :
    (engine : Engine) (out : Outside) (user : AuthUser) (queue_accepts : Bool) (provider : Provider)
    (student_id term key : ℕ) (db : Desk)
    → Writes db
        (request_auto_analysis engine out user queue_accepts provider student_id term key db).0
unfolding request_auto_analysis
request_auto_analysis-Writes engine out user queue_accepts provider student_id term key db =
    let (db', a) = find_or_create_analysis out user student_id term db in
    let same : db'.versions ≡ db.versions = found_or_created-same _ _ db in
    let tried =
      after-Run (db', engine.build_snapshot student_id term db'.school) _ quiet
        (λ source.
          let input : CreateInput = record {
            analysis_id = a.id;
            user_id = user.id;
            idempotency_key = key;
            snapshot = source.0;
            hash = source.1;
            needs_send_decision = true;
          } in
          after-Run (create_version_record out input db') _ (create_record-Run out input db') (λ v.
            let (made, _) = create_version_record out input db' in
            after-Run (enqueue_or_generate engine out user queue_accepts provider v made) _
              (generate_now-Run out user engine queue_accepts provider v made)
              (λ _. by_none refl))) in
    let all =
      after-Run (db, assert_can_initiate user student_id term db.school) _ quiet
        (λ _. record { writes = Writes-trans (elsewhere same) tried.writes }) in
    (if-Run engine.enabled (record { writes = all.writes }) quiet).writes

-- A request or a job of the analyses, as a whole.
pub data Call : Desk → Desk → Type 0 where
  create :
      (engine : Engine) (out : Outside) (user : AuthUser) (queue_accepts : Bool)
      (student_id term key : ℕ) {db : Desk}
      → Call db (create_version engine out user queue_accepts student_id term key db).0
  create_auto :
      (engine : Engine) (out : Outside) (user : AuthUser) (queue_accepts : Bool)
      (provider : Provider) (student_id term key : ℕ) {db : Desk}
      → Call db
          (request_auto_analysis engine out user queue_accepts provider student_id term key db).0
  read :
      (engine : Engine) (out : Outside) (user : AuthUser) (id : ℕ) {db : Desk}
      → Call db (get_version engine out user id db).0
  edit :
      (engine : Engine) (out : Outside) (user : AuthUser) (id : ℕ)
      (output : Json AcademicAnalysisOutput) {db : Desk}
      → Call db (update_draft engine out user id output db).0
  dismiss :
      (engine : Engine) (out : Outside) (user : AuthUser) (id : ℕ) {db : Desk}
      → Call db (dismiss_version engine out user id db).0
  send :
      (engine : Engine) (out : Outside) (queue_accepts : Bool) (user : AuthUser) (id : ℕ)
      (dto : SendAnalysisDto) {db : Desk}
      → Call db (send_version engine out queue_accepts user id dto db).0
  generate :
      (out : Outside) (provider : Provider) (id : ℕ) {db : Desk}
      → Call db (process_generation out provider id db).0
  give_up : (message : Text) (id : ℕ) {db : Desk} → Call db (mark_generation_failed message id db)
  deliver :
      (engine : Engine) (out : Outside) (id : ℕ) {db : Desk}
      → Call db (process_delivery engine out id db).0
  undo :
      (engine : Engine) (out : Outside) (id : ℕ) {db : Desk}
      → Call db (mark_delivery_failed engine out id db)

-- Every request and job of the analyses, on every branch, is a sequence of the writes, so what holds of
-- all sequences of writes holds of it.
pub Call-Writes : {db db' : Desk} → Call db db' → Writes db db'
Call-Writes (create engine out user queue_accepts student_id term key {db}) =
    (create_version-Run engine out user queue_accepts student_id term key db).writes
Call-Writes (create_auto engine out user queue_accepts provider student_id term key {db}) =
    request_auto_analysis-Writes engine out user queue_accepts provider student_id term key db
Call-Writes (read engine out user id {db}) = (get_version-Run engine out user id db).writes
Call-Writes (edit engine out user id output {db}) =
    (update_draft-Run engine out user id output db).writes
Call-Writes (dismiss engine out user id {db}) = (dismiss_version-Run engine out user id db).writes
Call-Writes (send engine out queue_accepts user id dto {db}) =
    (send_version-Run engine out queue_accepts user id dto db).writes
Call-Writes (generate out provider id {db}) = (process_generation-Run out provider id db).writes
Call-Writes (give_up message id) = one (gave_up message id)
Call-Writes (deliver engine out id {db}) = (process_delivery-Run engine out id db).writes
Call-Writes (undo engine out id {db}) = mark_delivery_failed-Writes engine out id db
