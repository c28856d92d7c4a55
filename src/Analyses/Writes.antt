-- ===== src/Analyses/Writes.antt =====
-- The writes of the analyses service: each is one statement or transaction, and those of several requests
-- and jobs may come in any order. The order of versions is kept by all of them.
use fcare.Base.{
  ℕ, ◌≤◌, ◌≡◌, refl, Bool, true, false, ◌&&◌, some, ◌==◌, arith, count, Bool-cases, inl, inr,
  Result-cases, ok, err, implies,
}
use fcare.Base.Texts.{Text}
use fcare.Access.{AuthUser}
use fcare.Alert.Rows.{Outside}
use fcare.Analyses.{
  AnalysisStatus, draft, AnalysisSourceSnapshot, stale_analysis, no_recipients, state_changed,
  AnalysisContentSource, AcademicAnalysisOutput, Version, Desk, AnalysisError, is_draft,
  is_starting, is_generating, is_send_queued,
}
use fcare.Analyses.Versions.{
  put, has_version, CreateInput, create_version_record, start_generation, finish_generation,
  drafted, mark_generation_failed,
}
use fcare.Analyses.Requests.{Engine, edited_by, dismissed_by}
use fcare.Analyses.Sending.{
  CommitInput, is_nobody, resolved_staff, commit_rows, commit_rows_or_fail, finish_delivery,
  with_content, any_status, sent_on, queued_by,
}
use fcare.Alert.Recipients.{compute_recipient_ids}
use fcare.Analyses.Order.{IsOrdered, is_unsettled, update-IsOrdered, one_unsettled}
use fcare.Analyses.Creation.{create-IsOrdered}

pub data Write : Desk → Desk → Type 0 where
  created :
      (out : Outside) (input : CreateInput) {db : Desk}
      → Write db (create_version_record out input db).0
  started : (id : ℕ) {db : Desk} → Write db (start_generation id db)
  finished :
      (out : Outside) (id created_by_id : ℕ) (output : AcademicAnalysisOutput) {db : Desk}
      → Write db (finish_generation out id created_by_id output db)
  gave_up : (message : Text) (id : ℕ) {db : Desk} → Write db (mark_generation_failed message id db)
  changed :
      (out : Outside) (user : AuthUser) (id : ℕ) (output : AcademicAnalysisOutput) {db : Desk}
      → Write db (put id is_draft (edited_by out user output) db)
  put_off :
      (out : Outside) (user : AuthUser) (id : ℕ) {db : Desk}
      → Write db (put id is_draft (dismissed_by out user) db)
  committed :
      (engine : Engine) (out : Outside) (input : CommitInput) {db : Desk}
      → Write db (commit_rows_or_fail engine out input db).0
  delivered_all :
      (engine : Engine) (out : Outside) (v : Version) {db : Desk}
      → Write db (finish_delivery engine out v db)
  given_back :
      (id : ℕ) {db : Desk} → Write db (put id is_send_queued (λ v. record v { status = draft }) db)
  noted :
      (id : ℕ) (from : AnalysisContentSource) (content : Text) {db : Desk}
      → Write db (put id any_status (with_content from content) db)
  wrote_elsewhere : {db db' : Desk} → db'.versions ≡ db.versions → Write db db'

pub data Writes : Desk → Desk → Type 0 where
  no_write : {db : Desk} → Writes db db
  then_write : {db db' db'' : Desk} → Writes db db' → Write db' db'' → Writes db db''

put-IsOrdered :
    (id : ℕ) (from : AnalysisStatus → Bool) (f : Version → Version) (db : Desk)
    → ((v : Version) → (f v).analysis_id ≡ v.analysis_id)
    → ((v : Version) → (f v).version ≡ v.version)
    → ((v : Version)
        → from v.status ≡ true
        → implies (is_unsettled (f v).status) (is_unsettled v.status) ≡ true)
    → IsOrdered db.versions
    → IsOrdered (put id from f db).versions
put-IsOrdered id from f db g h k s =
    update-IsOrdered (λ v. v.id == id && from v.status) f db.versions g h
      (λ v e. k v (ground (arith, e))) s

-- What the transaction of a sending does.
pub data Commit (engine : Engine) (out : Outside) (input : CommitInput) (db : Desk) : Type 0 where
  barred :
      (e : AnalysisError)
      → commit_rows_or_fail engine out input db ≡ (db, err e)
      → Commit engine out input db
  through :
      (snapshot : AnalysisSourceSnapshot) (hash : ℕ)
      → engine.build_snapshot input.analysis.student_id input.analysis.term db.school
        ≡ ok (snapshot, hash)
      → (hash == input.version.source_hash) ≡ true
      → is_nobody (
          compute_recipient_ids input.analysis.student_id input.level
            (some input.actor_id)
            db.school)
        ≡ false
      → has_version input.version.id is_draft db ≡ true
      → commit_rows_or_fail engine out input db ≡ (
          let staff =
            resolved_staff
              (compute_recipient_ids input.analysis.student_id input.level
                (some input.actor_id)
                db.school)
              db.school in
          (
            commit_rows engine out input staff db,
            ok (record { recipients = staff; alert_id = out.fresh_id }),
          ))
      → Commit engine out input db

pub commit_lem :
    (engine : Engine) (out : Outside) (input : CommitInput) (db : Desk) → Commit engine out input db
commit_lem engine out input db =
    let told =
      compute_recipient_ids input.analysis.student_id input.level (some input.actor_id) db.school in
    elim (Result-cases
      (engine.build_snapshot input.analysis.student_id input.analysis.term db.school)) [
        | inl (e, no_source) ↦ barred e (rw no_source refl)
        | inr ((snapshot, hash), built) ↦ elim (Bool-cases (hash == input.version.source_hash)) [
          | inr stale ↦ barred stale_analysis (rw built (rw stale refl))
          | inl fresh ↦ elim (Bool-cases (is_nobody told)) [
            | inl nobody ↦ barred no_recipients (rw built (rw fresh (rw nobody refl)))
            | inr somebody ↦ elim (Bool-cases (has_version input.version.id is_draft db)) [
              | inr moved ↦ barred state_changed (rw built (rw fresh (rw somebody (rw moved refl))))
              | inl there ↦
                  through snapshot hash built fresh somebody there
                    (rw built (rw fresh (rw somebody (rw there refl))))
            ]
          ]
        ]
      ]

gave_up-IsOrdered :
    (message : Text) (id : ℕ) (db : Desk)
    → IsOrdered db.versions
    → IsOrdered (mark_generation_failed message id db).versions
unfolding mark_generation_failed
gave_up-IsOrdered message id db s = elim (Bool-cases (has_version id is_starting db)) [
  | inr gone ↦ rw gone s
  | inl there ↦
      rw there
        (put-IsOrdered id is_starting _ db (λ _. refl) (λ _. refl) (λ v k. ground (arith, k)) s)
]

Write-IsOrdered : {db db' : Desk} → Write db db' → IsOrdered db.versions → IsOrdered db'.versions
Write-IsOrdered (created out input {db}) s = create-IsOrdered out input db s
Write-IsOrdered (started id {db}) s =
    put-IsOrdered id is_starting _ db (λ _. refl) (λ _. refl) (λ v k. ground (arith, k)) s
Write-IsOrdered (finished out id created_by_id output {db}) s =
    elim (Bool-cases (has_version id is_generating db)) [
      | inr gone ↦ rw gone s
      | inl there ↦ rw there (
          put-IsOrdered id is_generating (drafted out.now output) db (λ _. refl) (λ _. refl)
            (λ v k. ground (arith, k)) s)
    ]
Write-IsOrdered (gave_up message id {db}) s = gave_up-IsOrdered message id db s
Write-IsOrdered (changed out user id output {db}) s =
    put-IsOrdered id is_draft (edited_by out user output) db (λ _. refl) (λ _. refl)
      (λ v k. ground (arith, k)) s
Write-IsOrdered (put_off out user id {db}) s =
    put-IsOrdered id is_draft (dismissed_by out user) db (λ _. refl) (λ _. refl)
      (λ v k. ground (arith, k)) s
Write-IsOrdered (committed engine out input {db}) s = elim (commit_lem engine out input db) [
  | barred e refused ↦ rw refused s
  | through snapshot hash _ _ _ _ done ↦ rw done (
      put-IsOrdered input.version.id is_draft (queued_by engine out input.actor_id) db (λ _. refl)
        (λ _. refl) (λ v k. ground (arith, k)) s)
]
Write-IsOrdered (delivered_all engine out v {db}) s =
    elim (Bool-cases (has_version v.id is_send_queued db)) [
      | inr gone ↦ rw gone s
      | inl there ↦ rw there (
          put-IsOrdered v.id is_send_queued (sent_on engine out) db (λ _. refl) (λ _. refl)
            (λ v k. ground (arith, k)) s)
    ]
Write-IsOrdered (given_back id {db}) s =
    put-IsOrdered id is_send_queued _ db (λ _. refl) (λ _. refl) (λ v k. ground (arith, k)) s
Write-IsOrdered (noted id from content {db}) s =
    put-IsOrdered id any_status (with_content from content) db (λ _. refl) (λ _. refl)
      (λ v k. ground arith) s
Write-IsOrdered (wrote_elsewhere e) s = rw e s

all-IsOrdered : {db db' : Desk} → Writes db db' → IsOrdered db.versions → IsOrdered db'.versions
all-IsOrdered no_write s = s
all-IsOrdered (then_write writes write) s = Write-IsOrdered write (all-IsOrdered writes s)

-- Whatever the requests and jobs of the analyses write, in any order and interleaved in any way: versions
-- of one analysis keep different numbers, a version that is not failed, superseded or sent has the highest
-- number of its analysis, and so there is at most one of them.
pub Writes-IsOrdered :
    {db db' : Desk}
    → Writes db db'
    → IsOrdered db.versions
    → IsOrdered db'.versions
      × ((analysis_id : ℕ)
          → count (λ v. v.analysis_id == analysis_id && is_unsettled v.status) db'.versions ≤ 1)
Writes-IsOrdered {db' = db'} writes s =
    let after_all = all-IsOrdered writes s in
    (after_all, λ analysis_id. one_unsettled analysis_id db'.versions after_all)
