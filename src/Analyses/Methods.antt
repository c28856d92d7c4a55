-- ===== src/Analyses/Methods.antt =====
-- Each method of the service, from its first check to its last write, is a sequence of the writes.
use fcare.Base.{
  ℕ, refl, Bool, not, Option, none, some, ◌==◌, map, keep, any, opt_eq, find, Bool-cases,
  Option-cases, inl, inr, Result-cases,
}
use fcare.Access.{AuthUser}
use fcare.Alert.Rows.{Outside}
use fcare.Notify.Inbox.{AnalysisRecipient}
use fcare.Analyses.{
  Json, unreadable, readable, AcademicAnalysisOutput, AnalysisSourceSnapshot, Version, Desk,
  version_by_id, is_sent, is_starting, is_draft, is_send_queued,
}
use fcare.Analyses.Versions.{
  Provider, generate_found, generate_from, process_generation, start_generation, finish_generation,
  put, has_version,
}
use fcare.Analyses.Requests.{
  Engine, get_version, received, update_draft, edit_draft, require_version, is_owner_or_admin,
  can_decide, is_recipient, parse_output, output_of, dismiss_version, edited_by, dismissed_by,
}
use fcare.Analyses.Content.{SendAnalysisDto}
use fcare.Analyses.Sending.{
  CommitInput, check_send, commit_send, commit_rows_or_fail, send_version, process_delivery,
  delivered, delivery_of, deliver_found, mark_delivery_failed,
}
use fcare.Analyses.Writes.{
  Writes, started, finished, changed, put_off, committed, delivered_all, given_back, noted,
  then_write,
}
use fcare.Analyses.Runs.{
  Writes-trans, one, elsewhere, Run, quiet, after-Run, if-Run, enabled-Run, by_write, by_none,
}

generate_from-Run :
    (out : Outside) (provider : Provider) (v : Version) (json : Json AnalysisSourceSnapshot)
    (db : Desk)
    → Run db (generate_from out provider v json db)
generate_from-Run out provider v unreadable db = quiet
generate_from-Run out provider v (readable snapshot) db = elim (Option-cases (provider snapshot)) [
  | inl nothing ↦ rw (nothing, generate_from) quiet
  | inr (output, made) ↦
      rw (made, generate_from)
        (by_write (finish_generation out v.id v.created_by_id output db)
          (finished out v.id v.created_by_id output) refl)
]

generate_found-Run :
    (out : Outside) (provider : Provider) (o : Option Version) (db : Desk)
    → Run db (generate_found out provider o db)
generate_found-Run out provider none db = quiet
generate_found-Run out provider (some v) db =
    let rest = generate_from-Run out provider v v.source_snapshot (start_generation v.id db) in
    if-Run (is_starting v.status)
      (record { writes = Writes-trans (one (started v.id)) rest.writes }) quiet

pub process_generation-Run :
    (out : Outside) (provider : Provider) (id : ℕ) (db : Desk)
    → Run db (process_generation out provider id db)
unfolding process_generation
process_generation-Run out provider id db = generate_found-Run out provider (version_by_id id db) db

edit_draft-Run :
    (out : Outside) (user : AuthUser) (v : Version) (json : Json AcademicAnalysisOutput) (db : Desk)
    → Run db (edit_draft out user v json db)
edit_draft-Run out user v unreadable db = quiet
edit_draft-Run out user v (readable output) db =
    if-Run (has_version v.id is_draft db)
      (by_write (put v.id is_draft (edited_by out user output) db) (changed out user v.id output)
        refl)
      quiet

pub update_draft-Run :
    (engine : Engine) (out : Outside) (user : AuthUser) (id : ℕ)
    (json : Json AcademicAnalysisOutput) (db : Desk)
    → Run db (update_draft engine out user id json db)
unfolding update_draft
update_draft-Run engine out user id json db = enabled-Run engine (
    after-Run (db, require_version id db) _ quiet
      (λ found.
        if-Run (not (is_owner_or_admin user found.1)) quiet
          (if-Run (not (is_draft found.0.status)) quiet (edit_draft-Run out user found.0 json db))))

pub dismiss_version-Run :
    (engine : Engine) (out : Outside) (user : AuthUser) (id : ℕ) (db : Desk)
    → Run db (dismiss_version engine out user id db)
unfolding dismiss_version
dismiss_version-Run engine out user id db = enabled-Run engine (
    after-Run (db, require_version id db) _ quiet
      (λ found. if-Run (not (can_decide user found.0 found.1)) quiet (
        if-Run (not (is_draft found.0.status)) quiet (
          if-Run (has_version id is_draft db)
            (by_write (put id is_draft (dismissed_by out user) db) (put_off out user id) refl)
            quiet))))

received-Run :
    (out : Outside) (user : AuthUser) (v : Version) (o : Option AnalysisRecipient) (db : Desk)
    → Run db (received out user v o db)
received-Run out user v none db = quiet
received-Run out user v (some r) db = if-Run (is_sent v.status) (by_none refl) quiet

pub get_version-Run :
    (engine : Engine) (out : Outside) (user : AuthUser) (id : ℕ) (db : Desk)
    → Run db (get_version engine out user id db)
unfolding get_version
get_version-Run engine out user id db = enabled-Run engine (
    after-Run (db, require_version id db) _ quiet
      (λ found.
        if-Run (is_owner_or_admin user found.1) quiet (
          received-Run out user found.0 (find (is_recipient found.0.id user.id) db.recipients) db)))

deliver_found-Run :
    (engine : Engine) (out : Outside) (v : Version) (db : Desk)
    → Run db (deliver_found engine out v db)
unfolding deliver_found delivered
deliver_found-Run engine out v db =
    if-Run (is_send_queued v.status)
      (after-Run (db, parse_output (output_of v)) _ quiet
        (λ output.
          let ids = map (λ r. r.recipient_id) (keep (λ r. r.version_id == v.id) db.recipients) in
          let told = delivered engine out (delivery_of engine out v output ids db) db in
          record {
            writes = then_write (elsewhere {a = db} {b = told} refl) (delivered_all engine out v);
          }))
      quiet

pub process_delivery-Run :
    (engine : Engine) (out : Outside) (id : ℕ) (db : Desk)
    → Run db (process_delivery engine out id db)
unfolding process_delivery
process_delivery-Run engine out id db =
    after-Run (db, require_version id db) _ quiet (λ found. deliver_found-Run engine out found.0 db)

rows-Run :
    (engine : Engine) (out : Outside) (input : CommitInput) (db : Desk)
    → Run db (commit_rows_or_fail engine out input db)
rows-Run engine out input db = record { writes = one (committed engine out input) }

commit_send-Run :
    (engine : Engine) (out : Outside) (queue_accepts : Bool) (input : CommitInput) (db : Desk)
    → Run db (commit_send engine out queue_accepts input db)
unfolding commit_send
commit_send-Run engine out queue_accepts input db =
    let (db', _) = commit_rows_or_fail engine out input db in
    after-Run (commit_rows_or_fail engine out input db) _ (rows-Run engine out input db) (λ result.
      if-Run queue_accepts (by_none refl) (
        after-Run (process_delivery engine out input.version.id db') _
          (process_delivery-Run engine out input.version.id db') (λ _. quiet)))

pub send_version-Run :
    (engine : Engine) (out : Outside) (queue_accepts : Bool) (user : AuthUser) (id : ℕ)
    (dto : SendAnalysisDto) (db : Desk)
    → Run db (send_version engine out queue_accepts user id dto db)
unfolding send_version
send_version-Run engine out queue_accepts user id dto db = enabled-Run engine (
    after-Run (db, require_version id db) _ quiet
      (λ found.
        after-Run (db, check_send engine out user found.0 found.1 dto) _ quiet
          (λ texts.
            let input : CommitInput = record {
              version = found.0;
              analysis = found.1;
              actor_id = user.id;
              level = dto.confirmed_level;
              reason = texts.1;
            } in
            after-Run (commit_send engine out queue_accepts input db) _
              (commit_send-Run engine out queue_accepts input db)
              (λ result. record { writes = one (noted id dto.content_source texts.0) }))))

pub mark_delivery_failed-Writes :
    (engine : Engine) (out : Outside) (id : ℕ) (db : Desk)
    → Writes db (mark_delivery_failed engine out id db)
unfolding mark_delivery_failed
mark_delivery_failed-Writes engine out id db =
    let again = (process_delivery-Run engine out id db).writes in
    elim (Bool-cases (any (λ n. opt_eq n.analysis_version_id (some id)) db.school.notifications)) [
      | inr untold ↦ rw untold (one (given_back id))
      | inl told ↦ rw told (elim (Result-cases (process_delivery engine out id db).1) [
        | inl (e, threw) ↦ rw (threw, mark_delivery_failed) (Writes-trans again (elsewhere refl))
        | inr (b, worked) ↦ rw (worked, mark_delivery_failed) again
      ])
    ]
