-- ===== src/Analyses/Sent.antt =====
-- What a draft must have to be sent, and what a sending leaves.
use fcare.Base.{
  ℕ, ◌≤◌, ◌≡◌, ◌∙◌, refl, sym, ap, Bool, true, false, ◌&&◌, inl, inr, [], ◌∷◌, ◌++◌, ◌==◌, map,
  keep, ltb, arith, length, Bool-cases, Result-cases, Result, ok, err,
}
use fcare.Base.Results.{err_is_not_ok, after-ok}
use fcare.Base.Texts.{Text}
use fcare.Access.{AuthUser}
use fcare.Alert.Rows.{Outside}
use fcare.Analyses.{
  Version, Analysis, Desk, AnalysisError, AcademicAnalysisOutput, disabled, not_decider, not_draft,
  level_below_system, reason_too_short, is_draft, is_send_queued,
}
use fcare.Analyses.Content.{system_level, send_content, SendAnalysisDto, reason_min_length}
use fcare.Analyses.Versions.{has_version}
use fcare.Analyses.Requests.{Engine, require_version, can_decide, output_of, parse_output}
use fcare.Analyses.Sending.{
  CommitInput, Sent, check_send, long_enough, commit_send, commit_rows_or_fail, analysis_alert,
  send_version, process_delivery, deliver_found, delivered, delivery_of, finish_delivery,
}
use fcare.Analyses.Writes.{commit_lem, barred, through}

-- What `sendVersion` checks of a version, before it commits.
pub record IsSendable (engine : Engine) (user : AuthUser) (v : Version) (a : Analysis) (level : ℕ)
    (content : Text) : Type 0 where
  pub allowed : can_decide user v a ≡ true
  pub waiting : is_draft v.status ≡ true
  pub enough : system_level engine.js v.source_snapshot (output_of v) ≤ level
  pub said : level ≡ 4 → reason_min_length ≤ length content

-- The content and the reason that the code writes for a version.
abbrev pub IsWritten :
    Engine → Version → Analysis → SendAnalysisDto → AcademicAnalysisOutput → Text × Text → Type 0
IsWritten engine v a dto output texts =
    (parse_output (output_of v) ≡ ok output)
    × (send_content engine.js a.student_id v.source_snapshot dto output ≡ ok texts)

long_enough-ok :
    (level : ℕ) (r : Result AnalysisError (Text × Text)) (texts : Text × Text)
    → long_enough level r ≡ ok texts
    → level ≡ 4
    → reason_min_length ≤ length texts.0
long_enough-ok level (err e) texts h = cc
long_enough-ok level (ok (content, reason)) texts h =
    elim (Bool-cases (level == 4 && ltb (length content) reason_min_length)) [
      | inl short ↦
          let clash : ◌≡◌ {A = Result AnalysisError (Text × Text)} (err reason_too_short)
              (ok texts) =
            rw short at h in
          cc
      | inr long ↦
          let same : ◌≡◌ {A = Result AnalysisError (Text × Text)} (ok (content, reason))
              (ok texts) =
            rw long at h in
          let this : content ≡ texts.0 = ap (λ r. content_of r) same in
          λ four. ground (arith, four, long, ap (λ (c : Text). length c) this)
    ]
  where
    content_of : Result AnalysisError (Text × Text) → Text
    content_of (ok (c, r)) = c
    content_of (err e) = content

-- The length test lets through what was written.
long_enough-same :
    (level : ℕ) (r : Result AnalysisError (Text × Text)) (texts : Text × Text)
    → long_enough level r ≡ ok texts
    → r ≡ ok texts
long_enough-same level (err e) texts h = h
long_enough-same level (ok (content, reason)) texts h =
    elim (Bool-cases (level == 4 && ltb (length content) reason_min_length)) [
      | inl short ↦ err_is_not_ok reason_too_short texts (rw short at h)
      | inr long ↦ rw long at h
    ]

sent_id : Result AnalysisError Sent → ℕ
sent_id (ok s) = s.alert_id
sent_id (err e) = 0

module _ (engine : Engine) (out : Outside) where
  check_send-ok :
      (user : AuthUser) (v : Version) (a : Analysis) (dto : SendAnalysisDto) (texts : Text × Text)
      → check_send engine out user v a dto ≡ ok texts
      → (output : AcademicAnalysisOutput) × IsWritten engine v a dto output texts
        × IsSendable engine user v a dto.confirmed_level texts.0
  unfolding check_send
  check_send-ok user v a dto texts h =
      let system = system_level engine.js v.source_snapshot (output_of v) in
      elim (Bool-cases (can_decide user v a)) [
        | inr foreign ↦ err_is_not_ok not_decider texts (rw foreign at h)
        | inl allowed ↦ elim (Bool-cases (is_draft v.status)) [
          | inr other ↦ err_is_not_ok not_draft texts (rw other at (rw allowed at h))
          | inl waiting ↦ elim (Bool-cases (ltb dto.confirmed_level system)) [
            | inl low ↦
                err_is_not_ok level_below_system texts (rw low at (rw waiting at (rw allowed at h)))
            | inr enough ↦ elim (Result-cases (parse_output (output_of v))) [
              | inl (e, unread) ↦
                  err_is_not_ok e texts
                    (rw unread at (rw enough at (rw waiting at (rw allowed at h))))
              | inr (output, parsed) ↦
                  let written = send_content engine.js a.student_id v.source_snapshot dto output in
                  let last = rw parsed at (rw enough at (rw waiting at (rw allowed at h))) in
                  (
                    output,
                    (parsed, long_enough-same dto.confirmed_level written texts last),
                    record {
                      allowed = allowed;
                      waiting = waiting;
                      enough = ground (arith, enough);
                      said = long_enough-ok dto.confirmed_level written texts last;
                    },
                  )
            ]
          ]
        ]
      ]

  finish_delivery-alerts :
      (v : Version) (db : Desk) → (finish_delivery engine out v db).school.alerts ≡ db.school.alerts
  finish_delivery-alerts v db = elim (Bool-cases (has_version v.id is_send_queued db)) [
    | inl there ↦ rw there refl
    | inr gone ↦ rw gone refl
  ]

  deliver_found-alerts :
      (v : Version) (db : Desk) → (deliver_found engine out v db).0.school.alerts ≡ db.school.alerts
  unfolding deliver_found delivered
  deliver_found-alerts v db = elim (Bool-cases (is_send_queued v.status)) [
    | inr other ↦ rw (other, deliver_found) refl
    | inl queued ↦ elim (Result-cases (parse_output (output_of v))) [
      | inl (e, unread) ↦ rw (queued, unread, deliver_found) refl
      | inr (output, parsed) ↦
          let ids = map (λ r. r.recipient_id) (keep (λ r. r.version_id == v.id) db.recipients) in
          let told : Desk = delivered engine out (delivery_of engine out v output ids db) db in
          rw (queued, parsed, deliver_found) (finish_delivery-alerts v told)
    ]
  ]

  process_delivery-alerts :
      (id : ℕ) (db : Desk) → (process_delivery engine out id db).0.school.alerts ≡ db.school.alerts
  unfolding process_delivery
  process_delivery-alerts id db = elim (Result-cases (require_version id db)) [
    | inl (e, missing) ↦ rw (missing, process_delivery) refl
    | inr (found, there) ↦ rw (there, process_delivery) (deliver_found-alerts found.0 db)
  ]

  -- The transaction, where it passes.
  commit_rows-ok :
      (input : CommitInput) (db : Desk) (sent : Sent)
      → (commit_rows_or_fail engine out input db).1 ≡ ok sent
      → ((commit_rows_or_fail engine out input db).0.school.alerts
          ≡ db.school.alerts ++ analysis_alert engine out db.school.evaluations input ∷ [])
        × (sent.alert_id ≡ out.fresh_id)
  unfolding sent_id
  commit_rows-ok input db sent h = elim (commit_lem engine out input db) [
    | barred e refused ↦ err_is_not_ok e sent (ap (λ r. r.1) (sym refused) ∙ h)
    | through snapshot hash _ _ _ _ done ↦
        (ap (λ r. r.0.school.alerts) done, ap sent_id (sym h ∙ ap (λ r. r.1) done))
  ]

  -- What follows the transaction adds no alert.
  commit_send-ok :
      (queue_accepts : Bool) (input : CommitInput) (db : Desk) (sent : Sent)
      → (commit_send engine out queue_accepts input db).1 ≡ ok sent
      → ((commit_send engine out queue_accepts input db).0.school.alerts
          ≡ db.school.alerts ++ analysis_alert engine out db.school.evaluations input ∷ [])
        × (sent.alert_id ≡ out.fresh_id)
  unfolding commit_send sent_id
  commit_send-ok true input db sent h =
      let (result, first, whole, rest) =
        after-ok (commit_rows_or_fail engine out input db) _ sent h in
      let (alerts, id) = commit_rows-ok input db result first in
      (ap (λ r. r.0.school.alerts) whole ∙ alerts, ap sent_id (sym rest) ∙ id)
  commit_send-ok false input db sent h =
      let (result, first, whole, rest) =
        after-ok (commit_rows_or_fail engine out input db) _ sent h in
      let (alerts, id) = commit_rows-ok input db result first in
      let db' = (commit_rows_or_fail engine out input db).0 in
      let (_, _, last, same) =
        after-ok (process_delivery engine out input.version.id db') _ sent rest in
      (
        ap (λ r. r.0.school.alerts) whole
            ∙ (ap (λ r. r.0.school.alerts) last
                ∙ (process_delivery-alerts input.version.id db' ∙ alerts)),
        ap sent_id (sym same) ∙ id,
      )

-- An analysis is sent, with the answer of `sendVersion`, only where the feature is on and the version is
-- a draft, by its owner, its creator or an administrator, at a level that is not below the system's, and
-- at level 4 only where the content that `sendContent` makes of the version and the request has 40
-- characters at least. The sending then adds one alert, at the confirmed level and with the reason that
-- `sendContent` makes, to those that are there, whichever are open, and the answer names it.
pub send_version_lem :
    (engine : Engine) (out : Outside) (queue_accepts : Bool) (user : AuthUser) (id : ℕ)
    (dto : SendAnalysisDto) (db : Desk) (sent : Sent)
    → (send_version engine out queue_accepts user id dto db).1 ≡ ok sent
    → (engine.enabled ≡ true)
      × ((v : Version) × (a : Analysis) × (texts : Text × Text) × (output : AcademicAnalysisOutput)
          × (require_version id db ≡ ok (v, a))
          × IsWritten engine v a dto output texts
          × IsSendable engine user v a dto.confirmed_level texts.0
          × ((send_version engine out queue_accepts user id dto db).0.school.alerts
              ≡ db.school.alerts
                ++ analysis_alert engine out db.school.evaluations (record {
                  version = v;
                  analysis = a;
                  actor_id = user.id;
                  level = dto.confirmed_level;
                  reason = texts.1;
                })
                  ∷ []))
      × (sent.alert_id ≡ out.fresh_id)
unfolding send_version sent_id
send_version_lem engine out queue_accepts user id dto db sent h = elim (Bool-cases engine.enabled) [
  | inr off ↦ err_is_not_ok disabled sent (rw off at h)
  | inl on ↦
      let (found, there, first, rest) = after-ok (db, require_version id db) _ sent (rw on at h) in
      let (v, a) = found in
      let (texts, checked, second, more) =
        after-ok (db, check_send engine out user v a dto) _ sent rest in
      let input : CommitInput = record {
        version = v;
        analysis = a;
        actor_id = user.id;
        level = dto.confirmed_level;
        reason = texts.1;
      } in
      let (output, written, sendable) = check_send-ok engine out user v a dto texts checked in
      let (result, committed, third, same) =
        after-ok (commit_send engine out queue_accepts input db) _ sent more in
      let (alerts, alert_id) = commit_send-ok engine out queue_accepts input db result committed in
      (
        on,
        (
          v,
          a,
          texts,
          output,
          there,
          written,
          sendable,
          rw on (
              ap (λ r. r.0.school.alerts) first
              ∙ (ap (λ r. r.0.school.alerts) second
                  ∙ (ap (λ r. r.0.school.alerts) third ∙ alerts))),
        ),
        ap sent_id (sym same) ∙ alert_id,
      )
]
