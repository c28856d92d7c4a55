-- ===== src/Analyses/Refused.antt =====
-- student-analyses.service.ts: a sending that is refused.
use fcare.Base.{ℕ, ◌≡◌, ◌∙◌, refl, sym, ap, true, inl, inr, Bool-cases, err}
use fcare.Base.Results.{ok_is_not_err, after-err}
use fcare.Access.{AuthUser}
use fcare.Alert.Rows.{Outside}
use fcare.Analyses.{Desk, AnalysisError}
use fcare.Analyses.Content.{SendAnalysisDto}
use fcare.Analyses.Requests.{Engine, require_version}
use fcare.Analyses.Sending.{CommitInput, check_send, commit_send, commit_rows_or_fail, send_version}
use fcare.Analyses.Writes.{commit_lem, barred, through}

module _ (engine : Engine) (out : Outside) where
  commit_rows-err :
      (input : CommitInput) (db : Desk) (e : AnalysisError)
      → (commit_rows_or_fail engine out input db).1 ≡ err e
      → (commit_rows_or_fail engine out input db).0 ≡ db
  commit_rows-err input db e h = elim (commit_lem engine out input db) [
    | barred d refused ↦ ap (λ r. r.0) refused
    | through snapshot hash _ _ _ _ done ↦ ok_is_not_err e _ (ap (λ r. r.1) (sym done) ∙ h)
  ]

  commit_send-err :
      (input : CommitInput) (db : Desk) (e : AnalysisError)
      → (commit_send engine out true input db).1 ≡ err e
      → (commit_send engine out true input db).0 ≡ db
  unfolding commit_send
  commit_send-err input db e h = elim (after-err (commit_rows_or_fail engine out input db) _ e h) [
    | inl (refused, same) ↦ same ∙ commit_rows-err input db e refused
    | inr (result, _, _, rest) ↦ ok_is_not_err e result rest
  ]

-- A sending that is refused, for whatever reason, has written nothing, where the queue accepts jobs.
pub send_version-refused :
    (engine : Engine) (out : Outside) (user : AuthUser) (id : ℕ) (dto : SendAnalysisDto) (db : Desk)
    (e : AnalysisError)
    → (send_version engine out true user id dto db).1 ≡ err e
    → (send_version engine out true user id dto db).0 ≡ db
unfolding send_version
send_version-refused engine out user id dto db e h = elim (Bool-cases engine.enabled) [
  | inr off ↦ rw off refl
  | inl on ↦ rw on (elim (after-err (db, require_version id db) _ e (rw on at h)) [
    | inl (_, same) ↦ same
    | inr (found, _, first, rest) ↦
        ap (λ r. r.0) first
        ∙ elim (after-err (db, check_send engine out user found.0 found.1 dto) _ e rest) [
          | inl (_, same) ↦ same
          | inr (texts, _, second, more) ↦
              let input : CommitInput = record {
                version = found.0;
                analysis = found.1;
                actor_id = user.id;
                level = dto.confirmed_level;
                reason = texts.1;
              } in
              ap (λ r. r.0) second
              ∙ elim (after-err (commit_send engine out true input db) _ e more) [
                | inl (refused, same) ↦ same ∙ commit_send-err engine out input db e refused
                | inr (result, _, _, last) ↦ ok_is_not_err e result last
              ]
        ]
  ])
]
