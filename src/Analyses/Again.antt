-- ===== src/Analyses/Again.antt =====
-- A key makes one version: a request that is sent again gets the version that it made.
use fcare.Base.{
  ◌≡◌, ◌∙◌, refl, sym, ap, true, not, ◌&&◌, Option, none, some, ◌==◌, all-update_same, find,
  find-last, find-none, none-find, Bool-cases, inl, inr, ==_refl, Result, ok, err,
}
use fcare.Alert.Rows.{Outside}
use fcare.Analyses.{Version, Desk, AnalysisError, is_draft, latest_of}
use fcare.Analyses.Versions.{supersede, superseding, CreateInput, create_version_record}
use fcare.Analyses.Creation.{outcome, existing, refused, fresh, fresh_of, with_key}
use fcare.Analyses.Writes.{Writes}
use fcare.Analyses.Lifecycle.{IsSame}
use fcare.Analyses.Traces.{all-Traced}

supersede-key :
    (input : CreateInput) (o : Option Version) (db : Desk)
    → find (with_key input) db.versions ≡ none
    → find (with_key input) (supersede o db).versions ≡ none
supersede-key input none db e = e
supersede-key input (some l) db e = elim (Bool-cases (is_draft l.status)) [
  | inr other ↦ rw other e
  | inl waiting ↦ rw waiting (
      none-find (with_key input) _ (
        all-update_same (λ v. not (with_key input v)) (λ v. v.id == l.id && is_draft v.status)
          superseding db.versions (λ v. refl)
        ∙ find-none (with_key input) db.versions e))
]

-- The version that a creation returns is the one of its key, in the analysis of the request.
returned :
    (out : Outside) (input : CreateInput) (db : Desk) (v : Version)
    → (create_version_record out input db).1 ≡ ok v
    → (find (with_key input) (create_version_record out input db).0.versions ≡ some v)
      × ((v.analysis_id == input.analysis_id) ≡ true)
returned out input db v h = elim (outcome out input db) [
  | existing w there own e ↦
      let same : ◌≡◌ {A = Result AnalysisError Version} (ok w) (ok v) = ap (λ r. r.1) (sym e) ∙ h in
      let this : w ≡ v = cc in
      (rw e (there ∙ ap some this), ap (λ x. x.analysis_id == input.analysis_id) (sym this) ∙ own)
  | refused r e ↦
      let same : ◌≡◌ {A = Result AnalysisError Version} (err r) (ok v) =
        ap (λ r. r.1) (sym e) ∙ h in
      cc
  | fresh new idle e ↦
      let made = fresh_of out input db in
      let same : ◌≡◌ {A = Result AnalysisError Version} (ok made) (ok v) =
        ap (λ r. r.1) (sym e) ∙ h in
      let this : made ≡ v = cc in
      (
        rw e (
            find-last (with_key input) _ made
              (supersede-key input (latest_of input.analysis_id db.versions) db new)
              (==_refl input.idempotency_key)
            ∙ ap some this),
        ap (λ x. x.analysis_id == input.analysis_id) (sym this) ∙ ==_refl input.analysis_id,
      )
]

create-existing :
    (out : Outside) (input : CreateInput) (db : Desk) (w : Version)
    → find (with_key input) db.versions ≡ some w
    → (w.analysis_id == input.analysis_id) ≡ true
    → create_version_record out input db ≡ (db, ok w)
unfolding create_version_record
create-existing out input db w e own = rw (e, create_version_record) (rw own refl)

-- After `createVersionRecord` has made or found a version, whatever is written in between,
-- `createVersionRecord` with the same input changes nothing and returns the same version: its id, number,
-- source and creator are those of the first answer.
pub create-create :
    (out later : Outside) (input : CreateInput) (db : Desk) (v : Version) {db' : Desk}
    → (create_version_record out input db).1 ≡ ok v
    → Writes (create_version_record out input db).0 db'
    → (w : Version) × (create_version_record later input db' ≡ (db', ok w)) × IsSame v w
create-create out later input db v {db'} h writes =
    let (there, own) = returned out input db v h in
    let t =
      all-Traced (with_key input) (λ u w s. ap (λ k. k == input.idempotency_key) s.idempotency_key)
        v writes there in
    (
      t.now,
      create-existing later input db' t.now t.there
          (ap (λ a. a == input.analysis_id) t.same.analysis_id ∙ own),
      t.same,
    )
