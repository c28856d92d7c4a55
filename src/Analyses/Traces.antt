-- ===== src/Analyses/Traces.antt =====
-- Every write moves a version along the machine, and leaves what it is for good.
use fcare.Base.{
  ℕ, ◌≡◌, ◌∙◌, refl, ap, Bool, true, false, Option, none, some, List, [], ◌∷◌, ◌++◌, ◌==◌, find,
  find-append, Bool-cases, inl, inr,
}
use fcare.Base.Texts.{Text}
use fcare.Alert.Rows.{Outside}
use fcare.Analyses.{
  AnalysisStatus, Version, Desk, is_draft, is_starting, is_generating, is_send_queued, latest_of,
}
use fcare.Analyses.Versions.{
  has_version, CreateInput, create_version_record, superseding, supersede, drafted,
  mark_generation_failed,
}
use fcare.Analyses.Requests.{edited_by, dismissed_by}
use fcare.Analyses.Sending.{queued_by, sent_on, with_content, any_status}
use fcare.Analyses.Order.{is_unsettled}
use fcare.Analyses.Creation.{outcome, existing, refused, fresh, fresh_of}
use fcare.Analyses.Writes.{
  Write, Writes, created, started, finished, gave_up, changed, put_off, committed, delivered_all,
  given_back, noted, wrote_elsewhere, no_write, then_write, commit_lem, barred, through,
}
use fcare.Analyses.Lifecycle.{
  Move, Moves, stay, then_move, to_generating, to_draft, to_superseded, to_send_queued, to_sent,
  back_to_draft, queued_fails, generating_fails, Moves-trans, IsSame, IsSame-trans, Traced, Lasting,
  unmoved, update-Traced, draft_lem, generating_lem, send_queued_lem, starts, fails, one_move,
}

-- A change that keeps what a version is for good.
kept :
    (v w : Version)
    → w.id ≡ v.id
    → w.analysis_id ≡ v.analysis_id
    → w.version ≡ v.version
    → w.idempotency_key ≡ v.idempotency_key
    → w.source_snapshot ≡ v.source_snapshot
    → w.source_hash ≡ v.source_hash
    → w.created_by_id ≡ v.created_by_id
    → IsSame v w
kept v w a b c d s e f = record {
  id = a;
  analysis_id = b;
  version = c;
  idempotency_key = d;
  source_snapshot = s;
  source_hash = e;
  created_by_id = f;
}

module _ (p : Version → Bool) (lasting : Lasting p) where
  abbrev FoundIn : Version → Desk → Type 0
  FoundIn v db = find p db.versions ≡ some v

  supersede-Traced :
      (o : Option Version) (db : Desk) (v : Version)
      → FoundIn v db
      → Traced p v (supersede o db).versions
  supersede-Traced none db v e = unmoved p v db.versions e
  supersede-Traced (some l) db v e = elim (Bool-cases (is_draft l.status)) [
    | inr other ↦ rw other (unmoved p v db.versions e)
    | inl waiting ↦ rw waiting (
        update-Traced p lasting l.id is_draft superseding v db.versions
          (λ w. kept w (superseding w) refl refl refl refl refl refl refl)
          (λ w h. one_move (draft_lem w.status h) to_superseded) e)
  ]

  append-Traced :
      (v new : Version) (xs : List Version) → Traced p v xs → Traced p v (xs ++ new ∷ [])
  append-Traced v new xs t = record {
    now = t.now;
    there = find-append p xs (new ∷ []) {a = t.now} t.there;
    same = t.same;
    moves = t.moves;
  }

  create-Traced :
      (out : Outside) (input : CreateInput) (db : Desk) (v : Version)
      → FoundIn v db
      → Traced p v (create_version_record out input db).0.versions
  create-Traced out input db v e = elim (outcome out input db) [
    | existing w there own done ↦ rw done (unmoved p v db.versions e)
    | refused r done ↦ rw done (unmoved p v db.versions e)
    | fresh new idle done ↦
        let latest = latest_of input.analysis_id db.versions in
        rw done (
          append-Traced v (fresh_of out input db) (supersede latest db).versions
            (supersede-Traced latest db v e))
  ]

  gave_up-Traced :
      (message : Text) (id : ℕ) (db : Desk) (v : Version)
      → FoundIn v db
      → Traced p v (mark_generation_failed message id db).versions
  unfolding mark_generation_failed
  gave_up-Traced message id db v e = elim (Bool-cases (has_version id is_starting db)) [
    | inr gone ↦ rw gone (unmoved p v db.versions e)
    | inl there ↦ rw there (
        update-Traced p lasting id is_starting _ v db.versions
          (λ w. kept w _ refl refl refl refl refl refl refl) (λ w h. fails w.status h) e)
  ]

  Write-Traced :
      {db db' : Desk} (v : Version) → Write db db' → FoundIn v db → Traced p v db'.versions
  Write-Traced v (created out input {db}) e = create-Traced out input db v e
  Write-Traced v (started id {db}) e =
      update-Traced p lasting id is_starting _ v db.versions
        (λ w. kept w _ refl refl refl refl refl refl refl) (λ w h. starts w.status h) e
  Write-Traced v (finished out id created_by_id output {db}) e =
      elim (Bool-cases (has_version id is_generating db)) [
        | inr gone ↦ rw gone (unmoved p v db.versions e)
        | inl there ↦ rw there (
            update-Traced p lasting id is_generating (drafted out.now output) v db.versions
              (λ w. kept w _ refl refl refl refl refl refl refl)
              (λ w h. one_move (generating_lem w.status h) to_draft) e)
      ]
  Write-Traced v (gave_up message id {db}) e = gave_up-Traced message id db v e
  Write-Traced v (changed out user id output {db}) e =
      update-Traced p lasting id is_draft (edited_by out user output) v db.versions
        (λ w. kept w _ refl refl refl refl refl refl refl) (λ w _. stay) e
  Write-Traced v (put_off out user id {db}) e =
      update-Traced p lasting id is_draft (dismissed_by out user) v db.versions
        (λ w. kept w _ refl refl refl refl refl refl refl) (λ w _. stay) e
  Write-Traced v (committed engine out input {db}) e = elim (commit_lem engine out input db) [
    | barred r done ↦ rw done (unmoved p v db.versions e)
    | through snapshot hash _ _ _ _ done ↦ rw done (
        update-Traced p lasting input.version.id is_draft (queued_by engine out input.actor_id) v
          db.versions (λ w. kept w _ refl refl refl refl refl refl refl)
          (λ w h. one_move (draft_lem w.status h) to_send_queued) e)
  ]
  Write-Traced v (delivered_all engine out u {db}) e =
      elim (Bool-cases (has_version u.id is_send_queued db)) [
        | inr gone ↦ rw gone (unmoved p v db.versions e)
        | inl there ↦ rw there (
            update-Traced p lasting u.id is_send_queued (sent_on engine out) v db.versions
              (λ w. kept w _ refl refl refl refl refl refl refl)
              (λ w h. one_move (send_queued_lem w.status h) to_sent) e)
      ]
  Write-Traced v (given_back id {db}) e =
      update-Traced p lasting id is_send_queued _ v db.versions
        (λ w. kept w _ refl refl refl refl refl refl refl)
        (λ w h. one_move (send_queued_lem w.status h) back_to_draft) e
  Write-Traced v (noted id from content {db}) e =
      update-Traced p lasting id any_status (with_content from content) v db.versions
        (λ w. kept w _ refl refl refl refl refl refl refl) (λ w _. stay) e
  Write-Traced v (wrote_elsewhere {db} same) e = unmoved p v _ (ap (find p) same ∙ e)

  then-Traced :
      (v : Version) (xs ys : List Version) (t : Traced p v xs) → Traced p t.now ys → Traced p v ys
  then-Traced v xs ys t u = record {
    now = u.now;
    there = u.there;
    same = IsSame-trans t.same u.same;
    moves = Moves-trans t.moves u.moves;
  }

  pub all-Traced :
      {db db' : Desk} (v : Version) → Writes db db' → FoundIn v db → Traced p v db'.versions
  all-Traced {db} v no_write e = unmoved p v db.versions e
  all-Traced {db' = db''} v (then_write {db' = db'} writes write) e =
      let before = all-Traced v writes e in
      then-Traced v db'.versions db''.versions before (Write-Traced before.now write before.there)

-- The versions implement the machine: whatever is written, a version that is found by its id is found
-- again, it keeps its analysis, number, key, creator, source snapshot and source hash, and its status has
-- only moved along the edges of the machine.
pub Writes-Moves :
    {db db' : Desk} (id : ℕ) (v : Version)
    → Writes db db'
    → find (λ w. w.id == id) db.versions ≡ some v
    → Traced (λ w. w.id == id) v db'.versions
Writes-Moves id v writes e =
    all-Traced (λ w. w.id == id) (λ u w s. ap (λ i. i == id) s.id) v writes e

leaves_unsettled : {s t : AnalysisStatus} → Move s t → is_unsettled s ≡ true
leaves_unsettled to_generating = refl
leaves_unsettled to_draft = refl
leaves_unsettled queued_fails = refl
leaves_unsettled generating_fails = refl
leaves_unsettled to_superseded = refl
leaves_unsettled to_send_queued = refl
leaves_unsettled to_sent = refl
leaves_unsettled back_to_draft = refl

settled_stays : {s t : AnalysisStatus} → is_unsettled s ≡ false → Moves s t → t ≡ s
settled_stays h stay = refl
settled_stays h (then_move moves move) =
    let before = settled_stays h moves in
    let running = leaves_unsettled move in let over = ap is_unsettled before ∙ h in cc

-- A version that has failed, was superseded or was sent stays so, whatever is written.
pub Writes-settled :
    {db db' : Desk} (id : ℕ) (v : Version)
    → Writes db db'
    → find (λ w. w.id == id) db.versions ≡ some v
    → is_unsettled v.status ≡ false
    → (w : Version) × (find (λ x. x.id == id) db'.versions ≡ some w) × (w.status ≡ v.status)
Writes-settled id v writes e h =
    let t = Writes-Moves id v writes e in (t.now, t.there, settled_stays h t.moves)
