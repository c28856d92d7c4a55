-- ===== src/Analyses/Lifecycle.antt =====
-- What becomes of one version: it moves along the edges of a small machine, whatever is written.
use fcare.Base.{
  ℕ, ◌≡◌, ◌∙◌, refl, sym, Bool, true, ◌&&◌, some, List, ◌==◌, arith, find, find-update_where,
  update_where, Bool-cases, inl, inr, and_split,
}
use mathlib.Core.Path.{subst}
use fcare.Analyses.{
  AnalysisStatus, queued, generating, draft, failed, superseded, send_queued, sent, Version, Json,
  AnalysisSourceSnapshot, is_draft, is_starting, is_generating, is_send_queued,
}

-- The machine of one version.
pub data Move : AnalysisStatus → AnalysisStatus → Type 0 where
  to_generating : Move queued generating
  to_draft : Move generating draft
  queued_fails : Move queued failed
  generating_fails : Move generating failed
  to_superseded : Move draft superseded
  to_send_queued : Move draft send_queued
  to_sent : Move send_queued sent
  back_to_draft : Move send_queued draft

pub data Moves : AnalysisStatus → AnalysisStatus → Type 0 where
  stay : {s : AnalysisStatus} → Moves s s
  then_move : {s t u : AnalysisStatus} → Moves s t → Move t u → Moves s u

pub Moves-trans : {s t u : AnalysisStatus} → Moves s t → Moves t u → Moves s u
Moves-trans m stay = m
Moves-trans m (then_move n move) = then_move (Moves-trans m n) move

-- What a version is for good.
pub record IsSame (v w : Version) : Type 0 where
  pub id : w.id ≡ v.id
  pub analysis_id : w.analysis_id ≡ v.analysis_id
  pub version : w.version ≡ v.version
  pub idempotency_key : w.idempotency_key ≡ v.idempotency_key
  pub source_snapshot : ◌≡◌ {A = Json AnalysisSourceSnapshot} w.source_snapshot v.source_snapshot
  pub source_hash : w.source_hash ≡ v.source_hash
  pub created_by_id : w.created_by_id ≡ v.created_by_id

pub IsSame-trans : {u v w : Version} → IsSame u v → IsSame v w → IsSame u w
IsSame-trans a b = record {
  id = b.id ∙ a.id;
  analysis_id = b.analysis_id ∙ a.analysis_id;
  version = b.version ∙ a.version;
  idempotency_key = b.idempotency_key ∙ a.idempotency_key;
  source_snapshot = b.source_snapshot ∙ a.source_snapshot;
  source_hash = b.source_hash ∙ a.source_hash;
  created_by_id = b.created_by_id ∙ a.created_by_id;
}

-- The version that a search finds is found again, as the same version, at a status that the machine
-- reaches.
pub record Traced (p : Version → Bool) (v : Version) (versions : List Version) : Type 0 where
  pub now : Version
  pub there : find p versions ≡ some now
  pub same : IsSame v now
  pub moves : Moves v.status now.status

-- A search that reads only what is for good.
abbrev pub Lasting : (Version → Bool) → Type 0
Lasting p = (v w : Version) → IsSame v w → p w ≡ p v

pub unmoved :
    (p : Version → Bool) (v : Version) (xs : List Version) → find p xs ≡ some v → Traced p v xs
unmoved p v xs e = record {
  now = v;
  there = e;
  same = record {
    id = refl;
    analysis_id = refl;
    version = refl;
    idempotency_key = refl;
    source_snapshot = refl;
    source_hash = refl;
    created_by_id = refl;
  };
  moves = stay;
}

module _ (p : Version → Bool) (lasting : Lasting p) where
  pub update-Traced :
      (id : ℕ) (from : AnalysisStatus → Bool) (f : Version → Version) (v : Version)
      (xs : List Version)
      → ((w : Version) → IsSame w (f w))
      → ((w : Version) → from w.status ≡ true → Moves w.status (f w).status)
      → find p xs ≡ some v
      → Traced p v (update_where (λ w. w.id == id && from w.status) f xs)
  update-Traced id from f v xs same moves e =
      let found =
        find-update_where p (λ w. w.id == id && from w.status) f xs (λ w. lasting w (f w) (same w))
          {a = v} e in
      elim (Bool-cases (v.id == id && from v.status)) [
        | inl hit ↦ record {
          now = f v;
          there = found ∙ rw hit refl;
          same = same v;
          moves = moves v (and_split (v.id == id) (from v.status) hit).1;
        }
        | inr missed ↦ unmoved p v _ (found ∙ rw missed refl)
      ]

-- A status that passes a test of the code.
pub draft_lem : (s : AnalysisStatus) → is_draft s ≡ true → s ≡ draft
draft_lem s h = ground (arith, h)

pub generating_lem : (s : AnalysisStatus) → is_generating s ≡ true → s ≡ generating
generating_lem s h = ground (arith, h)

pub send_queued_lem : (s : AnalysisStatus) → is_send_queued s ≡ true → s ≡ send_queued
send_queued_lem s h = ground (arith, h)

pub starts : (s : AnalysisStatus) → is_starting s ≡ true → Moves s generating
starts queued h = then_move stay to_generating
starts generating h = stay
starts _ h = cc

pub fails : (s : AnalysisStatus) → is_starting s ≡ true → Moves s failed
fails queued h = then_move stay queued_fails
fails generating h = then_move stay generating_fails
fails _ h = cc

pub one_move : {s t u : AnalysisStatus} → s ≡ t → Move t u → Moves s u
one_move {s} {t} {u} e m = subst (λ r. Moves r u) (sym e) (then_move stay m)
