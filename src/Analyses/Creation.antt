-- ===== src/Analyses/Creation.antt =====
-- Creating a version: what it keeps of the order of versions, and creating it again.
use fcare.Base.{
  ℕ, ◌≡◌, refl, Bool, true, false, not, ◌&&◌, ◌||◌, Option, none, some, List, ◌==◌, leb, arith, all,
  any, find, all_both, all_imply, all-update_cases, keep-all, first_by-any, first_by-none, one_all,
  none-any, implies, and_split, Bool-cases, Option-cases, inl, inr, ==_refl, ok, err,
}
use fcare.Alert.Rows.{Outside}
use fcare.Analyses.{
  Version, Desk, AnalysisError, active_version, source_unchanged, state_changed, key_reused,
  is_active, is_draft, is_newer, latest_of,
}
use fcare.Analyses.Versions.{
  supersede, superseding, new_version, CreateInput, create_version_record, added, is_unchanged,
  is_lost,
}
use fcare.Analyses.Order.{
  IsOrdered, is_unsettled, has_number, at_most, settled_or_top, update-IsOrdered, append-IsOrdered,
  is_below, latest-top, unsettled_is_latest, latest_own,
}

-- Where no version of an analysis is active, one that is not settled is the latest, and a draft.
abbrev only_draft : ℕ → Version → Version → Bool
only_draft a l v =
    not (v.analysis_id == a)
    || (leb v.version l.version
        && (not (is_unsettled v.status)
            || (v.id == l.id && (is_draft v.status && is_draft l.status))))

module _ (a : ℕ) (xs : List Version) (s : IsOrdered xs)
    (idle : any (λ v. v.analysis_id == a && is_active v.status) xs ≡ false) where
  rows_of_latest :
      (l : Version)
      → latest_of a xs ≡ some l
      → all
          (λ v.
            not (has_number a l.version v)
            || (v.id == l.id && implies (is_draft v.status) (is_draft l.status)))
          xs
        ≡ true
  rows_of_latest l e =
      let like = λ (v : Version). v.id == l.id && implies (is_draft v.status) (is_draft l.status) in
      one_all (has_number a l.version) like xs (s.one_number a l.version) (
        first_by-any is_newer (λ v. v.analysis_id == a) (λ v. has_number a l.version v && like v) xs
          l e (rw (latest_own a xs l e, ==_refl a, ==_refl l.version, ==_refl l.id) (ground arith)))

  all-only_draft : (l : Version) → latest_of a xs ≡ some l → all (only_draft a l) xs ≡ true
  all-only_draft l e =
      all_imply
        (λ v.
          (settled_or_top xs v && at_most a l.version v)
          && (not (v.analysis_id == a && is_active v.status)
              && (not (has_number a l.version v)
                  || (v.id == l.id && implies (is_draft v.status) (is_draft l.status)))))
        (only_draft a l) xs
        (λ v k.
          let (order, rest) = and_split (settled_or_top xs v && at_most a l.version v) _ k in
          let (top, low) = and_split (settled_or_top xs v) (at_most a l.version v) order in
          ground (arith, rest, low, unsettled_is_latest a xs l e v top low))
        (all_both _ _ xs
          (all_both (settled_or_top xs) (at_most a l.version) xs s.newest (latest-top a xs l e))
          (all_both _ _ xs (none-any (λ v. v.analysis_id == a && is_active v.status) xs idle)
            (rows_of_latest l e)))

-- After the latest draft is superseded, the versions of the analysis are below the new one.
superseded-below :
    (out : Outside) (input : CreateInput) (db : Desk) (o : Option Version)
    → latest_of input.analysis_id db.versions ≡ o
    → IsOrdered db.versions
    → any (λ v. v.analysis_id == input.analysis_id && is_active v.status) db.versions ≡ false
    → all (is_below (new_version out input o)) (supersede o db).versions ≡ true
superseded-below out input db none e s idle =
    all_imply _ (is_below (new_version out input none)) db.versions (λ v k. ground (arith, k))
      (keep-all (λ v. v.analysis_id == input.analysis_id) (λ _. false) db.versions
        (first_by-none is_newer (λ _. false) _ e))
superseded-below out input db (some l) e s idle =
    let a = input.analysis_id in
    let rows = all-only_draft a db.versions s idle l e in
    elim (Bool-cases (is_draft l.status)) [
      | inr other ↦ rw other (
          all_imply (only_draft a l) (is_below (new_version out input (some l))) db.versions
            (λ v k. ground (arith, k, other)) rows)
      | inl waiting ↦ rw waiting (
          all-update_cases (only_draft a l) (is_below (new_version out input (some l)))
            (λ v. v.id == l.id && is_draft v.status) superseding db.versions
            (λ v k. ground (arith, k)) rows)
    ]

supersede-IsOrdered :
    (o : Option Version) (db : Desk) → IsOrdered db.versions → IsOrdered (supersede o db).versions
supersede-IsOrdered none db s = s
supersede-IsOrdered (some l) db s = elim (Bool-cases (is_draft l.status)) [
  | inr other ↦ rw other s
  | inl waiting ↦ rw waiting (
      update-IsOrdered _ superseding db.versions (λ _. refl) (λ _. refl) (λ v k. ground (arith, k))
        s)
]

abbrev pub fresh_of : Outside → CreateInput → Desk → Version
fresh_of out input db = new_version out input (latest_of input.analysis_id db.versions)

abbrev pub with_key : CreateInput → Version → Bool
with_key input v = v.idempotency_key == input.idempotency_key

-- What a creation does: it returns the version of its key, refuses, or adds a version.
pub data Outcome (out : Outside) (input : CreateInput) (db : Desk) : Type 0 where
  existing :
      (v : Version)
      → find (with_key input) db.versions ≡ some v
      → (v.analysis_id == input.analysis_id) ≡ true
      → create_version_record out input db ≡ (db, ok v)
      → Outcome out input db
  refused :
      (e : AnalysisError) → create_version_record out input db ≡ (db, err e) → Outcome out input db
  fresh :
      find (with_key input) db.versions ≡ none
      → any (λ v. v.analysis_id == input.analysis_id && is_active v.status) db.versions ≡ false
      → create_version_record out input db ≡ (
        added (fresh_of out input db) (supersede (latest_of input.analysis_id db.versions) db),
        ok (fresh_of out input db),
      )
      → Outcome out input db

pub outcome : (out : Outside) (input : CreateInput) (db : Desk) → Outcome out input db
unfolding create_version_record
outcome out input db = elim (Option-cases (find (with_key input) db.versions)) [
  | inr (v, there) ↦ elim (Bool-cases (v.analysis_id == input.analysis_id)) [
    | inl own ↦ existing v there own (rw (there, create_version_record) (rw own refl))
    | inr other ↦ refused key_reused (rw (there, create_version_record) (rw other refl))
  ]
  | inl new ↦
      let latest = latest_of input.analysis_id db.versions in
      elim (Bool-cases
        (any (λ v. v.analysis_id == input.analysis_id && is_active v.status) db.versions)) [
          | inl running ↦ refused active_version (rw (new, create_version_record) (rw running refl))
          | inr idle ↦ elim (Bool-cases (is_unchanged input.hash latest)) [
            | inl same ↦
                refused source_unchanged (rw (new, create_version_record) (rw idle (rw same refl)))
            | inr changed ↦ elim (Bool-cases (is_lost latest db)) [
              | inl lost ↦
                  refused state_changed
                    (rw (new, create_version_record) (rw idle (rw changed (rw lost refl))))
              | inr kept ↦
                  fresh new idle
                    (rw (new, create_version_record) (rw idle (rw changed (rw kept refl))))
            ]
          ]
        ]
]

-- Creating a version keeps the order of the versions.
pub create-IsOrdered :
    (out : Outside) (input : CreateInput) (db : Desk)
    → IsOrdered db.versions
    → IsOrdered (create_version_record out input db).0.versions
create-IsOrdered out input db s = elim (outcome out input db) [
  | existing v there own e ↦ rw e s
  | refused r e ↦ rw e s
  | fresh new idle e ↦
      let latest = latest_of input.analysis_id db.versions in
      rw e (
        append-IsOrdered (fresh_of out input db) (supersede latest db).versions
          (superseded-below out input db latest refl s idle) (supersede-IsOrdered latest db s))
]
