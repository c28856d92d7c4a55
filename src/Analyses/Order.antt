-- ===== src/Analyses/Order.antt =====
-- The versions of an analysis are numbered apart, and one that is not settled is the last. What updates
-- and a new version keep of it.
use fcare.Base.{
  ℕ, ◌≤◌, ◌≡◌, refl, Bool, true, not, ◌&&◌, ◌||◌, Option, none, some, List, [], ◌∷◌, ◌++◌, ◌==◌,
  leb, suc, arith, all, keep, count, count-append, count-update_where, count-zero, count_mono,
  all-keep, count-none, first_by-none, all_of, all_both, all_imply, all-append, all-update_cases,
  all-update_same, all-keep_weaker, keep-all, first_by, first_by-all, better, update_where, implies,
  and_split, and_join, Bool-cases, Option-cases, inl, inr, ==_iff, ==_refl,
}
use mathlib.Core.Path.{subst}
use fcare.Analyses.{AnalysisStatus, Version, is_active, is_draft, is_newer, latest_of}

-- Not failed, superseded or sent.
abbrev pub is_unsettled : AnalysisStatus → Bool
is_unsettled s = is_active s || is_draft s

abbrev pub has_number : ℕ → ℕ → Version → Bool
has_number analysis_id n v = v.analysis_id == analysis_id && v.version == n

abbrev pub at_most : ℕ → ℕ → Version → Bool
at_most analysis_id n w = not (w.analysis_id == analysis_id) || leb w.version n

abbrev pub settled_or_top : List Version → Version → Bool
settled_or_top versions v =
    not (is_unsettled v.status) || all (at_most v.analysis_id v.version) versions

pub record IsOrdered (versions : List Version) : Type 0 where
  pub one_number : (analysis_id n : ℕ) → count (has_number analysis_id n) versions ≤ 1
  pub newest : all (settled_or_top versions) versions ≡ true

-- A change of versions that keeps their numbers and unsettles none.
pub update-IsOrdered :
    (q : Version → Bool) (f : Version → Version) (xs : List Version)
    → ((v : Version) → (f v).analysis_id ≡ v.analysis_id)
    → ((v : Version) → (f v).version ≡ v.version)
    → ((v : Version)
        → q v ≡ true
        → implies (is_unsettled (f v).status) (is_unsettled v.status) ≡ true)
    → IsOrdered xs
    → IsOrdered (update_where q f xs)
update-IsOrdered q f xs g h k s = record {
  one_number = λ a n. omega (
    arith,
    s.one_number a n,
    count-update_where (has_number a n) q f xs (all_of _ xs (λ v. rw (g v, h v) (ground arith))),
  );
  newest =
      all-update_cases (settled_or_top xs) _ q f xs
        (λ v t. elim (Bool-cases (q v)) [
          | inl changed ↦
              rw (changed, g v, h v)
                (rw
                  (all-update_same (at_most v.analysis_id v.version) q f xs
                    (λ w. rw (g w, h w) refl))
                  (ground (arith, t, k v changed)))
          | inr same ↦ rw same (
              rw
                (all-update_same (at_most v.analysis_id v.version) q f xs (λ w. rw (g w, h w) refl))
                t)
        ])
        s.newest;
}

top_of :
    (x : Version) (xs : List Version) (o : Option Version) (c : Version)
    → first_by is_newer xs ≡ o
    → better is_newer x o ≡ c
    → ((b : Version) → first_by is_newer xs ≡ some b → all (λ w. leb w.version b.version) xs ≡ true)
    → all (λ w. leb w.version c.version) (x ∷ xs) ≡ true
top_of x xs none c e h ih =
    subst (λ (d : Version). all (λ w. leb w.version d.version) (x ∷ xs) ≡ true) h
      (and_join (ground arith) (first_by-none is_newer (λ w. leb w.version x.version) xs e))
top_of x xs (some b) c e h ih = elim (Bool-cases (is_newer b x)) [
  | inl newer ↦
      let same : b ≡ c = rw newer at h in
      subst (λ (d : Version). all (λ w. leb w.version d.version) (x ∷ xs) ≡ true) same
        (and_join (ground (arith, newer)) (ih b e))
  | inr older ↦
      let same : x ≡ c = rw older at h in
      subst (λ (d : Version). all (λ w. leb w.version d.version) (x ∷ xs) ≡ true) same
        (and_join (ground arith) (
          all_imply (λ w. leb w.version b.version) _ xs (λ w k. ground (arith, k, older)) (ih b e)))
]

-- The first of the rows by number is not below any.
first_by-top :
    (xs : List Version) (c : Version)
    → first_by is_newer xs ≡ some c
    → all (λ w. leb w.version c.version) xs ≡ true
first_by-top [] c e = refl
first_by-top (x ∷ xs) c e =
    top_of x xs (first_by is_newer xs) c refl (cc) (λ b h. first_by-top xs b h)

-- The latest version of an analysis has its highest number.
pub latest-top :
    (a : ℕ) (xs : List Version) (l : Version)
    → latest_of a xs ≡ some l
    → all (at_most a l.version) xs ≡ true
latest-top a xs l e =
    keep-all (λ v. v.analysis_id == a) (λ w. leb w.version l.version) xs
      (first_by-top (keep (λ v. v.analysis_id == a) xs) l e)

-- What all versions have, the latest has.
pub at_latest :
    (p : Version → Bool) (a : ℕ) (xs : List Version) (l : Version)
    → latest_of a xs ≡ some l
    → all p xs ≡ true
    → p l ≡ true
at_latest p a xs l e h =
    first_by-all is_newer p (keep (λ v. v.analysis_id == a) xs)
      (all-keep_weaker (λ v. v.analysis_id == a) p xs h) l e

pub latest_own :
    (a : ℕ) (xs : List Version) (l : Version) → latest_of a xs ≡ some l → l.analysis_id ≡ a
latest_own a xs l e = (==_iff l.analysis_id a).0 (
    first_by-all is_newer (λ v. v.analysis_id == a) (keep (λ v. v.analysis_id == a) xs)
      (all-keep (λ v. v.analysis_id == a) xs) l e)

-- A settled version of a lower number, or of another analysis.
abbrev pub is_below : Version → Version → Bool
is_below new w =
    not (w.analysis_id == new.analysis_id)
    || (not (is_unsettled w.status) && leb (suc w.version) new.version)

-- The new version has a number above those of its analysis, whose versions are all settled.
pub append-IsOrdered :
    (new : Version) (xs : List Version)
    → all (is_below new) xs ≡ true
    → IsOrdered xs
    → IsOrdered (xs ++ new ∷ [])
append-IsOrdered new xs h s = record {
  one_number = λ a n.
      rw (count-append (has_number a n) xs (new ∷ [])) (elim (Bool-cases (has_number a n new)) [
        | inl same ↦
            let none_yet : count (has_number a n) xs ≡ 0 =
              count-zero (has_number a n) xs
                (all_imply (is_below new) _ xs (λ w k. ground (arith, k, same)) h) in
            rw (none_yet, same) (ground arith)
        | inr other ↦ rw other (omega (arith, s.one_number a n))
      ]);
  newest = rw (all-append (settled_or_top (xs ++ new ∷ [])) xs (new ∷ [])) (
      and_join {a = all (settled_or_top (xs ++ new ∷ [])) xs}
        {b = all (settled_or_top (xs ++ new ∷ [])) (new ∷ [])}
        (all_imply (λ w. is_below new w && settled_or_top xs w) _ xs
          (λ w k.
            let (below, top) = and_split (is_below new w) (settled_or_top xs w) k in
            rw (all-append (at_most w.analysis_id w.version) xs (new ∷ []))
              (elim (Bool-cases (w.analysis_id == new.analysis_id)) [
                | inl own ↦ ground (arith, below, own)
                | inr other ↦ ground (arith, top, other)
              ]))
          (all_both (is_below new) (settled_or_top xs) xs h s.newest))
        (rw (all-append (at_most new.analysis_id new.version) xs (new ∷ [])) (
          rw
            (all_imply (is_below new) (at_most new.analysis_id new.version) xs
              (λ w k. ground (arith, k)) h)
            (ground arith))));
}

-- A version that is not settled has the number of the latest.
pub unsettled_is_latest :
    (a : ℕ) (xs : List Version) (l : Version)
    → latest_of a xs ≡ some l
    → (v : Version) → settled_or_top xs v ≡ true
    → at_most a l.version v ≡ true
    → (not (v.analysis_id == a && is_unsettled v.status) || has_number a l.version v) ≡ true
unsettled_is_latest a xs l e v top low =
    elim (Bool-cases (v.analysis_id == a && is_unsettled v.status)) [
      | inr other ↦ rw other refl
      | inl running ↦
          let (own, unsettled) = and_split (v.analysis_id == a) _ running in
          let high =
            at_latest (at_most v.analysis_id v.version) a xs l e (ground (arith, top, unsettled)) in
          let same : (l.analysis_id == v.analysis_id) ≡ true =
            rw (latest_own a xs l e, (==_iff v.analysis_id a).0 own) (==_refl a) in
          ground (arith, own, low, high, same)
    ]

-- At most one version of an analysis is not settled.
pub one_unsettled :
    (a : ℕ) (xs : List Version)
    → IsOrdered xs
    → count (λ v. v.analysis_id == a && is_unsettled v.status) xs ≤ 1
one_unsettled a xs s = elim (Option-cases (latest_of a xs)) [
  | inl no_version ↦ omega (
    arith,
    count-none is_newer (λ v. v.analysis_id == a) xs no_version,
    count_mono (λ v. v.analysis_id == a && is_unsettled v.status) (λ v. v.analysis_id == a) xs
        (all_of _ xs (λ v. ground arith)),
  )
  | inr (l, e) ↦ omega (
    arith,
    s.one_number a l.version,
    count_mono (λ v. v.analysis_id == a && is_unsettled v.status) (has_number a l.version) xs
        (all_imply (λ v. settled_or_top xs v && at_most a l.version v) _ xs
          (λ v k.
            let (top, low) = and_split (settled_or_top xs v) (at_most a l.version v) k in
            unsettled_is_latest a xs l e v top low)
          (all_both (settled_or_top xs) (at_most a l.version) xs s.newest (latest-top a xs l e))),
  )
]
