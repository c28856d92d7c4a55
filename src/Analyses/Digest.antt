-- ===== src/Analyses/Digest.antt =====
-- The summary of care that goes with an analysis is bounded.
use fcare.Base.{
  ℕ, zero, suc, ◌≤◌, List, [], ◌∷◌, arith, ltb, length, take, map, length-append, Bool-cases, inl,
  inr,
}
use fcare.Analyses.{SourceCareLog}
use fcare.Analyses.Content.{
  Platform, care_history_digest, join_lines, care_line, max_entries, max_total_length, sort_newest,
  ellipsis,
}

length-take_le : {A : Type 0} (n : ℕ) (xs : List A) → length (take n xs) ≤ n
length-take_le zero xs = omega arith
length-take_le (suc n) [] = omega arith
length-take_le (suc n) (x ∷ xs) = omega (arith, length-take_le n xs)

-- The care history that is sent with a lecturer's own text has at most 1200 characters, whatever was
-- noted and however often.
pub care_history_digest-length :
    (js : Platform) (care_logs : List SourceCareLog)
    → length (care_history_digest js care_logs) ≤ 1200
unfolding care_history_digest
care_history_digest-length js care_logs =
    let digest = join_lines (map (care_line js) (take max_entries (sort_newest care_logs))) in
    elim (Bool-cases (ltb max_total_length (length digest))) [
      | inr short ↦ rw short (ground (arith, short))
      | inl long ↦ rw long (
          rw (length-append (take 1199 digest) ellipsis)
            (omega (arith, length-take_le 1199 digest)))
    ]
