-- ===== src/Analyses/Levels.antt =====
-- The level that the system asks for, and what a draft must have to be sent.
use fcare.Base.{
  ℕ, ◌≤◌, ◌≡◌, refl, max, true, ◌⊎◌, inl, inr, Option, none, some, List, ltb, arith, any,
  Bool-cases, Option-cases,
}
use mathlib.Core.Path.{subst}
use fcare.Base.Texts.{Text, trim}
use fcare.Analyses.{
  ForcedEscalation, AcademicAnalysisOutput, AnalysisSourceSnapshot, Json, readable, unreadable,
}
use fcare.Analyses.Content.{Platform, system_level, ai_forced_level, quotes, is_blank}

-- The output can be read, and its quote, put into lower case, stands in a note of the source.
abbrev pub IsQuoted :
    Platform → Option (Json AcademicAnalysisOutput) → ℕ → List (Option Text) → Type 0
IsQuoted js written level notes =
    (output : AcademicAnalysisOutput) × (forced : ForcedEscalation) × (written
      ≡ some (readable output))
    × (output.forced_escalation ≡ some forced)
    × (forced.level ≡ level)
    × (any (quotes js (js.to_lower_case (trim forced.quote))) notes ≡ true)

forced-IsQuoted :
    (js : Platform) (output : AcademicAnalysisOutput) (notes : List (Option Text)) (level : ℕ)
    → ai_forced_level js output.forced_escalation notes ≡ some level
    → IsQuoted js (some (readable output)) level notes
forced-IsQuoted js output notes level h = by_forced output.forced_escalation refl h
  where
    by_forced :
        (o : Option ForcedEscalation)
        → output.forced_escalation ≡ o
        → ai_forced_level js o notes ≡ some level
        → IsQuoted js (some (readable output)) level notes
    by_forced none e k = cc
    by_forced (some forced) e k =
        let needle = js.to_lower_case (trim forced.quote) in
        elim (Bool-cases (is_blank needle)) [
          | inl blank ↦ let clash : ◌≡◌ {A = Option ℕ} none (some level) = rw blank at k in cc
          | inr there ↦ elim (Bool-cases (any (quotes js needle) notes)) [
            | inr nowhere ↦
                let clash : ◌≡◌ {A = Option ℕ} none (some level) = rw nowhere at (rw there at k) in
                cc
            | inl quoted ↦
                let found : ◌≡◌ {A = Option ℕ} (some forced.level) (some level) =
                  rw quoted at (rw there at k) in
                (output, forced, refl, e, cc, quoted)
          ]
        ]

-- The system's level, of a source that can be read and of any output, is not below the level of the score
-- or the level that the data force; and where it is above both of them and above 1, it is the level of an
-- output that can be read and whose quote, trimmed and in lower case, stands in a note of the source. Of a
-- source that cannot be read the level is 1.
pub system_level_lem :
    (js : Platform) (snapshot : AnalysisSourceSnapshot)
    (written : Option (Json AcademicAnalysisOutput))
    → let level = system_level js (readable snapshot) written in
      let given = max snapshot.drs_level snapshot.data_forced_level in
      (given ≤ level)
      × ((level ≤ max given 1) ⊎ IsQuoted js written level snapshot.notes)
      × (system_level js unreadable written ≡ 1)
unfolding system_level
system_level_lem js snapshot none = (omega arith, inl (omega arith), refl)
system_level_lem js snapshot (some unreadable) = (omega arith, inl (omega arith), refl)
system_level_lem js snapshot (some (readable output)) =
    elim (Option-cases (ai_forced_level js output.forced_escalation snapshot.notes)) [
      | inl unforced ↦ rw unforced (omega arith, inl (omega arith), refl)
      | inr (level, forced) ↦
          let given = max snapshot.drs_level snapshot.data_forced_level in
          rw forced (
            omega arith,
            elim (Bool-cases (ltb given level)) [
              | inl above ↦ inr (
                  subst (λ n. IsQuoted js (some (readable output)) n snapshot.notes)
                    (ground (arith, above)) (forced-IsQuoted js output snapshot.notes level forced))
              | inr below ↦ inl (ground (arith, below))
            ],
            refl,
          )
    ]
