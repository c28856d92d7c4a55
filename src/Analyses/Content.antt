-- ===== src/Analyses/Content.antt =====
-- What a sent analysis says: student-analyses.service.ts (aiForcedLevel, resolveFinalLevel, systemLevel,
-- aiReason, sendContent), analysis-source.ts (redaction) and care-history-digest.ts.
use fcare.Base.{
  ℕ, ◌+◌, ◌-◌, Bool, true, false, not, ◌&&◌, ◌||◌, Option, none, some, List, [], ◌∷◌, ◌++◌, ltb,
  leb, max, if◌then◌else◌, length, take, map, any, Result, ok, err,
}
use fcare.Base.Texts.{Text, trim, includes, text_eq}
use fcare.Analyses.{
  AnalysisContentSource, ai, lecturer_text, ForcedEscalation, AcademicAnalysisOutput, SourceCareLog,
  AnalysisSourceSnapshot, Json, unreadable, readable, AnalysisError, lecturer_note_too_short,
  pii_rejected,
}

-- The regular expressions of analysis-source.ts; the last is the escaped text of an identifier.
pub data Pattern : Type 0 where
  email_pattern phone_pattern government_id_pattern address_pattern uuid_pattern : Pattern
  identifier_pattern : Text → Pattern

-- What the language's run time does: `toLowerCase`, `RegExp.test`, `String.replace`, numbers and dates.
pub record Platform : Type 0 where
  pub to_lower_case : Text → Text
  pub test : Pattern → Text → Bool
  pub replace : Pattern → Text → Text → Text
  pub show_number : ℕ → Text
  pub utc_date : ℕ → ℕ
  pub utc_month : ℕ → ℕ
  pub utc_full_year : ℕ → ℕ
  pub id_text : ℕ → Text

abbrev pub reason_min_length : ℕ
reason_min_length = 40

abbrev pub max_entries : ℕ
max_entries = 5

abbrev pub max_field_length : ℕ
max_field_length = 200

abbrev pub max_total_length : ℕ
max_total_length = 1200

abbrev pub ellipsis : Text
ellipsis = 8230 ∷ []

abbrev pub quote_start : Text
quote_start =
    32 ∷ b'T' ∷ b'r' ∷ 237 ∷ b'c' ∷ b'h' ∷ 32 ∷ b'n' ∷ b'h' ∷ 7853 ∷ b'n' ∷ 32 ∷ b'x' ∷ 233 ∷ b't'
    ∷ b':' ∷ 32 ∷ 8220 ∷ []

abbrev pub quote_end : Text
quote_end = 8221 ∷ b'.' ∷ []

abbrev pub hidden : Text
hidden = b'[' ∷ 272 ∷ 195 ∷ 32 ∷ 7848 ∷ b'N' ∷ b']' ∷ []

abbrev pub hidden_email : Text
hidden_email =
    b'[' ∷ b'E' ∷ b'M' ∷ b'A' ∷ b'I' ∷ b'L' ∷ 32 ∷ 272 ∷ 195 ∷ 32 ∷ 7848 ∷ b'N' ∷ b']' ∷ []

abbrev pub hidden_phone : Text
hidden_phone = b'[' ∷ b'S' ∷ 272 ∷ b'T' ∷ 32 ∷ 272 ∷ 195 ∷ 32 ∷ 7848 ∷ b'N' ∷ b']' ∷ []

abbrev pub hidden_id : Text
hidden_id =
    b'[' ∷ 272 ∷ 7882 ∷ b'N' ∷ b'H' ∷ 32 ∷ b'D' ∷ b'A' ∷ b'N' ∷ b'H' ∷ 32 ∷ 272 ∷ 195 ∷ 32 ∷ 7848
    ∷ b'N' ∷ b']' ∷ []

abbrev pub hidden_address : Text
hidden_address =
    b'[' ∷ 272 ∷ 7882 ∷ b'A' ∷ 32 ∷ b'C' ∷ b'H' ∷ 7880 ∷ 32 ∷ 272 ∷ 195 ∷ 32 ∷ 7848 ∷ b'N' ∷ b']'
    ∷ []

abbrev pub hidden_uuid : Text
hidden_uuid = b'[' ∷ b'U' ∷ b'U' ∷ b'I' ∷ b'D' ∷ 32 ∷ 272 ∷ 195 ∷ 32 ∷ 7848 ∷ b'N' ∷ b']' ∷ []

abbrev pub care_heading : Text
care_heading =
    10 ∷ 10 ∷ b'L' ∷ 7883 ∷ b'c' ∷ b'h' ∷ 32 ∷ b's' ∷ 7917 ∷ 32 ∷ b'c' ∷ b'h' ∷ 259 ∷ b'm' ∷ 32
    ∷ b's' ∷ 243 ∷ b'c' ∷ 32 ∷ b'g' ∷ 7847 ∷ b'n' ∷ 32 ∷ 273 ∷ 226 ∷ b'y' ∷ b':' ∷ 10 ∷ []

abbrev pub in_person_label : Text
in_person_label =
    b'G' ∷ 7863 ∷ b'p' ∷ 32 ∷ b't' ∷ b'r' ∷ 7921 ∷ b'c' ∷ 32 ∷ b't' ∷ b'i' ∷ 7871 ∷ b'p' ∷ []

abbrev pub online_label : Text
online_label =
    b'T' ∷ b'r' ∷ b'a' ∷ b'o' ∷ 32 ∷ 273 ∷ 7893 ∷ b'i' ∷ 32 ∷ b'o' ∷ b'n' ∷ b'l' ∷ b'i' ∷ b'n'
    ∷ b'e' ∷ []

abbrev pub outcome_start : Text
outcome_start = 32 ∷ b'(' ∷ b'k' ∷ 7871 ∷ b't' ∷ 32 ∷ b'q' ∷ b'u' ∷ 7843 ∷ b':' ∷ 32 ∷ []

abbrev pub separator : Text
separator = 32 ∷ 183 ∷ 32 ∷ []

abbrev pub in_person_key : Text
in_person_key = b'I' ∷ b'N' ∷ b'_' ∷ b'P' ∷ b'E' ∷ b'R' ∷ b'S' ∷ b'O' ∷ b'N' ∷ []

abbrev pub online_key : Text
online_key = b'O' ∷ b'N' ∷ b'L' ∷ b'I' ∷ b'N' ∷ b'E' ∷ []

-- Newest first, and those of one time in their order.
abbrev pub insert_newest : SourceCareLog → List SourceCareLog → List SourceCareLog
insert_newest c [] = c ∷ []
insert_newest c (d ∷ rest) =
    if leb d.created_at c.created_at then c ∷ d ∷ rest else d ∷ insert_newest c rest

abbrev pub sort_newest : List SourceCareLog → List SourceCareLog
sort_newest [] = []
sort_newest (c ∷ rest) = insert_newest c (sort_newest rest)

-- `clamp`
pub clamp : Text → Text
clamp text =
    if ltb max_field_length (length (trim text))
    then take max_field_length (trim text) ++ ellipsis
    else trim text

abbrev pub channel_label : Text → Text
channel_label channel =
    if text_eq channel in_person_key
    then in_person_label
    else if text_eq channel online_key
    then online_label
    else channel

-- `lines.join('\n')`
pub join_lines : List Text → Text
join_lines [] = []
join_lines (l ∷ []) = l
join_lines (l ∷ m ∷ rest) = l ++ 10 ∷ join_lines (m ∷ rest)

abbrev pub is_blank : Text → Bool
is_blank [] = true
is_blank (c ∷ s) = false

pub record SendAnalysisDto : Type 0 where
  pub confirmed_level : ℕ
  pub content_source : AnalysisContentSource
  pub lecturer_note : Option Text

module _ (js : Platform) where
  -- `padStart(2, '0')`
  abbrev pub two_digits : ℕ → Text
  two_digits n =
      let digits = js.show_number n in if ltb (length digits) 2 then b'0' ∷ digits else digits

  abbrev pub format_date : ℕ → Text
  format_date time =
      two_digits (js.utc_date time)
      ++ (47
          ∷ (two_digits (js.utc_month time + 1) ++ (47 ∷ js.show_number (js.utc_full_year time))))

  abbrev pub outcome_part : Option Text → Text
  outcome_part none = []
  outcome_part (some outcome) =
      if is_blank (trim outcome) then [] else outcome_start ++ (clamp outcome ++ b')' ∷ [])

  abbrev pub care_line : SourceCareLog → Text
  care_line entry =
      format_date entry.created_at
      ++ (separator
          ++ (channel_label entry.channel
              ++ (separator ++ (clamp entry.content ++ outcome_part entry.outcome))))

  unfoldable pub care_history_digest : List SourceCareLog → Text
  unfolding clamp join_lines
  care_history_digest care_logs =
      let digest = join_lines (map care_line (take max_entries (sort_newest care_logs))) in
      if ltb max_total_length (length digest)
      then take (max_total_length - 1) digest ++ ellipsis
      else digest

  unfoldable pub contains_forbidden_analysis_pii : Text → Bool
  contains_forbidden_analysis_pii text =
      js.test email_pattern text
      || (js.test phone_pattern text
          || (js.test government_id_pattern text
              || (js.test address_pattern text || js.test uuid_pattern text)))

  abbrev pub redact_identifiers : List Text → Text → Text
  redact_identifiers [] text = text
  redact_identifiers (identifier ∷ rest) text = redact_identifiers rest (
      if ltb (length (trim identifier)) 2
      then text
      else js.replace (identifier_pattern (trim identifier)) hidden text)

  unfoldable pub redact_analysis_text : Text → List Text → Text
  redact_analysis_text text identifiers = js.replace uuid_pattern hidden_uuid (
      js.replace address_pattern hidden_address (
        js.replace government_id_pattern hidden_id (
          js.replace phone_pattern hidden_phone
            (js.replace email_pattern hidden_email (redact_identifiers identifiers text)))))

  -- `note.toLowerCase().includes(needle)`, for the notes that are there and not empty
  abbrev pub quotes : Text → Option Text → Bool
  quotes needle none = false
  quotes needle (some note) = not (is_blank note) && includes (js.to_lower_case note) needle

  abbrev pub ai_forced_level : Option ForcedEscalation → List (Option Text) → Option ℕ
  ai_forced_level none notes = none
  ai_forced_level (some forced) notes =
      let needle = js.to_lower_case (trim forced.quote) in
      if is_blank needle
      then none
      else if any (quotes needle) notes
      then some forced.level
      else none

  abbrev pub level_or_one : Option ℕ → ℕ
  level_or_one none = 1
  level_or_one (some level) = level

  abbrev pub resolve_final_level : (drs_level data_forced_level : ℕ) → Option ℕ → ℕ
  resolve_final_level drs_level data_forced_level forced =
      max (max drs_level data_forced_level) (level_or_one forced)

  abbrev pub forced_by : Option (Json AcademicAnalysisOutput) → List (Option Text) → Option ℕ
  forced_by none notes = none
  forced_by (some unreadable) notes = none
  forced_by (some (readable output)) notes = ai_forced_level output.forced_escalation notes

  -- `systemLevel`, of the source and of the output that is edited or original
  unfoldable pub system_level :
      Json AnalysisSourceSnapshot → Option (Json AcademicAnalysisOutput) → ℕ
  system_level unreadable output = 1
  system_level (readable snapshot) output =
      resolve_final_level snapshot.drs_level snapshot.data_forced_level
        (forced_by output snapshot.notes)

  abbrev pub quote_part : Option ForcedEscalation → Text
  quote_part none = []
  quote_part (some forced) =
      if is_blank (trim forced.quote) then [] else quote_start ++ (trim forced.quote ++ quote_end)

  abbrev pub ai_reason : AcademicAnalysisOutput → Text
  ai_reason output = trim output.notification_summary ++ quote_part output.forced_escalation

  abbrev pub digest_of : Json AnalysisSourceSnapshot → Text
  unfolding care_history_digest
  digest_of unreadable = []
  digest_of (readable snapshot) = care_history_digest snapshot.care_logs

  abbrev pub with_digest : Text → Text → Text
  with_digest content [] = content
  with_digest content (c ∷ digest) = content ++ (care_heading ++ c ∷ digest)

  abbrev pub trimmed : Option Text → Text
  trimmed none = []
  trimmed (some note) = trim note

  -- `sendContent`: the content, and the reason that the alert is given.
  unfoldable pub send_content :
      ℕ
      → Json AnalysisSourceSnapshot
      → SendAnalysisDto
      → AcademicAnalysisOutput
      → Result AnalysisError (Text × Text)
  unfolding contains_forbidden_analysis_pii redact_analysis_text digest_of
  send_content student_id snapshot dto output = elim dto.content_source [
    | ai ↦ ok (ai_reason output, ai_reason output)
    | lecturer_text ↦
        let note = trimmed dto.lecturer_note in
        let content = redact_analysis_text note (js.id_text student_id ∷ []) in
        if ltb (length note) reason_min_length
        then err lecturer_note_too_short
        else if contains_forbidden_analysis_pii note
        then err pii_rejected
        else ok (content, with_digest content (digest_of snapshot))
  ]
