-- ===== src/Analyses/Tests.antt =====
-- A lecturer has an analysis made, sent and made again; the theorems at that desk.
use fcare.Base.{
  ◌&&◌, ℕ, ◌≤◌, ◌≡◌, ◌⊎◌, refl, true, false, none, some, [], ◌∷◌, ◌==◌, arith, count, find, length,
}
use fcare.Base.Results.{ok, err}
use fcare.Base.Texts.{trim, includes}
use fcare.Access.{lecturer, head_of_dept, AuthUser}
use fcare.Access.Scope.{Section}
use fcare.Alert.Rows.{School, Outside}
use fcare.Alert.Recipients.{compute_recipient_ids}
use fcare.Analyses.{
  queued, draft, sent, AcademicAnalysisOutput, AnalysisSourceSnapshot, readable, unreadable, ai,
  low, Version, Desk, level_below_system,
}
use fcare.Analyses.Content.{Platform, SendAnalysisDto, system_level, care_history_digest}
use fcare.Analyses.Versions.{start_generation, CreateInput, create_version_record}
use fcare.Analyses.Requests.{Engine}
use fcare.Analyses.Sending.{Sent, send_version}
use fcare.Analyses.Order.{IsOrdered, is_unsettled}
use fcare.Analyses.Writes.{no_write, then_write, started, Writes-IsOrdered}
use fcare.Analyses.Lifecycle.{Traced, IsSame}
use fcare.Analyses.Traces.{Writes-Moves, Writes-settled}
use fcare.Analyses.Again.{create-create}
use fcare.Analyses.Calls.{Call, send, Call-Writes}
use fcare.Analyses.Levels.{system_level_lem, IsQuoted}
use fcare.Analyses.Sent.{send_version_lem}
use fcare.Analyses.Refused.{send_version-refused}
use fcare.Analyses.Digest.{care_history_digest-length}

abbrev teacher : AuthUser
teacher = record {
  id = 7;
  staff_code = b'G' ∷ [];
  full_name = [];
  roles = lecturer ∷ [];
  department_id = some 2;
  consented = true;
  must_change_password = false;
}

abbrev taught : Section
taught = record { id = 31; lecturer_id = some 7; subject_department_id = 2; term = 1 }

-- The head of the department, 9, and the teacher.
abbrev school : School
school = record {
  staff =
      record { id = 7; is_active = true; department_id = some 2; roles = lecturer ∷ [] }
      ∷ record { id = 9; is_active = true; department_id = some 2; roles = head_of_dept ∷ [] }
      ∷ [];
  students = record { id = 100; department_id = 2; enrolled = taught ∷ [] } ∷ [];
  sections = taught ∷ [];
  evaluations = [];
  alerts = [];
  care_logs = [];
  notifications = [];
  analysis_versions = record { id = 40; alert_id = none } ∷ [];
  messages = [];
  reads = [];
  jobs = [];
  audit = [];
}

abbrev js : Platform
js = record {
  to_lower_case = λ s. s;
  test = λ _ _. false;
  replace = λ _ _ s. s;
  show_number = λ n. n ∷ [];
  utc_date = λ n. n;
  utc_month = λ n. n;
  utc_full_year = λ n. n;
  id_text = λ n. n ∷ [];
}

abbrev source : AnalysisSourceSnapshot
source = record {
  notes = some (b'v' ∷ b'w' ∷ []) ∷ [];
  care_logs = [];
  drs_level = 2;
  data_forced_level = 1;
}

abbrev engine : Engine
engine = record { enabled = true; js = js; build_snapshot = λ _ _ _. ok (source, 5) }

abbrev output : AcademicAnalysisOutput
output = record {
  risk_level = low;
  notification_summary = b's' ∷ [];
  forced_escalation = some (record { quote = b'w' ∷ []; level = 3 });
}

abbrev at : ℕ → Outside
at id = record { now = id; today = []; fresh_id = id }

abbrev drafted_version : Version
drafted_version = record {
  id = 40;
  analysis_id = 30;
  version = 1;
  status = draft;
  idempotency_key = 900;
  needs_send_decision = false;
  source_snapshot = readable source;
  source_hash = 5;
  ai_original = some (readable output);
  edited_output = some (readable output);
  error_message = none;
  content_source = none;
  lecturer_note = none;
  created_by_id = 7;
  reviewed_by_id = none;
  dismissed_by_id = none;
  dismissed_at = none;
  generated_at = some 5;
  edited_at = none;
  reviewed_at = none;
  sent_at = none;
}

abbrev desk : Desk
desk = record {
  analyses = record { id = 30; student_id = 100; term = 1; owner_id = 7 } ∷ [];
  versions = drafted_version ∷ [];
  recipients = [];
  school = school;
  queue = [];
  audit = [];
  events = [];
  emails = [];
  pushes = [];
  has_email = true;
  has_push = true;
}

abbrev at_level : ℕ → SendAnalysisDto
at_level n = record { confirmed_level = n; content_source = ai; lecturer_note = none }

ordered : IsOrdered desk.versions
ordered = record { one_number = λ a n. ground arith; newest = refl }

sending : Call desk (send_version engine (at 50) true teacher 40 (at_level 3) desk).0
sending = send engine (at 50) true teacher 40 (at_level 3)

Writes-IsOrdered_example :
    IsOrdered (send_version engine (at 50) true teacher 40 (at_level 3) desk).0.versions
    × ((analysis_id : ℕ)
        → count
            (λ v. v.analysis_id == analysis_id && is_unsettled v.status)
            (send_version engine (at 50) true teacher 40 (at_level 3) desk).0.versions
          ≤ 1)
Writes-IsOrdered_example = Writes-IsOrdered (Call-Writes sending) ordered

Writes-Moves_example :
    Traced
      (λ w. w.id == 40)
      drafted_version
      (send_version engine (at 50) true teacher 40 (at_level 3) desk).0.versions
Writes-Moves_example = Writes-Moves 40 drafted_version (Call-Writes sending) refl

-- The version is sent; a later request with another key then makes the second version.
abbrev input : ℕ → CreateInput
input key = record {
  analysis_id = 30;
  user_id = 7;
  idempotency_key = key;
  snapshot = source;
  hash = 6;
  needs_send_decision = false;
}

abbrev second : Version
second = record drafted_version {
  id = 41;
  version = 2;
  status = queued;
  idempotency_key = 901;
  source_hash = 6;
  ai_original = none;
  edited_output = none;
  generated_at = none;
}

made : (create_version_record (at 41) (input 901) desk).1 ≡ ok second
unfolding create_version_record
made = refl

create-create_example :
    (w : Version) × (create_version_record
        (at 42)
        (input 901)
        (create_version_record (at 41) (input 901) desk).0
      ≡ ((create_version_record (at 41) (input 901) desk).0, ok w))
    × IsSame second w
create-create_example = create-create (at 41) (at 42) (input 901) desk second made no_write

abbrev answer : Sent
answer = record { recipients = 9 ∷ []; alert_id = 50 }

answered : (send_version engine (at 50) true teacher 40 (at_level 3) desk).1 ≡ ok answer
unfolding send_version trim includes compute_recipient_ids
answered = refl

send_version_lem_example : answer.alert_id ≡ 50
send_version_lem_example =
    (send_version_lem engine (at 50) true teacher 40 (at_level 3) desk answer answered).2

-- Below the level that the quote forces, nothing is sent.
too_low : (send_version engine (at 50) true teacher 40 (at_level 2) desk).1 ≡ err level_below_system
unfolding send_version trim includes
too_low = refl

send_version-refused_example :
    (send_version engine (at 50) true teacher 40 (at_level 2) desk).0 ≡ desk
send_version-refused_example =
    send_version-refused engine (at 50) teacher 40 (at_level 2) desk level_below_system too_low

system_level_lem_example :
    (2 ≤ system_level js (readable source) (some (readable output)))
    × ((system_level js (readable source) (some (readable output)) ≤ 2)
        ⊎ IsQuoted js
            (some (readable output))
            (system_level js (readable source) (some (readable output)))
            source.notes)
    × (system_level js unreadable (some (readable output)) ≡ 1)
system_level_lem_example = system_level_lem js source (some (readable output))

care_history_digest-length_example :
    length (
      care_history_digest js
        (record { channel = []; content = b'c' ∷ []; outcome = none; created_at = 5 } ∷ []))
    ≤ 1200
care_history_digest-length_example =
    care_history_digest-length js
      (record { channel = []; content = b'c' ∷ []; outcome = none; created_at = 5 } ∷ [])

abbrev desk_sent : Desk
desk_sent = record desk { versions = record drafted_version { status = sent } ∷ [] }

Writes-settled_example :
    (w : Version) × (find (λ x. x.id == 40) (start_generation 40 desk_sent).versions ≡ some w)
    × (w.status ≡ sent)
Writes-settled_example =
    Writes-settled 40 (record drafted_version { status = sent })
      (then_write no_write (started 40 {db = desk_sent})) refl refl
