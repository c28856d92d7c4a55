-- ===== src/Analyses/Runs.antt =====
-- Methods as sequences of writes: how the parts of a method compose.
use fcare.Base.{◌≡◌, Bool, true, false, if◌then◌else◌, Result, ok, err}
use fcare.Base.Results.{after}
use fcare.Analyses.{Desk, AnalysisError}
use fcare.Analyses.Requests.{Engine, enabled_or}
use fcare.Analyses.Writes.{Write, Writes, wrote_elsewhere, no_write, then_write}

pub Writes-trans : {a b c : Desk} → Writes a b → Writes b c → Writes a c
Writes-trans w no_write = w
Writes-trans w (then_write v write) = then_write (Writes-trans w v) write

pub one : {a b : Desk} → Write a b → Writes a b
one write = then_write no_write write

pub elsewhere : {a b : Desk} → b.versions ≡ a.versions → Writes a b
elsewhere e = one (wrote_elsewhere e)

-- What a method does to the database is a sequence of writes.
pub record Run {A : Type 0} (start : Desk) (x : Desk × A) : Type 0 where
  pub writes : Writes start x.0

pub run : {A : Type 0} {start : Desk} {x : Desk × A} → Writes start x.0 → Run start x
run w = record { writes = w }

pub quiet : {A : Type 0} {start : Desk} {r : A} → Run start (start, r)
quiet = record { writes = no_write }

pub after-Run :
    {A B : Type 0} {start : Desk} (x : Desk × Result AnalysisError A)
    (f : A → Desk → Desk × Result AnalysisError B)
    → Run start x
    → ((a : A) → Run x.0 (f a x.0))
    → Run start (after x f)
after-Run (s, ok a) f w k = record { writes = Writes-trans w.writes (k a).writes }
after-Run (s, err e) f w k = record { writes = w.writes }

pub if-Run :
    {A : Type 0} {start : Desk} (b : Bool) {x y : Desk × A}
    → Run start x
    → Run start y
    → Run start (if b then x else y)
if-Run true w v = w
if-Run false w v = v

pub enabled-Run :
    {A : Type 0} {start : Desk} (engine : Engine) {x : Desk × Result AnalysisError A}
    → Run start x
    → Run start (enabled_or engine x start)
enabled-Run engine w = if-Run engine.enabled w quiet

pub by_write :
    {A : Type 0} {start : Desk} {x : Desk × A} (middle : Desk)
    → Write start middle
    → x.0.versions ≡ middle.versions
    → Run start x
by_write middle write e = record { writes = Writes-trans (one write) (elsewhere e) }

pub by_none :
    {A : Type 0} {start : Desk} {x : Desk × A} → x.0.versions ≡ start.versions → Run start x
by_none e = record { writes = elsewhere e }
