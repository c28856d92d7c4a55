-- ===== src/Lib.antt =====
-- FCare, the student-care system of a college: the rules of its API and of the types that API and web
-- application share, as definitions that run, with theorems about them. The web application calls the
-- API; a request passes the guards, then the policy of its route, then a service that reads and writes
-- the database; the services of alerts read the risk score and hand jobs to the notifications.
--
-- Base (Base/*): Boolean tests on native numbers, lists as tables (find, count, update_where), text
-- as UTF-16 units with JavaScript's trim, includes and split, and results with errors.
--
-- Risk: packages/shared-types/src/risk-score.ts and scoreBand of evaluations.ts. `compute_risk_score`
-- is computeRiskScore; a median is doubled (median2), since it can be a half, and rounding is that of
-- a number of halves. Labels, and the Vietnamese text of a reason, are left out; a reason keeps the
-- numbers that its text shows. Children: Median, Marks, Counts, Attendance, Levels, Order, Worse.
--
-- Access: packages/shared-types/src/roles.ts and the rules on single alerts of alerts.ts; Access/Scope:
-- apps/api/src/common/utils/dept-scope.ts, where a Prisma filter is the test of a row; Access/Ability:
-- apps/api/src/casl/ability.factory.ts and the row actions of apps/web/src/lib/alert-actions.ts. A
-- `manage` rule covers every action and `all` every subject, as CASL documents.
--
-- Session: the rows behind apps/api/src/modules/auth. A method is a function from the database to the
-- database and a value or a thrown error; what was written before a throw stays. Session/Auth is
-- auth.service.ts (login by password, refresh, logout, consent, change of password), Session/Pin is
-- pin.service.ts, Session/PinFormat is packages/shared-types/src/pin.ts, Session/Guards the guards of
-- apps/api/src/common/guards in the order of app.module.ts. Hashing, bcrypt, HMAC and how the run time
-- writes ids and numbers and reads numbers are the fields of a parameter `Crypto`; clock, random bytes and
-- ids are the fields of `Env`. A proof of a PIN is a text, as the service writes and splits it. On `Crypto`
-- the theorems use that a wrong PIN does not compare and, for the proofs, what the record `IsDocumented`
-- of Session/Proofs lists. Login by Google, the rate limits and the signature of the access token are not
-- modelled: a request carries the user of a valid token. Each method runs as one step; two requests that
-- interleave inside a method are not modelled. Session/Store, Lock, Sealed, Locked, Refusal, Lockout,
-- Rotation, Allowed and Proofs hold the proofs.
--
-- Alert: the alert's row, raise-decision.ts and attendance-review.decision.ts; Alert/Rows: the tables
-- that the service touches; Alert/Recipients: escalation.service.ts; Alert/Service and Alert/Closing:
-- alerts.service.ts (raise; acknowledge, resolve, delete), a transaction as one step. A department,
-- term or student is a number, since the code compares ids and codes. A raise returns the decision and
-- its numbers; the row is in the database. Lists of alerts for pages, the texts of notifications, the
-- metadata of the audit and a score that fails to compute are not modelled. Foreign keys act as
-- schema.prisma says: notifications go with their alert or message, and analyses lose the link. Alert/Decisions,
-- Consistency, Invariant, Handling, Deletion, Steps, Resolved and Told hold the proofs.
--
-- Notify: what follows an alert or an analysis. Notify is notification-dispatch.service.ts (deliver and
-- its parts): the unique indexes of the table decide which rows are inserted, and events, mails and
-- pushes are lists of what was handed on; Notify/Inbox is notifications.service.ts (mark as read, number
-- of unread ones). A queue that refuses a job is an argument. Notify/Retry and Reach hold the proofs.
--
-- Care: apps/api/src/modules/care-logs: the log of a care, the mark of the alert that its lecturer has
-- cared, and their removal. The detector of personal data is an argument. Care/Marks, Logs, Kept, Removal
-- and Unlogged hold the proofs for the operations, Care/Steps those for sequences of requests, which also
-- take the steps of Alert/Steps, since both services write the same alerts.
--
-- Attendance: attendance-alerts/attendance-review.service.ts of the same folder of modules, with
-- packages/shared-types/src/term-block.ts: the rows of a term are read once, then each is reviewed in
-- turn; the partial unique index of the migration refuses a second automatic alert. An enrolment holds
-- its student's status and its section. Attendance/Review is the class; Attendance/Kept has the proofs for
-- one row, Invariant for all, Steps those for sequences of reviews and of requests about alerts.
--
-- Analyses: apps/api/src/modules/student-analyses. Analyses/Content is what a version says (levels and
-- content of student-analyses.service.ts, analysis-source.ts, care-history-digest.ts), Versions makes
-- and generates versions, Requests is what the controllers call, Sending sends a draft and delivers
-- it. Arguments: `Platform` for the run time (patterns, lower case, dates), `Engine` for the switch of
-- the feature and for the snapshot of a student, a provider for the service that writes an analysis,
-- and whether the queue accepts a job. A transaction is one step, so the retry after a conflict of two
-- transactions is not modelled; the writes of different methods interleave freely: Analyses/Writes has
-- every write as a constructor, Runs, Methods and Calls lead every method to them, Lifecycle has the
-- machine of the status. Order, Creation, Traces, Again, Levels, Sent, Refused and Digest hold the other proofs.
--
-- Web: apps/web/src/lib/pagination.ts (pages, buttons) and the selection of alerts of
-- apps/web/src/lib/alert-actions.ts; a JavaScript Set is a list of ids. Web/Paging, Window and
-- Selecting hold the proofs.
--
-- Recursion is structural throughout: no definition takes fuel. Numbers are natural; scores, counts
-- and times are not negative in the source. Not modelled: imports, statistics, monitoring, backup,
-- mail, push and discussions of the API, the snapshot and
-- providers of an analysis, lists for pages, and the pages of the web application.
pub mod Base
pub mod Access
pub mod Alert
pub mod Analyses
pub mod Attendance
pub mod Care
pub mod Notify
pub mod Risk
pub mod Session
pub mod Web
