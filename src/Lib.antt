-- ===== src/Lib.antt =====
-- Touchgrass: a console that watches and deploys the services of one host.
--
-- The program's parts and the files that model them:
--
-- - Base: shared names. Text is Go's string as a list of bytes, Map a Go map as a function, Result
--   and Method the `(value, error)` returns of functions and of methods that change a state. A
--   method that fails leaves the state that it had reached, as the code does.
-- - Audit: `internal/service/audit.go` and `internal/store/audit.go`. The audit trail is a list of
--   entries; `record_audit` is `Audit.Record`.
-- - Users: `internal/service/users.go`, `internal/store/users.go` and the table of
--   `migrations/0015_users.sql`. Users.Store holds the rows (`Db`) and one function per SQL
--   statement, Users.Service the operations (`create_user` is `Users.Create`, `set_role` is
--   `Users.SetRole`, `ensure_admin` is `Users.EnsureAdmin`, and so on). Every operation writes its
--   audit entry into the same `Db`.
-- - Auth: `internal/http/auth.go`. Sessions and failed logins are the maps of `Authenticator`;
--   `authenticate`, `handle_login`, `middleware` and `require_admin` are those functions, which
--   call `verify` and `lookup` of Users.
-- - Docker: `internal/docker/guard.go`. `RequestGuard` is the breaker and the channel of permits;
--   Docker.Guard also holds the callers and the atomic steps of `acquire` and `done`, in any order.
-- - Security: `internal/store/security.go` and `internal/model/security.go`. `Store` holds the
--   findings, the observations and the audit entries; `evaluate` is `SecurityStore.Evaluate`, and
--   Security.Operations has `Acknowledge`, `Resolve`, `Suppress` and `ExpireSuppressions`.
--   Security.Posture is `EvaluatePosture` of `internal/service/security_posture.go`, whose
--   observations are what `evaluate` takes; case is folded on ASCII texts.
-- - Alerts: `internal/service/resources.go`, `internal/service/issue_alerts.go` and the rules' part
--   of `internal/service/performance_alerts.go`. `Sampler` holds the breach episodes, the latches
--   of spikes and the rows that the rules read and write.
-- - Probe: `internal/probe/nginx.go`. `live_target` is `LiveTarget`, with its regular expression
--   written out as a matcher; the file is the list of lines that the scanner reads.
-- - Cutover: `internal/service/cutover.go`, and `Deploys.Record` of `internal/service/deploys.go`.
--   Cutover holds the resolution of a request (`resolve`, `opposite`), which reads nginx through
--   Probe; Cutover.Engine the state of `Cutover` with the requests (`start`, `start_deploy`,
--   `start_rollback`, `claim_run`); Cutover.Execute the parts of `execute`; Cutover.Schedule lets
--   requests and goroutines interleave as steps; Cutover.Lines is `lineWriter`. The audit entries
--   go to the trail of Audit.
-- - Watch: `internal/service/watch.go`, over the engine's state: `check_target` is `checkTarget`,
--   which reads the target through Probe and asks the engine for an active run.
-- - Database: the backups and jobs of `internal/service/database.go` and
--   `internal/store/database.go`. Database.Names has the names, Database.Files the directory with
--   `run_backup`, `trim_backups` and `run_restore`, Database.Verify `verify`, Database.Jobs the
--   guard, the history and the requests, Database.Steps the goroutine of a job, restarts and their
--   interleaving.
-- - Ingest: `internal/service/ingest.go` and `internal/service/fingerprint.go`, with
--   `internal/store/keys.go`, `internal/store/issues.go` and `internal/store/occurrences.go`. Ingest
--   holds the caps of a report (`build_occurrence` is `buildOccurrence`), Ingest.Keys the table of
--   keys (`create_key`, `revoke_key`, `authenticate_key`), Ingest.Issues the tables of issues and
--   occurrences (`group_occurrence` is `GroupOccurrence`), Ingest.Requests `ingest`, which goes from
--   the key to the stored occurrence, and the history of what changes the issues.
-- - Performance: the HTTP source. Performance and Performance.Summary are the histograms of
--   `internal/model/performance.go` and what `internal/service/performance.go` computes from them,
--   Performance.Query its `normalize`; Performance.Ledger is `UpsertHTTP` and `RollupHTTP` of
--   `internal/store/performance.go`, and Performance.Retention its `TrimHTTPBefore` with
--   `deleteBefore` of `internal/store/maintenance.go`; Performance.Collector and
--   Performance.Cursors are `internal/service/performance_collector.go`, whose batches go to the
--   ledger.
-- - The modules named Examples, and Performance.Turns and Ingest.Reports, run the theorems at
--   concrete inputs.
--
-- Parameters: bcrypt (a password matches the hash that was made from it), SHA-256 and the size of
-- evidence as JSON, float64 (and its order, where a theorem says so), the regular expressions of
-- fingerprints, the clock, the random source, the decoding of service configurations, files other
-- than backups, commands and what they print, probes of URLs, the Docker API, and which statements
-- of a call fail. A parameter of a call is an argument of its function.
--
-- Bounds: `drain` of Cutover.Lines has the length of its buffer and one more as fuel, and each
-- round takes a byte off the buffer; no other definition runs on fuel. Times are nanoseconds as
-- natural numbers; the duration of a threshold rule and the window of an issue rule are multiplied
-- in 64 bits with their wrap-around, and the other products of durations lie far below that range.
-- SQL is taken to compare times as times, but for the trimming of buckets, where the text of a
-- cutoff at a bucket's start comes after that of the start.
--
-- Not modelled: concurrent account calls, whose statements could interleave; container policies,
-- approvals and classification; views of deploys; the health of databases; the metrics of
-- PostgreSQL and Redis, whose rows are replaced by key, and the timeline that joins them; logs,
-- onboarding and fleet; maintenance, but for the age retention of batch markers, issues and
-- occurrences; HTTP encoding, SQL plumbing, the Docker API, the web console and the SDKs.
pub mod Base
pub mod Audit
pub mod Users
pub mod Auth
pub mod Docker
pub mod Security
pub mod Alerts
pub mod Probe
pub mod Cutover
pub mod Watch
pub mod Database
pub mod Ingest
pub mod Performance
