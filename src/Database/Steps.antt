-- ===== src/Database/Steps.antt =====
-- Requests, goroutines and restarts of the database service, one step at a time, in any order
-- (`execute`, `finishJob`, `audit` and `Reconcile` of internal/service/database.go).
use touchgrass.Base.{
  ℕ, Bool, false, if◌then◌else◌, Text, bytes, is_empty, Option, none, some, List, [], ◌∷◌, ◌++◌,
  map, get_elem?, set,
}
use touchgrass.Base.Results.{Result, ok, err}
use touchgrass.Audit
use touchgrass.Audit.{append_entry}
use touchgrass.Database.Files.{Server, Restoring, run_backup, run_restore}
use touchgrass.Database.Jobs.{
  JobKind, backup, restore, JobStatus, running, success, failed, Phase, working, worked, audited,
  finished, gone, Task, Jobs, Setup, Starting, kept_backups, finish_row, fail_running, release,
  start_backup, start_restore,
}

abbrev pub kind_text : JobKind → Text
kind_text backup = bytes "backup"
kind_text restore = bytes "restore"

abbrev pub status_text : JobStatus → Text
status_text running = bytes "running"
status_text success = bytes "success"
status_text failed = bytes "failed"

-- The detail of the audit entry.
unfoldable pub audit_detail : JobKind → Text → JobStatus → Text → Text
unfolding is_empty
audit_detail kind target status detail =
    let line = kind_text kind ++ (bytes " " ++ (target ++ (bytes ": " ++ status_text status))) in
    if is_empty detail then line else line ++ (bytes "; " ++ detail)

abbrev audit_outcome : JobStatus → Audit.Outcome
audit_outcome success = Audit.success
audit_outcome running = Audit.success
audit_outcome failed = Audit.failure

abbrev audit_action : JobKind → Audit.Action
audit_action backup = Audit.other_action (bytes "db_backup")
audit_action restore = Audit.other_action (bytes "db_restore")

abbrev pub audit_entry : Task → JobStatus → Text → ℕ → Audit.Entry
audit_entry t status detail now = record {
  service_id = none;
  actor = t.actor;
  action = audit_action t.kind;
  outcome = audit_outcome status;
  detail = audit_detail t.kind t.target status detail;
  created_at = now;
}

pub data Action : Type 0 where
  backup_request : Starting → (at actor : Text) → Action
  restore_request : Starting → (unreadable : Bool) → (name actor : Text) → Action
  work : (task : ℕ) → Restoring → (message : Text) → Action
  audit_job finish_job : (task : ℕ) → (fails : Bool) → (now : ℕ) → Action
  release_job : (task : ℕ) → Action
  restart : (fails : Bool) → (now : ℕ) → Action

abbrev pub status_of {ℓ} : {A : Type ℓ} → Result A → JobStatus
status_of (ok a) = success
status_of (err e) = failed

-- The call that a job stands for, on the directory and the database.
unfoldable pub perform : Setup → JobKind → Text → Restoring → Server → Result Text × Server
perform c backup target w s =
    let (result, dir) = run_backup c.sha256 (kept_backups c.keep) w.safety target s.dir in
    (result, record s { dir = dir })
perform c restore target w s = run_restore c.sha256 (kept_backups c.keep) w target s

abbrev pub move : ℕ → Task → Phase → Jobs → Jobs
move i t p j = record j { tasks = set j.tasks i (record t { phase = p }) }

-- The step of the goroutine with this phase; `none` where it is not that step's turn.
unfoldable pub advance : Setup → ℕ → Task → Phase → Action → Jobs → Option Jobs
unfolding perform append_entry
advance c i t working (work _ w message) j =
    let (result, server) = perform c t.kind t.target w j.server in
    some (move i t (worked (status_of result) message) (record j { server = server }))
advance c i t (worked status detail) (audit_job _ fails now) j = some (
    move i t (audited status detail)
      (record j { trail = (append_entry fails (audit_entry t status detail now) j.trail).1 }))
advance c i t (audited status detail) (finish_job _ fails now) j = some (
    move i t finished
      (record j { rows = if fails then j.rows else finish_row t.id status detail now j.rows }))
advance c i t finished (release_job _) j = some (move i t gone (release j))
advance c i t _ _ j = none

unfoldable pub advance_task : Setup → ℕ → Action → Jobs → Option Jobs
unfolding advance
advance_task c i a j = elim (get_elem? j.tasks i) [
  | none ↦ none
  | some t ↦ advance c i t t.phase a j
]

abbrev pub killed : Task → Task
killed t = record t { phase = gone }

-- A restart ends every goroutine, and `Reconcile` runs before new requests.
unfoldable pub reboot : (fails : Bool) → ℕ → Jobs → Jobs
unfolding fail_running
reboot fails now j = record j {
  is_busy = false;
  tasks = map killed j.tasks;
  rows = if fails then j.rows else fail_running now j.rows;
}

-- One step. A request always returns; its answer goes to the caller.
unfoldable pub step : Setup → Action → Jobs → Option Jobs
unfolding reboot advance_task start_backup start_restore
step c (backup_request w at actor) j = some (start_backup c w at actor j).1
step c (restore_request w unreadable name actor) j =
    some (start_restore c w unreadable name actor j).1
step c (work i w message) j = advance_task c i (work i w message) j
step c (audit_job i fails now) j = advance_task c i (audit_job i fails now) j
step c (finish_job i fails now) j = advance_task c i (finish_job i fails now) j
step c (release_job i) j = advance_task c i (release_job i) j
step c (restart fails now) j = some (reboot fails now j)

unfoldable pub run : Setup → List Action → Jobs → Option Jobs
unfolding step
run c [] j = some j
run c (a ∷ rest) j = elim (step c a j) [ none ↦ none | some t ↦ run c rest t ]
