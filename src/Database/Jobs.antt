-- ===== src/Database/Jobs.antt =====
-- Backup and restore jobs (internal/service/database.go, internal/store/database.go): the guard of
-- one job at a time, the history of jobs, and the steps of the goroutine that works one off.
use touchgrass.Base.{
  ℕ, zero, suc, ◌-◌, Bool, true, false, not, ◌==◌, ltb, if◌then◌else◌, Text, bytes, Option, none,
  some, List, [], ◌∷◌, ◌++◌, map, select, count,
}
use touchgrass.Base.Results.{invalid_input, busy, database, io, unconfigured, ok, err, Method}
use touchgrass.Audit
use touchgrass.Audit.{append_entry}
use touchgrass.Database.Names.{validate_backup_name, backup_file_name}
use touchgrass.Database.Files.{Server, exists}

pub data JobKind : Type 0 where
  backup restore : JobKind

pub data JobStatus : Type 0 where
  running success failed : JobStatus

-- `DBJob`
pub record DbJob : Type 0 where
  pub id : ℕ
  pub kind : JobKind
  pub target : Text
  pub status : JobStatus
  pub detail : Text
  pub started_at : ℕ
  pub finished_at : Option ℕ

-- Where a goroutine of `execute` stands.
pub data Phase : Type 0 where
  working : Phase
  worked audited : JobStatus → (detail : Text) → Phase
  finished gone : Phase

-- `jobRequest`, with its goroutine.
pub record Task : Type 0 where
  pub id : ℕ
  pub kind : JobKind
  pub target : Text
  pub actor : Text
  pub phase : Phase

-- `Database`, with what its stores hold.
pub record Jobs : Type 0 where
  pub is_busy : Bool
  pub rows : List DbJob
  pub next_id : ℕ
  pub tasks : List Task
  pub trail : List Audit.Entry
  pub server : Server

-- The configuration: whether there is a container, the database's name, the dumps to keep.
pub record Setup : Type 0 where
  pub has_container : Bool
  pub db_name : Text
  pub keep : ℕ
  pub sha256 : Text → Text

-- `NewDatabase`: `max(cfg.BackupKeep, 1)`, a negative number as 0.
unfoldable pub kept_backups : ℕ → ℕ
kept_backups zero = 1
kept_backups (suc n) = suc n

abbrev pub max_jobs : ℕ
max_jobs = 50

unfoldable pub is_newer : DbJob → DbJob → Bool
is_newer row other = ltb row.id other.id

-- `trim`: rows that are not among the newest `keep`, by id, are deleted.
unfoldable pub trim_jobs : ℕ → List DbJob → List DbJob
unfolding count is_newer select
trim_jobs keep rows = select (λ row. ltb (count (is_newer row) rows) keep) rows

-- `Create`; either statement may fail.
unfoldable pub create_job : (trim_fails insert_fails : Bool) → JobKind → Text → ℕ → Method Jobs ℕ
unfolding trim_jobs
create_job trim_fails insert_fails kind target now j =
    let trimmed = trim_jobs (max_jobs - 1) j.rows in
    if trim_fails
    then (err database, j)
    else if insert_fails
    then (err database, record j { rows = trimmed })
    else (
      ok j.next_id,
      record j {
        rows =
            trimmed
            ++ record {
              id = j.next_id;
              kind = kind;
              target = target;
              status = running;
              detail = [];
              started_at = now;
              finished_at = none;
            }
              ∷ [];
        next_id = suc j.next_id;
      },
    )

-- `Finish`: the row of that id, if it is still there.
abbrev pub stamp : ℕ → JobStatus → Text → ℕ → DbJob → DbJob
stamp id status detail now row =
    if row.id == id
    then record row { status = status; detail = detail; finished_at = some now }
    else row

unfoldable pub finish_row : ℕ → JobStatus → Text → ℕ → List DbJob → List DbJob
finish_row id status detail now rows = map (stamp id status detail now) rows

abbrev pub is_running : DbJob → Bool
is_running row = elim (row.status) [ running ↦ true | success ↦ false | failed ↦ false ]

abbrev pub interrupt : ℕ → DbJob → DbJob
interrupt now row =
    if is_running row
    then record row {
      status = failed;
      detail = bytes "interrupted by restart";
      finished_at = some now;
    }
    else row

-- `FailRunning`
unfoldable pub fail_running : ℕ → List DbJob → List DbJob
fail_running now rows = map (interrupt now) rows

-- `claim`
unfoldable pub claim : Method Jobs (Unit {0})
claim j = if j.is_busy then (err busy, j) else (ok tt, record j { is_busy = true })

-- `release`
unfoldable pub release : Jobs → Jobs
release j = record j { is_busy = false }

-- What starting a job learns from the outside.
pub record Starting : Type 0 where
  pub now : ℕ
  pub trim_fails : Bool
  pub insert_fails : Bool

-- `launch`
unfoldable pub launch : Starting → JobKind → Text → Text → Method Jobs ℕ
unfolding claim create_job release
launch w kind target actor j =
    let (claimed, guarded) = claim j in
    let (created, stored) = create_job w.trim_fails w.insert_fails kind target w.now guarded in
    elim claimed [
      | err e ↦ (err e, guarded)
      | ok _ ↦ elim created [
        | err e ↦ (err e, release stored)
        | ok id ↦ (
          ok id,
          record stored {
            tasks =
                stored.tasks
                ++ record { id = id; kind = kind; target = target; actor = actor; phase = working }
                  ∷ [];
          },
        )
      ]
    ]

-- `StartBackup`
unfoldable pub start_backup : Setup → Starting → (at actor : Text) → Method Jobs ℕ
unfolding launch
start_backup c w at actor j =
    if not c.has_container
    then (err unconfigured, j)
    else launch w backup (backup_file_name c.db_name at) actor j

-- `StartRestore`; `unreadable` is an error of `os.Stat` other than a missing file.
unfoldable pub start_restore : Setup → Starting → (unreadable : Bool) → Text → Text → Method Jobs ℕ
unfolding launch validate_backup_name exists
start_restore c w unreadable name actor j = elim (validate_backup_name name) [
  | err e ↦ (err e, j)
  | ok _ ↦
      if not c.has_container
      then (err unconfigured, j)
      else if unreadable
      then (err io, j)
      else if not (exists name j.server.dir)
      then (err invalid_input, j)
      else launch w restore name actor j
]
