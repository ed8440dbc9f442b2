-- ===== src/Database/Examples.antt =====
-- The backup theorems at a concrete directory and at concrete jobs.
use touchgrass.Base.{
  ◌≤◌, ◌≡◌, ◌↔◌, refl, Bool, true, false, Text, bytes, text_eq, text_eq_iff, none, some, List, [],
  ◌∷◌, ◌++◌, count, select, All, arith,
}
use touchgrass.Base.Results.{ok}
use touchgrass.Database.Names.{
  is_name_char, is_backup_name, validate_backup_name, sanitize_from, backup_file_name,
  safety_file_name,
}
use touchgrass.Database.Shapes.{validate_backup_name-generated}
use touchgrass.Database.Files.{
  File, has_name, exists, listing, drop, trim_backups, Dumping, with_dump, run_backup, Server,
  Restoring, check_restore, run_restore,
}
use touchgrass.Database.Trimming.{take, IsDirectory, trim_backups-listing}
use touchgrass.Database.Restore.{
  can_open, is_listed, is_smooth, is_smooth_dump, survivors, run_restore_iff,
}
use touchgrass.Database.Jobs.{Jobs, Setup, Starting, backup, working, running}
use touchgrass.Database.Steps.{
  Action, backup_request, work, audit_job, finish_job, release_job, run,
}
use touchgrass.Database.Exclusion.{is_alive, run_one_job}
use touchgrass.Database.Rows.{IsBounded}
use touchgrass.Database.History.{run-IsBounded}
use touchgrass.Database.Audited.{is_accounted}
use touchgrass.Database.Verify.{is_white, verify}
use touchgrass.Database.Checked.{verify-run_backup}
use touchgrass.Database.Terminal.{is_calm, run-accounted}

abbrev date_stamp : Text
date_stamp = bytes "2026Z"

date_stamp-All : All (λ c. is_name_char c ≡ true) date_stamp
date_stamp-All = (refl, (refl, (refl, (refl, (refl, tt)))))

valid_a : validate_backup_name (bytes "a.dump") ≡ ok tt
unfolding validate_backup_name
valid_a = refl

validate_backup_name-generated_example :
    (validate_backup_name (backup_file_name (bytes "my db") date_stamp) ≡ ok tt)
    × (validate_backup_name (safety_file_name (bytes "my db") date_stamp) ≡ ok tt)
    × All (λ c. is_name_char c ≡ true) (bytes "a.dump")
validate_backup_name-generated_example =
    validate_backup_name-generated (bytes "my db") date_stamp (bytes "a.dump") date_stamp-All
      valid_a

abbrev old_dump : File
old_dump = record { name = bytes "a.dump"; is_folder = false; content = bytes "A"; modified = 1 }

abbrev new_dump : File
new_dump = record { name = bytes "b.dump"; is_folder = false; content = bytes "BB"; modified = 2 }

abbrev two_dumps : List File
two_dumps = old_dump ∷ new_dump ∷ []

two_dumps-IsDirectory : IsDirectory two_dumps
unfolding count
two_dumps-IsDirectory name =
    ground (arith, text_eq_iff (bytes "a.dump") name, text_eq_iff (bytes "b.dump") name)

abbrev nothing_sticks : Text → Bool
nothing_sticks name = false

trim_backups-listing_example :
    ((trim_backups false nothing_sticks 1 two_dumps).0 ≡ ok tt)
    × (listing (trim_backups false nothing_sticks 1 two_dumps).1
        ≡ take 1 (listing two_dumps)
          ++ select (λ b. nothing_sticks b.name) (drop 1 (listing two_dumps)))
trim_backups-listing_example = trim_backups-listing nothing_sticks 1 two_dumps two_dumps-IsDirectory

abbrev hashed : Text → Text
hashed content = bytes "00"

abbrev dumping : Dumping
dumping = record {
  dump = bytes "C";
  modified = 3;
  create_fails = false;
  dump_fails = false;
  close_fails = false;
  sidecar_fails = false;
  stat_fails = false;
  unreadable = false;
  sticks = nothing_sticks;
}

abbrev restoring : Restoring
restoring = record {
  safety = dumping;
  safety_name = bytes "c.dump";
  terminate_fails = false;
  restore_fails = false;
  select_one = some (bytes "1");
  counts = true;
}

abbrev server : Server
server = record { dir = two_dumps; terminated = false; loaded = none }

named : is_backup_name (bytes "a.dump") ≡ true
unfolding is_backup_name
named = refl

smooth : is_smooth restoring two_dumps ≡ true
unfolding exists text_eq
smooth = refl

checked : check_restore restoring (bytes "a.dump") ≡ ok (bytes "a.dump")
unfolding check_restore
checked = refl

-- Three dumps are kept: the oldest of the two survives the safety copy.
run_restore_iff_example :
    ((run_restore hashed 3 restoring (bytes "a.dump") server).1.terminated ≡ true)
    × (((run_restore hashed 3 restoring (bytes "a.dump") server).0 ≡ ok (bytes "a.dump")) ↔ (
        is_listed (bytes "a.dump") (survivors hashed 3 dumping (bytes "c.dump") two_dumps) ≡ true))
    × (can_open (bytes "a.dump") (run_restore hashed 3 restoring (bytes "a.dump") server).1.dir
        ≡ is_listed (bytes "a.dump") (survivors hashed 3 dumping (bytes "c.dump") two_dumps))
run_restore_iff_example =
    run_restore_iff hashed 3 restoring (bytes "a.dump") server two_dumps-IsDirectory named smooth
      checked

-- With two dumps kept, the safety copy evicts it.
evicted : is_listed (bytes "a.dump") (survivors hashed 2 dumping (bytes "c.dump") two_dumps) ≡ false
unfolding is_listed survivors listing with_dump touchgrass.Database.Files.remove
    touchgrass.Database.Files.insert_backup
evicted = refl

survived : is_listed (bytes "a.dump") (survivors hashed 3 dumping (bytes "c.dump") two_dumps) ≡ true
unfolding is_listed survivors listing with_dump touchgrass.Database.Files.remove
    touchgrass.Database.Files.insert_backup
survived = refl

abbrev setup : Setup
setup = record { has_container = true; db_name = bytes "x"; keep = 3; sha256 = hashed }

abbrev starting : Starting
starting = record { now = 5; trim_fails = false; insert_fails = false }

abbrev fresh : Jobs
fresh = record { is_busy = false; rows = []; next_id = 1; tasks = []; trail = []; server = server }

abbrev request : Action
request = backup_request starting date_stamp (bytes "ann")

abbrev waiting : Jobs
waiting = record fresh {
  is_busy = true;
  rows =
      record {
        id = 1;
        kind = backup;
        target = bytes "x-2026Z.dump";
        status = running;
        detail = [];
        started_at = 5;
        finished_at = none;
      }
      ∷ [];
  next_id = 2;
  tasks =
      record {
        id = 1;
        kind = backup;
        target = bytes "x-2026Z.dump";
        actor = bytes "ann";
        phase = working;
      }
      ∷ [];
}

-- The second request finds the service busy.
requests_run : run setup (request ∷ request ∷ []) fresh ≡ some waiting
unfolding run backup_file_name sanitize_from
requests_run = refl

run_one_job_example :
    (count is_alive waiting.tasks ≤ 1)
    × ((waiting.is_busy ≡ true) ↔ (count is_alive waiting.tasks ≡ 1))
run_one_job_example =
    run_one_job setup (request ∷ request ∷ []) fresh {u = waiting} refl refl requests_run

fresh-IsBounded : IsBounded fresh.rows fresh.next_id
fresh-IsBounded = record { ascending = tt; given = tt; bounded = omega arith }

run-IsBounded_example : IsBounded waiting.rows waiting.next_id
run-IsBounded_example =
    run-IsBounded setup (request ∷ request ∷ []) fresh {u = waiting} fresh-IsBounded requests_run

abbrev whole_job : List Action
whole_job =
    request
    ∷ work 0 restoring (bytes "done")
    ∷ audit_job 0 false 6
    ∷ finish_job 0 false 7
    ∷ release_job 0
    ∷ []

abbrev after_job : Jobs
after_job = elim (run setup whole_job fresh) [ none ↦ fresh | some j ↦ j ]

job_runs : run setup whole_job fresh ≡ some after_job
unfolding run
job_runs = refl

calm : All (λ a. is_calm a ≡ true) whole_job
calm = (refl, (refl, (refl, (refl, (refl, tt)))))

run-accounted_example : All (λ row. is_accounted after_job.trail row ≡ true) after_job.rows
run-accounted_example = run-accounted setup whole_job fresh {u = after_job} refl refl calm job_runs

named_c : is_backup_name (bytes "c.dump") ≡ true
unfolding is_backup_name
named_c = refl

hashed-All : All (λ c. is_white c ≡ false) (hashed (bytes "C"))
hashed-All = (refl, (refl, tt))

smooth_dump : is_smooth_dump dumping (bytes "c.dump") two_dumps ≡ true
unfolding exists text_eq
smooth_dump = refl

kept : is_listed (bytes "c.dump") (survivors hashed 1 dumping (bytes "c.dump") two_dumps) ≡ true
unfolding is_listed survivors listing with_dump touchgrass.Database.Files.remove
    touchgrass.Database.Files.insert_backup
kept = refl

verify-run_backup_example :
    verify hashed
      (λ content. true)
      true
      false
      (λ path. false)
      (bytes "c.dump")
      (run_backup hashed 1 dumping (bytes "c.dump") two_dumps).1
    ≡ ok true
verify-run_backup_example =
    verify-run_backup hashed (λ content. true) 1 dumping (bytes "c.dump") two_dumps hashed-All
      two_dumps-IsDirectory named_c smooth_dump kept
