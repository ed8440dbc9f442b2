-- ===== src/Database/History.antt =====
-- The history of jobs stays bounded (`Create` and `trim` of internal/store/database.go).
use touchgrass.Base.{
  ℕ, ◌≡◌, ◌⊎◌, sym, subst, inl, inr, Bool, true, false, if◌then◌else◌, Text, some, List, [], ◌∷◌,
  get_elem?, arith, Option-cases,
}
use touchgrass.Database.Jobs.{
  JobStatus, DbJob, Phase, working, worked, audited, finished, Task, Jobs, Setup, release, stamp,
  finish_row, interrupt, fail_running,
}
use touchgrass.Database.Requests.{IsIdle, IsStart, new_row, start_backup_cases, start_restore_cases}
use touchgrass.Database.Steps.{
  Action, backup_request, restore_request, work, audit_job, finish_job, release_job, restart, move,
  advance, advance_task, reboot, step, run,
}
use touchgrass.Database.Rows.{IsBounded, IsBounded-map, IsBounded-trim, IsBounded-create}

abbrev IsStored : Jobs → Type 0
IsStored j = IsBounded j.rows j.next_id

IsStored-as : (j u : Jobs) → u.rows ≡ j.rows → u.next_id ≡ j.next_id → IsStored j → IsStored u
IsStored-as j u r n b =
    subst (λ k. IsBounded u.rows k) (sym n) (subst (λ rows. IsBounded rows j.next_id) (sym r) b)

reached : {v : Jobs} (u : Jobs) → some v ≡ some u → IsStored v → IsStored u
reached {v} u h b = subst IsStored {x = v} {y = u} (ground arith) b

requested : (j u : Jobs) → IsStored j → IsIdle j u ⊎ IsStart j u → IsStored u
requested j u b (inl idle) =
    subst (λ k. IsBounded u.rows k) (sym idle.next_id)
      (elim (idle.rows) [
        | inl same ↦ subst (λ rows. IsBounded rows j.next_id) (sym same) b
        | inr trimmed ↦
            subst (λ rows. IsBounded rows j.next_id) (sym trimmed)
              (IsBounded-trim j.rows j.next_id b)
      ])
requested j u b (inr start) =
    subst IsStored (sym start.result)
      (IsBounded-create j.rows (new_row j.next_id start.kind start.target start.now) b)

stamp-id :
    (id : ℕ) (status : JobStatus) (detail : Text) (now : ℕ) (row : DbJob)
    → (stamp id status detail now row).id ≡ row.id
stamp-id id status detail now row = ground arith

interrupt-id : (now : ℕ) (row : DbJob) → (interrupt now row).id ≡ row.id
interrupt-id now row = ground arith

finished-IsStored :
    (i : ℕ) (t : Task) (s : JobStatus) (d : Text) (fails : Bool) (now : ℕ) (j : Jobs)
    → IsStored j
    → IsStored (
        move i t finished
          (record j { rows = if fails then j.rows else finish_row t.id s d now j.rows }))
unfolding finish_row
finished-IsStored i t s d true now j b = b
finished-IsStored i t s d false now j b =
    IsBounded-map (stamp t.id s d now) (stamp-id t.id s d now) j.rows j.next_id b

advance-IsStored :
    (c : Setup) (i : ℕ) (t : Task) (p : Phase) (a : Action) (j : Jobs) {u : Jobs}
    → IsStored j
    → advance c i t p a j ≡ some u
    → IsStored u
unfolding advance release
advance-IsStored c i t working (work k w message) j {u} b h =
    IsStored-as j u (ground arith) (ground arith) b
advance-IsStored c i t (worked s d) (audit_job k fails now) j {u} b h =
    IsStored-as j u (ground arith) (ground arith) b
advance-IsStored c i t (audited s d) (finish_job k fails now) j {u} b h =
    reached u h (finished-IsStored i t s d fails now j b)
advance-IsStored c i t finished (release_job k) j {u} b h =
    IsStored-as j u (ground arith) (ground arith) b
advance-IsStored _ _ _ _ _ _ b h = absurd cc

advance_task-IsStored :
    (c : Setup) (i : ℕ) (a : Action) (j : Jobs) {u : Jobs}
    → IsStored j
    → advance_task c i a j ≡ some u
    → IsStored u
unfolding advance_task
advance_task-IsStored c i a j {u} b h = elim (Option-cases (get_elem? j.tasks i)) [
  | inl f ↦ absurd (ground arith)
  | inr (t, f) ↦ advance-IsStored c i t t.phase a j {u = u} b (ground arith)
]

rebooted-IsStored : (fails : Bool) (now : ℕ) (j : Jobs) → IsStored j → IsStored (reboot fails now j)
unfolding reboot fail_running
rebooted-IsStored true now j b = b
rebooted-IsStored false now j b =
    IsBounded-map (interrupt now) (interrupt-id now) j.rows j.next_id b

step-IsStored :
    (c : Setup) (a : Action) (j : Jobs) {u : Jobs} → IsStored j → step c a j ≡ some u → IsStored u
unfolding step
step-IsStored c (backup_request w at actor) j {u} b h =
    requested j u b
      (subst (λ t. IsIdle j t ⊎ IsStart j t) (ground arith) (start_backup_cases c w at actor j))
step-IsStored c (restore_request w unreadable name actor) j {u} b h = requested j u b (
    subst (λ t. IsIdle j t ⊎ IsStart j t) (ground arith)
      (start_restore_cases c w unreadable name actor j))
step-IsStored c (work i w message) j {u} b h =
    advance_task-IsStored c i (work i w message) j {u = u} b h
step-IsStored c (audit_job i f n) j {u} b h =
    advance_task-IsStored c i (audit_job i f n) j {u = u} b h
step-IsStored c (finish_job i f n) j {u} b h =
    advance_task-IsStored c i (finish_job i f n) j {u = u} b h
step-IsStored c (release_job i) j {u} b h = advance_task-IsStored c i (release_job i) j {u = u} b h
step-IsStored c (restart fails now) j {u} b h = reached u h (rebooted-IsStored fails now j b)

-- However requests, goroutines and restarts interleave and whatever fails, a history of jobs with
-- at most 50 rows of ascending ids that have been given out stays one.
pub run-IsBounded :
    (c : Setup) (actions : List Action) (j : Jobs) {u : Jobs}
    → IsBounded j.rows j.next_id
    → run c actions j ≡ some u
    → IsBounded u.rows u.next_id
unfolding run
run-IsBounded c [] j {u} b h = reached u h b
run-IsBounded c (a ∷ rest) j {u} b h = elim (Option-cases (step c a j)) [
  | inl f ↦ absurd (ground arith)
  | inr (t, f) ↦ run-IsBounded c rest t {u = u} (step-IsStored c a j {u = t} b f) (ground arith)
]
