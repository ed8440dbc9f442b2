-- ===== src/Database/Terminal.antt =====
-- A terminal status implies its audit entry (`finishJob` of internal/service/database.go), over any
-- interleaving.
use touchgrass.Base.{
  ℕ, ◌≡◌, refl, subst, inl, inr, Bool, true, false, not, if◌then◌else◌, Text, some, List, [], ◌∷◌,
  ◌++◌, All, get_elem?, get_elem-All, arith, Option-cases,
}
use touchgrass.Audit.{append_entry}
use touchgrass.Database.Jobs.{
  JobStatus, Phase, working, worked, audited, finished, gone, Task, Jobs, Setup, release,
  finish_row,
}
use touchgrass.Database.Requests.{start_backup_cases, start_restore_cases}
use touchgrass.Database.Steps.{
  Action, backup_request, restore_request, work, audit_job, finish_job, release_job, restart,
  perform, status_of, audit_entry, move, advance, advance_task, step, run,
}
use touchgrass.Database.Audited.{is_accounted, is_backed, is_own, IsTraced, traced, requested}
use touchgrass.Database.Traces.{recorded-last, appended-IsTraced, moved-IsTraced, stamped-IsTraced}

-- No audit insert fails, and there is no restart.
abbrev pub is_calm : Action → Bool
is_calm (audit_job i fails now) = not fails
is_calm (restart fails now) = false
is_calm _ = true

finish_turn :
    (i : ℕ) (t : Task) (s : JobStatus) (d : Text) (fails : Bool) (now : ℕ) (j : Jobs)
    → t.phase ≡ audited s d
    → get_elem? j.tasks i ≡ some t
    → IsTraced j
    → IsTraced (
        move i t finished
          (record j { rows = if fails then j.rows else finish_row t.id s d now j.rows }))
unfolding is_backed
finish_turn i t s d true now j e here v = moved-IsTraced i t finished j here refl v
finish_turn i t s d false now j e here v =
    let backed = get_elem-All (λ k. is_backed j.trail k ≡ true) j.tasks i {x = t} v.backed here in
    moved-IsTraced i t finished (record j { rows = finish_row t.id s d now j.rows }) here refl
      (stamped-IsTraced t s d now j (unfold is_backed in ground arith)
        (get_elem-All (λ k. All (λ row. is_own k row ≡ true) j.rows) j.tasks i {x = t} v.own here)
        v)

advance-IsTraced :
    (c : Setup) (i : ℕ) (t : Task) (p : Phase) (a : Action) (j : Jobs) {u : Jobs}
    → is_calm a ≡ true
    → t.phase ≡ p
    → get_elem? j.tasks i ≡ some t
    → IsTraced j
    → advance c i t p a j ≡ some u
    → IsTraced u
unfolding advance is_backed append_entry release
advance-IsTraced c i t working (work k w message) j {u} q e here v h =
    let done = perform c t.kind t.target w j.server in
    traced u h (
      moved-IsTraced i t (worked (status_of done.0) message) (record j { server = done.1 }) here
        refl
        (record {
          accounted = v.accounted;
          backed = v.backed;
          own = v.own;
          rows_given = v.rows_given;
          tasks_given = v.tasks_given;
        }))
advance-IsTraced c i t (worked s d) (audit_job k true now) j {u} q e here v h =
    absurd (ground arith)
advance-IsTraced c i t (worked s d) (audit_job k false now) j {u} q e here v h =
    let entry = audit_entry t s d now in
    traced u h (
      moved-IsTraced i t (audited s d) (record j { trail = j.trail ++ entry ∷ [] }) here
        (recorded-last entry j.trail) (appended-IsTraced entry j v))
advance-IsTraced c i t (audited s d) (finish_job k fails now) j {u} q e here v h =
    traced u h (finish_turn i t s d fails now j e here v)
advance-IsTraced c i t finished (release_job k) j {u} q e here v h = traced u h (
    moved-IsTraced i t gone (release j) here refl (record {
      accounted = v.accounted;
      backed = v.backed;
      own = v.own;
      rows_given = v.rows_given;
      tasks_given = v.tasks_given;
    }))
advance-IsTraced _ _ _ _ _ _ q e here v h = absurd cc

advance_task-IsTraced :
    (c : Setup) (i : ℕ) (a : Action) (j : Jobs) {u : Jobs}
    → is_calm a ≡ true
    → IsTraced j
    → advance_task c i a j ≡ some u
    → IsTraced u
unfolding advance_task
advance_task-IsTraced c i a j {u} q v h = elim (Option-cases (get_elem? j.tasks i)) [
  | inl f ↦ absurd (ground arith)
  | inr (t, f) ↦ advance-IsTraced c i t t.phase a j {u = u} q refl f v (ground arith)
]

step-IsTraced :
    (c : Setup) (a : Action) (j : Jobs) {u : Jobs}
    → is_calm a ≡ true
    → IsTraced j
    → step c a j ≡ some u
    → IsTraced u
unfolding step
step-IsTraced c (backup_request w at actor) j {u} q v h =
    traced u h (requested j _ v (start_backup_cases c w at actor j))
step-IsTraced c (restore_request w unreadable name actor) j {u} q v h =
    traced u h (requested j _ v (start_restore_cases c w unreadable name actor j))
step-IsTraced c (work i w message) j {u} q v h =
    advance_task-IsTraced c i (work i w message) j {u = u} q v h
step-IsTraced c (audit_job i f n) j {u} q v h =
    advance_task-IsTraced c i (audit_job i f n) j {u = u} q v h
step-IsTraced c (finish_job i f n) j {u} q v h =
    advance_task-IsTraced c i (finish_job i f n) j {u = u} q v h
step-IsTraced c (release_job i) j {u} q v h =
    advance_task-IsTraced c i (release_job i) j {u = u} q v h
step-IsTraced c (restart fails now) j {u} q v h = absurd (ground arith)

run-IsTraced :
    (c : Setup) (actions : List Action) (j : Jobs) {u : Jobs}
    → All (λ a. is_calm a ≡ true) actions
    → IsTraced j
    → run c actions j ≡ some u
    → IsTraced u
unfolding run
run-IsTraced c [] j {u} q v h = traced u h v
run-IsTraced c (a ∷ rest) j {u} q v h = elim (Option-cases (step c a j)) [
  | inl f ↦ absurd (ground arith)
  | inr (t, f) ↦
      run-IsTraced c rest t {u = u} q.1 (step-IsTraced c a j {u = t} q.0 v f) (ground arith)
]

-- From a service without jobs, over any interleaving of requests and goroutines without a restart
-- and without a failing audit insert: every job of the history that has reached a terminal status
-- has an entry in the audit trail with its kind, target, status and detail.
pub run-accounted :
    (c : Setup) (actions : List Action) (j : Jobs) {u : Jobs}
    → j.rows ≡ []
    → j.tasks ≡ []
    → All (λ a. is_calm a ≡ true) actions
    → run c actions j ≡ some u
    → All (λ row. is_accounted u.trail row ≡ true) u.rows
run-accounted c actions j {u} rows tasks q h =
    let start : IsTraced (record j { rows = []; tasks = [] }) = record {
      accounted = tt;
      backed = tt;
      own = tt;
      rows_given = tt;
      tasks_given = tt;
    } in
    let v : IsTraced j =
      subst IsTraced {x = record j { rows = []; tasks = [] }} {y = j} (ground (arith, rows, tasks))
        start in
    (run-IsTraced c actions j {u = u} q v h).accounted
