-- ===== src/Database/Exclusion.antt =====
-- One job at a time (`claim`, `release`, `launch` and `execute` of internal/service/database.go).
use touchgrass.Base.{
  ℕ, ◌≤◌, ◌≡◌, ◌⊎◌, ◌↔◌, refl, subst, inl, inr, Bool, true, false, if◌then◌else◌, some, List, [],
  ◌∷◌, map, get_elem?, count, count-append, count-set, arith, Option-cases,
}
use touchgrass.Audit.{append_entry}
use touchgrass.Database.Jobs.{
  Phase, working, worked, audited, finished, gone, Task, Jobs, Setup, release, finish_row,
}
use touchgrass.Database.Requests.{
  IsIdle, IsStart, new_task, start_backup_cases, start_restore_cases,
}
use touchgrass.Database.Steps.{
  Action, backup_request, restore_request, work, audit_job, finish_job, release_job, restart,
  perform, status_of, audit_entry, move, advance, advance_task, killed, reboot, step, run,
}

abbrev pub is_alive : Task → Bool
is_alive t = elim (t.phase) [
  | working ↦ true
  | worked s d ↦ true
  | audited s d ↦ true
  | finished ↦ true
  | gone ↦ false
]

-- The guard stands for one goroutine.
abbrev IsGuarded : Jobs → Type 0
IsGuarded j = count is_alive j.tasks ≡ (if j.is_busy then 1 else 0)

requested : (j t : Jobs) → IsGuarded j → IsIdle j t ⊎ IsStart j t → IsGuarded t
requested j t g (inl idle) = ground (arith, idle.tasks, idle.is_busy)
requested j t g (inr start) =
    unfold count in
    ground (
      arith,
      start.free,
      start.result,
      count-append is_alive j.tasks (new_task j.next_id start.kind start.target start.actor ∷ []),
    )

-- A goroutine that stays alive keeps its share of the count.
move-IsGuarded :
    (i : ℕ) (t : Task) (p : Phase) (j u : Jobs)
    → get_elem? j.tasks i ≡ some t
    → u.tasks ≡ j.tasks
    → u.is_busy ≡ j.is_busy
    → is_alive t ≡ true
    → is_alive (record t { phase = p }) ≡ true
    → IsGuarded j
    → IsGuarded (move i t p u)
move-IsGuarded i t p j u here same busy alive still g =
    ground (arith, count-set is_alive j.tasks i (record t { phase = p }) {x = t} here)

leave-IsGuarded :
    (i : ℕ) (t : Task) (j : Jobs)
    → get_elem? j.tasks i ≡ some t
    → is_alive t ≡ true
    → IsGuarded j
    → IsGuarded (move i t gone (release j))
unfolding release
leave-IsGuarded i t j here alive g =
    ground (arith, count-set is_alive j.tasks i (record t { phase = gone }) {x = t} here)

advance-IsGuarded :
    (c : Setup) (i : ℕ) (t : Task) (p : Phase) (a : Action) (j : Jobs) {u : Jobs}
    → t.phase ≡ p
    → get_elem? j.tasks i ≡ some t
    → IsGuarded j
    → advance c i t p a j ≡ some u
    → IsGuarded u
unfolding advance
advance-IsGuarded c i t working (work k w message) j e here g h =
    let done = perform c t.kind t.target w j.server in
    ground (
      arith,
      move-IsGuarded i t (worked (status_of done.0) message) j (record j { server = done.1 }) here
          refl refl (rw e refl) refl g,
    )
advance-IsGuarded c i t (worked s d) (audit_job k fails now) j e here g h = ground (
  arith,
  move-IsGuarded i t (audited s d) j
      (record j { trail = (append_entry fails (audit_entry t s d now) j.trail).1 }) here refl refl
      (rw e refl) refl g,
)
advance-IsGuarded c i t (audited s d) (finish_job k fails now) j e here g h = ground (
  arith,
  move-IsGuarded i t finished j
      (record j { rows = if fails then j.rows else finish_row t.id s d now j.rows }) here refl refl
      (rw e refl) refl g,
)
advance-IsGuarded c i t finished (release_job k) j e here g h =
    ground (arith, leave-IsGuarded i t j here (rw e refl) g)
advance-IsGuarded _ _ _ _ _ _ e here g h = cc

advance_task-IsGuarded :
    (c : Setup) (i : ℕ) (a : Action) (j : Jobs) {u : Jobs}
    → IsGuarded j
    → advance_task c i a j ≡ some u
    → IsGuarded u
unfolding advance_task
advance_task-IsGuarded c i a j {u} g h = elim (Option-cases (get_elem? j.tasks i)) [
  | inl f ↦ ground arith
  | inr (t, f) ↦ advance-IsGuarded c i t t.phase a j {u = u} refl f g (ground arith)
]

count-killed : (ts : List Task) → count is_alive (map killed ts) ≡ 0
unfolding count
count-killed [] = refl
count-killed (t ∷ ts) = ground (arith, count-killed ts)

step-IsGuarded :
    (c : Setup) (a : Action) (j : Jobs) {u : Jobs} → IsGuarded j → step c a j ≡ some u → IsGuarded u
unfolding step
step-IsGuarded c (backup_request w at actor) j {u} g h =
    requested j u g
      (subst (λ t. IsIdle j t ⊎ IsStart j t) (ground arith) (start_backup_cases c w at actor j))
step-IsGuarded c (restore_request w unreadable name actor) j {u} g h = requested j u g (
    subst (λ t. IsIdle j t ⊎ IsStart j t) (ground arith)
      (start_restore_cases c w unreadable name actor j))
step-IsGuarded c (work i w message) j {u} g h =
    advance_task-IsGuarded c i (work i w message) j {u = u} g h
step-IsGuarded c (audit_job i f n) j {u} g h =
    advance_task-IsGuarded c i (audit_job i f n) j {u = u} g h
step-IsGuarded c (finish_job i f n) j {u} g h =
    advance_task-IsGuarded c i (finish_job i f n) j {u = u} g h
step-IsGuarded c (release_job i) j {u} g h =
    advance_task-IsGuarded c i (release_job i) j {u = u} g h
step-IsGuarded c (restart fails now) j {u} g h =
    unfold reboot in ground (arith, count-killed j.tasks)

run-IsGuarded :
    (c : Setup) (actions : List Action) (j : Jobs) {u : Jobs}
    → IsGuarded j
    → run c actions j ≡ some u
    → IsGuarded u
unfolding run
run-IsGuarded c [] j g h = ground arith
run-IsGuarded c (a ∷ rest) j {u} g h = elim (Option-cases (step c a j)) [
  | inl f ↦ ground arith
  | inr (t, f) ↦ run-IsGuarded c rest t {u = u} (step-IsGuarded c a j {u = t} g f) (ground arith)
]

-- However requests, goroutines and restarts interleave and whatever fails, from a service that has
-- started no job at most one goroutine is alive at any time, and the service is busy exactly while
-- one is.
pub run_one_job :
    (c : Setup) (actions : List Action) (j : Jobs) {u : Jobs}
    → j.tasks ≡ []
    → j.is_busy ≡ false
    → run c actions j ≡ some u
    → (count is_alive u.tasks ≤ 1) × ((u.is_busy ≡ true) ↔ (count is_alive u.tasks ≡ 1))
run_one_job c actions j {u} none_yet free h =
    let g = run-IsGuarded c actions j {u = u} (unfold count in ground arith) h in ground (arith, g)
