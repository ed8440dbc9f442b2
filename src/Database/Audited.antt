-- ===== src/Database/Audited.antt =====
-- The audit entry of a job lands before its terminal status (`finishJob` of
-- internal/service/database.go).
use touchgrass.Base.{
  ℕ, ◌-◌, ◌<◌, ◌≡◌, ◌⊎◌, refl, sym, subst, inl, inr, Bool, true, false, not, ◌&&◌, ◌||◌, ◌==◌, ltb,
  Text, text_eq, text_eq_refl, some, List, [], ◌∷◌, count, All, append-All, select-All, All_mono,
  All_both, arith,
}
use touchgrass.Audit
use touchgrass.Audit.{append_entry}
use touchgrass.Database.Jobs.{
  JobKind, DbJob, working, worked, audited, finished, gone, Task, Jobs, max_jobs, is_newer,
  trim_jobs, is_running,
}
use touchgrass.Database.Requests.{IsIdle, IsStart, with_job, new_row, new_task}
use touchgrass.Database.Steps.{kind_text, audit_detail}

-- An entry with this detail is in the trail.
unfoldable pub is_recorded : Text → List Audit.Entry → Bool
is_recorded detail [] = false
is_recorded detail (e ∷ es) = text_eq e.detail detail || is_recorded detail es

-- A row that has reached a terminal status is in the trail, with its kind, target, status and
-- detail.
unfoldable pub is_accounted : List Audit.Entry → DbJob → Bool
unfolding is_recorded
is_accounted trail row =
    is_running row || is_recorded (audit_detail row.kind row.target row.status row.detail) trail

-- A goroutine that has audited its job.
unfoldable pub is_backed : List Audit.Entry → Task → Bool
unfolding is_recorded
is_backed trail t = elim (t.phase) [
  | working ↦ true
  | worked s d ↦ true
  | audited s d ↦ is_recorded (audit_detail t.kind t.target s d) trail
  | finished ↦ true
  | gone ↦ true
]

-- The row of a goroutine's job is of its kind and target.
unfoldable pub is_own : Task → DbJob → Bool
is_own t row =
    not (row.id == t.id)
    || (text_eq (kind_text row.kind) (kind_text t.kind) && text_eq row.target t.target)

pub record IsTraced (j : Jobs) : Type 0 where
  pub accounted : All (λ row. is_accounted j.trail row ≡ true) j.rows
  pub backed : All (λ t. is_backed j.trail t ≡ true) j.tasks
  pub own : All (λ t. All (λ row. is_own t row ≡ true) j.rows) j.tasks
  pub rows_given : All (λ row. row.id < j.next_id) j.rows
  pub tasks_given : All (λ t. t.id < j.next_id) j.tasks

pub traced : {v : Jobs} (u : Jobs) → some v ≡ some u → IsTraced v → IsTraced u
traced {v} u h b = subst IsTraced {x = v} {y = u} (ground arith) b

-- The history is trimmed, and nothing else changes but the guard.
IsTraced-trim :
    (n : ℕ) (busy : Bool) (j : Jobs)
    → IsTraced j
    → IsTraced (record j { is_busy = busy; rows = trim_jobs n j.rows })
unfolding trim_jobs
IsTraced-trim n busy j v =
    let newest = λ (row : DbJob). ltb (count (is_newer row) j.rows) n in
    record {
      accounted = select-All (λ row. is_accounted j.trail row ≡ true) newest j.rows v.accounted;
      backed = v.backed;
      own =
          All_mono _ _ j.tasks (λ t a. select-All (λ row. is_own t row ≡ true) newest j.rows a)
            v.own;
      rows_given = select-All (λ row. row.id < j.next_id) newest j.rows v.rows_given;
      tasks_given = v.tasks_given;
    }

idle-IsTraced : (j u : Jobs) → IsTraced j → IsIdle j u → IsTraced u
idle-IsTraced j u v i = elim (i.rows) [
  | inl same ↦
      subst IsTraced {x = record j { is_busy = u.is_busy; server = u.server }} {y = u}
        (ground (arith, i.tasks, i.next_id, i.trail, same))
        (record {
          accounted = v.accounted;
          backed = v.backed;
          own = v.own;
          rows_given = v.rows_given;
          tasks_given = v.tasks_given;
        })
  | inr trimmed ↦
      let w = IsTraced-trim (max_jobs - 1) u.is_busy j v in
      subst IsTraced
        {x = record j {
          is_busy = u.is_busy;
          rows = trim_jobs (max_jobs - 1) j.rows;
          server = u.server;
        }}
        {y = u} (ground (arith, i.tasks, i.next_id, i.trail, trimmed))
        (record {
          accounted = w.accounted;
          backed = w.backed;
          own = w.own;
          rows_given = w.rows_given;
          tasks_given = w.tasks_given;
        })
]

fresh_own : (t : Task) (row : DbJob) → t.id < row.id → is_own t row ≡ true
unfolding is_own
fresh_own t row l = ground arith

old_own : (t : Task) (row : DbJob) → row.id < t.id → is_own t row ≡ true
unfolding is_own
old_own t row l = ground arith

created-IsTraced :
    (kind : JobKind) (target actor : Text) (now : ℕ) (j : Jobs)
    → IsTraced j
    → IsTraced (with_job kind target actor now j)
unfolding is_accounted is_backed
created-IsTraced kind target actor now j v =
    let w = IsTraced-trim (max_jobs - 1) true j v in
    let rows = trim_jobs (max_jobs - 1) j.rows in
    let row = new_row j.next_id kind target now in
    let task = new_task j.next_id kind target actor in
    record {
      accounted = append-All _ rows (row ∷ []) w.accounted (refl, tt);
      backed = append-All _ j.tasks (task ∷ []) v.backed (refl, tt);
      own =
          append-All _ j.tasks (task ∷ [])
            (All_both (λ t. t.id < j.next_id) (λ t. All (λ r. is_own t r ≡ true) rows) _ j.tasks
              (λ t l a. append-All _ rows (row ∷ []) a (fresh_own t row l, tt)) v.tasks_given w.own)
            (
              append-All _ rows (row ∷ [])
                  (All_mono _ _ rows (λ r l. old_own task r l) w.rows_given)
                  (
                    unfold is_own in
                        ground (arith, text_eq_refl (kind_text kind), text_eq_refl target),
                    tt,
                  ),
              tt,
            );
      rows_given =
          append-All _ rows (row ∷ []) (All_mono _ _ rows (λ r l. omega (arith, l)) w.rows_given)
            (omega arith, tt);
      tasks_given =
          append-All _ j.tasks (task ∷ [])
            (All_mono _ _ j.tasks (λ t l. omega (arith, l)) v.tasks_given) (omega arith, tt);
    }

pub requested : (j u : Jobs) → IsTraced j → IsIdle j u ⊎ IsStart j u → IsTraced u
requested j u v (inl i) = idle-IsTraced j u v i
requested j u v (inr s) =
    subst IsTraced (sym s.result) (created-IsTraced s.kind s.target s.actor s.now j v)
