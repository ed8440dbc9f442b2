-- ===== src/Database/Requests.antt =====
-- What a request for a job does (`StartBackup`, `StartRestore` and `launch` of
-- internal/service/database.go): it starts one, or leaves all but the trimmed history as it was.
use touchgrass.Base.{
  ℕ, suc, ◌-◌, ◌≡◌, ◌⊎◌, refl, sym, subst, inl, inr, Bool, true, false, Text, none, [], ◌∷◌, ◌++◌,
  arith, Bool-cases,
}
use touchgrass.Database.Names.{backup_file_name}
use touchgrass.Database.Jobs.{
  JobKind, backup, restore, running, DbJob, working, Task, Jobs, Setup, Starting, max_jobs,
  trim_jobs, create_job, claim, release, launch, start_backup, start_restore,
}

abbrev pub new_row : ℕ → JobKind → Text → ℕ → DbJob
new_row id kind target now = record {
  id = id;
  kind = kind;
  target = target;
  status = running;
  detail = [];
  started_at = now;
  finished_at = none;
}

abbrev pub new_task : ℕ → JobKind → Text → Text → Task
new_task id kind target actor = record {
  id = id;
  kind = kind;
  target = target;
  actor = actor;
  phase = working;
}

-- A request that starts nothing; the history may have been trimmed.
pub record IsIdle (j t : Jobs) : Type 0 where
  pub tasks : t.tasks ≡ j.tasks
  pub is_busy : t.is_busy ≡ j.is_busy
  pub next_id : t.next_id ≡ j.next_id
  pub trail : t.trail ≡ j.trail
  pub rows : (t.rows ≡ j.rows) ⊎ (t.rows ≡ trim_jobs (max_jobs - 1) j.rows)

abbrev pub with_job : JobKind → Text → Text → ℕ → Jobs → Jobs
with_job kind target actor now j = record j {
  is_busy = true;
  rows = trim_jobs (max_jobs - 1) j.rows ++ new_row j.next_id kind target now ∷ [];
  next_id = suc j.next_id;
  tasks = j.tasks ++ new_task j.next_id kind target actor ∷ [];
}

pub record IsStart (j t : Jobs) : Type 0 where
  pub kind : JobKind
  pub target : Text
  pub actor : Text
  pub now : ℕ
  pub free : j.is_busy ≡ false
  pub result : t ≡ with_job kind target actor now j

abbrev idle : (j : Jobs) → IsIdle j j
idle j = record { tasks = refl; is_busy = refl; next_id = refl; trail = refl; rows = inl refl }

abbrev unguarded : (j : Jobs) → j.is_busy ≡ false → IsIdle j (record j { is_busy = false })
unguarded j free = record {
  tasks = refl;
  is_busy = sym free;
  next_id = refl;
  trail = refl;
  rows = inl refl;
}

abbrev trimmed_idle :
    (j : Jobs)
    → j.is_busy ≡ false
    → IsIdle j (record j { is_busy = false; rows = trim_jobs (max_jobs - 1) j.rows })
trimmed_idle j free = record {
  tasks = refl;
  is_busy = sym free;
  next_id = refl;
  trail = refl;
  rows = inr refl;
}

start_restore_choice :
    (c : Setup) (w : Starting) (unreadable : Bool) (name actor : Text) (j : Jobs)
    → ((start_restore c w unreadable name actor j).1 ≡ j)
      ⊎ ((start_restore c w unreadable name actor j).1 ≡ (launch w restore name actor j).1)
unfolding start_restore
start_restore_choice c w unreadable name actor j = ground arith

launch_cases :
    (w : Starting) (kind : JobKind) (target actor : Text) (j : Jobs)
    → IsIdle j (launch w kind target actor j).1 ⊎ IsStart j (launch w kind target actor j).1
unfolding launch claim create_job release
launch_cases w kind target actor j = elim (Bool-cases j.is_busy) [
  | inl taken ↦
      let same : j ≡ (launch w kind target actor j).1 = unfold launch claim in ground arith in
      inl (subst (IsIdle j) same (idle j))
  | inr free ↦ elim (Bool-cases w.trim_fails) [
    | inl kept ↦
        let same : record j { is_busy = false } ≡ (launch w kind target actor j).1 =
          unfold launch claim create_job release in ground arith in
        inl (subst (IsIdle j) same (unguarded j free))
    | inr cut ↦ elim (Bool-cases w.insert_fails) [
      | inl refused ↦
          let same : record j { is_busy = false; rows = trim_jobs (max_jobs - 1) j.rows }
              ≡ (launch w kind target actor j).1 =
            unfold launch claim create_job release in ground arith in
          inl (subst (IsIdle j) same (trimmed_idle j free))
      | inr created ↦ inr (record {
        kind = kind;
        target = target;
        actor = actor;
        now = w.now;
        free = free;
        result = ground arith;
      })
    ]
  ]
]

pub start_backup_cases :
    (c : Setup) (w : Starting) (at actor : Text) (j : Jobs)
    → IsIdle j (start_backup c w at actor j).1 ⊎ IsStart j (start_backup c w at actor j).1
unfolding start_backup
start_backup_cases c w at actor j = elim (Bool-cases c.has_container) [
  | inl there ↦ rw there (launch_cases w backup (backup_file_name c.db_name at) actor j)
  | inr missing ↦ rw missing (inl (idle j))
]

pub start_restore_cases :
    (c : Setup) (w : Starting) (unreadable : Bool) (name actor : Text) (j : Jobs)
    → IsIdle j (start_restore c w unreadable name actor j).1
      ⊎ IsStart j (start_restore c w unreadable name actor j).1
start_restore_cases c w unreadable name actor j =
    let moved = launch_cases w restore name actor j in
    elim (start_restore_choice c w unreadable name actor j) [
      | inl same ↦ inl (subst (IsIdle j) (sym same) (idle j))
      | inr same ↦ subst (λ t. IsIdle j t ⊎ IsStart j t) (sym same) moved
    ]
