-- ===== src/Cutover/Claims.antt =====
-- One run at a time: a service is marked as running exactly while one goroutine works on it
-- (`claimRun`, `releaseRun` and `execute` of internal/service/cutover.go).
use touchgrass.Base.{
  ℕ, suc, ◌≤◌, ◌≡◌, refl, inl, inr, ◌⊎◌, ◌↔◌, Bool, true, false, not, ◌&&◌, if◌then◌else◌, Text,
  text_eq, text_eq_iff, Option, some, List, [], ◌∷◌, ◌++◌, count, count-append, count-set,
  get_elem?, arith, Option-cases,
}
use touchgrass.Base.Maps.{text_key, insert}
use touchgrass.Base.Results.{Result, ok, err}
use touchgrass.Cutover.{Host, Operation}
use touchgrass.Cutover.Engine.{
  Engine, new_engine, Job, Phase, launched, running, settled, recorded, reported, gone,
  DeployOutcome, active, claim_run, release_run, launch, start, start_deploy, start_rollback,
}
use touchgrass.Cutover.Execute.{
  Health, is_healthy, emit_started, emit_line, sample_probe, settle, live_sha, record_deploy,
  finish_operation,
}
use touchgrass.Cutover.Requests.{IsLaunch, start_cases, start_deploy_cases, start_rollback_cases}
use touchgrass.Cutover.Schedule.{
  Action, cutover_request, deploy_request, rollback_request, begin_run, print_line, take_sample,
  settle_run, record_run, finish_run, leave, move, counted, advance, advance_job, step, run,
}

abbrev is_gone : Phase → Bool
is_gone gone = true
is_gone _ = false

-- A goroutine that works on the service.
abbrev pub works_on : Text → Job → Bool
works_on id job = text_eq job.op.def.id id && not (is_gone job.phase)

-- The mark of the service stands for one goroutine, and no mark for none.
abbrev pub IsClaimed : Text → Engine → Type 0
IsClaimed id e = count (works_on id) e.jobs ≡ (if active id e then 1 else 0)

-- What a step that only reports leaves alone.
abbrev SameClaims : Engine → Engine → Type 0
SameClaims e t = (t.jobs ≡ e.jobs) × (t.runs ≡ e.runs)

record_deploy-same :
    (get : Result (Unit {0})) (fails : Bool) (op : Operation) (sha : Text) (outcome : DeployOutcome)
    (notes : Text) (downtime : Option ℕ) (started finished : ℕ) (e : Engine)
    → SameClaims e (record_deploy get fails op sha outcome notes downtime started finished e).1
unfolding record_deploy
record_deploy-same (err x) fails op sha outcome notes downtime started finished e = (refl, refl)
record_deploy-same (ok u) fails op sha outcome notes downtime started finished e = ground arith

sample_probe-same :
    (op : Operation) (sample : Health) (now : ℕ) (fails : Bool) (e : Engine)
    → SameClaims e (sample_probe op sample now fails e)
unfolding sample_probe
sample_probe-same op sample now fails e = ground arith

launch_cases :
    (op : Operation) (target : Text) (e : Engine)
    → ((launch op target e).1 ≡ e)
      ⊎ ((active op.def.id e ≡ false)
          × ((launch op target e).1 ≡ record e {
            runs = insert e.runs op.def.id true;
            jobs = e.jobs ++ record { op = op; phase = launched } ∷ [];
          }))
unfolding launch claim_run
launch_cases op target e = ground arith

launch-IsClaimed :
    (id : Text) (op : Operation) (target : Text) (e : Engine)
    → IsClaimed id e
    → IsClaimed id (launch op target e).1
launch-IsClaimed id op target e v = elim (launch_cases op target e) [
  | inl same ↦ rw same v
  | inr (free, moved) ↦ rw moved (
      unfold active count in
      ground (
        arith,
        text_eq_iff op.def.id id,
        count-append (works_on id) e.jobs (record { op = op; phase = launched } ∷ []),
      ))
]

-- A job that stays at work keeps its share of the count.
move-IsClaimed :
    (id : Text) (i : ℕ) (op : Operation) (p q : Phase) (e t : Engine)
    → get_elem? e.jobs i ≡ some (record { op = op; phase = p })
    → SameClaims e t
    → is_gone p ≡ false
    → is_gone q ≡ false
    → IsClaimed id e
    → IsClaimed id (move i op q t)
unfolding active
move-IsClaimed id i op p q e t here same working still v = ground (
  arith,
  same,
  count-set (works_on id) e.jobs i (record { op = op; phase = q })
      {x = record { op = op; phase = p }} here,
)

leave-IsClaimed :
    (id : Text) (i : ℕ) (op : Operation) (e : Engine)
    → get_elem? e.jobs i ≡ some (record { op = op; phase = reported })
    → IsClaimed id e
    → IsClaimed id (move i op gone (release_run op.def.id e))
unfolding active release_run
leave-IsClaimed id i op e here v = ground (
  arith,
  count-set (works_on id) e.jobs i (record { op = op; phase = gone })
      {x = record { op = op; phase = reported }} here,
)

advance-IsClaimed :
    (id : Text) (i : ℕ) (op : Operation) (p : Phase) (a : Action) (e : Engine) {t : Engine}
    → get_elem? e.jobs i ≡ some (record { op = op; phase = p })
    → IsClaimed id e
    → advance i op p a e ≡ some t
    → IsClaimed id t
unfolding advance emit_started emit_line finish_operation
advance-IsClaimed id i op launched (begin_run k now) e {t} here v h = ground (
  arith,
  move-IsClaimed id i op launched (running now 0) e (emit_started op now e) here (refl, refl) refl
      refl v,
)
advance-IsClaimed id i op (running s n) (print_line k line now) e {t} here v h = ground (
  arith,
  move-IsClaimed id i op (running s n) (running s n) e (emit_line op line now e) here (refl, refl)
      refl refl v,
)
advance-IsClaimed id i op (running s n) (take_sample k sample now fails) e {t} here v h =
    let n' = if is_healthy sample then n else suc n in
    ground (
      arith,
      move-IsClaimed id i op (running s n) (running s n') e (sample_probe op sample now fails e)
          here (sample_probe-same op sample now fails e) refl refl v,
    )
advance-IsClaimed id i op (running s n) (settle_run k script health) e {t} here v h = ground (
  arith,
  move-IsClaimed id i op (running s n)
      (settled s (settle op script health).0 (settle op script health).1 (counted op n)) e e here
      (refl, refl) refl refl v,
)
advance-IsClaimed id i op (settled s o notes d) (record_run k get cs finished fails) e {t} here v
      h =
    ground (
      arith,
      move-IsClaimed id i op (settled s o notes d) (recorded o notes finished) e
          (record_deploy get fails op (live_sha op cs) o notes d s finished e).1 here
          (record_deploy-same get fails op (live_sha op cs) o notes d s finished e) refl refl v,
    )
advance-IsClaimed id i op (recorded o notes finished) (finish_run k get nf af) e {t} here v h =
    ground (
      arith,
      move-IsClaimed id i op (recorded o notes finished) reported e
          (finish_operation get nf af op o notes finished e) here (refl, refl) refl refl v,
    )
advance-IsClaimed id i op reported (leave k) e {t} here v h =
    ground (arith, leave-IsClaimed id i op e here v)
advance-IsClaimed _ _ _ _ _ e here v h = cc

advance_job-IsClaimed :
    (id : Text) (i : ℕ) (a : Action) (e : Engine) {t : Engine}
    → IsClaimed id e
    → advance_job i a e ≡ some t
    → IsClaimed id t
unfolding advance_job
advance_job-IsClaimed id i a e {t} v h = elim (Option-cases (get_elem? e.jobs i)) [
  | inl f ↦ ground arith
  | inr (job, f) ↦ advance-IsClaimed id i job.op job.phase a e {t = t} f v (ground arith)
]

requested :
    (id : Text) (e moved t : Engine)
    → IsClaimed id e
    → IsLaunch e moved
    → some moved ≡ some t
    → IsClaimed id t
requested id e moved t v (inl same) s = ground (arith, v)
requested id e moved t v (inr (op, target, same)) s =
    ground (arith, launch-IsClaimed id op target e v)

step-IsClaimed :
    (id : Text) (h : Host) (a : Action) (e : Engine) {t : Engine}
    → IsClaimed id e
    → step h a e ≡ some t
    → IsClaimed id t
unfolding step
step-IsClaimed id h (cutover_request def target actor) e {t} v s =
    requested id e (start h def target actor e).1 t v (start_cases h def target actor e) s
step-IsClaimed id h (deploy_request def actor) e {t} v s =
    requested id e (start_deploy h def actor e).1 t v (start_deploy_cases h def actor e) s
step-IsClaimed id h (rollback_request def actor) e {t} v s =
    requested id e (start_rollback h def actor e).1 t v (start_rollback_cases h def actor e) s
step-IsClaimed id h (begin_run i now) e {t} v s =
    advance_job-IsClaimed id i (begin_run i now) e {t = t} v s
step-IsClaimed id h (print_line i line now) e {t} v s =
    advance_job-IsClaimed id i (print_line i line now) e {t = t} v s
step-IsClaimed id h (take_sample i x now f) e {t} v s =
    advance_job-IsClaimed id i (take_sample i x now f) e {t = t} v s
step-IsClaimed id h (settle_run i x y) e {t} v s =
    advance_job-IsClaimed id i (settle_run i x y) e {t = t} v s
step-IsClaimed id h (record_run i g cs n f) e {t} v s =
    advance_job-IsClaimed id i (record_run i g cs n f) e {t = t} v s
step-IsClaimed id h (finish_run i g x y) e {t} v s =
    advance_job-IsClaimed id i (finish_run i g x y) e {t = t} v s
step-IsClaimed id h (leave i) e {t} v s = advance_job-IsClaimed id i (leave i) e {t = t} v s

run-IsClaimed :
    (id : Text) (h : Host) (actions : List Action) (e : Engine) {t : Engine}
    → IsClaimed id e
    → run h actions e ≡ some t
    → IsClaimed id t
unfolding run
run-IsClaimed id h [] e {t} v s = ground (arith, v)
run-IsClaimed id h (a ∷ rest) e {t} v s = elim (Option-cases (step h a e)) [
  | inl f ↦ ground arith
  | inr (u, f) ↦
      run-IsClaimed id h rest u {t = t} (step-IsClaimed id h a e {t = u} v f) (ground arith)
]

-- However requests and goroutines interleave and whatever fails, at most one goroutine works on a
-- service at any time, and the service is marked as running exactly while one does.
pub run_exclusive :
    (h : Host) (actions : List Action) {t : Engine} (id : Text)
    → run h actions new_engine ≡ some t
    → (count (works_on id) t.jobs ≤ 1) × ((active id t ≡ true) ↔ (count (works_on id) t.jobs ≡ 1))
run_exclusive h actions {t} id s =
    let v = run-IsClaimed id h actions new_engine {t = t} (unfold count active in refl) s in
    ground (arith, v)
