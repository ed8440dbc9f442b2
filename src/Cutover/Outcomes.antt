-- ===== src/Cutover/Outcomes.antt =====
-- Where a deploy goes and what it leaves behind (internal/service/cutover.go).
use touchgrass.Base.{
  ℕ, ◌-◌, ◌/◌, ◌≤◌, ◌≡◌, ◌≢◌, ◌↔◌, ◌⊎◌, refl, ap, ◌∙◌, inl, inr, Bool, true, false, if◌then◌else◌,
  Text, text_eq, text_eq_iff, text_eq_refl, is_empty, Option, none, some, List, [], ◌∷◌, ◌++◌,
  arith, Bool-cases,
}
use touchgrass.Base.Results.{Result, ok, err}
use touchgrass.Base.Maps.{text_key}
use touchgrass.Cutover.{
  BlueGreenConfig, Host, Operation, resolve, resolve_rollback, opposite, live, color_blue,
  color_green, target_auto,
}
use touchgrass.Cutover.Engine.{Engine, Deploy, DeployOutcome, succeeded, active, release_run}
use touchgrass.Cutover.Execute.{
  Health, answered, unreachable, emit_started, emit_line, sample_probe, verify_target, settle,
  live_sha, record_deploy, finish_operation,
}
use touchgrass.Cutover.Runs.{World, Tick, printed, sampled, failures, work, execute}
use touchgrass.Cutover.Schedule.{counted}

-- The nginx target of a color.
abbrev pub color_target : BlueGreenConfig → Text → Text
color_target cfg color = if text_eq color color_blue then cfg.blue_target else cfg.green_target

color_target-colors :
    (cfg : BlueGreenConfig)
    → (color_target cfg color_blue ≡ cfg.blue_target)
      × (color_target cfg color_green ≡ cfg.green_target)
unfolding text_eq
color_target-colors cfg = (refl, refl)

opposite-away :
    (cfg : BlueGreenConfig) (found : Option Text) {c : Text}
    → cfg.blue_target ≢ cfg.green_target
    → opposite cfg found ≡ ok c
    → (t : Text) × (found ≡ some t) × (color_target cfg c ≢ t)
unfolding opposite
opposite-away cfg none d e = absurd (ground arith)
opposite-away cfg (some t) {c} d e = elim (Bool-cases (text_eq t cfg.blue_target)) [
  | inl blue ↦
      (t, refl, λ x. ground (arith, d, text_eq_iff t cfg.blue_target, color_target-colors cfg))
  | inr other ↦ (
    t,
    refl,
    λ x. ground (
      arith,
      d,
      text_eq_iff t cfg.blue_target,
      text_eq_iff t cfg.green_target,
      color_target-colors cfg,
    ),
  )
]

-- An automatic cutover, or a rollback, is resolved only where the live target is known, and never
-- to the color that is live, in a service whose two colors have different targets.
pub resolve-away :
    (h : Host) (cfg : BlueGreenConfig) (c : Text)
    → cfg.blue_target ≢ cfg.green_target
    → (resolve h cfg target_auto ≡ ok c) ⊎ (resolve_rollback h cfg ≡ ok c)
    → (t : Text) × (live h cfg ≡ some t) × (color_target cfg c ≢ t)
unfolding resolve resolve_rollback
resolve-away h cfg c d (inl e) =
    opposite-away cfg (live h cfg) {c = c} d (unfold text_eq is_empty in ground arith)
resolve-away h cfg c d (inr e) = opposite-away cfg (live h cfg) {c = c} d (ground arith)

work-deploys :
    (op : Operation) (ticks : List Tick) (e : Engine) → (work op ticks e).deploys ≡ e.deploys
unfolding work emit_line sample_probe
work-deploys op [] e = refl
work-deploys op (printed line now ∷ rest) e = work-deploys op rest (emit_line op line now e)
work-deploys op (sampled sample now true ∷ rest) e = work-deploys op rest e
work-deploys op (sampled sample now false ∷ rest) e =
    work-deploys op rest (sample_probe op sample now false e)

-- What makes a run a success.
abbrev pub IsGoodRun : Operation → World → Type 0
IsGoodRun op w =
    (w.script_error ≡ none)
    × ((op.verify_health ≡ false) ⊎ ((status : ℕ) × (w.health ≡ some (answered true status))))

answered_true :
    (health : Option Health)
    → verify_target health ≡ true
    → (status : ℕ) × (health ≡ some (answered true status))
answered_true none e = absurd (ground arith)
answered_true (some unreachable) e = absurd (ground arith)
answered_true (some (answered true status)) e = (status, refl)
answered_true (some (answered false status)) e = absurd (ground arith)

settle_iff :
    (op : Operation) (error : Option Text) (health : Option Health)
    → ((settle op error health).0 ≡ succeeded) ↔ (
        (error ≡ none)
        × ((op.verify_health ≡ false) ⊎ ((status : ℕ) × (health ≡ some (answered true status)))))
unfolding settle
settle_iff op (some m) health = (λ e. ground arith, λ e. ground arith)
settle_iff op none health = elim (Bool-cases op.verify_health) [
  | inr off ↦ (λ e. (refl, inl off), λ e. ground arith)
  | inl on ↦ (λ e. (refl, inr (answered_true health (ground arith))), λ e. ground arith)
]

recorded_row :
    (lookup : Result (Unit {0})) (fails : Bool) (op : Operation) (sha : Text)
    (outcome : DeployOutcome) (notes : Text) (downtime : Option ℕ) (started finished : ℕ)
    (e : Engine)
    → lookup ≡ ok tt
    → fails ≡ false
    → is_empty op.actor ≡ false
    → is_empty sha ≡ false
    → started ≤ finished
    → (record_deploy lookup fails op sha outcome notes downtime started finished e).1.deploys
      ≡ e.deploys
        ++ record {
          service_id = op.def.id;
          sha = sha;
          actor = op.actor;
          type = op.deploy_type;
          outcome = outcome;
          notes = notes;
          started_at = started;
          finished_at = finished;
          duration_secs = (finished - started) / 1000000000;
          downtime = downtime;
        }
          ∷ []
unfolding record_deploy
recorded_row (err x) fails op sha outcome notes downtime started finished e k s a f o = ground arith
recorded_row (ok u) fails op sha outcome notes downtime started finished e k s a f o = ground arith

active-release : (id : Text) (e : Engine) → active id (release_run id e) ≡ false
unfolding active release_run
active-release id e = ground (arith, text_eq_refl id)

abbrev row_of : Operation → World → Deploy
row_of op w = record {
  service_id = op.def.id;
  sha = live_sha op w.containers;
  actor = op.actor;
  type = op.deploy_type;
  outcome = (settle op w.script_error w.health).0;
  notes = (settle op w.script_error w.health).1;
  started_at = w.started;
  finished_at = w.finished;
  duration_secs = (w.finished - w.started) / 1000000000;
  downtime = counted op (failures w.ticks 0);
}

-- A run of a known service by a known actor, whose image was found and whose record can be stored,
-- adds one entry to the history: a success exactly when the script succeeded and, where the target
-- is to be verified, it answered as healthy. Afterwards the service is free again.
pub execute-deploys :
    (op : Operation) (w : World) (e : Engine)
    → w.lookup ≡ ok tt
    → w.deploy_fails ≡ false
    → is_empty op.actor ≡ false
    → is_empty (live_sha op w.containers) ≡ false
    → w.started ≤ w.finished
    → ((row : Deploy) × ((execute op w e).deploys ≡ e.deploys ++ row ∷ [])
        × (row.service_id ≡ op.def.id)
        × ((row.outcome ≡ succeeded) ↔ IsGoodRun op w))
      × (active op.def.id (execute op w e) ≡ false)
unfolding execute finish_operation release_run
execute-deploys op w e known stored acted found ordered =
    let row : Deploy = row_of op w in
    (
      (
        row,
        recorded_row w.lookup w.deploy_fails op (live_sha op w.containers)
              (settle op w.script_error w.health).0 (settle op w.script_error w.health).1
              (counted op (failures w.ticks 0)) w.started w.finished
              (work op w.ticks (emit_started op w.started e)) known stored acted found ordered
            ∙ ap (λ ds. ds ++ row ∷ [])
                (work-deploys op w.ticks (emit_started op w.started e)
                  ∙ (unfold emit_started in refl)),
        refl,
        settle_iff op w.script_error w.health,
      ),
      active-release op.def.id _,
    )
