-- ===== src/Cutover/Execute.antt =====
-- What one goroutine of the engine does, in its order (`execute` of internal/service/cutover.go,
-- `Deploys.Record` of internal/service/deploys.go).
use touchgrass.Base.{
  ℕ, ◌+◌, ◌-◌, ◌/◌, Bool, false, not, ◌&&◌, leb, if◌then◌else◌, Text, bytes, text_eq, is_empty,
  Option, none, some, List, [], ◌∷◌, ◌++◌,
}
use touchgrass.Base.Results.{invalid_input, database, Result, ok, err}
use touchgrass.Audit
use touchgrass.Audit.{record_audit}
use touchgrass.Cutover.{DeployType, cutover, rollback, manual, deploy, Operation}
use touchgrass.Cutover.Engine.{
  EventType, deploy_started, deploy_progress, deploy_finished, rollback_started, rollback_progress,
  rollback_finished, DeployOutcome, succeeded, failed, Engine,
}

abbrev pub type_text : DeployType → Text
type_text cutover = bytes "cutover"
type_text rollback = bytes "rollback"
type_text manual = bytes "manual"
type_text deploy = bytes "deploy"

abbrev pub outcome_text : DeployOutcome → Text
outcome_text succeeded = bytes "success"
outcome_text failed = bytes "failure"

-- `deployEvents`
abbrev pub started_event : DeployType → EventType
started_event rollback = rollback_started
started_event _ = deploy_started

abbrev pub progress_event : DeployType → EventType
progress_event rollback = rollback_progress
progress_event _ = deploy_progress

abbrev pub finished_event : DeployType → EventType
finished_event rollback = rollback_finished
finished_event _ = deploy_finished

-- `auditAction`
abbrev pub audit_action : DeployType → Audit.Action
audit_action rollback = Audit.Action.rollback
audit_action deploy = Audit.Action.deploy
audit_action _ = Audit.Action.cutover

-- `auditResult`
abbrev pub audit_result : DeployOutcome → Audit.Outcome
audit_result failed = Audit.failure
audit_result succeeded = Audit.success

abbrev pub emit : EventType → Operation → Text → ℕ → Engine → Engine
emit type op message now e = record e {
  events =
      e.events ++ record { type = type; service_id = op.def.id; message = message; at = now } ∷ [];
}

-- The first event of `execute`.
unfoldable pub emit_started : Operation → ℕ → Engine → Engine
emit_started op now e =
    emit (started_event op.deploy_type) op
      (type_text op.deploy_type ++ (bytes " to " ++ (op.target ++ bytes " started"))) now e

-- A line of the script's output.
unfoldable pub emit_line : Operation → Text → ℕ → Engine → Engine
emit_line op line now e = emit (progress_event op.deploy_type) op line now e

-- What a probe of a URL returns: an error, or a status and whether it counts as healthy.
pub data Health : Type 0 where
  unreachable : Health
  answered : (healthy : Bool) → (status : ℕ) → Health

abbrev pub is_healthy : Health → Bool
is_healthy unreachable = false
is_healthy (answered healthy status) = healthy

abbrev status_of : Health → ℕ
status_of unreachable = 0
status_of (answered healthy status) = status

-- `sampleProbe`: the sample is stored, or the insert fails.
unfoldable pub sample_probe : Operation → Health → ℕ → Bool → Engine → Engine
sample_probe op sample now fails e = if fails then e else record e {
  probes =
      e.probes
      ++ record {
        service_id = op.def.id;
        healthy = is_healthy sample;
        status_code = status_of sample;
        sampled_at = now;
      }
        ∷ [];
}

-- `verifyTarget`; `none` is an engine without a prober.
abbrev pub verify_target : Option Health → Bool
verify_target none = false
verify_target (some health) = is_healthy health

-- The end of `runAndVerify`: the script's error, if it failed, and the check of the target.
unfoldable pub settle : Operation → Option Text → Option Health → DeployOutcome × Text
settle op (some message) health = (failed, message)
settle op none health =
    if not op.verify_health
    then (succeeded, [])
    else if verify_target health
    then (succeeded, [])
    else (
      failed,
      type_text op.deploy_type
          ++ (bytes " target "
              ++ (op.target
                  ++ (bytes " failed post-"
                      ++ (type_text op.deploy_type ++ bytes " health check")))),
    )

pub record Container : Type 0 where
  pub compose_project : Text
  pub compose_service : Text
  pub image_id : Text

-- `liveSHA`: the image of the first container of the service, or `unknown`.
unfoldable pub sha_among : Text → Text → List Container → Text
sha_among project service [] = bytes "unknown"
sha_among project service (c ∷ cs) =
    let rest = sha_among project service cs in
    if text_eq c.compose_project project && text_eq c.compose_service service
    then c.image_id
    else rest

unfoldable pub live_sha : Operation → Option (List Container) → Text
live_sha op none = bytes "unknown"
live_sha op (some containers) = sha_among op.def.compose_project op.sha_service containers

-- `Deploys.Record`: what `services.Get` returns, the fate of the insert, and the record's fields. A
-- type or an outcome that is none of the constants cannot be written down.
unfoldable pub record_deploy :
    Result (Unit {0})
    → Bool
    → Operation
    → Text
    → DeployOutcome
    → Text
    → Option ℕ
    → ℕ
    → ℕ
    → Engine
    → Result (Unit {0}) × Engine
unfolding is_empty
record_deploy (err x) fails op sha outcome notes downtime started finished e = (err x, e)
record_deploy (ok _) fails op sha outcome notes downtime started finished e =
    if is_empty sha
    then (err invalid_input, e)
    else if is_empty op.actor
    then (err invalid_input, e)
    else if leb (finished + 1000000000) started
    then (err invalid_input, e)
    else if fails
    then (err database, e)
    else (
      ok tt,
      record e {
        deploys =
            e.deploys
            ++ record {
              service_id = op.def.id;
              sha = sha;
              actor = op.actor;
              type = op.deploy_type;
              outcome = outcome;
              notes = notes;
              started_at = started;
              finished_at = finished;
              duration_secs = (finished - started) / 1000000000;
              downtime = downtime;
            }
              ∷ [];
      },
    )

abbrev outcome_message : Operation → DeployOutcome → Text
outcome_message op outcome =
    type_text op.deploy_type
    ++ (bytes " to " ++ (op.target ++ (bytes ": " ++ outcome_text outcome)))

-- `finishOperation`: the event, the notification and the audit entry, each on its own.
unfoldable pub finish_operation :
    (Text → Result (Unit {0}))
    → (notice_fails audit_fails : Bool) → Operation
    → DeployOutcome
    → Text
    → ℕ
    → Engine
    → Engine
unfolding is_empty
finish_operation get notice_fails audit_fails op outcome notes finished e =
    let told = emit (finished_event op.deploy_type) op (outcome_message op outcome) finished e in
    let title =
      type_text op.deploy_type
      ++ (bytes " "
          ++ (outcome_text outcome ++ (bytes ": " ++ (op.def.id ++ (bytes " → " ++ op.target))))) in
    let detail =
      if is_empty notes
      then outcome_message op outcome
      else outcome_message op outcome ++ (bytes "; " ++ notes) in
    record told {
      notifications =
          if notice_fails
          then told.notifications
          else told.notifications
            ++ record { service_id = op.def.id; title = title; body = notes } ∷ [];
      trail =
          (record_audit get audit_fails finished
            (record {
              service_id = op.def.id;
              actor = op.actor;
              action = audit_action op.deploy_type;
              outcome = audit_result outcome;
              detail = detail;
            })
            told.trail).1;
    }
