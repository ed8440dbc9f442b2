-- ===== src/Cutover/Schedule.antt =====
-- Requests and goroutines of the engine, one step at a time, in any order
-- (internal/service/cutover.go). A step is what lies between two points at which others may run.
use touchgrass.Base.{
  ℕ, suc, Bool, if◌then◌else◌, Text, is_empty, Option, none, some, List, [], ◌∷◌, get_elem?, set,
}
use touchgrass.Base.Results.{Result}
use touchgrass.Cutover.{Service, Host, Operation}
use touchgrass.Cutover.Engine.{
  Engine, Phase, launched, running, settled, recorded, reported, gone, start, start_deploy,
  start_rollback, release_run,
}
use touchgrass.Cutover.Execute.{
  Health, Container, is_healthy, emit_started, emit_line, sample_probe, settle, live_sha,
  record_deploy, finish_operation,
}

pub data Action : Type 0 where
  cutover_request : Result Service → (target actor : Text) → Action
  deploy_request rollback_request : Result Service → (actor : Text) → Action
  begin_run : (job now : ℕ) → Action
  print_line : (job : ℕ) → (line : Text) → (now : ℕ) → Action
  take_sample : (job : ℕ) → Health → (now : ℕ) → (fails : Bool) → Action
  settle_run : (job : ℕ) → (script_error : Option Text) → Option Health → Action
  record_run :
      (job : ℕ)
      → Result (Unit {0})
      → Option (List Container)
      → (finished : ℕ) → (fails : Bool) → Action
  finish_run : (job : ℕ) → (Text → Result (Unit {0})) → (notice_fails audit_fails : Bool) → Action
  leave : (job : ℕ) → Action

-- The job moves on, over an engine that its step has changed.
abbrev pub move : ℕ → Operation → Phase → Engine → Engine
move i op p e = record e { jobs = set e.jobs i (record { op = op; phase = p }) }

-- The counter of failed samples, which stays away where there is no URL to probe.
abbrev pub counted : Operation → ℕ → Option ℕ
counted op n = if is_empty op.public_url then none else some n

-- The step of the goroutine with this phase; `none` where it is not that step's turn.
unfoldable pub advance : ℕ → Operation → Phase → Action → Engine → Option Engine
unfolding is_empty
advance i op launched (begin_run _ now) e = some (move i op (running now 0) (emit_started op now e))
advance i op (running started n) (print_line _ line now) e =
    some (move i op (running started n) (emit_line op line now e))
advance i op (running started n) (take_sample _ sample now fails) e =
    if is_empty op.public_url
    then none
    else some (
        move i op (running started (if is_healthy sample then n else suc n))
          (sample_probe op sample now fails e))
advance i op (running started n) (settle_run _ script health) e =
    let (outcome, notes) = settle op script health in
    some (move i op (settled started outcome notes (counted op n)) e)
advance i op (settled started outcome notes downtime) (record_run _ get containers finished fails)
      e =
    some (
      move i op (recorded outcome notes finished)
        (record_deploy get fails op (live_sha op containers) outcome notes downtime started finished
          e).1)
advance i op (recorded outcome notes finished) (finish_run _ get notice_fails audit_fails) e =
    some (
      move i op reported
        (finish_operation get notice_fails audit_fails op outcome notes finished e))
advance i op reported (leave _) e = some (move i op gone (release_run op.def.id e))
advance i op _ _ e = none

unfoldable pub advance_job : ℕ → Action → Engine → Option Engine
advance_job i a e = elim (get_elem? e.jobs i) [
  | none ↦ none
  | some job ↦ advance i job.op job.phase a e
]

-- One step. A request always returns; its answer goes to the caller.
unfoldable pub step : Host → Action → Engine → Option Engine
step h (cutover_request def target actor) e = some (start h def target actor e).1
step h (deploy_request def actor) e = some (start_deploy h def actor e).1
step h (rollback_request def actor) e = some (start_rollback h def actor e).1
step h (begin_run i now) e = advance_job i (begin_run i now) e
step h (print_line i line now) e = advance_job i (print_line i line now) e
step h (take_sample i sample now fails) e = advance_job i (take_sample i sample now fails) e
step h (settle_run i script health) e = advance_job i (settle_run i script health) e
step h (record_run i get containers finished fails) e =
    advance_job i (record_run i get containers finished fails) e
step h (finish_run i get notice_fails audit_fails) e =
    advance_job i (finish_run i get notice_fails audit_fails) e
step h (leave i) e = advance_job i (leave i) e

unfoldable pub run : Host → List Action → Engine → Option Engine
run h [] e = some e
run h (a ∷ rest) e = elim (step h a e) [ none ↦ none | some t ↦ run h rest t ]
