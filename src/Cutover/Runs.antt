-- ===== src/Cutover/Runs.antt =====
-- A goroutine from its launch to its end (`execute` and `runAndVerify` of
-- internal/service/cutover.go), as one function, and what it leaves behind.
use touchgrass.Base.{
  ℕ, suc, Bool, true, not, if◌then◌else◌, Text, is_empty, Option, List, [], ◌∷◌, ◌++◌, map,
}
use touchgrass.Base.Results.{Result}
use touchgrass.Cutover.{Operation}
use touchgrass.Cutover.Engine.{Engine, release_run}
use touchgrass.Cutover.Execute.{
  Health, Container, is_healthy, emit_started, emit_line, sample_probe, settle, live_sha,
  record_deploy, finish_operation,
}
use touchgrass.Cutover.Schedule.{
  Action, begin_run, print_line, take_sample, settle_run, record_run, finish_run, leave, counted,
}

-- What happens while the script runs: a line of output, or a sample of the public URL.
pub data Tick : Type 0 where
  printed : (line : Text) → (now : ℕ) → Tick
  sampled : Health → (now : ℕ) → (fails : Bool) → Tick

-- What a run learns from the outside, and which of its writes fail.
pub record World : Type 0 where
  pub started : ℕ
  pub ticks : List Tick
  pub script_error : Option Text
  pub health : Option Health
  pub containers : Option (List Container)
  pub finished : ℕ
  pub lookup : Result (Unit {0})
  pub deploy_fails : Bool
  pub get : Text → Result (Unit {0})
  pub notice_fails : Bool
  pub audit_fails : Bool

-- The samples that count as failed.
unfoldable pub failures : List Tick → ℕ → ℕ
failures [] n = n
failures (printed line now ∷ rest) n = failures rest n
failures (sampled sample now fails ∷ rest) n =
    failures rest (if is_healthy sample then n else suc n)

unfoldable pub work : Operation → List Tick → Engine → Engine
work op [] e = e
work op (printed line now ∷ rest) e = work op rest (emit_line op line now e)
work op (sampled sample now fails ∷ rest) e = work op rest (sample_probe op sample now fails e)

-- `execute`: the start event, the script with its probe loop, the record, the report, the release.
unfoldable pub execute : Operation → World → Engine → Engine
execute op w e =
    let worked = work op w.ticks (emit_started op w.started e) in
    let (outcome, notes) = settle op w.script_error w.health in
    let recorded_at =
      (record_deploy w.lookup w.deploy_fails op (live_sha op w.containers) outcome notes
        (counted op (failures w.ticks 0)) w.started w.finished worked).1 in
    release_run op.def.id
      (finish_operation w.get w.notice_fails w.audit_fails op outcome notes w.finished recorded_at)

-- The steps of the goroutine of the job `i` in this world.
abbrev pub tick_action : ℕ → Tick → Action
tick_action i (printed line now) = print_line i line now
tick_action i (sampled sample now fails) = take_sample i sample now fails

abbrev pub last_actions : ℕ → World → List Action
last_actions i w =
    settle_run i w.script_error w.health
    ∷ record_run i w.lookup w.containers w.finished w.deploy_fails
    ∷ finish_run i w.get w.notice_fails w.audit_fails
    ∷ leave i
    ∷ []

abbrev pub actions_of : ℕ → World → List Action
actions_of i w = begin_run i w.started ∷ (map (tick_action i) w.ticks ++ last_actions i w)

-- There are samples only where there is a URL to probe.
abbrev pub is_possible : Operation → Tick → Bool
is_possible op (printed line now) = true
is_possible op (sampled sample now fails) = not (is_empty op.public_url)
