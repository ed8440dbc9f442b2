-- ===== src/Cutover/Engine.antt =====
-- The engine's state and what its requests and its goroutines do to it
-- (internal/service/cutover.go, internal/service/deploys.go). A goroutine is a job with a phase;
-- what it learns from the outside is an argument of its steps. Times are nanoseconds of a monotonic
-- clock; the downtime is the number of failed samples, which the code multiplies by the interval.
use touchgrass.Base.{
  ℕ, Bool, true, false, if◌then◌else◌, Text, Option, none, some, List, [], ◌∷◌, ◌++◌,
}
use touchgrass.Base.Maps.{text_key, Map, empty, insert, erase, get_or}
use touchgrass.Base.Results.{invalid_input, conflict, Result, ok, err, Method}
use touchgrass.Audit
use touchgrass.Audit.{record_audit}
use touchgrass.Cutover.{
  Strategy, blue_green, recreate, Service, BlueGreenConfig, RecreateConfig, Host, DeployType,
  cutover, rollback, deploy, Operation, color_service, color_url, cutover_args, recreate_args,
  resolve, resolve_rollback, resolve_recreate,
}

pub data EventType : Type 0 where
  deploy_started deploy_progress deploy_finished : EventType
  rollback_started rollback_progress rollback_finished nginx_changed : EventType

pub record Event : Type 0 where
  pub type : EventType
  pub service_id : Text
  pub message : Text
  pub at : ℕ

pub data DeployOutcome : Type 0 where
  succeeded failed : DeployOutcome

-- `model.Deploy`, as it is stored.
pub record Deploy : Type 0 where
  pub service_id : Text
  pub sha : Text
  pub actor : Text
  pub type : DeployType
  pub outcome : DeployOutcome
  pub notes : Text
  pub started_at : ℕ
  pub finished_at : ℕ
  pub duration_secs : ℕ
  pub downtime : Option ℕ

pub record DeployProbe : Type 0 where
  pub service_id : Text
  pub healthy : Bool
  pub status_code : ℕ
  pub sampled_at : ℕ

pub record Notice : Type 0 where
  pub service_id : Text
  pub title : Text
  pub body : Text

-- Where a goroutine of `execute` stands.
pub data Phase : Type 0 where
  launched : Phase
  running : (started downtime : ℕ) → Phase
  settled : (started : ℕ) → DeployOutcome → (notes : Text) → (downtime : Option ℕ) → Phase
  recorded : DeployOutcome → (notes : Text) → (finished : ℕ) → Phase
  reported gone : Phase

pub record Job : Type 0 where
  pub op : Operation
  pub phase : Phase

pub record Engine : Type 0 where
  pub runs : Map Text Bool
  pub jobs : List Job
  pub events : List Event
  pub probes : List DeployProbe
  pub deploys : List Deploy
  pub notifications : List Notice
  pub trail : List Audit.Entry

-- `NewCutover`, with no history.
abbrev pub new_engine : Engine
new_engine = record {
  runs = empty;
  jobs = [];
  events = [];
  probes = [];
  deploys = [];
  notifications = [];
  trail = [];
}

-- `Active`
unfoldable pub active : Text → Engine → Bool
active id e = get_or e.runs id false

-- `claimRun`
unfoldable pub claim_run : Text → Method Engine (Unit {0})
unfolding active
claim_run id e =
    if active id e then (err conflict, e) else (ok tt, record e { runs = insert e.runs id true })

-- `releaseRun`
unfoldable pub release_run : Text → Engine → Engine
release_run id e = record e { runs = erase e.runs id }

-- The claim and the `go` statement, at the end of `begin`, `beginRollback` and `launchRecreate`.
unfoldable pub launch : Operation → Text → Method Engine Text
unfolding claim_run
launch op target e =
    let (claim, t) = claim_run op.def.id e in
    elim claim [
      | err x ↦ (err x, t)
      | ok _ ↦ (ok target, record t { jobs = t.jobs ++ record { op = op; phase = launched } ∷ [] })
    ]

module _ (h : Host) where
  abbrev pub cutover_operation : Service → BlueGreenConfig → Text → Text → Operation
  cutover_operation def cfg target actor = record {
    def = def;
    script = cfg.cutover_script;
    args = cutover_args h def cfg target;
    sha_service = color_service cfg target;
    health_url = [];
    public_url = cfg.public_url;
    target = target;
    actor = actor;
    deploy_type = cutover;
    verify_health = false;
  }

  abbrev pub rollback_operation : Service → BlueGreenConfig → Text → Text → Operation
  rollback_operation def cfg target actor = record {
    def = def;
    script = cfg.cutover_script;
    args = cutover_args h def cfg target;
    sha_service = color_service cfg target;
    health_url = color_url cfg target;
    public_url = cfg.public_url;
    target = target;
    actor = actor;
    deploy_type = rollback;
    verify_health = true;
  }

  abbrev pub recreate_operation : Service → RecreateConfig → Text → DeployType → Text → Operation
  recreate_operation def cfg script type actor = record {
    def = def;
    script = script;
    args = recreate_args def cfg;
    sha_service = cfg.service;
    health_url = cfg.health_url;
    public_url = cfg.public_url;
    target = cfg.service;
    actor = actor;
    deploy_type = type;
    verify_health = true;
  }

  -- `begin`
  unfoldable pub begin : Service → BlueGreenConfig → Text → Text → Method Engine Text
  begin def cfg target actor e = elim (resolve h cfg target) [
    | err x ↦ (err x, e)
    | ok resolved ↦ launch (cutover_operation def cfg resolved actor) resolved e
  ]

  -- `beginRollback`
  unfoldable pub begin_rollback : Service → BlueGreenConfig → Text → Method Engine Text
  begin_rollback def cfg actor e = elim (resolve_rollback h cfg) [
    | err x ↦ (err x, e)
    | ok resolved ↦ launch (rollback_operation def cfg resolved actor) resolved e
  ]

  -- `beginDeploy` and `beginRecreateRollback`, with `launchRecreate`.
  unfoldable pub begin_recreate :
      Service → RecreateConfig → Text → DeployType → Text → Method Engine Text
  begin_recreate def cfg script type actor e = elim (resolve_recreate h cfg script) [
    | err x ↦ (err x, e)
    | ok _ ↦ launch (recreate_operation def cfg script type actor) cfg.service e
  ]

  -- `Start`, with what `services.Get` returns.
  unfoldable pub start : Result Service → Text → Text → Method Engine Text
  start (err x) target actor e = (err x, e)
  start (ok def) target actor e = elim (def.strategy) [
    | blue_green ↦ elim (h.decode_blue_green def.config) [
      | none ↦ (err invalid_input, e)
      | some cfg ↦ begin def cfg target actor e
    ]
    | recreate ↦ (err invalid_input, e)
    | Strategy.other _ ↦ (err invalid_input, e)
  ]

  -- `StartDeploy`
  unfoldable pub start_deploy : Result Service → Text → Method Engine Text
  start_deploy (err x) actor e = (err x, e)
  start_deploy (ok def) actor e = elim (def.strategy) [
    | blue_green ↦ (err invalid_input, e)
    | recreate ↦ elim (h.decode_recreate def.config) [
      | none ↦ (err invalid_input, e)
      | some cfg ↦ begin_recreate def cfg cfg.deploy_script deploy actor e
    ]
    | Strategy.other _ ↦ (err invalid_input, e)
  ]

  -- `StartRollback`
  unfoldable pub start_rollback : Result Service → Text → Method Engine Text
  start_rollback (err x) actor e = (err x, e)
  start_rollback (ok def) actor e = elim (def.strategy) [
    | blue_green ↦ elim (h.decode_blue_green def.config) [
      | none ↦ (err invalid_input, e)
      | some cfg ↦ begin_rollback def cfg actor e
    ]
    | recreate ↦ elim (h.decode_recreate def.config) [
      | none ↦ (err invalid_input, e)
      | some cfg ↦ begin_recreate def cfg cfg.rollback_script rollback actor e
    ]
    | Strategy.other _ ↦ (err invalid_input, e)
  ]
