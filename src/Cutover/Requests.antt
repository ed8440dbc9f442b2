-- ===== src/Cutover/Requests.antt =====
-- What a request does: nothing, or the launch of one goroutine (internal/service/cutover.go).
use touchgrass.Base.{◌≡◌, refl, subst, inl, inr, ◌⊎◌, Text, arith, Option-cases}
use touchgrass.Base.Results.{Result, ok, err, Result-cases}
use touchgrass.Cutover.{
  Strategy, blue_green, recreate, Service, BlueGreenConfig, RecreateConfig, Host, DeployType,
  Operation, resolve, resolve_rollback, resolve_recreate,
}
use touchgrass.Cutover.Engine.{
  Engine, launch, begin, begin_rollback, begin_recreate, start, start_deploy, start_rollback,
  cutover_operation, rollback_operation, recreate_operation,
}

-- The engine is as it was, or one goroutine was launched in it, if its service was free.
abbrev pub IsLaunch : Engine → Engine → Type 0
IsLaunch e t = (t ≡ e) ⊎ ((op : Operation) × (target : Text) × (t ≡ (launch op target e).1))

begin_cases :
    (h : Host) (def : Service) (cfg : BlueGreenConfig) (target actor : Text) (e : Engine)
    → IsLaunch e (begin h def cfg target actor e).1
unfolding begin
begin_cases h def cfg target actor e = elim (Result-cases (resolve h cfg target)) [
  | inl (c, f) ↦ inr (cutover_operation h def cfg c actor, c, ground arith)
  | inr (x, f) ↦ inl (ground arith)
]

begin_rollback_cases :
    (h : Host) (def : Service) (cfg : BlueGreenConfig) (actor : Text) (e : Engine)
    → IsLaunch e (begin_rollback h def cfg actor e).1
unfolding begin_rollback
begin_rollback_cases h def cfg actor e = elim (Result-cases (resolve_rollback h cfg)) [
  | inl (c, f) ↦ inr (rollback_operation h def cfg c actor, c, ground arith)
  | inr (x, f) ↦ inl (ground arith)
]

begin_recreate_cases :
    (h : Host) (def : Service) (cfg : RecreateConfig) (script : Text) (type : DeployType)
    (actor : Text) (e : Engine)
    → IsLaunch e (begin_recreate h def cfg script type actor e).1
unfolding begin_recreate
begin_recreate_cases h def cfg script type actor e =
    elim (Result-cases (resolve_recreate h cfg script)) [
      | inl (c, f) ↦ inr (recreate_operation h def cfg script type actor, cfg.service, ground arith)
      | inr (x, f) ↦ inl (ground arith)
    ]

Strategy-cases :
    (s : Strategy)
    → (s ≡ blue_green) ⊎ ((s ≡ recreate) ⊎ ((name : Text) × (s ≡ Strategy.other name)))
Strategy-cases blue_green = inl refl
Strategy-cases recreate = inr (inl refl)
Strategy-cases (Strategy.other name) = inr (inr (name, refl))

pub start_cases :
    (h : Host) (def : Result Service) (target actor : Text) (e : Engine)
    → IsLaunch e (start h def target actor e).1
unfolding start
start_cases h (err x) target actor e = inl refl
start_cases h (ok def) target actor e = elim (Strategy-cases def.strategy) [
  | inl s ↦ elim (Option-cases (h.decode_blue_green def.config)) [
    | inl f ↦ inl (ground arith)
    | inr (cfg, f) ↦ subst (λ t. IsLaunch e t) (ground arith) (begin_cases h def cfg target actor e)
  ]
  | inr (inl s) ↦ inl (ground arith)
  | inr (inr (name, s)) ↦ inl (ground arith)
]

pub start_deploy_cases :
    (h : Host) (def : Result Service) (actor : Text) (e : Engine)
    → IsLaunch e (start_deploy h def actor e).1
unfolding start_deploy
start_deploy_cases h (err x) actor e = inl refl
start_deploy_cases h (ok def) actor e = elim (Strategy-cases def.strategy) [
  | inr (inl s) ↦ elim (Option-cases (h.decode_recreate def.config)) [
    | inl f ↦ inl (ground arith)
    | inr (cfg, f) ↦
        subst (λ t. IsLaunch e t) (ground arith)
          (begin_recreate_cases h def cfg cfg.deploy_script DeployType.deploy actor e)
  ]
  | inl s ↦ inl (ground arith)
  | inr (inr (name, s)) ↦ inl (ground arith)
]

pub start_rollback_cases :
    (h : Host) (def : Result Service) (actor : Text) (e : Engine)
    → IsLaunch e (start_rollback h def actor e).1
unfolding start_rollback
start_rollback_cases h (err x) actor e = inl refl
start_rollback_cases h (ok def) actor e = elim (Strategy-cases def.strategy) [
  | inl s ↦ elim (Option-cases (h.decode_blue_green def.config)) [
    | inl f ↦ inl (ground arith)
    | inr (cfg, f) ↦
        subst (λ t. IsLaunch e t) (ground arith) (begin_rollback_cases h def cfg actor e)
  ]
  | inr (inl s) ↦ elim (Option-cases (h.decode_recreate def.config)) [
    | inl f ↦ inl (ground arith)
    | inr (cfg, f) ↦
        subst (λ t. IsLaunch e t) (ground arith)
          (begin_recreate_cases h def cfg cfg.rollback_script DeployType.rollback actor e)
  ]
  | inr (inr (name, s)) ↦ inl (ground arith)
]
