-- ===== src/Cutover.antt =====
-- The deploy engine (internal/service/cutover.go): what a request asks for, and the operation that
-- it resolves to. Services and their configurations are those of internal/model/service.go; JSON
-- and the file system are parameters.
pub mod Lines
pub mod Engine
pub mod Execute
pub mod Schedule
pub mod Runs
pub mod Sequence
pub mod Outcomes
pub mod Requests
pub mod Claims
mod Examples
use touchgrass.Base.{
  ℕ, Bool, true, false, not, ltb, if◌then◌else◌, Text, bytes, text_eq, is_empty, Option, none, some,
  List, [], ◌∷◌, ◌++◌,
}
use touchgrass.Base.Results.{Error, invalid_input, Result, ok, err}
use touchgrass.Probe.{ConfFile, live_target}

pub data Strategy : Type 0 where
  blue_green recreate : Strategy
  other : Text → Strategy

-- `Service`; `config` is JSON.
pub record Service : Type 0 where
  pub id : Text
  pub strategy : Strategy
  pub compose_project : Text
  pub compose_dir : Text
  pub config : Text

-- `BlueGreenConfig`; a number that is not positive stands as 0, which the code treats alike.
pub record BlueGreenConfig : Type 0 where
  pub blue_service : Text
  pub green_service : Text
  pub blue_target : Text
  pub green_target : Text
  pub legacy_target : Text
  pub nginx_conf : Text
  pub marker : Text
  pub blue_url : Text
  pub green_url : Text
  pub public_url : Text
  pub cutover_script : Text
  pub compose_file : Text
  pub project : Text
  pub env_file : Text
  pub sudo : Bool
  pub settle_secs : ℕ
  pub health_timeout : ℕ
  pub public_timeout : ℕ

pub record RecreateConfig : Type 0 where
  pub service : Text
  pub health_url : Text
  pub public_url : Text
  pub deploy_script : Text
  pub rollback_script : Text

-- What the engine asks of the outside: the decoder of JSON, whether a path is an executable file,
-- the file at a path, and `strconv.Itoa`.
pub record Host : Type 0 where
  pub decode_blue_green : Text → Option BlueGreenConfig
  pub decode_recreate : Text → Option RecreateConfig
  pub is_executable : Text → Bool
  pub open_file : Text → Option ConfFile
  pub itoa : ℕ → Text

pub data DeployType : Type 0 where
  cutover rollback manual deploy : DeployType

-- `operation`
pub record Operation : Type 0 where
  pub def : Service
  pub script : Text
  pub args : List Text
  pub sha_service : Text
  pub health_url : Text
  pub public_url : Text
  pub target : Text
  pub actor : Text
  pub deploy_type : DeployType
  pub verify_health : Bool

abbrev pub color_blue : Text
color_blue = bytes "blue"

abbrev pub color_green : Text
color_green = bytes "green"

abbrev pub target_auto : Text
target_auto = bytes "auto"

-- `colorService`
unfoldable pub color_service : BlueGreenConfig → Text → Text
color_service cfg target = if text_eq target color_blue then cfg.blue_service else cfg.green_service

-- `colorURL`
unfoldable pub color_url : BlueGreenConfig → Text → Text
color_url cfg target = if text_eq target color_blue then cfg.blue_url else cfg.green_url

abbrev flag_unless_empty : Text → Text → List Text
flag_unless_empty flag value = if is_empty value then [] else flag ∷ value ∷ []

abbrev flag_if_positive : Host → Text → ℕ → List Text
flag_if_positive h flag n = if ltb 0 n then flag ∷ h.itoa n ∷ [] else []

-- `cutoverArgs`
unfoldable pub cutover_args : Host → Service → BlueGreenConfig → Text → List Text
unfolding is_empty
cutover_args h def cfg target =
    (bytes "--target"
      ∷ target
      ∷ bytes "--compose-dir"
      ∷ def.compose_dir
      ∷ bytes "--nginx-conf"
      ∷ cfg.nginx_conf
      ∷ bytes "--blue-server"
      ∷ cfg.blue_target
      ∷ bytes "--green-server"
      ∷ cfg.green_target
      ∷ bytes "--legacy-server"
      ∷ cfg.legacy_target
      ∷ bytes "--blue-url"
      ∷ cfg.blue_url
      ∷ bytes "--green-url"
      ∷ cfg.green_url
      ∷ bytes "--public-url"
      ∷ cfg.public_url
      ∷ [])
    ++ (flag_unless_empty (bytes "--compose-file") cfg.compose_file
        ++ (flag_unless_empty (bytes "--project") cfg.project
            ++ (flag_unless_empty (bytes "--env-file") cfg.env_file
                ++ ((if cfg.sudo then bytes "--sudo" else bytes "--no-sudo")
                    ∷ (flag_if_positive h (bytes "--settle-seconds") cfg.settle_secs
                        ++ (flag_if_positive h (bytes "--health-timeout") cfg.health_timeout
                            ++ flag_if_positive h (bytes "--public-timeout")
                                cfg.public_timeout))))))

-- `recreateArgs`
unfoldable pub recreate_args : Service → RecreateConfig → List Text
recreate_args def cfg =
    bytes "--service"
    ∷ cfg.service
    ∷ bytes "--project"
    ∷ def.compose_project
    ∷ bytes "--compose-dir"
    ∷ def.compose_dir
    ∷ []

-- `probe.LiveTarget` on the service's file, any error as one.
abbrev pub live : Host → BlueGreenConfig → Option Text
live h cfg = elim (h.open_file cfg.nginx_conf) [
  | none ↦ none
  | some file ↦ live_target file cfg.marker
]

-- The color opposite to a live target.
unfoldable pub opposite : BlueGreenConfig → Option Text → Result Text
opposite cfg none = err invalid_input
opposite cfg (some target) =
    if text_eq target cfg.blue_target
    then ok color_green
    else if text_eq target cfg.green_target
    then ok color_blue
    else err invalid_input

abbrev is_script : Host → Text → Bool
is_script h script = if is_empty script then false else h.is_executable script

-- `resolve`: the target of a cutover.
unfoldable pub resolve : Host → BlueGreenConfig → Text → Result Text
unfolding is_empty opposite
resolve h cfg target =
    let auto = if is_empty target then true else text_eq target target_auto in
    if not (
      if auto then true else if text_eq target color_blue then true else text_eq target color_green)
    then err invalid_input
    else if not (is_script h cfg.cutover_script)
    then err invalid_input
    else if auto
    then opposite cfg (live h cfg)
    else ok target

-- `resolveRollback`
unfoldable pub resolve_rollback : Host → BlueGreenConfig → Result Text
unfolding is_empty opposite
resolve_rollback h cfg =
    if not (is_script h cfg.cutover_script) then err invalid_input else opposite cfg (live h cfg)

-- `resolveRecreate`, for the script of a deploy or of a rollback.
unfoldable pub resolve_recreate : Host → RecreateConfig → Text → Result (Unit {0})
unfolding is_empty
resolve_recreate h cfg script =
    if not (is_script h script)
    then err invalid_input
    else if is_empty cfg.service
    then err invalid_input
    else if is_empty cfg.health_url
    then err invalid_input
    else ok tt
