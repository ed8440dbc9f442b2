-- ===== src/Cutover/Examples.antt =====
-- The engine's theorems at a concrete service.
use touchgrass.Base.{
  ◌≤◌, ◌≡◌, ◌≢◌, ◌↔◌, inl, refl, true, false, Text, bytes, text_eq, is_empty, none, some, [], ◌∷◌,
  ◌++◌, count, contains, has_prefix, select, arith, All,
}
use touchgrass.Base.Results.{ok}
use touchgrass.Base.Maps.{text_key, insert, empty}
use touchgrass.Probe.{live_in, find_target, match_here, target_after, until_semicolon, strip_spaces}
use touchgrass.Cutover.{
  Service, blue_green, BlueGreenConfig, Host, Operation, resolve, opposite, live, color_service,
  color_green, target_auto,
}
use touchgrass.Cutover.Lines.{new_writer, write_all, flush, lines_of, concat, write_all-lines_of}
use touchgrass.Cutover.Engine.{
  Engine, new_engine, active, claim_run, launch, begin, start, cutover_operation, launched, Deploy,
  succeeded,
}
use touchgrass.Cutover.Execute.{unreachable, live_sha, sha_among}
use touchgrass.Cutover.Schedule.{Action, cutover_request, step, run}
use touchgrass.Cutover.Runs.{World, printed, sampled, is_possible, execute}
use touchgrass.Cutover.Outcomes.{color_target, IsGoodRun, resolve-away, execute-deploys}
use touchgrass.Cutover.Claims.{works_on, run_exclusive}

write_all-lines_of_example :
    flush (write_all (bytes "one\ntw" ∷ bytes "o\nth" ∷ []) new_writer)
    ≡ record { emitted = lines_of (concat (bytes "one\ntw" ∷ bytes "o\nth" ∷ [])); buf = [] }
write_all-lines_of_example = write_all-lines_of (bytes "one\ntw" ∷ bytes "o\nth" ∷ [])

abbrev config : BlueGreenConfig
config = record {
  blue_service = bytes "web-blue";
  green_service = bytes "web-green";
  blue_target = bytes "b:1";
  green_target = bytes "g:2";
  legacy_target = [];
  nginx_conf = bytes "/n";
  marker = bytes "#";
  blue_url = [];
  green_url = [];
  public_url = bytes "/";
  cutover_script = bytes "/s";
  compose_file = [];
  project = [];
  env_file = [];
  sudo = false;
  settle_secs = 0;
  health_timeout = 0;
  public_timeout = 0;
}

abbrev web : Service
web = record {
  id = bytes "web";
  strategy = blue_green;
  compose_project = bytes "p";
  compose_dir = bytes "/d";
  config = [];
}

-- A machine whose file sends the traffic to the blue target.
abbrev machine : Host
machine = record {
  decode_blue_green = λ json. some config;
  decode_recreate = λ json. none;
  is_executable = λ path. true;
  open_file = λ path. some (record { lines = bytes "server b:1; #" ∷ [] });
  itoa = λ n. [];
}

reads_blue : live machine config ≡ some (bytes "b:1")
unfolding live_in contains find_target match_here has_prefix target_after until_semicolon
    strip_spaces select
reads_blue = refl

resolves_green : resolve machine config target_auto ≡ ok color_green
unfolding resolve opposite live_in contains find_target match_here has_prefix target_after
    until_semicolon strip_spaces select text_eq is_empty
resolves_green = refl

distinct : config.blue_target ≢ config.green_target
distinct e = ground arith

resolve-away_example :
    (t : Text) × (live machine config ≡ some t) × (color_target config color_green ≢ t)
resolve-away_example = resolve-away machine config color_green distinct (inl resolves_green)

abbrev to_green : Operation
to_green = cutover_operation machine web config color_green (bytes "ann")

abbrev after_request : Engine
after_request = record new_engine {
  runs = insert empty (bytes "web") true;
  jobs = record { op = to_green; phase = launched } ∷ [];
}

abbrev request : Action
request = cutover_request (ok web) target_auto (bytes "ann")

-- The second request finds the service busy.
two_requests : run machine (request ∷ request ∷ []) new_engine ≡ some after_request
unfolding run step start begin launch claim_run active resolve opposite live_in contains find_target
    match_here has_prefix target_after until_semicolon strip_spaces select text_eq is_empty
two_requests = refl

run_exclusive_example :
    (count (works_on (bytes "web")) after_request.jobs ≤ 1)
    × ((active (bytes "web") after_request ≡ true)
        ↔ (count (works_on (bytes "web")) after_request.jobs ≡ 1))
run_exclusive_example =
    run_exclusive machine (request ∷ request ∷ []) {t = after_request} (bytes "web") two_requests

-- One line of output and one failed sample; the image is found and every write works.
abbrev quiet : World
quiet = record {
  started = 10;
  ticks = printed (bytes "building") 11 ∷ sampled unreachable 12 false ∷ [];
  script_error = none;
  health = none;
  containers = some (
      record {
        compose_project = bytes "p";
        compose_service = bytes "web-green";
        image_id = bytes "sha256:1";
      }
      ∷ []);
  finished = 20;
  lookup = ok tt;
  deploy_fails = false;
  get = λ id. ok tt;
  notice_fails = false;
  audit_fails = false;
}

has_url : is_empty (bytes "/") ≡ false
unfolding is_empty
has_url = refl

possible : All (λ t. is_possible to_green t ≡ true) quiet.ticks
unfolding is_empty
possible = (refl, (refl, tt))

acted : is_empty to_green.actor ≡ false
unfolding is_empty
acted = refl

found : is_empty (live_sha to_green quiet.containers) ≡ false
unfolding is_empty live_sha sha_among text_eq color_service
found = refl

execute-deploys_example :
    ((row : Deploy) × ((execute to_green quiet after_request).deploys
        ≡ after_request.deploys ++ row ∷ [])
      × (row.service_id ≡ to_green.def.id)
      × ((row.outcome ≡ succeeded) ↔ IsGoodRun to_green quiet))
    × (active to_green.def.id (execute to_green quiet after_request) ≡ false)
execute-deploys_example =
    execute-deploys to_green quiet after_request refl refl acted found (omega arith)
