-- ===== src/Security/Examples.antt =====
-- The theorems of the findings at concrete tables.
use touchgrass.Base.{
  ◌≤◌, ◌≡◌, ◌≢◌, ◌↔◌, ◌⊎◌, refl, true, false, bytes, text_eq, none, some, List, [], ◌∷◌, count,
  find, arith,
}
use touchgrass.Base.Results.{ok}
use touchgrass.Security.Model.{
  Category, Severity, Confidence, acknowledged, Observation, Evaluation, Finding, Store,
  EvaluationResult,
}
use touchgrass.Security.Findings.{
  Codec, is_valid_observation, is_open_episode, max_episode, has_lapsed, evaluate_episode, evaluate,
  new_finding, result, stamped, recovered_at,
}
use touchgrass.Security.Operations.{Suppression}
use touchgrass.Security.Episodes.{IsStore}
use touchgrass.Security.History.{Call, scan, acknowledgement, suppression, expiry, run, run-single}
use touchgrass.Security.Outcomes.{target, open_episodes, expected_episodes, evaluate-open_episodes}
use touchgrass.Security.Reports.{current, evaluate-opened_iff}
use touchgrass.Base.Ints.{pos}
use touchgrass.Security.Posture.{
  SafeInspection, ContainerInstance, SecurityPolicy, folded, is_allowed,
}
use touchgrass.Security.Allowances.{IsWider}

-- A digest that keeps the text.
abbrev codec : Codec
codec = record { digest = λ text. text; encoded_size = λ evidence. 2 }

abbrev sighting : Observation
sighting = record {
  container_id = bytes "c";
  rule_id = bytes "r";
  category = Category.process;
  severity = Severity.high;
  confidence = Confidence.medium;
  detected = true;
  coverage_complete = true;
  evidence = [];
  observed_at = 50;
}

abbrev seen : Evaluation
seen = record { observation = sighting; baseline_fingerprint = []; service_id = [] }

abbrev gone : Evaluation
gone = record {
  observation = record sighting { detected = false; observed_at = 60 };
  baseline_fingerprint = [];
  service_id = [];
}

abbrev nothing : Store
nothing = record { findings = []; next_id = 1; observations = []; trail = [] }

nothing-IsStore : IsStore nothing
unfolding count
nothing-IsStore = record { ascending = omega arith; single = λ fingerprint. omega arith }

-- The table after the first sighting, where an operator acknowledged it.
abbrev first : Finding
first = record (new_finding 1 (target codec seen) 1 sighting) { status = acknowledged }

abbrev one : Store
one = record { findings = first ∷ []; next_id = 2; observations = []; trail = [] }

one-IsStore : IsStore one
unfolding count
one-IsStore = record {
  ascending = (omega arith, omega arith);
  single = λ fingerprint. ground arith;
}

abbrev mute : Suppression
mute = record { actor = bytes "ann"; reason = bytes "noise"; until = some 70 }

abbrev events : List Call
events =
    scan false 50 seen
    ∷ acknowledgement false 51 1 (bytes "ann")
    ∷ suppression false 52 1 mute
    ∷ expiry false 80 80
    ∷ scan false 81 gone
    ∷ scan false 82 seen
    ∷ []

run-single_example :
    count (is_open_episode (target codec seen)) (run codec events nothing).findings ≤ 1
run-single_example = run-single codec events nothing (target codec seen) nothing-IsStore

abbrev recovery : EvaluationResult
recovery = result (some (recovered_at 60 first)) false true

recovers : (evaluate codec 60 false gone one).0 ≡ ok recovery
unfolding evaluate is_valid_observation evaluate_episode find is_open_episode text_eq
recovers = refl

abbrev opening : EvaluationResult
opening = result (some (new_finding 1 (target codec seen) 1 sighting)) true false

opens : (evaluate codec 50 false seen nothing).0 ≡ ok opening
unfolding evaluate is_valid_observation evaluate_episode find max_episode
opens = refl

evaluate-open_episodes_example :
    open_episodes (target codec gone) (evaluate codec 60 false gone one).1
    ≡ expected_episodes gone.observation (open_episodes (target codec gone) one)
evaluate-open_episodes_example =
    evaluate-open_episodes codec 60 false gone one {r = recovery} one-IsStore recovers

other_rule : target codec gone ≢ bytes "x"
other_rule e = cc

evaluate-opened_iff_example : (opening.opened ≡ true) ↔ (
    (seen.observation.detected ≡ true)
    × ((current codec seen nothing ≡ none)
        ⊎ ((f : Finding) × (current codec seen nothing ≡ some f)
            × (has_lapsed (stamped 50 seen.observation).observed_at f ≡ true))))
evaluate-opened_iff_example = evaluate-opened_iff codec 50 false seen nothing opening opens

abbrev proxy : ContainerInstance
proxy = record {
  id = bytes "c";
  image = bytes "proxy:latest";
  image_id = bytes "i1";
  image_fingerprint = bytes "i0";
  configuration_fingerprint = [];
}

abbrev inspected : SafeInspection
inspected = record {
  user = bytes "root";
  privileged = true;
  readonly_root_fs = false;
  cap_add = bytes "NET_ADMIN" ∷ bytes "SYS_TIME" ∷ [];
  pid_mode = [];
  ipc_mode = [];
  network_mode = bytes "host";
  memory_bytes = pos 0;
  nano_cpus = pos 0;
  pids_limit = none;
  published_ports = bytes "443/tcp" ∷ [];
  has_docker_socket = false;
}

abbrev strict : SecurityPolicy
strict = record {
  allow_privileged = false;
  allow_host_pid = false;
  allow_host_network = false;
  allow_docker_socket = false;
  allow_root = false;
  allow_writable_root_fs = false;
  allowed_capabilities = bytes "sys_time " ∷ [];
  allowed_published_ports = [];
}

abbrev lenient : SecurityPolicy
lenient = record {
  allow_privileged = true;
  allow_host_pid = false;
  allow_host_network = true;
  allow_docker_socket = false;
  allow_root = false;
  allow_writable_root_fs = false;
  allowed_capabilities = bytes "NET_ADMIN" ∷ bytes "SYS_TIME" ∷ [];
  allowed_published_ports = bytes "443/tcp" ∷ [];
}

lenient-IsWider : IsWider strict lenient
unfolding is_allowed folded text_eq
lenient-IsWider = record {
  privileged = refl;
  host_pid = refl;
  host_network = refl;
  docker_socket = refl;
  root = refl;
  writable = refl;
  capabilities = (refl, tt);
  ports = tt;
}
