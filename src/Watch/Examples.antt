-- ===== src/Watch/Examples.antt =====
-- The watch loop at a target that flips.
use touchgrass.Base.{
  ◌+◌, ◌≡◌, refl, true, false, Text, bytes, Option, none, some, List, [], ◌∷◌, count, All,
  if◌then◌else◌,
}
use touchgrass.Base.Results.{ok}
use touchgrass.Cutover.{Service, blue_green, BlueGreenConfig, Host}
use touchgrass.Cutover.Engine.{new_engine, active}
use touchgrass.Watch.{Watcher, Poll, new_watcher, watch}
use touchgrass.Watch.Changes.{changes, readings, is_event_of, is_notice_of, is_watching}
use touchgrass.Watch.Polls.{watch-changes}

abbrev config : BlueGreenConfig
config = record {
  blue_service = [];
  green_service = [];
  blue_target = bytes "b:1";
  green_target = bytes "g:2";
  legacy_target = [];
  nginx_conf = bytes "/n";
  marker = bytes "#";
  blue_url = [];
  green_url = [];
  public_url = [];
  cutover_script = [];
  compose_file = [];
  project = [];
  env_file = [];
  sudo = false;
  settle_secs = 0;
  health_timeout = 0;
  public_timeout = 0;
}

-- The host, with the line of its nginx file.
abbrev with_line : Text → Host
with_line line = record {
  decode_blue_green = λ json. some config;
  decode_recreate = λ json. none;
  is_executable = λ path. false;
  open_file = λ path. some (record { lines = line ∷ [] });
  itoa = λ n. [];
}

abbrev poll_of : Text → Poll
poll_of line = record {
  host = with_line line;
  now = 1;
  emits = true;
  has_notifications = true;
  has_audit = true;
  has_active_run = true;
  get = λ id. ok tt;
  notice_fails = false;
  audit_fails = false;
}

abbrev web : Service
web = record {
  id = bytes "web";
  strategy = blue_green;
  compose_project = [];
  compose_dir = [];
  config = [];
}

-- Blue, an unreadable file, then green.
abbrev polls : List (Poll × Option (List Service))
polls =
    (poll_of (bytes "server b:1; #"), some (web ∷ []))
    ∷ (poll_of (bytes "no marker"), some (web ∷ []))
    ∷ (poll_of (bytes "server g:2; #"), some (web ∷ []))
    ∷ []

abbrev before : Watcher
before = new_watcher new_engine

watching : All (λ q. is_watching q.0 ≡ true) polls
watching = (refl, (refl, (refl, tt)))

watch-changes_example :
    (count (is_event_of (bytes "web")) (watch polls before).engine.events
      ≡ count (is_event_of (bytes "web")) before.engine.events
        + changes (before.last (bytes "web")) (readings (bytes "web") polls))
    × (count (is_notice_of (bytes "web")) (watch polls before).engine.notifications
        ≡ count (is_notice_of (bytes "web")) before.engine.notifications
          + (if active (bytes "web") before.engine
              then 0
              else changes (before.last (bytes "web")) (readings (bytes "web") polls)))
watch-changes_example = watch-changes (bytes "web") polls before watching

-- The flip is found although a reading in between fails.
one_change : changes (before.last (bytes "web")) (readings (bytes "web") polls) ≡ 1
unfolding changes readings touchgrass.Probe.live_in touchgrass.Probe.until_semicolon
one_change = refl
