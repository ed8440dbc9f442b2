-- ===== src/Watch.antt =====
-- The loop that watches which target nginx sends the traffic to (internal/service/watch.go). It
-- shares events, notifications and the audit trail with the deploy engine, and asks the engine
-- whether a run is active.
pub mod Changes
pub mod Polls
mod Examples
use touchgrass.Base.{
  ℕ, Bool, true, false, not, ◌&&◌, ◌||◌, if◌then◌else◌, Text, bytes, text_eq, Option, none, some,
  List, [], ◌∷◌, ◌++◌,
}
use touchgrass.Base.Maps.{text_key, Map, empty, insert, get_or}
use touchgrass.Base.Results.{Result, ok, err}
use touchgrass.Audit
use touchgrass.Audit.{record_audit}
use touchgrass.Cutover.{
  Service, Strategy, blue_green, BlueGreenConfig, Host, color_blue, color_green, live,
}
use touchgrass.Cutover.Engine.{Engine, Event, nginx_changed, Notice, active}

-- The maps of `Watch`, with the engine's state.
pub record Watcher : Type 0 where
  pub last : Map Text Text
  pub failed : Map Text Bool
  pub engine : Engine

-- What a poll finds: the host, the time, whether changes are emitted (the first poll sets the
-- baseline), what `SetFlipReporter` has set, and which writes fail.
pub record Poll : Type 0 where
  pub host : Host
  pub now : ℕ
  pub emits : Bool
  pub has_notifications : Bool
  pub has_audit : Bool
  pub has_active_run : Bool
  pub get : Text → Result (Unit {0})
  pub notice_fails : Bool
  pub audit_fails : Bool

-- `liveTarget`, any error as one.
unfoldable pub target_of : Host → Service → Option Text
target_of h def = elim (h.decode_blue_green def.config) [ none ↦ none | some cfg ↦ live h cfg ]

-- `colorName`
unfoldable pub color_name : BlueGreenConfig → Text → Text
color_name cfg target =
    if text_eq target cfg.blue_target
    then color_blue
    else if text_eq target cfg.green_target
    then color_green
    else if text_eq target cfg.legacy_target
    then bytes "legacy"
    else target

-- `flipColors`
unfoldable pub flip_colors : Host → Service → Text → Text → Text × Text
unfolding color_name
flip_colors h def before target = elim (h.decode_blue_green def.config) [
  | none ↦ (before, target)
  | some cfg ↦ (color_name cfg before, color_name cfg target)
]

-- The body and the notification of `reportFlip`.
unfoldable pub flip_body : Poll → Service → Text → Text → Text
unfolding flip_colors
flip_body p def before target =
    let (from, to) = flip_colors p.host def before target in
    bytes "live target changed "
    ++ (from
        ++ (bytes " ("
            ++ (before
                ++ (bytes ") → "
                    ++ (to ++ (bytes " (" ++ (target ++ bytes ") outside touchgrass")))))))

abbrev pub flip_notice : Poll → Service → Text → Text → Notice
flip_notice p def before target = record {
  service_id = def.id;
  title =
      bytes "external flip detected: "
      ++ (def.id ++ (bytes " → " ++ (flip_colors p.host def before target).1));
  body = flip_body p def before target;
}

-- `reportFlip`
unfoldable pub report_flip : Poll → Service → Text → Text → Engine → Engine
unfolding flip_body active
report_flip p def before target e =
    if not (p.has_notifications && p.has_audit)
    then e
    else if p.has_active_run && active def.id e
    then e
    else record e {
      notifications =
          if p.notice_fails
          then e.notifications
          else e.notifications ++ flip_notice p def before target ∷ [];
      trail =
          (record_audit p.get p.audit_fails p.now
            (record {
              service_id = def.id;
              actor = bytes "system";
              action = Audit.Action.cutover;
              outcome = Audit.success;
              detail = flip_body p def before target;
            })
            e.trail).1;
    }

abbrev pub change_event : Poll → Service → Text → Text → Event
change_event p def before target = record {
  type = nginx_changed;
  service_id = def.id;
  message = bytes "live target changed " ++ (before ++ (bytes " → " ++ target));
  at = p.now;
}

-- The branch of `checkTarget` for a changed target.
unfoldable pub announce_flip : Poll → Service → Text → Text → Engine → Engine
unfolding report_flip
announce_flip p def before target e =
    report_flip p def before target (
      if p.emits
      then record e { events = e.events ++ change_event p def before target ∷ [] }
      else e)

-- `checkTarget`
unfoldable pub check_target : Poll → Service → Watcher → Watcher
unfolding target_of announce_flip text_eq
check_target p def w = elim (target_of p.host def) [
  | none ↦ record w { failed = insert w.failed def.id true }
  | some target ↦
      let engine : Engine = elim (w.last def.id) [
        | none ↦ w.engine
        | some before ↦
            if text_eq before target then w.engine else announce_flip p def before target w.engine
      ] in
      record {
        last = insert w.last def.id target;
        failed = insert w.failed def.id false;
        engine = engine;
      }
]

-- `pollTargets`; `none` is a failure to load the services.
unfoldable pub check_targets : Poll → List Service → Watcher → Watcher
unfolding check_target
check_targets p [] w = w
check_targets p (def ∷ defs) w = elim (def.strategy) [
  | blue_green ↦ check_targets p defs (check_target p def w)
  | Strategy.recreate ↦ check_targets p defs w
  | Strategy.other _ ↦ check_targets p defs w
]

unfoldable pub poll_targets : Poll → Option (List Service) → Watcher → Watcher
unfolding check_targets
poll_targets p none w = w
poll_targets p (some defs) w = check_targets p defs w

-- `Watch`: one poll after the other, from a watcher without readings.
unfoldable pub watch : List (Poll × Option (List Service)) → Watcher → Watcher
unfolding poll_targets
watch [] w = w
watch ((p, defs) ∷ rest) w = watch rest (poll_targets p defs w)

abbrev pub new_watcher : Engine → Watcher
new_watcher e = record { last = empty; failed = empty; engine = e }
