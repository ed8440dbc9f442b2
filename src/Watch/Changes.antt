-- ===== src/Watch/Changes.antt =====
-- What the watch loop announces (internal/service/watch.go): the changes between the readings of a
-- service's target.
use touchgrass.Base.{
  ℕ, ◌+◌, ◌≡◌, refl, ◌∙◌, inl, inr, Bool, true, false, not, ◌&&◌, if◌then◌else◌, Text, text_eq,
  text_eq_iff, Option, none, some, List, [], ◌∷◌, ◌++◌, count, count-append, arith, Option-cases,
}
use touchgrass.Base.Maps.{text_key}
use touchgrass.Cutover.{Service, Strategy, blue_green}
use touchgrass.Cutover.Engine.{Engine, Event, Notice, active}
use touchgrass.Watch.{
  Watcher, Poll, target_of, report_flip, change_event, flip_notice, announce_flip, check_target,
}

-- The last of a sequence of readings that succeeded.
unfoldable pub after_reading : Option Text → Option Text → Option Text
after_reading before none = before
after_reading before (some target) = some target

unfoldable pub last_reading : Option Text → List (Option Text) → Option Text
unfolding after_reading
last_reading before [] = before
last_reading before (r ∷ rs) = last_reading (after_reading before r) rs

-- Whether a reading differs from the one before.
unfoldable pub is_change : Option Text → Option Text → Bool
unfolding text_eq
is_change none r = false
is_change (some before) none = false
is_change (some before) (some target) = not (text_eq before target)

-- How often consecutive readings differ; a reading that fails is passed over.
unfoldable pub changes : Option Text → List (Option Text) → ℕ
unfolding is_change after_reading
changes before [] = 0
changes before (r ∷ rs) =
    (if is_change before r then 1 else 0) + changes (after_reading before r) rs

-- The readings of the service `id` in a poll, and in a sequence of polls.
unfoldable pub readings_in : Text → Poll → List Service → List (Option Text)
unfolding target_of text_eq
readings_in id p [] = []
readings_in id p (def ∷ defs) =
    let rest = readings_in id p defs in
    elim (def.strategy) [
      | blue_green ↦ if text_eq def.id id then target_of p.host def ∷ rest else rest
      | Strategy.recreate ↦ rest
      | Strategy.other _ ↦ rest
    ]

unfoldable pub readings : Text → List (Poll × Option (List Service)) → List (Option Text)
unfolding readings_in
readings id [] = []
readings id ((p, none) ∷ rest) = readings id rest
readings id ((p, some defs) ∷ rest) = readings_in id p defs ++ readings id rest

abbrev pub is_event_of : Text → Event → Bool
is_event_of id e = text_eq e.service_id id

abbrev pub is_notice_of : Text → Notice → Bool
is_notice_of id n = text_eq n.service_id id

-- The loop emits, its reporter is set, and the insert of notifications works.
abbrev pub is_watching : Poll → Bool
is_watching p =
    p.emits && (p.has_notifications && (p.has_audit && (p.has_active_run && not p.notice_fails)))

-- From `w` to `t`, `n` changes of the service have been announced.
pub record IsAnnounced (id : Text) (n : ℕ) (w t : Watcher) : Type 0 where
  pub events : count (is_event_of id) t.engine.events ≡ count (is_event_of id) w.engine.events + n
  pub notices :
      count (is_notice_of id) t.engine.notifications
      ≡ count (is_notice_of id) w.engine.notifications + (if active id w.engine then 0 else n)
  pub same : active id t.engine ≡ active id w.engine

pub stays : (id : Text) (w : Watcher) → IsAnnounced id 0 w w
stays id w = record { events = ground arith; notices = ground arith; same = refl }

pub IsAnnounced-both :
    (id : Text) (m n : ℕ) (w t u : Watcher)
    → IsAnnounced id m w t
    → IsAnnounced id n t u
    → IsAnnounced id (m + n) w u
IsAnnounced-both id m n w t u a b = record {
  events = ground (arith, a.events, b.events);
  notices = ground (arith, a.notices, b.notices, a.same);
  same = b.same ∙ a.same;
}

flip_events :
    (id : Text) (p : Poll) (def : Service) (before target : Text) (e : Engine)
    → is_watching p ≡ true
    → count (is_event_of id) (announce_flip p def before target e).events
      ≡ count (is_event_of id) e.events + (if text_eq def.id id then 1 else 0)
unfolding announce_flip report_flip count
flip_events id p def before target e w =
    ground (arith, count-append (is_event_of id) e.events (change_event p def before target ∷ []))

flip_notices :
    (id : Text) (p : Poll) (def : Service) (before target : Text) (e : Engine)
    → is_watching p ≡ true
    → count (is_notice_of id) (announce_flip p def before target e).notifications
      ≡ count (is_notice_of id) e.notifications
        + (if text_eq def.id id then (if active id e then 0 else 1) else 0)
unfolding announce_flip report_flip count
flip_notices id p def before target e w =
    unfold active in
    ground (
      arith,
      count-append (is_notice_of id) e.notifications (flip_notice p def before target ∷ []),
      text_eq_iff def.id id,
    )

flip_active :
    (id : Text) (p : Poll) (def : Service) (before target : Text) (e : Engine)
    → active id (announce_flip p def before target e) ≡ active id e
unfolding announce_flip report_flip active
flip_active id p def before target e = ground arith

-- One reading announces a change, or none.
abbrev pub single : Text → Poll → Service → Watcher → ℕ
single id p def w =
    if text_eq def.id id then (if is_change (w.last id) (target_of p.host def) then 1 else 0) else 0

pub check_target-IsAnnounced :
    (id : Text) (p : Poll) (def : Service) (w : Watcher)
    → is_watching p ≡ true
    → IsAnnounced id (single id p def w) w (check_target p def w)
unfolding check_target is_change
check_target-IsAnnounced id p def w h = elim (Option-cases (target_of p.host def)) [
  | inl failed ↦ record { events = ground arith; notices = ground arith; same = ground arith }
  | inr (target, read) ↦ elim (Option-cases (w.last def.id)) [
    | inl first ↦ record {
      events = ground (arith, text_eq_iff def.id id);
      notices = ground (arith, text_eq_iff def.id id);
      same = ground arith;
    }
    | inr (before, seen) ↦ record {
      events = ground (arith, flip_events id p def before target w.engine h, text_eq_iff def.id id);
      notices =
          ground (arith, flip_notices id p def before target w.engine h, text_eq_iff def.id id);
      same = ground (arith, flip_active id p def before target w.engine);
    }
  ]
]

pub check_target-last :
    (id : Text) (p : Poll) (def : Service) (w : Watcher)
    → (check_target p def w).last id
      ≡ (if text_eq def.id id then after_reading (w.last id) (target_of p.host def) else w.last id)
unfolding check_target after_reading
check_target-last id p def w = ground (arith, text_eq_iff def.id id)
