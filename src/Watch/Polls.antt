-- ===== src/Watch/Polls.antt =====
-- The announcements of a whole run of the watch loop (internal/service/watch.go).
use touchgrass.Base.{
  ◌+◌, ◌≡◌, refl, ap, sym, ◌∙◌, subst, true, if◌then◌else◌, Text, text_eq, Option, none, some, List,
  [], ◌∷◌, ◌++◌, count, All, arith,
}
use touchgrass.Cutover.{Service, Strategy, blue_green, recreate}
use touchgrass.Cutover.Engine.{active}
use touchgrass.Watch.{Watcher, Poll, target_of, check_target, check_targets, poll_targets, watch}
use touchgrass.Watch.Changes.{
  after_reading, last_reading, changes, readings_in, readings, is_event_of, is_notice_of,
  is_watching, IsAnnounced, stays, IsAnnounced-both, single, check_target-IsAnnounced,
  check_target-last,
}

changes-append :
    (before : Option Text) (xs ys : List (Option Text))
    → changes before (xs ++ ys) ≡ changes before xs + changes (last_reading before xs) ys
unfolding changes last_reading
changes-append before [] ys = omega arith
changes-append before (r ∷ rs) ys = ground (arith, changes-append (after_reading before r) rs ys)

last_reading-append :
    (before : Option Text) (xs ys : List (Option Text))
    → last_reading before (xs ++ ys) ≡ last_reading (last_reading before xs) ys
unfolding last_reading
last_reading-append before [] ys = refl
last_reading-append before (r ∷ rs) ys = last_reading-append (after_reading before r) rs ys

-- What has been announced, and the reading that the next one is compared with.
record IsFollowed (id : Text) (rs : List (Option Text)) (w t : Watcher) : Type 0 where
  announced : IsAnnounced id (changes (w.last id) rs) w t
  last : t.last id ≡ last_reading (w.last id) rs

IsFollowed-none : (id : Text) (w : Watcher) → IsFollowed id [] w w
unfolding changes last_reading
IsFollowed-none id w = record { announced = stays id w; last = refl }

IsFollowed-both :
    (id : Text) (xs ys : List (Option Text)) (w t u : Watcher)
    → IsFollowed id xs w t
    → IsFollowed id ys t u
    → IsFollowed id (xs ++ ys) w u
IsFollowed-both id xs ys w t u a b =
    let counted : changes (w.last id) xs + changes (t.last id) ys ≡ changes (w.last id) (xs ++ ys) =
      ap (λ before. changes (w.last id) xs + changes before ys) a.last
      ∙ sym (changes-append (w.last id) xs ys) in
    record {
      announced =
          subst (λ n. IsAnnounced id n w u) counted
            (IsAnnounced-both id _ _ w t u a.announced b.announced);
      last =
          b.last
          ∙ ap (λ before. last_reading before ys) a.last
          ∙ sym (last_reading-append (w.last id) xs ys);
    }

-- The reading of one service in a poll, if it is the one that is followed.
abbrev own_reading : Text → Poll → Service → List (Option Text)
own_reading id p def = if text_eq def.id id then target_of p.host def ∷ [] else []

check_target-IsFollowed :
    (id : Text) (p : Poll) (def : Service) (w : Watcher)
    → is_watching p ≡ true
    → IsFollowed id (own_reading id p def) w (check_target p def w)
unfolding changes last_reading
check_target-IsFollowed id p def w h =
    let counted : single id p def w ≡ changes (w.last id) (own_reading id p def) = ground arith in
    record {
      announced =
          subst (λ n. IsAnnounced id n w (check_target p def w)) counted
            (check_target-IsAnnounced id p def w h);
      last = check_target-last id p def w ∙ ground arith;
    }

readings_in-split :
    (id : Text) (p : Poll) (def : Service) (defs : List Service)
    → def.strategy ≡ blue_green
    → own_reading id p def ++ readings_in id p defs ≡ readings_in id p (def ∷ defs)
unfolding readings_in
readings_in-split id p def defs s = ground arith

-- The poll of one more service, over the poll of the others with and without it.
one_more-IsFollowed :
    (id : Text) (p : Poll) (def : Service) (defs : List Service) (w : Watcher)
    → is_watching p ≡ true
    → (s : Strategy) → def.strategy ≡ s
    → IsFollowed id (readings_in id p defs) w (check_targets p defs w)
    → IsFollowed id
        (readings_in id p defs)
        (check_target p def w)
        (check_targets p defs (check_target p def w))
    → IsFollowed id (readings_in id p (def ∷ defs)) w (check_targets p (def ∷ defs) w)
unfolding check_targets
one_more-IsFollowed id p def defs w h blue_green s skip go =
    let next = check_target p def w in
    let polled : check_targets p defs next ≡ check_targets p (def ∷ defs) w = ground (arith, s) in
    subst (IsFollowed id (readings_in id p (def ∷ defs)) w) polled (
      subst (λ rs. IsFollowed id rs w (check_targets p defs next))
        (readings_in-split id p def defs s)
        (IsFollowed-both id (own_reading id p def) (readings_in id p defs) w next _
          (check_target-IsFollowed id p def w h) go))
one_more-IsFollowed id p def defs w h recreate s skip go = unfold readings_in in rw s skip
one_more-IsFollowed id p def defs w h (Strategy.other t) s skip go = unfold readings_in in rw s skip

check_targets-IsFollowed :
    (id : Text) (p : Poll) (defs : List Service) (w : Watcher)
    → is_watching p ≡ true
    → IsFollowed id (readings_in id p defs) w (check_targets p defs w)
unfolding check_targets readings_in
check_targets-IsFollowed id p [] w h = IsFollowed-none id w
check_targets-IsFollowed id p (def ∷ defs) w h =
    one_more-IsFollowed id p def defs w h def.strategy refl (check_targets-IsFollowed id p defs w h)
      (check_targets-IsFollowed id p defs (check_target p def w) h)

watch-IsFollowed :
    (id : Text) (polls : List (Poll × Option (List Service))) (w : Watcher)
    → All (λ q. is_watching q.0 ≡ true) polls
    → IsFollowed id (readings id polls) w (watch polls w)
unfolding watch poll_targets readings
watch-IsFollowed id [] w h = IsFollowed-none id w
watch-IsFollowed id ((p, none) ∷ rest) w h = watch-IsFollowed id rest w h.1
watch-IsFollowed id ((p, some defs) ∷ rest) w h =
    IsFollowed-both id (readings_in id p defs) (readings id rest) w (check_targets p defs w)
      (watch rest (check_targets p defs w)) (check_targets-IsFollowed id p defs w h.0)
      (watch-IsFollowed id rest (check_targets p defs w) h.1)

-- Over a sequence of polls of any services, with the reporter set and no insert of a notification
-- failing, the loop emits one event for each change between consecutive readings of a service's
-- target, where a reading that fails is passed over; and it stores one notification for each, or
-- none at all if the service has an active run.
pub watch-changes :
    (id : Text) (polls : List (Poll × Option (List Service))) (w : Watcher)
    → All (λ q. is_watching q.0 ≡ true) polls
    → (count (is_event_of id) (watch polls w).engine.events
        ≡ count (is_event_of id) w.engine.events + changes (w.last id) (readings id polls))
      × (count (is_notice_of id) (watch polls w).engine.notifications
          ≡ count (is_notice_of id) w.engine.notifications
            + (if active id w.engine then 0 else changes (w.last id) (readings id polls)))
watch-changes id polls w h =
    let followed = watch-IsFollowed id polls w h in
    (followed.announced.events, followed.announced.notices)
