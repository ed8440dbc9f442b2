-- ===== src/Docker/Guard.antt =====
-- The circuit breaker round one-shot Docker calls (internal/docker/guard.go).
-- Times are nanoseconds since Go's zero time, so 0 is the time that `IsZero` reports.
pub mod Breaker
pub mod Permits
pub mod Steps
use touchgrass.Base.{
  ℕ, suc, ◌+◌, ◌-◌, Bool, true, false, not, ◌&&◌, ◌||◌, ◌==◌, ltb, leb, if◌then◌else◌, Option, none,
  some, List, [], ◌∷◌, get_elem?, set,
}
use touchgrass.Base.Ints.{ℤ, positive_or}

abbrev pub default_max_concurrent : ℕ
default_max_concurrent = 2

abbrev pub default_failure_limit : ℕ
default_failure_limit = 3

-- time.Minute
abbrev pub default_cooldown : ℕ
default_cooldown = 60000000000

-- `requestGuardConfig`
pub record GuardConfig : Type 0 where
  pub max_concurrent : ℤ
  pub failure_limit : ℤ
  pub cooldown : ℤ

-- `requestGuard`: its limits, the permits taken from the channel, and the breaker's state.
pub record RequestGuard : Type 0 where
  pub capacity : ℕ
  pub failure_limit : ℕ
  pub cooldown : ℕ
  pub permits : ℕ
  pub failures : ℕ
  pub window_start : ℕ
  pub open_until : ℕ

-- `newRequestGuard`
unfoldable pub new_guard : GuardConfig → RequestGuard
unfolding positive_or
new_guard cfg = record {
  capacity = positive_or default_max_concurrent cfg.max_concurrent;
  failure_limit = positive_or default_failure_limit cfg.failure_limit;
  cooldown = positive_or default_cooldown cfg.cooldown;
  permits = 0;
  failures = 0;
  window_start = 0;
  open_until = 0;
}

-- `requestGuard.isOpen`
unfoldable pub is_open : ℕ → RequestGuard → Bool × RequestGuard
is_open now g =
    if g.open_until == 0
    then (
      false,
      if not (g.window_start == 0) && not (ltb now (g.window_start + g.cooldown))
          then record g { failures = 0; window_start = 0 }
          else g,
    )
    else if ltb now g.open_until
    then (true, g)
    else (false, record g { open_until = 0; failures = 0; window_start = 0 })

-- The window that a failure at `now` belongs to.
abbrev pub in_window : ℕ → RequestGuard → RequestGuard
in_window now g =
    if g.window_start == 0 || not (ltb now (g.window_start + g.cooldown))
    then record g { failures = 0; window_start = now }
    else g

-- `requestGuard.record`, with whether the call failed and whether its context was cancelled.
unfoldable pub record_call : ℕ → Bool → Bool → RequestGuard → RequestGuard
record_call now failed cancelled g =
    if not failed || cancelled
    then g
    else (let w = in_window now g in
        if leb w.failure_limit (w.failures + 1)
        then record w { failures = w.failures + 1; open_until = now + w.cooldown }
        else record w { failures = w.failures + 1 })

-- Where a caller of `guardedCall` stands: not in it, past the first check, past the permit, or in
-- the call itself.
pub data Phase : Type 0 where
  outside waiting holding calling : Phase

-- The atomic steps of `acquire` and of the function that it returns, for the caller `t`.
pub data Action : Type 0 where
  enter : ℕ → ℕ → Action
  take give_up : ℕ → Action
  recheck : ℕ → ℕ → Action
  finish : ℕ → ℕ → Bool → Bool → Action

-- The guard and its callers.
pub record System : Type 0 where
  pub guard : RequestGuard
  pub callers : List Phase

-- Put the guard back and move the caller `t` on.
abbrev pub move : ℕ → Phase → RequestGuard → System → System
move t p g s = record { guard = g; callers = set s.callers t p }

-- `<-g.permits`
abbrev pub release : RequestGuard → RequestGuard
release g = record g { permits = g.permits - 1 }

abbrev pub advance : Option Phase → Action → System → Option System
advance (some outside) (enter t now) s =
    let (open?, g) = is_open now s.guard in some (move t (if open? then outside else waiting) g s)
advance (some waiting) (take t) s =
    if ltb s.guard.permits s.guard.capacity
    then some (move t holding (record s.guard { permits = s.guard.permits + 1 }) s)
    else none
advance (some waiting) (give_up t) s = some (move t outside s.guard s)
advance (some holding) (recheck t now) s =
    let (open?, g) = is_open now s.guard in
    some (if open? then move t outside (release g) s else move t calling g s)
advance (some calling) (finish t now failed cancelled) s =
    some (move t outside (release (record_call now failed cancelled s.guard)) s)
advance _ _ s = none

abbrev pub caller : Action → ℕ
caller (enter t now) = t
caller (take t) = t
caller (give_up t) = t
caller (recheck t now) = t
caller (finish t now failed cancelled) = t

-- One step of one caller; `none` where it is not that caller's turn to do so.
unfoldable pub step : Action → System → Option System
step a s = advance (get_elem? s.callers (caller a)) a s

-- Steps of the callers in any order.
unfoldable pub run : List Action → System → Option System
run [] s = some s
run (a ∷ rest) s = elim (step a s) [ none ↦ none | some t ↦ run rest t ]
