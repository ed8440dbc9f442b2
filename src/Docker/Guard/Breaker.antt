-- ===== src/Docker/Guard/Breaker.antt =====
-- When the breaker opens, and what an open breaker lets through.
use touchgrass.Docker.Guard.Permits.{is_calling}
use touchgrass.Docker.Guard.Steps.{step-advance, run_keeps}
use touchgrass.Docker.Guard.{
  GuardConfig, RequestGuard, new_guard, is_open, record_call, Phase, outside, waiting, holding,
  calling, Action, enter, take, give_up, recheck, finish, System, caller, advance, run,
}
use native.Mathlib.Nat.{add-zero}
use touchgrass.Base.{
  subst, ◌∙◌, ℕ, suc, ◌+◌, ◌≤◌, ◌<◌, ◌≡◌, refl, true, false, leb, List, [], ◌∷◌, some, count,
  count-set, get_elem?, length, All, arith,
}

-- Failed calls at the given times, one after the other, none of them cancelled.
abbrev pub failures_at : List ℕ → RequestGuard → RequestGuard
failures_at [] g = g
failures_at (t ∷ ts) g = failures_at ts (record_call t true false g)

-- The last of the times.
abbrev pub last : ℕ → List ℕ → ℕ
last t [] = t
last t (u ∷ ts) = last u ts

-- All times fall into the window that starts at `from`.
abbrev pub Within : ℕ → ℕ → List ℕ → Type 0
Within from cooldown ts = All (λ t. (from ≤ t) × (t < from + cooldown)) ts

-- A guard in a window that began at `from` with `n` failures, the last of them at `t`.
record Failing (from n t : ℕ) (g : RequestGuard) : Type 0 where
  started : g.window_start ≡ from
  counted : g.failures ≡ n
  tripped : g.failure_limit ≤ n → g.open_until ≡ t + g.cooldown
  closed : n < g.failure_limit → g.open_until ≡ 0

-- A failure within the window is counted, and opens the breaker from the limit on.
record_call-Failing :
    (from n t u : ℕ) (g : RequestGuard)
    → 0 < from
    → u < from + g.cooldown
    → Failing from n t g
    → Failing from (suc n) u (record_call u true false g)
unfolding record_call
record_call-Failing from n t u g p w f = ground arith

record_call-limits :
    (u : ℕ) (g : RequestGuard)
    → ((record_call u true false g).failure_limit ≡ g.failure_limit)
      × ((record_call u true false g).cooldown ≡ g.cooldown)
unfolding record_call
record_call-limits u g = ground arith

-- The first failure of a fresh guard opens a window.
first_failure :
    (cfg : GuardConfig) (from : ℕ)
    → 0 < from
    → Failing from 1 from (record_call from true false (new_guard cfg))
unfolding record_call new_guard
first_failure cfg from p = ground arith

failures_at-Failing :
    (from n t : ℕ) (ts : List ℕ) (g : RequestGuard)
    → 0 < from
    → Within from g.cooldown ts
    → Failing from n t g
    → Failing from (n + length ts) (last t ts) (failures_at ts g)
      × ((failures_at ts g).failure_limit ≡ g.failure_limit)
      × ((failures_at ts g).cooldown ≡ g.cooldown)
failures_at-Failing from n t [] g p w f = (rw add-zero f, refl, refl)
failures_at-Failing from n t (u ∷ ts) g p w f =
    let g' = record_call u true false g in
    let (lim, cool) = record_call-limits u g in
    let (f', lim', cool') =
      failures_at-Failing from (suc n) u ts g' p (rw cool w.1)
        (record_call-Failing from n t u g p w.0.1 f) in
    (
      subst (λ k. Failing from k (last u ts) (failures_at ts g')) (omega arith) f',
      lim' ∙ lim,
      cool' ∙ cool,
    )

-- A fresh guard that sees failures at `from` and then at `ts`, all within one cooldown of the first,
-- refuses calls in the cooldown after the last of them exactly when the failures reached the limit.
-- (`from` is not Go's zero time.)
pub trips_iff :
    (cfg : GuardConfig) (from now : ℕ) (ts : List ℕ)
    → 0 < from
    → Within from (new_guard cfg).cooldown ts
    → now < last from ts + (new_guard cfg).cooldown
    → (is_open now (failures_at (from ∷ ts) (new_guard cfg))).0
      ≡ leb (new_guard cfg).failure_limit (suc (length ts))
unfolding is_open
trips_iff cfg from now ts p w soon =
    let g = new_guard cfg in
    let g' = record_call from true false g in
    let (lim, cool) = record_call-limits from g in
    let (f, lim', cool') =
      failures_at-Failing from 1 from ts g' p (rw cool w) (first_failure cfg from p) in
    ground (arith, f, lim, cool, lim', cool')

-- The time that an action reads, if it reads one, lies in the pause.
abbrev pub In : ℕ → ℕ → Action → Type 0
In from until (enter t now) = (from ≤ now) × (now < until)
In from until (recheck t now) = (from ≤ now) × (now < until)
In from until (finish t now failed cancelled) = (from ≤ now) × (now < until)
In from until _ = Unit

-- The breaker stays open at least until then, and no more calls run than at first.
record Paused (until cooldown most : ℕ) (s : System) : Type 0 where
  cooling : s.guard.cooldown ≡ cooldown
  shut : until ≤ s.guard.open_until
  few : count is_calling s.callers ≤ most

advance-Paused :
    (from until cooldown most : ℕ) (p : Phase) (a : Action) (s : System) {t : System}
    → until ≤ from + cooldown
    → In from until a
    → get_elem? s.callers (caller a) ≡ some p
    → Paused until cooldown most s
    → advance (some p) a s ≡ some t
    → Paused until cooldown most t
unfolding is_open record_call
advance-Paused from until cooldown most outside (enter i now) s l w e v h =
    ground (
      arith,
      count-set is_calling s.callers i outside e,
      count-set is_calling s.callers i waiting e,
    )
advance-Paused from until cooldown most waiting (take i) s l w e v h =
    ground (arith, count-set is_calling s.callers i holding e)
advance-Paused from until cooldown most waiting (give_up i) s l w e v h =
    ground (arith, count-set is_calling s.callers i outside e)
advance-Paused from until cooldown most holding (recheck i now) s l w e v h =
    ground (
      arith,
      count-set is_calling s.callers i outside e,
      count-set is_calling s.callers i calling e,
    )
advance-Paused from until cooldown most calling (finish i now failed cancelled) s l w e v h =
    ground (arith, count-set is_calling s.callers i outside e)
advance-Paused _ _ _ _ _ _ s l w e v h = cc

-- While the breaker is open, whatever the callers do in any order, no new call starts: also the
-- calls that fail in the pause do not shorten it. (The pause that is looked at is no longer than
-- one cooldown, and every time that is read lies in it.)
pause_admits_none :
    (from until : ℕ) (l : List Action) (s : System) {t : System}
    → until ≤ from + s.guard.cooldown
    → until ≤ s.guard.open_until
    → All (In from until) l
    → run l s ≡ some t
    → (count is_calling t.callers ≤ count is_calling s.callers) × (until ≤ t.guard.open_until)
pause_admits_none from until l s {t} k shut w h =
    let v : Paused until s.guard.cooldown (count is_calling s.callers) t =
      run_keeps (Paused until s.guard.cooldown (count is_calling s.callers)) (In from until)
        (λ a u x ok v e.
          let (p, here, moved) = step-advance a u {t = x} e in
          advance-Paused from until s.guard.cooldown (count is_calling s.callers) p a u {t = x} k ok
            here v moved)
        l s t w (record { cooling = refl; shut = shut; few = omega arith }) h in
    (v.few, v.shut)
