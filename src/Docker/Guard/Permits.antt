-- ===== src/Docker/Guard/Permits.antt =====
-- How many calls run at once.
use touchgrass.Base.{
  All, ℕ, ◌≤◌, ◌≡◌, refl, sym, ◌∙◌, Bool, true, false, List, [], ◌∷◌, some, count, count-set,
  get_elem?, arith, map,
}
use touchgrass.Docker.Guard.Steps.{step-advance, run_keeps}
use touchgrass.Docker.Guard.{
  GuardConfig, new_guard, RequestGuard, Phase, outside, waiting, holding, calling, Action, enter,
  take, give_up, recheck, finish, System, is_open, record_call, caller, advance, step, run,
}

abbrev holds : Phase → Bool
holds holding = true
holds calling = true
holds _ = false

abbrev pub is_calling : Phase → Bool
is_calling calling = true
is_calling _ = false

-- The permits out of the channel are those of the callers between `acquire` and its `done`.
pub record IsAccounted (s : System) : Type 0 where
  pub exact : s.guard.permits ≡ count holds s.callers
  pub bounded : s.guard.permits ≤ s.guard.capacity

advance-IsAccounted :
    (p : Phase) (a : Action) (s : System) {t : System}
    → get_elem? s.callers (caller a) ≡ some p
    → IsAccounted s
    → advance (some p) a s ≡ some t
    → IsAccounted t
unfolding is_open record_call
advance-IsAccounted outside (enter i now) s e v h =
    ground (arith, count-set holds s.callers i outside e, count-set holds s.callers i waiting e)
advance-IsAccounted waiting (take i) s e v h = ground (arith, count-set holds s.callers i holding e)
advance-IsAccounted waiting (give_up i) s e v h =
    ground (arith, count-set holds s.callers i outside e)
advance-IsAccounted holding (recheck i now) s e v h =
    ground (arith, count-set holds s.callers i outside e, count-set holds s.callers i calling e)
advance-IsAccounted calling (finish i now failed cancelled) s e v h =
    ground (arith, count-set holds s.callers i outside e)
advance-IsAccounted _ _ s e v h = cc

step-IsAccounted :
    (a : Action) (s : System) {t : System} → IsAccounted s → step a s ≡ some t → IsAccounted t
step-IsAccounted a s {t} v h =
    let (p, e, moved) = step-advance a s {t = t} h in advance-IsAccounted p a s {t = t} e v moved

calling-le-holds : (ps : List Phase) → count is_calling ps ≤ count holds ps
unfolding count
calling-le-holds [] = omega arith
calling-le-holds (calling ∷ ps) = omega (arith, calling-le-holds ps)
calling-le-holds (holding ∷ ps) = omega (arith, calling-le-holds ps)
calling-le-holds (_ ∷ ps) = omega (arith, calling-le-holds ps)

-- The limits that a guard was built with.
abbrev SameLimits : RequestGuard → RequestGuard → Type 0
SameLimits g h =
    (h.capacity ≡ g.capacity) × (h.cooldown ≡ g.cooldown) × (h.failure_limit ≡ g.failure_limit)

advance-SameLimits :
    (p : Phase) (a : Action) (s : System) {t : System}
    → advance (some p) a s ≡ some t
    → SameLimits s.guard t.guard
unfolding is_open record_call
advance-SameLimits outside (enter i now) s h = ground arith
advance-SameLimits waiting (take i) s h = ground arith
advance-SameLimits waiting (give_up i) s h = ground arith
advance-SameLimits holding (recheck i now) s h = ground arith
advance-SameLimits calling (finish i now failed cancelled) s h = ground arith
advance-SameLimits _ _ s h = cc

step-capacity :
    (a : Action) (s : System) {t : System} → step a s ≡ some t → t.guard.capacity ≡ s.guard.capacity
step-capacity a s {t} h =
    let (p, e, moved) = step-advance a s {t = t} h in (advance-SameLimits p a s {t = t} moved).0

-- Callers that have not started, at a guard as `newRequestGuard` builds it.
abbrev pub idle : GuardConfig → List (Unit {0}) → System
idle cfg crowd = record { guard = new_guard cfg; callers = map (λ u. outside) crowd }

-- Whatever a configuration says, it stands for at least one permit.
abbrev pub limit : GuardConfig → ℕ
limit cfg = (new_guard cfg).capacity

idle_holds_none : (crowd : List (Unit {0})) → count holds (map (λ u. outside) crowd) ≡ 0
unfolding count
idle_holds_none [] = refl
idle_holds_none (u ∷ crowd) = omega (arith, idle_holds_none crowd)

idle-IsAccounted : (cfg : GuardConfig) (crowd : List (Unit {0})) → IsAccounted (idle cfg crowd)
unfolding new_guard
idle-IsAccounted cfg crowd = record { exact = sym (idle_holds_none crowd); bounded = omega arith }

-- However the callers interleave, at most as many Docker calls run at once as the guard has
-- permits, and the permits that are out are exactly those of the callers that hold one.
pub run_bounded :
    (cfg : GuardConfig) (crowd : List (Unit {0})) (l : List Action) {s : System}
    → run l (idle cfg crowd) ≡ some s
    → IsAccounted s × (count is_calling s.callers ≤ limit cfg)
run_bounded cfg crowd l {s} h =
    let (v, same) =
      run_keeps (λ t. IsAccounted t × (t.guard.capacity ≡ limit cfg)) (λ a. Unit)
        (λ a t u _ k e. (step-IsAccounted a t {t = u} k.0 e, step-capacity a t {t = u} e ∙ k.1)) l
        (idle cfg crowd) s (All-Unit l) (idle-IsAccounted cfg crowd, refl) h in
    (v, omega (arith, calling-le-holds s.callers, v, same))
  where
    All-Unit : (l : List Action) → All (λ a. Unit {0}) l
    All-Unit [] = tt
    All-Unit (a ∷ l) = (tt, All-Unit l)
