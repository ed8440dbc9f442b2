-- ===== src/Docker/Guard/Steps.antt =====
-- Reasoning about steps of the callers: one step, and a whole schedule.
use mathlib.Core.Option.{some-injective}
use touchgrass.Base.{
  All, subst, ◌≡◌, ap, sym, ◌∙◌, inl, inr, List, [], ◌∷◌, none, some, get_elem?, arith,
  Option-cases,
}
use touchgrass.Docker.Guard.{Phase, Action, enter, System, caller, advance, step, run}

none_advances : (a : Action) (s : System) {t : System} → advance none a s ≡ some t → ⊥
none_advances (enter i now) s h = cc
none_advances _ s h = cc

-- A step is the turn of a caller that exists, in the phase that it is in.
pub step-advance :
    (a : Action) (s : System) {t : System}
    → step a s ≡ some t
    → (p : Phase) × (get_elem? s.callers (caller a) ≡ some p) × (advance (some p) a s ≡ some t)
unfolding step
step-advance a s {t} h = elim (Option-cases (get_elem? s.callers (caller a))) [
  | inl e ↦ absurd (none_advances a s {t = t} (ap (λ o. advance o a s) (sym e) ∙ h))
  | inr (p, e) ↦ (p, e, ap (λ o. advance o a s) (sym e) ∙ h)
]

-- What every step of the schedule keeps, the schedule keeps.
pub run_keeps {ℓ} :
    (P : System → Type ℓ) (Allowed : Action → Type 0)
    → ((a : Action) (s t : System) → Allowed a → P s → step a s ≡ some t → P t)
    → (l : List Action) (s t : System) → All Allowed l
    → P s
    → run l s ≡ some t
    → P t
unfolding run
run_keeps P Allowed keep [] s t w v h = subst P (some-injective s t h) v
run_keeps P Allowed keep (a ∷ l) s t w v h = elim (Option-cases (step a s)) [
  | inl e ↦ absurd (ground arith)
  | inr (u, e) ↦ run_keeps P Allowed keep l u t w.1 (keep a s u w.0 v e) (ground arith)
]
