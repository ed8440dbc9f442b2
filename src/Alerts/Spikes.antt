-- ===== src/Alerts/Spikes.antt =====
-- The latch of a spike rule on an issue (`evaluateSpike` of internal/service/issue_alerts.go).
use touchgrass.Base.{ℕ, Bool, false, not, ◌||◌, ◌==◌, ltb, List, [], ◌∷◌}
use touchgrass.Base.Maps.{nat_key}
use touchgrass.Alerts.{IssueRule, Issue, Sampler}
use touchgrass.Alerts.Issues.{Failures, since, window_count}

-- No statement fails.
abbrev pub no_failures : Failures
no_failures = record {
  listing = false;
  counting = λ i. false;
  inserting = λ i. false;
  stamping = λ i. false;
}

unfoldable pub mentions : ℕ → List Issue → Bool
mentions id [] = false
mentions id (i ∷ is) = (i.id == id) || mentions id is

-- The issue has as many occurrences in the window as the rule asks for.
abbrev pub is_above : IssueRule → ℕ → ℕ → Sampler → Bool
is_above rule now id s = not (ltb (window_count id (since rule now) s.occurrences) rule.threshold)
