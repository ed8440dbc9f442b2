-- ===== src/Alerts/Examples.antt =====
-- The theorems of the alerts at concrete rules.
use touchgrass.Base.{
  ℕ, ◌+◌, ◌≡◌, ◌≢◌, refl, false, bytes, if◌then◌else◌, none, List, [], ◌∷◌, count, arith, leb,
  text_eq,
}
use touchgrass.Base.Maps.{empty}
use touchgrass.Alerts.{IssueKind, IssueRule, Issue, Sampler, evaluate_threshold, has_lasted}
use touchgrass.Alerts.Issues.{since, is_active}
use touchgrass.Alerts.Breaches.{Tick, breach_on, breach_count, any_due, breach_on-exactly_one}

abbrev outage : Issue
outage = record {
  id = 7;
  service_id = bytes "web";
  first_seen = 1000000000;
  last_seen = 9000000000;
  notified_at = none;
}

abbrev sampler : Sampler
sampler = record {
  breaches = empty;
  spikes = empty;
  issues = outage ∷ [];
  occurrences = record { issue_id = 7; created_at = 9000000000 } ∷ [];
  notifications = [];
}

abbrev tick : ℕ → Tick
tick now = record { now = now; fails = false }

abbrev later : List Tick
later = tick 3000000000 ∷ tick 6000000000 ∷ tick 9000000000 ∷ []

breach_on-exactly_one_example :
    breach_count 1 (breach_on 1 4 (tick 1000000000 ∷ later) sampler)
    ≡ breach_count 1 sampler + (if any_due 4 1000000000 (tick 1000000000 ∷ later) then 1 else 0)
breach_on-exactly_one_example = breach_on-exactly_one 1 4 (tick 1000000000) later sampler refl refl

one_notification : breach_count 1 (breach_on 1 4 (tick 1000000000 ∷ later) sampler) ≡ 1
unfolding breach_on count evaluate_threshold has_lasted
one_notification = refl

abbrev two : ℕ
two = 2

two_not_one : two ≢ 1
two_not_one e = omega arith

abbrev surge : IssueRule
surge = record {
  id = 3;
  service_id = bytes "web";
  kind = IssueKind.spike;
  threshold = 1;
  window_secs = 5;
}

abbrev newcomers : IssueRule
newcomers = record surge { kind = IssueKind.new_issue; window_secs = 20 }

abbrev now_in_nanoseconds : ℕ
now_in_nanoseconds = 63900000000000000000

-- A window of ten thousand million seconds wraps, and lies ahead of the clock.
far_window :
    leb (since (record surge { window_secs = 10000000000 }) now_in_nanoseconds) now_in_nanoseconds
    ≡ false
unfolding since
far_window = refl

-- No issue is active in it then, although the only one was seen a second ago.
far_window_active :
    is_active (record surge { window_secs = 10000000000 }) 10000000000 outage ≡ false
unfolding since text_eq
far_window_active = refl
