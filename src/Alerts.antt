-- ===== src/Alerts.antt =====
-- Alerts of the sampler: threshold rules with a breach episode each, and issue rules with their
-- latches (internal/service/resources.go, internal/service/issue_alerts.go and the rules' part of
-- internal/service/performance_alerts.go). Times are nanoseconds of the monotonic clock. Floats
-- and the values that metrics are read from are parameters.
use touchgrass.Base.{
  ℕ, suc, ◌+◌, ◌-◌, ◌*◌, ◌%◌, ◌^◌, Bool, true, false, not, ◌&&◌, ltb, leb, ◌==◌, if◌then◌else◌,
  Text, text_eq, Option, none, some, List, [], ◌∷◌, ◌++◌, map, count, select,
}
use touchgrass.Base.Maps.{nat_key, Map, empty, insert, erase, get_or}
use touchgrass.Base.Results.{
  Error, invalid_input, database, Result, ok, err, Method, ◌>>=◌, ◌>>◌, return, require, lift,
}
pub mod Issues
pub mod Breaches
pub mod Spikes
pub mod Announcements
mod Examples

pub data Metric : Type 0 where
  cpu mem disk http_p95 http_error_rate postgres_connection_pct redis_evictions : Metric
  other : Text → Metric

-- Go's float64: its order, a share in percent, and the conversion of an integer.
pub record Floats : Type 1 where
  pub Float : Type 0
  pub zero : Float
  pub above : Float → Float → Bool
  pub percent : ℕ → ℕ → Float
  pub from : ℕ → Float

pub record Breach : Type 0 where
  pub start : Option ℕ
  pub fired : Bool

pub data IssueKind : Type 0 where
  new_issue spike : IssueKind
  other : Text → IssueKind

pub record IssueRule : Type 0 where
  pub id : ℕ
  pub service_id : Text
  pub kind : IssueKind
  pub threshold : ℕ
  pub window_secs : ℕ

pub record Issue : Type 0 where
  pub id : ℕ
  pub service_id : Text
  pub first_seen : ℕ
  pub last_seen : ℕ
  pub notified_at : Option ℕ

pub record Occurrence : Type 0 where
  pub issue_id : ℕ
  pub created_at : ℕ

-- A notification, by what its text is formatted from.
pub data Notification : Type 0 where
  alert_breach : (rule now : ℕ) → Notification
  issue_new issue_spike : (rule issue occurrences : ℕ) → Notification

pub record Sampler : Type 0 where
  pub breaches : Map ℕ Breach
  pub spikes : Map ℕ (Map ℕ Bool)
  pub issues : List Issue
  pub occurrences : List Occurrence
  pub notifications : List Notification

-- `breachState{}`
abbrev pub no_breach : Breach
no_breach = record { start = none; fired = false }

-- An insert that fails adds nothing.
abbrev pub notify : Bool → Notification → Method Sampler (Unit {0})
notify fails n s =
    if fails
    then (err database, s)
    else (ok tt, record s { notifications = s.notifications ++ n ∷ [] })

-- `elapsed >= time.Duration(secs)*time.Second`, where the product wraps to a signed 64-bit
-- number: one that is negative is below every elapsed time.
unfoldable pub has_lasted : ℕ → ℕ → Bool
has_lasted secs elapsed =
    let duration = (secs * 1000000000) % 2 ^ 64 in
    if ltb duration (2 ^ 63) then leb duration elapsed else true

abbrev pub started : ℕ → Breach → ℕ
started now b = elim b.start [ none ↦ now | some start ↦ start ]

-- `evaluateThreshold`, with `fire`, for the rule's id and duration.
unfoldable pub evaluate_threshold :
    (rule secs : ℕ) → Bool → (now : ℕ) → (fails : Bool) → Method Sampler (Unit {0})
evaluate_threshold rule secs breaching now fails s =
    let state = get_or s.breaches rule no_breach in
    let start = started now state in
    let due = not state.fired && has_lasted secs (now - start) in
    if not breaching
    then (ok tt, record s { breaches = erase s.breaches rule })
    else if due && fails
    then (err database, s)
    else if due
    then (
      ok tt,
      record s {
        breaches = insert s.breaches rule (record { start = some start; fired = true });
        notifications = s.notifications ++ alert_breach rule now ∷ [];
      },
    )
    else (
      ok tt,
      record s {
        breaches = insert s.breaches rule (record { start = some start; fired = state.fired });
      },
    )

-- `isPerformanceMetric`
unfoldable pub is_performance_metric : Metric → Bool
is_performance_metric Metric.http_p95 = true
is_performance_metric Metric.http_error_rate = true
is_performance_metric Metric.postgres_connection_pct = true
is_performance_metric Metric.redis_evictions = true
is_performance_metric _ = false

module _ (x : Floats) where
  pub record Sample : Type 0 where
    pub cpu_percent : x.Float
    pub mem_bytes : ℕ
    pub mem_limit : ℕ
    pub disk_bytes : ℕ

  pub record AlertRule : Type 0 where
    pub id : ℕ
    pub metric : Metric
    pub threshold : x.Float
    pub duration_secs : ℕ

  -- `metricValue`
  unfoldable pub metric_value : Metric → Sample → x.Float
  metric_value Metric.cpu sample = sample.cpu_percent
  metric_value Metric.mem sample =
      if sample.mem_limit == 0 then x.zero else x.percent sample.mem_bytes sample.mem_limit
  metric_value Metric.disk sample = x.from sample.disk_bytes
  metric_value _ sample = x.zero

  -- The loop of `evaluateRule` over the latest samples.
  unfoldable pub any_above : AlertRule → List Sample → Bool
  any_above rule [] = false
  any_above rule (sample ∷ rest) =
      if x.above (metric_value rule.metric sample) rule.threshold then true else any_above rule rest

  -- `evaluateRule`, given what its reads return: the latest samples, or the performance
  -- collector's value where it is available.
  unfoldable pub evaluate_rule :
      Result (List Sample)
      → Result (Option x.Float)
      → AlertRule
      → (now : ℕ) → (fails : Bool) → Method Sampler (Unit {0})
  unfolding is_performance_metric
  evaluate_rule latest value rule now fails s =
      if is_performance_metric rule.metric
      then elim value [
        | err e ↦ (err e, s)
        | ok none ↦ (ok tt, s)
        | ok (some v) ↦
            evaluate_threshold rule.id rule.duration_secs (x.above v rule.threshold) now fails s
      ]
      else elim latest [
        | err e ↦ (err e, s)
        | ok samples ↦
            evaluate_threshold rule.id rule.duration_secs (any_above rule samples) now fails s
      ]
