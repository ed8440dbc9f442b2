-- ===== src/Performance/Query.antt =====
-- The queries' bounds and defaults (`normalize` and `truncatePerformanceTime` of
-- internal/service/performance.go).
use touchgrass.Base.{
  ℕ, zero, suc, ◌-◌, ◌*◌, Bool, true, false, not, ◌&&◌, ◌||◌, ◌==◌, ltb, leb, if◌then◌else◌, Text,
  bytes, text_eq, is_empty, List, [], ◌∷◌,
}
use touchgrass.Base.Ints.{ℤ, pos, negsuc}
use touchgrass.Base.Results.{invalid_input, Result, ok, err}
use touchgrass.Performance.{minute, hour, truncate_time}

abbrev pub max_minute_range : ℕ
max_minute_range = 7 * 24 * hour

abbrev pub max_hourly_range : ℕ
max_hourly_range = 30 * 24 * hour

abbrev max_performance_points : ℕ
max_performance_points = 1500

abbrev pub max_performance_rows : ℕ
max_performance_rows = 100

-- The texts "", "auto", "minute", "hour", and any other.
pub data Resolution : Type 0 where
  unset auto by_minute by_hour : Resolution
  unknown : Text → Resolution

-- The texts "", "p95_ms", "request_count", "error_rate", "route_family", and any other.
pub data SortField : Type 0 where
  unsorted p95_ms request_count error_rate route_family : SortField
  unknown_field : Text → SortField

-- `PerformanceQuery`; the moment 0 is Go's zero time.
pub record PerformanceQuery : Type 0 where
  pub service_id : Text
  pub start : ℕ
  pub end : ℕ
  pub resolution : Resolution
  pub route_family : Text
  pub sort : SortField
  pub limit : ℤ

unfoldable pub is_among : Text → List Text → Bool
unfolding text_eq
is_among t [] = false
is_among t (u ∷ us) = text_eq u t || is_among t us

-- `performanceRouteFamilies`
abbrev route_families : List Text
route_families =
    bytes "health"
    ∷ bytes "auth"
    ∷ bytes "public_events"
    ∷ bytes "account_orders"
    ∷ bytes "checkout"
    ∷ bytes "callbacks"
    ∷ bytes "admin"
    ∷ bytes "organization"
    ∷ bytes "static"
    ∷ bytes "other"
    ∷ []

unfoldable pub is_route_family : Text → Bool
unfolding is_among
is_route_family t = is_among t route_families

abbrev pub chosen_resolution : ℕ → Resolution
chosen_resolution duration =
    if ltb (max_performance_points * minute) duration then by_hour else by_minute

-- `if query.Resolution == "" || query.Resolution == "auto"`
abbrev pub resolve_resolution : ℕ → Resolution → Resolution
resolve_resolution duration unset = chosen_resolution duration
resolve_resolution duration auto = chosen_resolution duration
resolve_resolution duration by_minute = by_minute
resolve_resolution duration by_hour = by_hour
resolve_resolution duration (unknown t) = unknown t

-- `switch query.Resolution`
abbrev pub range_allowed : ℕ → Resolution → Bool
range_allowed duration by_minute = leb duration max_minute_range
range_allowed duration by_hour = leb duration max_hourly_range
range_allowed duration unset = false
range_allowed duration auto = false
range_allowed duration (unknown t) = false

abbrev pub sort_or_default : SortField → SortField
sort_or_default unsorted = p95_ms
sort_or_default p95_ms = p95_ms
sort_or_default request_count = request_count
sort_or_default error_rate = error_rate
sort_or_default route_family = route_family
sort_or_default (unknown_field t) = unknown_field t

-- `performanceSorts`
abbrev pub sort_allowed : SortField → Bool
sort_allowed unsorted = false
sort_allowed p95_ms = true
sort_allowed request_count = true
sort_allowed error_rate = true
sort_allowed route_family = true
sort_allowed (unknown_field t) = false

abbrev pub limit_or_default : ℤ → ℤ
limit_or_default (pos zero) = pos max_performance_rows
limit_or_default (pos (suc n)) = pos (suc n)
limit_or_default (negsuc n) = negsuc n

abbrev pub limit_allowed : ℤ → Bool
limit_allowed (pos n) = leb 1 n && leb n max_performance_rows
limit_allowed (negsuc n) = false

-- The defaults of `normalize`, at the moment `now`.
unfoldable pub with_defaults : ℕ → PerformanceQuery → PerformanceQuery
with_defaults now q =
    let end = if q.end == 0 then now else q.end in
    let start = if q.start == 0 then end - hour else q.start in
    record q {
      start = start;
      end = end;
      resolution = resolve_resolution (end - start) q.resolution;
      sort = sort_or_default q.sort;
      limit = limit_or_default q.limit;
    }

-- The checks of `normalize`; `get` looks a service up.
unfoldable pub check_query : (Text → Result (Unit {0})) → PerformanceQuery → Result PerformanceQuery
unfolding is_route_family is_empty
check_query get q =
    if leb q.end q.start
    then err invalid_input
    else if not (range_allowed (q.end - q.start) q.resolution)
    then err invalid_input
    else if not (sort_allowed q.sort)
    then err invalid_input
    else if not (is_empty q.route_family) && not (is_route_family q.route_family)
    then err invalid_input
    else if not (limit_allowed q.limit)
    then err invalid_input
    else if is_empty q.service_id
    then ok q
    else elim (get q.service_id) [ ok u ↦ ok q | err e ↦ err e ]

-- `normalize`: it sets each default before the checks that read it, and the checks before the last
-- return the same error.
unfoldable pub normalize :
    ℕ → (Text → Result (Unit {0})) → PerformanceQuery → Result PerformanceQuery
unfolding with_defaults check_query
normalize now get q = check_query get (with_defaults now q)

-- `truncatePerformanceTime`
unfoldable pub truncate_performance_time : ℕ → Resolution → ℕ
truncate_performance_time t by_hour = truncate_time t hour
truncate_performance_time t unset = truncate_time t minute
truncate_performance_time t auto = truncate_time t minute
truncate_performance_time t by_minute = truncate_time t minute
truncate_performance_time t (unknown r) = truncate_time t minute
