-- ===== src/Performance.antt =====
-- HTTP performance aggregates (internal/model/performance.go, and the reading side of
-- internal/service/performance.go): histograms, buckets, and what is computed from them. Moments
-- are nanoseconds since Go's zero time; `F` stands for float64.
pub mod Summary
mod Percentiles
pub mod Ledger
mod Totals
mod Agreement
mod Deliveries
pub mod Retention
mod Retries
mod Rollups
pub mod Query
mod Ranges
pub mod Cursors
pub mod Collector
mod Aggregates
mod Drops
mod Advances
mod Examples
mod Turns
mod Batches
use touchgrass.Base.{
  ℕ, suc, ◌+◌, ◌-◌, ◌*◌, ◌%◌, Bool, true, false, ◌&&◌, ◌==◌, leb, if◌then◌else◌, Text, text_eq,
  List, [], ◌∷◌,
}

-- What the code uses of float64.
pub record Float64 (F : Type 0) : Type 0 where
  pub nought : F
  pub plus : F → F → F
  -- `x <= n`
  pub at_most : F → ℕ → Bool
  -- `x > y`
  pub above : F → F → Bool
  -- `x - y`
  pub minus : F → F → F
  -- `x / float64(n)`
  pub over : F → ℕ → F
  -- `float64(m) / float64(n) * 100`
  pub share : ℕ → ℕ → F
  -- `int64(math.Ceil(float64(n) * quantile))`, the quantile in percent
  pub rank : ℕ → ℕ → ℕ

abbrev pub minute : ℕ
minute = 60 * 1000000000

abbrev pub hour : ℕ
hour = 3600 * 1000000000

-- `t.Truncate(unit)`
abbrev pub truncate_time : ℕ → ℕ → ℕ
truncate_time t unit = t - t % unit

-- `HTTPHistogram.Counts`: ten counters, the last for what is above every bound.
abbrev pub Histogram : Type 0
Histogram = List ℕ

abbrev pub empty_histogram : Histogram
empty_histogram = 0 ∷ 0 ∷ 0 ∷ 0 ∷ 0 ∷ 0 ∷ 0 ∷ 0 ∷ 0 ∷ 0 ∷ []

abbrev pub bounds : List ℕ
bounds = 10 ∷ 25 ∷ 50 ∷ 100 ∷ 250 ∷ 500 ∷ 1000 ∷ 2500 ∷ 5000 ∷ []

-- The loop of `Observe`: the counter of the first bound that is not below, or the one after them.
unfoldable pub observe_in : {F : Type 0} → Float64 F → F → List ℕ → Histogram → Histogram
observe_in fl ms bs [] = []
observe_in fl ms [] (c ∷ cs) = suc c ∷ cs
observe_in fl ms (b ∷ bs) (c ∷ cs) =
    if fl.at_most ms b then suc c ∷ cs else c ∷ observe_in fl ms bs cs

-- `Observe`
unfoldable pub observe : {F : Type 0} → Float64 F → F → Histogram → Histogram
unfolding observe_in
observe fl ms h = observe_in fl ms bounds h

-- `Merge`
unfoldable pub merge : Histogram → Histogram → Histogram
merge [] ks = ks
merge (c ∷ cs) [] = c ∷ cs
merge (c ∷ cs) (k ∷ ks) = (c + k) ∷ merge cs ks

-- Whose requests a bucket counts.
pub record Series : Type 0 where
  pub service_id : Text
  pub environment : Text
  pub method : Text
  pub route_family : Text
  pub upstream : Text
  pub status_class : ℕ

unfoldable pub same_series : Series → Series → Bool
same_series a b =
    text_eq a.service_id b.service_id
    && (text_eq a.environment b.environment
        && (text_eq a.method b.method
            && (text_eq a.route_family b.route_family
                && (text_eq a.upstream b.upstream && (a.status_class == b.status_class)))))

-- What a bucket adds up.
pub record Tally (F : Type 0) : Type 0 where
  pub histogram : Histogram
  pub request_count : ℕ
  pub error_count : ℕ
  pub duration_total_ms : F
  pub upstream_connect_total_ms : F
  pub upstream_header_total_ms : F
  pub upstream_response_total_ms : F
  pub bytes_sent : ℕ
  pub request_bytes : ℕ

unfoldable pub add_tally : {F : Type 0} → Float64 F → Tally F → Tally F → Tally F
unfolding merge
add_tally fl a b = record {
  histogram = merge a.histogram b.histogram;
  request_count = a.request_count + b.request_count;
  error_count = a.error_count + b.error_count;
  duration_total_ms = fl.plus a.duration_total_ms b.duration_total_ms;
  upstream_connect_total_ms = fl.plus a.upstream_connect_total_ms b.upstream_connect_total_ms;
  upstream_header_total_ms = fl.plus a.upstream_header_total_ms b.upstream_header_total_ms;
  upstream_response_total_ms = fl.plus a.upstream_response_total_ms b.upstream_response_total_ms;
  bytes_sent = a.bytes_sent + b.bytes_sent;
  request_bytes = a.request_bytes + b.request_bytes;
}

-- `HTTPMetricBucket`, less its ingest key.
pub record HttpMetricBucket (F : Type 0) : Type 0 where
  pub bucket_start : ℕ
  pub series : Series
  pub tally : Tally F

-- Whether a bucket has this start and this series.
abbrev pub is_keyed : {F : Type 0} → ℕ → Series → HttpMetricBucket F → Bool
is_keyed start series row = (row.bucket_start == start) && same_series row.series series

-- Add to the bucket of a key, or begin it: Go's `buckets[key] = …` and SQL's upsert.
unfoldable pub accumulate :
    {F : Type 0}
    → Float64 F
    → ℕ
    → Series
    → Tally F
    → List (HttpMetricBucket F)
    → List (HttpMetricBucket F)
unfolding same_series add_tally
accumulate fl start series tally [] =
    record { bucket_start = start; series = series; tally = tally } ∷ []
accumulate fl start series tally (row ∷ rows) =
    if is_keyed start series row
    then record row { tally = add_tally fl row.tally tally } ∷ rows
    else row ∷ accumulate fl start series tally rows
