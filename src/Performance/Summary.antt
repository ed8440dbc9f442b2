-- ===== src/Performance/Summary.antt =====
-- What the queries compute from buckets (`summarizeHTTP`, `histogramPercentile`, `percent`,
-- `rankAnomalies` and the filter of `httpBuckets` of internal/service/performance.go).
use touchgrass.Base.{
  ℕ, ◌+◌, ◌-◌, ◌&&◌, ◌==◌, ltb, leb, if◌then◌else◌, Text, text_eq, is_empty, List, [], ◌∷◌, ◌++◌,
  select,
}
use touchgrass.Performance.{Float64, Histogram, empty_histogram, bounds, merge, HttpMetricBucket}

abbrev pub overflow_bound : ℕ
overflow_bound = 5000

unfoldable pub total_count : Histogram → ℕ
total_count [] = 0
total_count (c ∷ cs) = c + total_count cs

-- The second loop of `histogramPercentile`.
unfoldable pub scan_counts : (target seen : ℕ) → Histogram → List ℕ → ℕ
scan_counts target seen [] bs = overflow_bound
scan_counts target seen (c ∷ cs) [] = overflow_bound
scan_counts target seen (c ∷ cs) (b ∷ bs) =
    if leb target (seen + c) then b else scan_counts target (seen + c) cs bs

-- `histogramPercentile`, the quantile in percent; its values are among the bounds, or 0.
unfoldable pub histogram_percentile : {F : Type 0} → Float64 F → Histogram → ℕ → ℕ
unfolding total_count scan_counts
histogram_percentile fl h quantile =
    if total_count h == 0
    then 0
    else scan_counts (fl.rank quantile (total_count h)) 0 h (bounds ++ overflow_bound ∷ [])

-- `percent`
unfoldable pub percent : {F : Type 0} → Float64 F → ℕ → ℕ → F
percent fl part whole = if leb whole 0 then fl.nought else fl.share part whole

pub record Snapshot (F : Type 0) : Type 0 where
  pub request_count : ℕ
  pub error_count : ℕ
  pub error_rate : F
  pub average_ms : F
  pub p50_ms : ℕ
  pub p95_ms : ℕ
  pub p99_ms : ℕ

pub data AnomalyKind : Type 0 where
  latency errors : AnomalyKind

pub record PerformanceAnomaly (F : Type 0) : Type 0 where
  pub kind : AnomalyKind
  pub score : F

module _ {F : Type 0} (fl : Float64 F) where
  unfoldable pub sum_requests : List (HttpMetricBucket F) → ℕ
  sum_requests [] = 0
  sum_requests (row ∷ rows) = row.tally.request_count + sum_requests rows

  unfoldable pub sum_errors : List (HttpMetricBucket F) → ℕ
  sum_errors [] = 0
  sum_errors (row ∷ rows) = row.tally.error_count + sum_errors rows

  -- `result.AverageMS += row.DurationTotalMS`, from `total` on.
  unfoldable pub add_durations : F → List (HttpMetricBucket F) → F
  add_durations total [] = total
  add_durations total (row ∷ rows) = add_durations (fl.plus total row.tally.duration_total_ms) rows

  -- `histogram.Merge(row.Histogram)`, from `h` on.
  unfoldable pub merge_histograms : Histogram → List (HttpMetricBucket F) → Histogram
  unfolding merge
  merge_histograms h [] = h
  merge_histograms h (row ∷ rows) = merge_histograms (merge h row.tally.histogram) rows

  -- `summarizeHTTP`
  unfoldable summarize_http : List (HttpMetricBucket F) → Snapshot F
  unfolding sum_requests sum_errors add_durations merge_histograms histogram_percentile percent
  summarize_http rows =
      let requests = sum_requests rows in
      let durations = add_durations fl.nought rows in
      let h = merge_histograms empty_histogram rows in
      record {
        request_count = requests;
        error_count = sum_errors rows;
        error_rate = percent fl (sum_errors rows) requests;
        average_ms = if ltb 0 requests then fl.over durations requests else durations;
        p50_ms = histogram_percentile fl h 50;
        p95_ms = histogram_percentile fl h 95;
        p99_ms = histogram_percentile fl h 99;
      }

  -- The filter of `httpBuckets` on a route family.
  unfoldable filter_family : Text → List (HttpMetricBucket F) → List (HttpMetricBucket F)
  unfolding select text_eq is_empty
  filter_family family rows =
      if is_empty family
      then rows
      else select (λ (row : HttpMetricBucket F). text_eq row.series.route_family family) rows

  -- `sort.SliceStable` by descending scores, of the two anomalies there can be.
  unfoldable pub by_score : List (PerformanceAnomaly F) → List (PerformanceAnomaly F)
  by_score (a ∷ b ∷ rest) = if fl.above b.score a.score then b ∷ a ∷ rest else a ∷ b ∷ rest
  by_score rest = rest

  -- `rankAnomalies`; the summaries' texts are left out.
  unfoldable rank_anomalies : Snapshot F → Snapshot F → List (PerformanceAnomaly F)
  unfolding by_score
  rank_anomalies current previous = by_score (
      (if ltb 0 previous.p95_ms && ltb previous.p95_ms current.p95_ms
        then record {
          kind = latency;
          score = fl.share (current.p95_ms - previous.p95_ms) previous.p95_ms;
        }
          ∷ []
        else [])
      ++ (if fl.above current.error_rate previous.error_rate
            && fl.above current.error_rate fl.nought
          then record { kind = errors; score = fl.minus current.error_rate previous.error_rate }
            ∷ []
          else []))
