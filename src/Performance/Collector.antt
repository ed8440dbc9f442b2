-- ===== src/Performance/Collector.antt =====
-- The collector's HTTP source (`aggregateHTTP` and `collectHTTP` of
-- internal/service/performance_collector.go) with the cursor that the tailer holds (`Acknowledge` of
-- internal/nginxlog/tailer.go). What the tailer reads from the file is an argument.
use touchgrass.Base.{
  ℕ, suc, ◌+◌, ◌/◌, Bool, true, false, not, ◌==◌, leb, if◌then◌else◌, Text, bytes, List, [], ◌∷◌,
  ◌++◌, none, some,
}
use touchgrass.Base.Maps.{Map, text_key}
use touchgrass.Base.Results.{Result, ok, err}
use touchgrass.Performance.{
  Float64, minute, truncate_time, empty_histogram, observe, Series, same_series, Tally,
  HttpMetricBucket, is_keyed,
}
use touchgrass.Performance.Cursors.{
  CollectorCursor, Weather, upsert_cursor, record_failure, final_cursor, nginx,
}
use touchgrass.Performance.Ledger.{Formats, Ledger, Faults, upsert_http}

-- `HTTPObservation`, less the two fields that nothing adds up; a parsed status is from 100 to 599.
pub record HttpObservation (F : Type 0) : Type 0 where
  pub timestamp : ℕ
  pub method : Text
  pub route_family : Text
  pub status : ℕ
  pub duration_ms : F
  pub upstream_connect_ms : F
  pub upstream_header_ms : F
  pub upstream_response_ms : F
  pub bytes_sent : ℕ
  pub request_bytes : ℕ
  pub upstream : Text

-- `fmt.Sprintf("%s:%d", cursor.Identity, cursor.Offset)`
abbrev pub ingest_key_of : Formats → CollectorCursor → Text
ingest_key_of fm c = c.identity ++ bytes ":" ++ fm.decimal c.offset

-- What the collector can reach: the tables, and the cursor that the tailer holds.
pub record Collected (F : Type 0) : Type 0 where
  pub ledger : Ledger F
  pub cursors : Map Text CollectorCursor
  pub held : CollectorCursor

-- One turn of the collector's loop, for this source.
pub record Round (F : Type 0) : Type 0 where
  pub weather : Weather
  pub now : ℕ
  pub read : Result (List (HttpObservation F) × CollectorCursor)

module _ {F : Type 0} where
  abbrev pub empty_tally : Float64 F → Tally F
  empty_tally fl = record {
    histogram = empty_histogram;
    request_count = 0;
    error_count = 0;
    duration_total_ms = fl.nought;
    upstream_connect_total_ms = fl.nought;
    upstream_header_total_ms = fl.nought;
    upstream_response_total_ms = fl.nought;
    bytes_sent = 0;
    request_bytes = 0;
  }

  -- The additions of the loop of `aggregateHTTP`.
  unfoldable pub count_observation : Float64 F → HttpObservation F → Tally F → Tally F
  unfolding observe
  count_observation fl o t = record {
    histogram = observe fl o.duration_ms t.histogram;
    request_count = suc t.request_count;
    error_count = if leb 500 o.status then suc t.error_count else t.error_count;
    duration_total_ms = fl.plus t.duration_total_ms o.duration_ms;
    upstream_connect_total_ms = fl.plus t.upstream_connect_total_ms o.upstream_connect_ms;
    upstream_header_total_ms = fl.plus t.upstream_header_total_ms o.upstream_header_ms;
    upstream_response_total_ms = fl.plus t.upstream_response_total_ms o.upstream_response_ms;
    bytes_sent = t.bytes_sent + o.bytes_sent;
    request_bytes = t.request_bytes + o.request_bytes;
  }

  abbrev pub start_of : ℕ → HttpObservation F → ℕ
  start_of now_minute o =
      if truncate_time o.timestamp minute == 0 then now_minute else truncate_time o.timestamp minute

  abbrev pub series_of : (service environment : Text) → HttpObservation F → Series
  series_of service environment o = record {
    service_id = service;
    environment = environment;
    method = o.method;
    route_family = o.route_family;
    upstream = o.upstream;
    status_class = o.status / 100;
  }

  -- `bucket := buckets[key]; …; buckets[key] = bucket`, the key the start and the series: the
  -- service and the environment are the same for all.
  unfoldable pub update_bucket :
      Float64 F
      → ℕ
      → Series
      → HttpObservation F
      → List (HttpMetricBucket F)
      → List (HttpMetricBucket F)
  unfolding same_series count_observation
  update_bucket fl start series o [] =
      record {
        bucket_start = start;
        series = series;
        tally = count_observation fl o (empty_tally fl);
      }
      ∷ []
  update_bucket fl start series o (row ∷ rows) =
      if is_keyed start series row
      then record row { tally = count_observation fl o row.tally } ∷ rows
      else row ∷ update_bucket fl start series o rows

  -- `aggregateHTTP`, from `rows` on; Go returns them in any order.
  unfoldable pub aggregate_http :
      Float64 F
      → ℕ
      → (service environment : Text) → List (HttpObservation F)
      → List (HttpMetricBucket F)
      → List (HttpMetricBucket F)
  unfolding update_bucket
  aggregate_http fl now_minute service environment [] rows = rows
  aggregate_http fl now_minute service environment (o ∷ os) rows =
      aggregate_http fl now_minute service environment os
        (update_bucket fl (start_of now_minute o) (series_of service environment o) o rows)

  -- The loop of `collectHTTP`: whether all buckets were written.
  unfoldable pub write_buckets :
      Formats
      → Float64 F
      → (ℕ → Faults)
      → Text
      → ℕ
      → List (HttpMetricBucket F)
      → Ledger F
      → Bool × Ledger F
  unfolding upsert_http
  write_buckets fm fl faults key n [] l = (true, l)
  write_buckets fm fl faults key n (b ∷ bs) l =
      let (r, after) = upsert_http fm fl (faults n) (record { bucket = b; ingest_key = key }) l in
      let rest = write_buckets fm fl faults key (suc n) bs after in
      elim r [ ok u ↦ rest | err e ↦ (false, after) ]

  -- `collectHTTP`: `read` is what the tailer returned, and the last step its `Acknowledge`.
  unfoldable pub collect_http :
      Formats
      → Float64 F
      → Weather
      → (now : ℕ) → (service environment : Text)
      → Result (List (HttpObservation F) × CollectorCursor)
      → Collected F
      → Collected F
  unfolding aggregate_http write_buckets final_cursor upsert_cursor record_failure
  collect_http fm fl w now service environment (err e) s = record s {
    cursors = record_failure w now nginx (bytes "nginx_unavailable") s.cursors;
  }
  collect_http fm fl w now service environment (ok (observations, c)) s =
      let buckets =
        aggregate_http fl (truncate_time now minute) service environment observations [] in
      let (done, ledger) =
        write_buckets fm fl w.at_bucket (ingest_key_of fm c) 0 buckets s.ledger in
      let final = final_cursor w s.cursors c in
      if not done
      then record s {
        ledger = ledger;
        cursors = record_failure w now nginx (bytes "nginx_write_failed") s.cursors;
      }
      else elim (upsert_cursor w.upsert_fails final s.cursors) [
        | none ↦ record s { ledger = ledger }
        | some cursors ↦ record s { ledger = ledger; cursors = cursors; held = final }
      ]

  -- `Run`, turn after turn.
  unfoldable pub collect_all :
      Formats
      → Float64 F
      → (service environment : Text) → List (Round F)
      → Collected F
      → Collected F
  unfolding collect_http
  collect_all fm fl service environment [] s = s
  collect_all fm fl service environment (r ∷ rest) s =
      collect_all fm fl service environment rest
        (collect_http fm fl r.weather r.now service environment r.read s)
