-- ===== src/Performance/Turns.antt =====
-- Turns of the collector over two requests, and a query.
use touchgrass.Base.{
  ℕ, ◌+◌, ◌*◌, ◌≡◌, ◌⊎◌, refl, true, false, ◌==◌, if◌then◌else◌, Text, bytes, text_eq, List, [],
  ◌∷◌, All,
}
use touchgrass.Base.Ints.{pos}
use touchgrass.Base.Maps.{empty}
use touchgrass.Base.Results.{Result, ok, err, database}
use touchgrass.Performance.{HttpMetricBucket, minute, hour, truncate_time}
use touchgrass.Performance.Ledger.{is_known, http_bucket_key, join_units}
use touchgrass.Performance.Totals.{total}
use touchgrass.Performance.Agreement.{errors, figure, is_bucket, no_rows}
use touchgrass.Performance.Cursors.{CollectorCursor, zero_cursor, Weather}
use touchgrass.Performance.Collector.{
  HttpObservation, aggregate_http, update_bucket, write_buckets, ingest_key_of, Collected,
  collect_http,
}
use touchgrass.Performance.Aggregates.{observed}
use touchgrass.Performance.Batches.{is_used, IsApart, collect_http-adds}
use touchgrass.Performance.Advances.{delivered, collect_http-advances}
use touchgrass.Performance.Query.{auto, by_hour, unsorted, p95_ms, PerformanceQuery, normalize}
use touchgrass.Performance.Ranges.{succeeds, is_admissible, is_sound, normalize_iff}
use touchgrass.Performance.Examples.{whole, plain, web, clean, broken, at_seven}

abbrev slow : HttpObservation ℕ
slow = record {
  timestamp = at_seven + 11;
  method = bytes "GET";
  route_family = bytes "auth";
  status = 502;
  duration_ms = 70;
  upstream_connect_ms = 1;
  upstream_header_ms = 2;
  upstream_response_ms = 60;
  bytes_sent = 10;
  request_bytes = 20;
  upstream = bytes "none";
}

abbrev batch : List (HttpObservation ℕ)
batch = slow ∷ record slow { status = 200 } ∷ record slow { timestamp = at_seven + 12 } ∷ []

abbrev now : ℕ
now = at_seven + 2 * minute

abbrev fair : Weather
fair = record { at_bucket = λ n. clean; get_fails = false; upsert_fails = false }

-- The second bucket of a batch cannot be written.
abbrev stormy : Weather
stormy = record fair { at_bucket = λ n. if n == 1 then broken else clean }

abbrev read_to : CollectorCursor
read_to = record zero_cursor { source = bytes "nginx"; identity = bytes "1:2"; offset = 300 }

abbrev fresh : Collected ℕ
fresh = record { ledger = no_rows; cursors = empty; held = record zero_cursor { offset = 7 } }

abbrev read : Result (List (HttpObservation ℕ) × CollectorCursor)
read = ok (batch, read_to)

abbrev buckets : List (HttpMetricBucket ℕ)
buckets = aggregate_http whole (truncate_time now minute) (bytes "web") (bytes "prod") batch []

apart : IsApart plain whole buckets
unfolding aggregate_http update_bucket http_bucket_key join_units text_eq
apart = ((refl, tt), (tt, tt))

written :
    (write_buckets plain whole fair.at_bucket (ingest_key_of plain read_to) 0 buckets no_rows).0
    ≡ true
unfolding write_buckets aggregate_http
written = refl

collect_http-adds_example :
    total
      (is_bucket at_seven web)
      (figure errors)
      (collect_http plain whole fair now (bytes "web") (bytes "prod") read fresh).ledger.minutes
    ≡ total (is_bucket at_seven web) (figure {F = ℕ} errors) []
      + observed whole
          (truncate_time now minute)
          (bytes "web")
          (bytes "prod")
          (is_bucket at_seven web)
          errors
          batch
collect_http-adds_example =
    collect_http-adds plain whole fair now (bytes "web") (bytes "prod") batch read_to fresh errors
      at_seven web (unfold is_used in refl) apart written

abbrev after : Weather → Collected ℕ
after w = collect_http plain whole w now (bytes "web") (bytes "prod") read fresh

collect_http-advances_example :
    ((after fair).held ≡ fresh.held)
    ⊎ ((os : List (HttpObservation ℕ)) × (c : CollectorCursor) × (read ≡ ok (os, c))
        × ((after fair).held.offset ≡ c.offset)
        × ((after fair).held.identity ≡ c.identity)
        × All
            (λ b.
              is_known plain (delivered plain whole (ingest_key_of plain c) b) (after fair).ledger
              ≡ true)
            (aggregate_http whole (truncate_time now minute) (bytes "web") (bytes "prod") os []))
collect_http-advances_example =
    collect_http-advances plain whole fair now (bytes "web") (bytes "prod") read fresh

moved : (after fair).held.offset ≡ 300
unfolding collect_http
moved = refl

stayed : (after stormy).held.offset ≡ 7
unfolding collect_http
stayed = refl

abbrev last_day : PerformanceQuery
last_day = record {
  service_id = [];
  start = at_seven;
  end = at_seven + 26 * hour;
  resolution = auto;
  route_family = bytes "auth";
  sort = unsorted;
  limit = pos 0;
}

abbrev day_by_hour : PerformanceQuery
day_by_hour = record last_day { resolution = by_hour; sort = p95_ms; limit = pos 100 }

abbrev no_services : Text → Result (Unit {0})
no_services t = err database

let_through : normalize now no_services last_day ≡ ok day_by_hour
unfolding normalize
let_through = refl

normalize_iff_example :
    (succeeds (normalize now no_services last_day) ≡ is_admissible now no_services last_day)
    × (is_sound (normalize now no_services last_day) ≡ true)
normalize_iff_example = normalize_iff no_services now last_day
