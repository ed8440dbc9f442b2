-- ===== src/Performance/Ledger.antt =====
-- The stored HTTP buckets and what one ingest does to them (`UpsertHTTP`, `RollupHTTP`,
-- `validateHTTPBucket` and `httpBucketKey` of internal/store/performance.go). The counts of a
-- bucket are natural numbers here, as they are sums of ones, so the tests for negative counts are
-- not written; `updated_at` columns are left out.
use touchgrass.Base.{
  ℕ, Bool, false, not, ◌&&◌, ◌||◌, ◌==◌, ltb, leb, if◌then◌else◌, Text, text_eq, is_empty, length,
  List, [], ◌∷◌, ◌++◌, select,
}
use touchgrass.Base.Results.{database, rejected, Result, ok, err}
use touchgrass.Performance.{
  Float64, minute, hour, truncate_time, Series, HttpMetricBucket, accumulate,
}

-- What the code uses of packages `time`, `fmt`, `sha256` and `hex`.
pub record Formats : Type 0 where
  -- `formatFixedTime`
  pub fixed_time : ℕ → Text
  -- `fmt.Sprint` of a status class
  pub decimal : ℕ → Text
  -- the hexadecimal SHA-256 of a text
  pub digest : Text → Text

-- `strings.Join(parts, "\x1f")`
unfoldable pub join_units : List Text → Text
join_units [] = []
join_units (part ∷ []) = part
join_units (part ∷ next ∷ parts) = part ++ 0x1f ∷ join_units (next ∷ parts)

-- `httpBucketKey`, of a bucket that starts at `start`.
unfoldable pub http_bucket_key : Formats → ℕ → Series → Text
unfolding join_units
http_bucket_key fm start s = fm.digest (
    join_units (
      fm.fixed_time (truncate_time start minute)
      ∷ s.service_id
      ∷ s.environment
      ∷ s.method
      ∷ s.route_family
      ∷ s.upstream
      ∷ fm.decimal s.status_class
      ∷ []))

-- A row of performance_ingest_batches whose source is nginx.
pub record Batch : Type 0 where
  pub ingest_key : Text
  pub bucket_key : Text
  pub bucket_start : ℕ

unfoldable pub has_batch : Text → Text → List Batch → Bool
unfolding text_eq
has_batch ingest bucket [] = false
has_batch ingest bucket (row ∷ rows) =
    (text_eq row.ingest_key ingest && text_eq row.bucket_key bucket) || has_batch ingest bucket rows

-- The tables: http_metric_buckets, and the http rows of performance_hourly_rollups.
pub record Ledger (F : Type 0) : Type 0 where
  pub batches : List Batch
  pub minutes : List (HttpMetricBucket F)
  pub hours : List (HttpMetricBucket F)

-- Which statements of a transaction fail.
pub record Faults : Type 0 where
  pub begin : Bool
  pub insert_batch : Bool
  pub upsert_minute : Bool
  pub upsert_hour : Bool
  pub commit : Bool

-- A bucket as the collector hands it over.
pub record Delivery (F : Type 0) : Type 0 where
  pub bucket : HttpMetricBucket F
  pub ingest_key : Text

module _ {F : Type 0} where
  -- `validateHTTPBucket`
  unfoldable pub validate_http_bucket : Delivery F → Bool
  unfolding is_empty
  validate_http_bucket d =
      let s = d.bucket.series in
      not (
        (d.bucket.bucket_start == 0)
        || (is_empty s.service_id
            || (is_empty s.environment
                || (is_empty s.method
                    || (is_empty s.route_family
                        || (is_empty s.upstream
                            || (ltb s.status_class 1
                                || (ltb 5 s.status_class || is_empty d.ingest_key))))))))
      && leb (length d.ingest_key) 256

  abbrev pub is_known : Formats → Delivery F → Ledger F → Bool
  is_known fm d l =
      has_batch d.ingest_key
        (http_bucket_key fm (truncate_time d.bucket.bucket_start minute) d.bucket.series) l.batches

  -- The writes of `UpsertHTTP` under a new batch marker.
  unfoldable pub record_delivery : Formats → Float64 F → Delivery F → Ledger F → Ledger F
  unfolding accumulate http_bucket_key
  record_delivery fm fl d l =
      let b = d.bucket in
      let start = truncate_time b.bucket_start minute in
      record {
        batches =
            record {
              ingest_key = d.ingest_key;
              bucket_key = http_bucket_key fm start b.series;
              bucket_start = start;
            }
            ∷ l.batches;
        minutes = accumulate fl start b.series b.tally l.minutes;
        hours = accumulate fl (truncate_time start hour) b.series b.tally l.hours;
      }

  -- `UpsertHTTP`: a transaction that is not committed is rolled back.
  unfoldable pub upsert_http :
      Formats → Float64 F → Faults → Delivery F → Ledger F → Result (Unit {0}) × Ledger F
  unfolding validate_http_bucket has_batch record_delivery http_bucket_key
  upsert_http fm fl x d l =
      if not (validate_http_bucket d)
      then (err rejected, l)
      else if x.begin || x.insert_batch
      then (err database, l)
      else if is_known fm d l
      then (if x.commit then (err database, l) else (ok tt, l))
      else if x.upsert_minute || (x.upsert_hour || x.commit)
      then (err database, l)
      else (ok tt, record_delivery fm fl d l)

  -- Deliveries one after the other, each with what fails in it.
  unfoldable pub deliver_all :
      Formats → Float64 F → List (Faults × Delivery F) → Ledger F → Ledger F
  unfolding upsert_http
  deliver_all fm fl [] l = l
  deliver_all fm fl ((x, d) ∷ rest) l = deliver_all fm fl rest (upsert_http fm fl x d l).1

  -- The rows that SUM and GROUP BY make of minute rows.
  unfoldable pub group_hours :
      Float64 F → List (HttpMetricBucket F) → List (HttpMetricBucket F) → List (HttpMetricBucket F)
  unfolding accumulate
  group_hours fl [] hours = hours
  group_hours fl (row ∷ rows) hours =
      group_hours fl rows
        (accumulate fl (truncate_time row.bucket_start hour) row.series row.tally hours)

  abbrev pub is_inside : ℕ → ℕ → HttpMetricBucket F → Bool
  is_inside from until row = leb from row.bucket_start && ltb row.bucket_start until

  -- `RollupHTTP`; `fails` says that one of its statements does.
  unfoldable pub rollup_http : Float64 F → Bool → ℕ → ℕ → Ledger F → Result (Unit {0}) × Ledger F
  unfolding select group_hours
  rollup_http fl fails start end l =
      let from = truncate_time start hour in
      let until = truncate_time end hour in
      if leb until from then (err rejected, l) else if fails then (err database, l) else (
        ok tt,
        record l {
          hours =
              group_hours fl (select (is_inside from until) l.minutes)
                (select (λ row. not (is_inside from until row)) l.hours);
        },
      )
