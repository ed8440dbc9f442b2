-- ===== src/Performance/Examples.antt =====
-- Two requests of one minute, delivered, repeated and rolled up.
use touchgrass.Base.{
  ℕ, ◌+◌, ◌-◌, ◌*◌, ◌≤◌, ◌≡◌, refl, true, false, ◌||◌, ◌==◌, ltb, leb, bytes, text_eq, is_empty,
  List, [], ◌∷◌, length, select, All, arith,
}
use touchgrass.Base.Ints.{pos}
use touchgrass.Base.Results.{ok}
use touchgrass.Performance.{
  Float64, minute, hour, truncate_time, bounds, Series, same_series, Tally, add_tally, accumulate,
}
use touchgrass.Performance.Summary.{overflow_bound, histogram_percentile}
use touchgrass.Performance.Percentiles.{merge_all, concat, reach, histogram_percentile-least}
use touchgrass.Performance.Ledger.{
  Formats, http_bucket_key, has_batch, Ledger, Faults, Delivery, validate_http_bucket, upsert_http,
  deliver_all, record_delivery, rollup_http,
}
use touchgrass.Performance.Totals.{total, share_of}
use touchgrass.Performance.Agreement.{
  requests, errors, slot, figure, is_bucket, is_within, no_rows, deliver_all-agrees,
}
use touchgrass.Performance.Retention.{
  earliest, delete_first, trim_minutes, trim_http_before, TableEvent, deliver, roll_up, trim,
  retain, run_events,
}
use touchgrass.Performance.Rollups.{rollup_http-agrees}
use touchgrass.Performance.Retries.{upsert_http-retry}
use touchgrass.Performance.Deliveries.{accepted, brought, deliver_all-counts, upsert_http-two_keys}

abbrev pub whole : Float64 ℕ
whole = record {
  nought = 0;
  plus = λ a b. a + b;
  at_most = λ a b. leb a b;
  above = λ a b. ltb b a;
  minus = λ a b. a - b;
  over = λ a n. a;
  share = λ m n. m;
  rank = λ q n. n;
}

whole_mono : (x j k : ℕ) → j ≤ k → leb x j ≡ true → leb x k ≡ true
whole_mono x j k l h = ground arith

abbrev parts : List (List ℕ)
parts = (7 ∷ 90 ∷ []) ∷ [] ∷ (900 ∷ []) ∷ []

histogram_percentile-least_example :
    ((leb
          (length (concat parts))
          (reach whole (concat parts) (histogram_percentile whole (merge_all whole parts) 95))
        || (histogram_percentile whole (merge_all whole parts) 95 == overflow_bound))
      ≡ true)
    × All
        (λ b.
          (leb (histogram_percentile whole (merge_all whole parts) 95) b
            || ltb (reach whole (concat parts) b) (length (concat parts)))
          ≡ true)
        bounds
histogram_percentile-least_example =
    histogram_percentile-least whole whole_mono parts 95 (unfold concat in omega arith)

abbrev pub plain : Formats
plain = record { fixed_time = λ t. t ∷ []; decimal = λ n. n ∷ []; digest = λ t. t }

abbrev pub web : Series
web = record {
  service_id = bytes "web";
  environment = bytes "prod";
  method = bytes "GET";
  route_family = bytes "auth";
  upstream = bytes "none";
  status_class = 5;
}

abbrev two_errors : Tally ℕ
two_errors = record {
  histogram = 0 ∷ 2 ∷ 0 ∷ 0 ∷ 0 ∷ 0 ∷ 0 ∷ 0 ∷ 0 ∷ 0 ∷ [];
  request_count = 2;
  error_count = 2;
  duration_total_ms = 30;
  upstream_connect_total_ms = 0;
  upstream_header_total_ms = 0;
  upstream_response_total_ms = 0;
  bytes_sent = 10;
  request_bytes = 10;
}

-- Seven minutes after the third hour.
abbrev pub at_seven : ℕ
at_seven = 3 * hour + 7 * minute

abbrev first : Delivery ℕ
first = record {
  bucket = record { bucket_start = at_seven + 5; series = web; tally = two_errors };
  ingest_key = bytes "1:10";
}

abbrev pub clean : Faults
clean = record {
  begin = false;
  insert_batch = false;
  upsert_minute = false;
  upsert_hour = false;
  commit = false;
}

abbrev pub broken : Faults
broken = record clean { commit = true }

abbrev history : List (Faults × Delivery ℕ)
history = (broken, first) ∷ (clean, first) ∷ (clean, first) ∷ []

-- A failed, a successful and a repeated delivery leave one bucket of two requests.
history_counts_once :
    total
      (is_bucket at_seven web)
      (figure requests)
      (deliver_all plain whole history no_rows).minutes
    ≡ 2
unfolding deliver_all upsert_http validate_http_bucket is_empty text_eq has_batch record_delivery
    http_bucket_key accumulate total figure same_series add_tally
history_counts_once = refl

deliver_all-agrees_example :
    total
      (is_bucket (3 * hour) web)
      (figure (slot 1))
      (deliver_all plain whole history no_rows).hours
    ≡ total
        (is_within (3 * hour) web)
        (figure (slot 1))
        (deliver_all plain whole history no_rows).minutes
deliver_all-agrees_example = deliver_all-agrees plain whole (slot 1) (3 * hour) web history

deliver_all-counts_example :
    total (is_bucket at_seven web) (figure errors) (deliver_all plain whole history no_rows).minutes
    ≡ brought plain (is_bucket at_seven web) (figure errors) (accepted plain history [])
deliver_all-counts_example = deliver_all-counts plain whole errors at_seven web history

-- A failed repeat, another one, a rollup, a trim of what came before the minute, and an age
-- retention up to the minute.
abbrev events : List (TableEvent ℕ)
events =
    deliver broken first
    ∷ deliver clean first
    ∷ roll_up false at_seven (at_seven + 2 * hour)
    ∷ trim (record { buckets = false; affected = false; markers = false }) (at_seven - 1) (pos 5)
    ∷ retain false true at_seven 10
    ∷ []

upsert_http-retry_example :
    (upsert_http plain whole broken first
      (run_events plain whole events (upsert_http plain whole clean first no_rows).1)).1
    ≡ run_events plain whole events (upsert_http plain whole clean first no_rows).1
upsert_http-retry_example =
    upsert_http-retry plain whole clean broken first events no_rows (unfold has_batch in refl)
      (unfold upsert_http validate_http_bucket is_empty text_eq has_batch record_delivery
          http_bucket_key accumulate in
        refl)
      (refl, (refl, (refl, (refl, (refl, tt)))))

-- A trim whose cutoff is the minute itself takes the bucket and its marker away.
trimmed :
    (trim_http_before
      (record { buckets = false; affected = false; markers = false })
      at_seven
      (pos 5)
      (upsert_http plain whole clean first no_rows).1)
    ≡ (ok 1, record (upsert_http plain whole clean first no_rows).1 { batches = []; minutes = [] })
unfolding trim_http_before earliest delete_first trim_minutes select upsert_http
    validate_http_bucket is_empty text_eq has_batch record_delivery http_bucket_key accumulate
trimmed = refl

upsert_http-two_keys_example :
    total
      (is_bucket at_seven web)
      (figure requests)
      (upsert_http plain whole clean
        (record first { ingest_key = bytes "1:20" })
        (upsert_http plain whole clean first no_rows).1).1.minutes
    ≡ total (is_bucket at_seven web) (figure {F = ℕ} requests) []
      + 2
        * share_of
            (is_bucket at_seven web)
            (figure requests)
            (truncate_time (at_seven + 5) minute)
            web
            two_errors
upsert_http-two_keys_example =
    upsert_http-two_keys plain whole requests at_seven web clean clean first (bytes "1:20") no_rows
      refl refl (unfold validate_http_bucket is_empty in refl)
      (unfold validate_http_bucket is_empty in refl) (unfold text_eq in refl)
      (unfold has_batch in refl) (unfold has_batch in refl)

-- An hour whose bucket was lost is made anew.
abbrev lost : Ledger ℕ
lost = record no_rows {
  minutes = record { bucket_start = at_seven; series = web; tally = two_errors } ∷ [];
}

-- A table whose hour is wrong, over two requests of one minute.
abbrev skewed : Ledger ℕ
skewed = record {
  batches = [];
  minutes = first.bucket ∷ [];
  hours = record first.bucket { bucket_start = 3 * hour } ∷ [];
}

rollup_http-agrees_example :
    ((rollup_http whole false (2 * hour) (5 * hour) skewed).1.minutes ≡ skewed.minutes)
    × (total
          (is_bucket (3 * hour) web)
          (figure requests)
          (rollup_http whole false (2 * hour) (5 * hour) skewed).1.hours
        ≡ total (is_within (3 * hour) web) (figure requests) skewed.minutes)
rollup_http-agrees_example =
    rollup_http-agrees whole requests (3 * hour) web false (2 * hour) (5 * hour) skewed
      (omega arith)
