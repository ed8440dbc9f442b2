-- ===== src/Performance/Retries.antt =====
-- Repeated deliveries (`UpsertHTTP` of internal/store/performance.go, with what removes its batch
-- markers).
use touchgrass.Base.{
  ℕ, ◌≡◌, refl, Bool, true, false, not, ◌&&◌, ◌||◌, ◌==◌, ==_refl, ltb, leb, Text, text_eq,
  text_eq_refl, List, [], ◌∷◌, select, All, arith, inl, inr, Bool-cases,
}
use touchgrass.Base.Results.{ok}
use touchgrass.Performance.{Float64, minute, truncate_time}
use touchgrass.Performance.Ledger.{
  Formats, Batch, has_batch, Ledger, Faults, Delivery, is_known, record_delivery, upsert_http,
  rollup_http,
}
use touchgrass.Performance.Retention.{
  trim_http_before, expire, delete_before, TableEvent, deliver, roll_up, trim, retain, run_event,
  run_events,
}
use touchgrass.Performance.Deliveries.{key_of}

-- A marker with these keys that starts at `start`.
unfoldable has_marker : Text → Text → ℕ → List Batch → Bool
unfolding text_eq
has_marker ingest bucket start [] = false
has_marker ingest bucket start (row ∷ rows) =
    (text_eq row.ingest_key ingest
      && (text_eq row.bucket_key bucket && (row.bucket_start == start)))
    || has_marker ingest bucket start rows

marker_is_batch :
    (ingest bucket : Text) (start : ℕ) (rows : List Batch)
    → has_marker ingest bucket start rows ≡ true
    → has_batch ingest bucket rows ≡ true
unfolding has_marker has_batch
marker_is_batch ingest bucket start [] h = absurd cc
marker_is_batch ingest bucket start (row ∷ rows) h =
    elim (Bool-cases (has_marker ingest bucket start rows)) [
      | inl later ↦ ground (arith, marker_is_batch ingest bucket start rows later)
      | inr here ↦ ground (arith, h, here)
    ]

has_marker-expire :
    (ingest bucket : Text) (start cutoff limit : ℕ) (rows : List Batch)
    → leb cutoff start ≡ true
    → has_marker ingest bucket start (expire cutoff limit rows).1
      ≡ has_marker ingest bucket start rows
unfolding has_marker expire
has_marker-expire ingest bucket start cutoff limit [] h = refl
has_marker-expire ingest bucket start cutoff limit (row ∷ rows) h =
    ground (arith, h, has_marker-expire ingest bucket start cutoff limit rows h)

has_marker-select :
    (ingest bucket : Text) (start cutoff : ℕ) (rows : List Batch)
    → ltb cutoff start ≡ true
    → has_marker ingest bucket start (select (λ row. not (leb row.bucket_start cutoff)) rows)
      ≡ has_marker ingest bucket start rows
unfolding has_marker select
has_marker-select ingest bucket start cutoff [] h = refl
has_marker-select ingest bucket start cutoff (row ∷ rows) h =
    ground (arith, h, has_marker-select ingest bucket start cutoff rows h)

-- The event removes no marker of a bucket that starts at `start` on account of its age.
abbrev pub spares : {F : Type 0} → ℕ → TableEvent F → Bool
spares start (deliver x d) = true
spares start (roll_up fails from until) = true
spares start (trim x cutoff limit) = ltb cutoff start
spares start (retain fails uncounted cutoff limit) = leb cutoff start

module _ {F : Type 0} (fm : Formats) (fl : Float64 F) where
  abbrev minute_of : Delivery F → ℕ
  minute_of d = truncate_time d.bucket.bucket_start minute

  abbrev is_marked : Delivery F → Ledger F → Bool
  is_marked d l = has_marker d.ingest_key (key_of fm d) (minute_of d) l.batches

  run_event-keeps :
      (d : Delivery F) (e : TableEvent F) (l : Ledger F)
      → spares (minute_of d) e ≡ true
      → is_marked d l ≡ true
      → is_marked d (run_event fm fl e l) ≡ true
  unfolding run_event
  run_event-keeps d (deliver x other) l s h =
      unfold upsert_http record_delivery has_marker in ground (arith, h)
  run_event-keeps d (roll_up fails from until) l s h = unfold rollup_http in ground (arith, h)
  run_event-keeps d (trim x cutoff limit) l s h =
      unfold trim_http_before in
      ground
        (arith, h, has_marker-select d.ingest_key (key_of fm d) (minute_of d) cutoff l.batches s)
  run_event-keeps d (retain fails uncounted cutoff limit) l s h =
      unfold delete_before in
      ground (
        arith,
        h,
        has_marker-expire d.ingest_key (key_of fm d) (minute_of d) cutoff limit l.batches s,
      )

  run_events-keeps :
      (d : Delivery F) (es : List (TableEvent F)) (l : Ledger F)
      → All (λ e. spares (minute_of d) e ≡ true) es
      → is_marked d l ≡ true
      → is_marked d (run_events fm fl es l) ≡ true
  unfolding run_events
  run_events-keeps d [] l s h = h
  run_events-keeps d (e ∷ es) l s h =
      run_events-keeps d es (run_event fm fl e l) s.1 (run_event-keeps d e l s.0 h)

  ok_is_marked :
      (x : Faults) (d : Delivery F) (l : Ledger F)
      → is_known fm d l ≡ false
      → (upsert_http fm fl x d l).0 ≡ ok tt
      → is_marked d (upsert_http fm fl x d l).1 ≡ true
  unfolding upsert_http record_delivery has_marker
  ok_is_marked x d l new h =
      ground (
        arith,
        new,
        h,
        text_eq_refl d.ingest_key,
        text_eq_refl (key_of fm d),
        ==_refl (minute_of d),
      )

  known_changes_nothing :
      (x : Faults) (d : Delivery F) (l : Ledger F)
      → is_known fm d l ≡ true
      → (upsert_http fm fl x d l).1 ≡ l
  unfolding upsert_http
  known_changes_nothing x d l h = ground (arith, h)

  -- Once a delivery that the ledger did not know has succeeded, the same delivery changes nothing,
  -- whatever fails in it, and whatever deliveries, rollups, trims whose cutoff is before the
  -- bucket's minute and age retentions whose cutoff is not after that minute come in between.
  pub upsert_http-retry :
      (x y : Faults) (d : Delivery F) (es : List (TableEvent F)) (l : Ledger F)
      → is_known fm d l ≡ false
      → (upsert_http fm fl x d l).0 ≡ ok tt
      → All (λ e. spares (minute_of d) e ≡ true) es
      → (upsert_http fm fl y d (run_events fm fl es (upsert_http fm fl x d l).1)).1
        ≡ run_events fm fl es (upsert_http fm fl x d l).1
  upsert_http-retry x y d es l new h s =
      let left = run_events fm fl es (upsert_http fm fl x d l).1 in
      known_changes_nothing y d left (
        marker_is_batch d.ingest_key (key_of fm d) (minute_of d) left.batches
          (run_events-keeps d es (upsert_http fm fl x d l).1 s (ok_is_marked x d l new h)))
