-- ===== src/Performance/Batches.antt =====
-- A batch from its observations to the stored buckets (`collectHTTP` of
-- internal/service/performance_collector.go with `UpsertHTTP` of internal/store/performance.go).
use touchgrass.Base.{
  ℕ, suc, ◌+◌, ◌≡◌, refl, sym, ap, ◌∙◌, subst, inl, inr, Bool, true, false, ◌||◌, if◌then◌else◌,
  Text, text_eq, List, [], ◌∷◌, All, All_both, arith, Bool-cases, Option-cases,
}
use touchgrass.Base.Results.{Result, ok, err}
use touchgrass.Performance.{Float64, minute, truncate_time, Series, HttpMetricBucket, is_keyed}
use touchgrass.Performance.Ledger.{
  Formats, Batch, has_batch, Ledger, Faults, Delivery, is_known, record_delivery, upsert_http,
}
use touchgrass.Performance.Totals.{total, accumulate-total}
use touchgrass.Performance.Agreement.{Figure, figure, figure-add_tally, is_bucket}
use touchgrass.Performance.Deliveries.{key_of}
use touchgrass.Performance.Cursors.{CollectorCursor, Weather, upsert_cursor, final_cursor}
use touchgrass.Performance.Collector.{
  HttpObservation, start_of, series_of, update_bucket, aggregate_http, ingest_key_of, Collected,
  write_buckets, collect_http,
}
use touchgrass.Performance.Aggregates.{observed, aggregate_http-counts}
use touchgrass.Performance.Advances.{delivered}

-- Some batch has been recorded under the ingest key.
unfoldable pub is_used : Text → List Batch → Bool
unfolding text_eq
is_used key [] = false
is_used key (row ∷ rows) = text_eq row.ingest_key key || is_used key rows

unused_is_unknown :
    (key bucket : Text) (rows : List Batch)
    → is_used key rows ≡ false
    → has_batch key bucket rows ≡ false
unfolding is_used has_batch
unused_is_unknown key bucket [] h = refl
unused_is_unknown key bucket (row ∷ rows) h =
    ground (arith, h, unused_is_unknown key bucket rows (ground (arith, h)))

module _ {F : Type 0} (fm : Formats) (fl : Float64 F) where
  -- The bucket keys of a batch differ.
  abbrev pub IsApart : List (HttpMetricBucket F) → Type 0
  IsApart [] = Unit
  IsApart (b ∷ bs) =
      All
        (λ c. text_eq (key_of fm (delivered fm fl [] b)) (key_of fm (delivered fm fl [] c)) ≡ false)
        bs
      × IsApart bs

  abbrev IsAligned : HttpMetricBucket F → Type 0
  IsAligned row = truncate_time row.bucket_start minute ≡ row.bucket_start

  update_bucket-IsAligned :
      (start : ℕ) (series : Series) (o : HttpObservation F) (rows : List (HttpMetricBucket F))
      → truncate_time start minute ≡ start
      → All IsAligned rows
      → All IsAligned (update_bucket fl start series o rows)
  unfolding update_bucket
  update_bucket-IsAligned start series o [] e a = (e, tt)
  update_bucket-IsAligned start series o (row ∷ rows) e a =
      elim (Bool-cases (is_keyed start series row)) [
        | inl same ↦ rw same (a.0, a.1)
        | inr other ↦ rw other (a.0, update_bucket-IsAligned start series o rows e a.1)
      ]

  start_of-aligned :
      (now : ℕ) (o : HttpObservation F)
      → truncate_time (start_of (truncate_time now minute) o) minute
        ≡ start_of (truncate_time now minute) o
  start_of-aligned now o = ground arith

  aggregate_http-IsAligned :
      (now : ℕ) (service environment : Text) (os : List (HttpObservation F))
      (rows : List (HttpMetricBucket F))
      → All IsAligned rows
      → All IsAligned (aggregate_http fl (truncate_time now minute) service environment os rows)
  unfolding aggregate_http
  aggregate_http-IsAligned now service environment [] rows a = a
  aggregate_http-IsAligned now service environment (o ∷ os) rows a =
      let start = start_of (truncate_time now minute) o in
      let series = series_of service environment o in
      aggregate_http-IsAligned now service environment os (update_bucket fl start series o rows)
        (update_bucket-IsAligned start series o rows (start_of-aligned now o) a)

  ok_records :
      (x : Faults) (d : Delivery F) (l : Ledger F)
      → (upsert_http fm fl x d l).0 ≡ ok tt
      → is_known fm d l ≡ false
      → record_delivery fm fl d l ≡ (upsert_http fm fl x d l).1
  unfolding upsert_http
  ok_records x d l h k = ground (arith, h, k)

  record_delivery-known :
      (d e : Delivery F) (l : Ledger F)
      → text_eq (key_of fm d) (key_of fm e) ≡ false
      → is_known fm e l ≡ false
      → is_known fm e (record_delivery fm fl d l) ≡ false
  unfolding record_delivery has_batch
  record_delivery-known d e l apart k = ground (arith, apart, k)

  pick :
      (r : Result (Unit {0})) (rest : Bool × Ledger F) (l : Ledger F)
      → (elim r as (λ x. Bool × Ledger F) [ ok u ↦ rest | err e ↦ (false, l) ]).0 ≡ true
      → (r ≡ ok tt) × (rest ≡ elim r as (λ x. Bool × Ledger F) [ ok u ↦ rest | err e ↦ (false, l) ])
  pick (ok u) rest l h = (refl, refl)
  pick (err e) rest l h = absurd cc

  recorded-total :
      (q : ℕ → Series → Bool) (g : Figure) (d : Delivery F) (l : Ledger F)
      → total q (figure g) (record_delivery fm fl d l).minutes
        ≡ total q (figure g) l.minutes
          + (if q (truncate_time d.bucket.bucket_start minute) d.bucket.series
              then figure g d.bucket.tally
              else 0)
  unfolding record_delivery
  recorded-total q g d l =
      accumulate-total fl q (figure g) (figure-add_tally fl g)
        (truncate_time d.bucket.bucket_start minute) d.bucket.series d.bucket.tally l.minutes

  write_buckets-total :
      (q : ℕ → Series → Bool) (g : Figure) (faults : ℕ → Faults) (key : Text) (n : ℕ)
      (bs : List (HttpMetricBucket F)) (l : Ledger F)
      → All (λ b. is_known fm (delivered fm fl key b) l ≡ false) bs
      → IsApart bs
      → All IsAligned bs
      → (write_buckets fm fl faults key n bs l).0 ≡ true
      → total q (figure g) (write_buckets fm fl faults key n bs l).1.minutes
        ≡ total q (figure g) l.minutes + total q (figure g) bs
  unfolding write_buckets total
  write_buckets-total q g faults key n [] l k a e h = omega arith
  write_buckets-total q g faults key n (b ∷ bs) l k a e h =
      let d = delivered fm fl key b in
      let one = upsert_http fm fl (faults n) d l in
      let rest = write_buckets fm fl faults key (suc n) bs one.1 in
      let step = pick one.0 rest one.1 h in
      let recorded : record_delivery fm fl d l ≡ one.1 = ok_records (faults n) d l step.0 k.0 in
      let others : All (λ c. is_known fm (delivered fm fl key c) one.1 ≡ false) bs =
        subst (λ m. All (λ c. is_known fm (delivered fm fl key c) m ≡ false) bs) recorded
          (All_both
            (λ c.
              text_eq (key_of fm (delivered fm fl [] b)) (key_of fm (delivered fm fl [] c)) ≡ false)
            (λ c. is_known fm (delivered fm fl key c) l ≡ false)
            (λ c. is_known fm (delivered fm fl key c) (record_delivery fm fl d l) ≡ false) bs
            (λ c apart unknown. record_delivery-known d (delivered fm fl key c) l apart unknown) a.0
            k.1) in
      let finished : rest.0 ≡ true = ap (λ (r : Bool × Ledger F). r.0) step.1 ∙ h in
      let added : total q (figure g) one.1.minutes
          ≡ total q (figure g) l.minutes
            + (if q b.bucket_start b.series then figure g b.tally else 0) =
        sym (ap (λ (m : Ledger F). total q (figure g) m.minutes) recorded)
        ∙ recorded-total q g d l
        ∙ ap (λ t. total q (figure g) l.minutes + (if q t b.series then figure g b.tally else 0))
            e.0 in
      sym (ap (λ (r : Bool × Ledger F). total q (figure g) r.1.minutes) step.1)
      ∙ omega (
        arith,
        added,
        write_buckets-total q g faults key (suc n) bs one.1 others a.1 e.1 finished,
      )

  all_unknown :
      (key : Text) (bs : List (HttpMetricBucket F)) (l : Ledger F)
      → is_used key l.batches ≡ false
      → All (λ b. is_known fm (delivered fm fl key b) l ≡ false) bs
  all_unknown key [] l h = tt
  all_unknown key (b ∷ bs) l h = (
    unused_is_unknown key (key_of fm (delivered fm fl key b)) l.batches h,
    all_unknown key bs l h,
  )

  -- A batch whose buckets are all written, under an ingest key that was not used before, adds to
  -- each minute bucket of a series exactly the requests, errors, bytes and histogram entries of the
  -- batch's observations of that minute and series, given that the digests of the batch's bucket
  -- keys differ.
  pub collect_http-adds :
      (w : Weather) (now : ℕ) (service environment : Text) (os : List (HttpObservation F))
      (c : CollectorCursor) (s : Collected F) (g : Figure) (at : ℕ) (whose : Series)
      → is_used (ingest_key_of fm c) s.ledger.batches ≡ false
      → IsApart (aggregate_http fl (truncate_time now minute) service environment os [])
      → (write_buckets fm fl w.at_bucket
          (ingest_key_of fm c)
          0
          (aggregate_http fl (truncate_time now minute) service environment os [])
          s.ledger).0
        ≡ true
      → total
          (is_bucket at whose)
          (figure g)
          (collect_http fm fl w now service environment (ok (os, c)) s).ledger.minutes
        ≡ total (is_bucket at whose) (figure g) s.ledger.minutes
          + observed fl (truncate_time now minute) service environment (is_bucket at whose) g os
  collect_http-adds w now service environment os c s g at whose unused apart done =
      let key = ingest_key_of fm c in
      let bs = aggregate_http fl (truncate_time now minute) service environment os [] in
      let wrote = write_buckets fm fl w.at_bucket key 0 bs s.ledger in
      let after = collect_http fm fl w now service environment (ok (os, c)) s in
      let same : wrote.1 ≡ after.ledger =
        elim (Option-cases (upsert_cursor w.upsert_fails (final_cursor w s.cursors c) s.cursors)) [
          | inl refused ↦ unfold collect_http in ground (arith, done, refused)
          | inr (cursors, stored) ↦ unfold collect_http in ground (arith, done, stored)
        ] in
      sym (ap (λ (l : Ledger F). total (is_bucket at whose) (figure g) l.minutes) same)
      ∙ write_buckets-total (is_bucket at whose) g w.at_bucket key 0 bs s.ledger
          (all_unknown key bs s.ledger unused) apart
          (aggregate_http-IsAligned now service environment os [] tt) done
      ∙ ap (λ n. total (is_bucket at whose) (figure g) s.ledger.minutes + n)
          (aggregate_http-counts fl (truncate_time now minute) service environment g at whose os).1
