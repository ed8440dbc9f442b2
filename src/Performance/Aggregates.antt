-- ===== src/Performance/Aggregates.antt =====
-- What a batch of observations becomes (`aggregateHTTP` of
-- internal/service/performance_collector.go).
use touchgrass.Base.{
  ℕ, ◌+◌, ◌≤◌, ◌≡◌, refl, sym, ap, ◌∙◌, ◌⊎◌, inl, inr, Bool, if◌then◌else◌, Text, List, [], ◌∷◌,
  length, count, All, arith, Bool-cases,
}
use touchgrass.Performance.{
  Float64, Histogram, empty_histogram, bounds, observe, merge, Series, Tally, HttpMetricBucket,
  is_keyed,
}
use touchgrass.Performance.Collector.{
  HttpObservation, empty_tally, count_observation, start_of, series_of, update_bucket,
  aggregate_http,
}
use touchgrass.Performance.Percentiles.{observe_in-merge, length-observe_in, empty-merge}
use touchgrass.Performance.Totals.{same_series-eq, total, share_of}
use touchgrass.Performance.Agreement.{
  counter, counter-merge, Figure, requests, errors, sent, received, slot, figure, is_bucket,
}

module _ {F : Type 0} (fl : Float64 F) where
  -- What one observation adds to each figure.
  abbrev pub single : HttpObservation F → Tally F
  single o = count_observation fl o (empty_tally fl)

  observe-merge :
      (d : F) (h : Histogram)
      → length h ≡ 10
      → merge (observe fl d empty_histogram) h ≡ observe fl d h
  unfolding observe
  observe-merge d h l =
      observe_in-merge fl d bounds empty_histogram h (omega (arith, l))
      ∙ ap (observe fl d) (empty-merge fl h l)

  figure-count_observation :
      (g : Figure) (o : HttpObservation F) (t : Tally F)
      → length t.histogram ≡ 10
      → figure g (count_observation fl o t) ≡ figure g t + figure g (single o)
  unfolding figure count_observation
  figure-count_observation requests o t l = omega arith
  figure-count_observation errors o t l = ground arith
  figure-count_observation sent o t l = omega arith
  figure-count_observation received o t l = omega arith
  figure-count_observation (slot i) o t l =
      ap (counter i) (sym (observe-merge o.duration_ms t.histogram l))
      ∙ counter-merge i (observe fl o.duration_ms empty_histogram) t.histogram
      ∙ omega arith

  abbrev IsWide : HttpMetricBucket F → Type 0
  IsWide row = length row.tally.histogram ≡ 10

  update_bucket-IsWide :
      (start : ℕ) (series : Series) (o : HttpObservation F) (rows : List (HttpMetricBucket F))
      → All IsWide rows
      → All IsWide (update_bucket fl start series o rows)
  unfolding update_bucket count_observation observe
  update_bucket-IsWide start series o [] a =
      (length-observe_in fl o.duration_ms bounds empty_histogram, tt)
  update_bucket-IsWide start series o (row ∷ rows) a =
      elim (Bool-cases (is_keyed start series row)) [
        | inl same ↦
            rw same (length-observe_in fl o.duration_ms bounds row.tally.histogram ∙ a.0, a.1)
        | inr other ↦ rw other (a.0, update_bucket-IsWide start series o rows a.1)
      ]

  update_bucket-total :
      (q : ℕ → Series → Bool) (g : Figure) (start : ℕ) (series : Series) (o : HttpObservation F)
      (rows : List (HttpMetricBucket F))
      → All IsWide rows
      → total q (figure g) (update_bucket fl start series o rows)
        ≡ total q (figure g) rows + share_of q (figure g) start series (single o)
  unfolding update_bucket total
  update_bucket-total q g start series o [] a = omega arith
  update_bucket-total q g start series o (row ∷ rows) a =
      elim (Bool-cases (is_keyed start series row)) [
        | inl same ↦
            let at : row.bucket_start ≡ start = ground (arith, same) in
            let whose : row.series ≡ series =
              same_series-eq row.series series (ground (arith, same)) in
            ground (
              arith,
              same,
              ap (λ t. q t row.series) at,
              ap (λ s. q start s) whose,
              figure-count_observation g o row.tally a.0,
            )
        | inr other ↦ ground (arith, other, update_bucket-total q g start series o rows a.1)
      ]

  -- Either a bucket of the key is there, or one is added.
  update_bucket-count :
      (at : ℕ) (whose : Series) (start : ℕ) (series : Series) (o : HttpObservation F)
      (rows : List (HttpMetricBucket F))
      → (count (is_keyed at whose) (update_bucket fl start series o rows)
          ≡ count (is_keyed at whose) rows)
        ⊎ ((count (is_keyed start series) rows ≡ 0)
            × (count (is_keyed at whose) (update_bucket fl start series o rows)
                ≡ count (is_keyed at whose) rows
                  + (if is_bucket at whose start series then 1 else 0)))
  unfolding update_bucket count
  update_bucket-count at whose start series o [] = inr (refl, omega arith)
  update_bucket-count at whose start series o (row ∷ rows) =
      elim (Bool-cases (is_keyed start series row)) [
        | inl same ↦ inl (ground (arith, same))
        | inr other ↦ elim (update_bucket-count at whose start series o rows) [
          | inl kept ↦ inl (ground (arith, other, kept))
          | inr (none_yet, added) ↦
              inr (ground (arith, other, none_yet), ground (arith, other, added))
        ]
      ]

  IsApart-update_bucket :
      (at : ℕ) (whose : Series) (start : ℕ) (series : Series) (o : HttpObservation F)
      (rows : List (HttpMetricBucket F))
      → count (is_keyed at whose) rows ≤ 1
      → count (is_keyed at whose) (update_bucket fl start series o rows) ≤ 1
  IsApart-update_bucket at whose start series o rows l =
      elim (update_bucket-count at whose start series o rows) [
        | inl kept ↦ omega (arith, kept, l)
        | inr (none_yet, added) ↦ elim (Bool-cases (is_bucket at whose start series)) [
          | inl same ↦
              let first : start ≡ at = ground (arith, same) in
              let second : series ≡ whose = same_series-eq series whose (ground (arith, same)) in
              let empty : count (is_keyed at whose) rows ≡ 0 =
                (λ i. count (is_keyed (sym first i) (sym second i)) rows) ∙ none_yet in
              ground (arith, same, added, empty)
          | inr other ↦ ground (arith, other, added, l)
        ]
      ]

  module _ (now_minute : ℕ) (service environment : Text) where
    -- The sum of a figure over the observations whose minute and series pass a test.
    unfoldable pub observed : (ℕ → Series → Bool) → Figure → List (HttpObservation F) → ℕ
    unfolding figure count_observation
    observed q g [] = 0
    observed q g (o ∷ os) =
        share_of q (figure g) (start_of now_minute o) (series_of service environment o) (single o)
        + observed q g os

    aggregate_http-total :
        (q : ℕ → Series → Bool) (g : Figure) (os : List (HttpObservation F))
        (rows : List (HttpMetricBucket F))
        → All IsWide rows
        → total q (figure g) (aggregate_http fl now_minute service environment os rows)
          ≡ total q (figure g) rows + observed q g os
    unfolding aggregate_http observed
    aggregate_http-total q g [] rows a = omega arith
    aggregate_http-total q g (o ∷ os) rows a =
        let start = start_of now_minute o in
        let series = series_of service environment o in
        omega (
          arith,
          aggregate_http-total q g os (update_bucket fl start series o rows)
              (update_bucket-IsWide start series o rows a),
          update_bucket-total q g start series o rows a,
        )

    aggregate_http-apart :
        (at : ℕ) (whose : Series) (os : List (HttpObservation F)) (rows : List (HttpMetricBucket F))
        → count (is_keyed at whose) rows ≤ 1
        → count (is_keyed at whose) (aggregate_http fl now_minute service environment os rows) ≤ 1
    unfolding aggregate_http
    aggregate_http-apart at whose [] rows l = l
    aggregate_http-apart at whose (o ∷ os) rows l =
        let start = start_of now_minute o in
        let series = series_of service environment o in
        aggregate_http-apart at whose os (update_bucket fl start series o rows)
          (IsApart-update_bucket at whose start series o rows l)

    -- A batch makes at most one bucket of each minute and series, and the bucket holds exactly the
    -- requests, errors, bytes and histogram entries of the batch's observations of that minute and
    -- series.
    pub aggregate_http-counts :
        (g : Figure) (at : ℕ) (whose : Series) (os : List (HttpObservation F))
        → (count (is_keyed at whose) (aggregate_http fl now_minute service environment os []) ≤ 1)
          × (total
                (is_bucket at whose)
                (figure g)
                (aggregate_http fl now_minute service environment os [])
              ≡ observed (is_bucket at whose) g os)
    unfolding total count
    aggregate_http-counts g at whose os = (
      aggregate_http-apart at whose os [] (omega arith),
      omega (arith, aggregate_http-total (is_bucket at whose) g os [] tt),
    )
