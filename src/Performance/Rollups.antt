-- ===== src/Performance/Rollups.antt =====
-- Hourly buckets made anew from the minutes (`RollupHTTP` of internal/store/performance.go).
use touchgrass.Base.{
  ℕ, ◌+◌, ◌<◌, ◌≡◌, refl, ◌∙◌, Bool, true, false, not, ◌&&◌, ltb, leb, if◌then◌else◌, List, [], ◌∷◌,
  select, arith,
}
use touchgrass.Performance.{Float64, hour, truncate_time, Series, HttpMetricBucket, accumulate}
use touchgrass.Performance.Ledger.{Ledger, group_hours, is_inside, rollup_http}
use touchgrass.Performance.Totals.{total, accumulate-total}
use touchgrass.Performance.Agreement.{Figure, figure, figure-add_tally, is_bucket, is_within}

module _ {F : Type 0} (fl : Float64 F) (g : Figure) (at : ℕ) (whose : Series) where
  group_hours-total :
      (rows hours : List (HttpMetricBucket F))
      → total (is_bucket at whose) (figure g) (group_hours fl rows hours)
        ≡ total (is_bucket at whose) (figure g) hours + total (is_within at whose) (figure g) rows
  unfolding group_hours total
  group_hours-total [] hours = omega arith
  group_hours-total (row ∷ rows) hours =
      let start = truncate_time row.bucket_start hour in
      omega (
        arith,
        group_hours-total rows (accumulate fl start row.series row.tally hours),
        accumulate-total fl (is_bucket at whose) (figure g) (figure-add_tally fl g) start row.series
            row.tally hours,
      )

  -- The bounds that `RollupHTTP` takes are whole hours.
  select-within :
      (start end : ℕ) (rows : List (HttpMetricBucket F))
      → total
          (is_within at whose)
          (figure g)
          (select (is_inside (truncate_time start hour) (truncate_time end hour)) rows)
        ≡ (if leb (truncate_time start hour) at && ltb at (truncate_time end hour)
            then total (is_within at whose) (figure g) rows
            else 0)
  unfolding total select
  select-within start end [] = ground arith
  select-within start end (row ∷ rows) = ground (arith, select-within start end rows)

  select-outside :
      (from until : ℕ) (rows : List (HttpMetricBucket F))
      → total (is_bucket at whose) (figure g) (select (λ row. not (is_inside from until row)) rows)
        ≡ (if leb from at && ltb at until then 0 else total (is_bucket at whose) (figure g) rows)
  unfolding total select
  select-outside from until [] = ground arith
  select-outside from until (row ∷ rows) = ground (arith, select-outside from until rows)

  -- Over a range of whole hours that is not empty, a rollup that succeeds sets each hourly bucket
  -- inside of the range to what the minute buckets of its hour and series add up to, whatever it
  -- held before, and leaves the hourly buckets outside of the range and the minutes alone; one that
  -- fails leaves all of them as they are.
  pub rollup_http-agrees :
      (fails : Bool) (start end : ℕ) (l : Ledger F)
      → truncate_time start hour < truncate_time end hour
      → ((rollup_http fl fails start end l).1.minutes ≡ l.minutes)
        × (total (is_bucket at whose) (figure g) (rollup_http fl fails start end l).1.hours ≡ (
            if not fails && (leb (truncate_time start hour) at && ltb at (truncate_time end hour))
            then total (is_within at whose) (figure g) l.minutes
            else total (is_bucket at whose) (figure g) l.hours))
  unfolding rollup_http
  rollup_http-agrees true start end l w = (ground (arith, w), ground (arith, w))
  rollup_http-agrees false start end l w =
      let from = truncate_time start hour in
      let until = truncate_time end hour in
      let kept = select (λ row. not (is_inside from until row)) l.hours in
      let moved = select (is_inside from until) l.minutes in
      let proper : leb until from ≡ false = ground (arith, w) in
      rw proper (
        refl,
        group_hours-total moved kept
            ∙ ground (arith, select-within start end l.minutes, select-outside from until l.hours),
      )
