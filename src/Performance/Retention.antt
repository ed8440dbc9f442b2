-- ===== src/Performance/Retention.antt =====
-- What removes batch markers: `TrimHTTPBefore` of internal/store/performance.go, and `deleteBefore`
-- of internal/store/maintenance.go for the markers. The deletions over a storage budget, which take
-- the oldest markers of any age, are not modelled.
use touchgrass.Base.{
  ℕ, zero, suc, ◌+◌, ◌-◌, Bool, not, ◌&&◌, ◌||◌, ◌==◌, ltb, leb, if◌then◌else◌, Option, none, some,
  List, [], ◌∷◌, select, length,
}
use touchgrass.Base.Ints.{ℤ, pos, negsuc}
use touchgrass.Base.Results.{database, Result, ok, err}
use touchgrass.Performance.{Float64, HttpMetricBucket}
use touchgrass.Performance.Ledger.{
  Formats, Batch, Ledger, Faults, Delivery, upsert_http, rollup_http,
}

-- `MaximumMaintenanceBatch`
abbrev pub maximum_maintenance_batch : ℕ
maximum_maintenance_batch = 1000

-- The limit of `TrimHTTPBefore`, with its default.
abbrev pub trim_limit : ℤ → ℕ
trim_limit (pos n) =
    if (n == 0) || ltb maximum_maintenance_batch n then maximum_maintenance_batch else n
trim_limit (negsuc n) = maximum_maintenance_batch

-- `bucket_start < ?` under the text of `formatTime`: a start is a whole minute with nine digits of
-- fraction and the text of the cutoff drops trailing zeros, so that a start which is the cutoff
-- comes before it as well.
abbrev pub is_trimmed : ℕ → ℕ → Bool
is_trimmed cutoff start = leb start cutoff

-- Which statements of a trim fail: the deletion of the buckets, the count of its rows, and the
-- deletion of the markers, whose error is dropped.
pub record TrimFaults : Type 0 where
  pub buckets : Bool
  pub affected : Bool
  pub markers : Bool

module _ {F : Type 0} where
  -- The earliest start that is to be trimmed.
  unfoldable pub earliest : ℕ → List (HttpMetricBucket F) → Option ℕ
  earliest cutoff [] = none
  earliest cutoff (row ∷ rows) =
      let rest = earliest cutoff rows in
      if is_trimmed cutoff row.bucket_start
      then (elim rest [
        | none ↦ some row.bucket_start
        | some start ↦ if ltb start row.bucket_start then some start else some row.bucket_start
      ])
      else rest

  -- The first row that starts at `start` goes: rows stand in the order of their ids.
  unfoldable pub delete_first : ℕ → List (HttpMetricBucket F) → List (HttpMetricBucket F)
  delete_first start [] = []
  delete_first start (row ∷ rows) =
      if row.bucket_start == start then rows else row ∷ delete_first start rows

  -- `ORDER BY bucket_start, id LIMIT ?`: the earliest row goes, as often as the limit says.
  unfoldable pub trim_minutes : ℕ → ℕ → List (HttpMetricBucket F) → List (HttpMetricBucket F)
  unfolding earliest delete_first
  trim_minutes zero cutoff rows = rows
  trim_minutes (suc n) cutoff rows = elim (earliest cutoff rows) [
    | none ↦ rows
    | some start ↦ trim_minutes n cutoff (delete_first start rows)
  ]

  -- `TrimHTTPBefore`: it returns the number of buckets that went.
  unfoldable pub trim_http_before : TrimFaults → ℕ → ℤ → Ledger F → Result ℕ × Ledger F
  unfolding trim_minutes select
  trim_http_before x cutoff limit l =
      let minutes = trim_minutes (trim_limit limit) cutoff l.minutes in
      let m : Ledger F = record l { minutes = minutes } in
      if x.buckets then (err database, l) else if x.affected then (err database, m) else (
        ok (length l.minutes - length minutes),
        if x.markers then m else record m {
          batches = select (λ row. not (is_trimmed cutoff row.bucket_start)) l.batches;
        },
      )

-- Of the markers that start before the cutoff the first by id go, at most `limit`: the latest
-- marker stands first, so those that follow it come before it. Also how many went.
unfoldable pub expire : ℕ → ℕ → List Batch → ℕ × List Batch
expire cutoff limit [] = (0, [])
expire cutoff limit (row ∷ rows) =
    let (n, rest) = expire cutoff limit rows in
    if ltb row.bucket_start cutoff && ltb n limit then (n + 1, rest) else (n, row ∷ rest)

module _ {F : Type 0} where
  -- `deleteBefore` for performance_ingest_batches, where the deletion fails or the count of its
  -- rows does: both texts have nine digits of fraction.
  unfoldable pub delete_before : (fails uncounted : Bool) → ℕ → ℕ → Ledger F → Result ℕ × Ledger F
  unfolding expire
  delete_before fails uncounted cutoff limit l =
      let (n, rest) = expire cutoff limit l.batches in
      if fails
      then (err database, l)
      else (if uncounted then err database else ok n, record l { batches = rest })

-- What happens to the tables between two deliveries.
pub data TableEvent (F : Type 0) : Type 0 where
  deliver : Faults → Delivery F → TableEvent F
  roll_up : (fails : Bool) → (start end : ℕ) → TableEvent F
  trim : TrimFaults → ℕ → ℤ → TableEvent F
  retain : (fails uncounted : Bool) → (cutoff limit : ℕ) → TableEvent F

module _ {F : Type 0} where
  unfoldable pub run_event : Formats → Float64 F → TableEvent F → Ledger F → Ledger F
  unfolding upsert_http rollup_http trim_http_before delete_before
  run_event fm fl (deliver x d) l = (upsert_http fm fl x d l).1
  run_event fm fl (roll_up fails start end) l = (rollup_http fl fails start end l).1
  run_event fm fl (trim x cutoff limit) l = (trim_http_before x cutoff limit l).1
  run_event fm fl (retain fails uncounted cutoff limit) l =
      (delete_before fails uncounted cutoff limit l).1

  unfoldable pub run_events : Formats → Float64 F → List (TableEvent F) → Ledger F → Ledger F
  unfolding run_event
  run_events fm fl [] l = l
  run_events fm fl (e ∷ es) l = run_events fm fl es (run_event fm fl e l)
