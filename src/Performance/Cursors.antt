-- ===== src/Performance/Cursors.antt =====
-- The collectors' cursors (`recordFailure`, `recordSuccess`, `mergePersistedDrops`, `boundedDrops`
-- and `boundedCursor` of internal/service/performance_collector.go; `Get` and `Upsert` of
-- internal/store/maintenance.go).
use touchgrass.Base.{
  ℕ, ◌+◌, Bool, true, false, not, ◌&&◌, ◌||◌, ◌==◌, ltb, leb, if◌then◌else◌, Text, bytes, is_empty,
  List, [], ◌∷◌, ◌++◌, Option, none, some,
}
use touchgrass.Base.Maps.{Map, insert, get_or, text_key}
use touchgrass.Performance.Ledger.{Faults}

-- `CollectorCursor`
pub record CollectorCursor : Type 0 where
  pub source : Text
  pub identity : Text
  pub offset : ℕ
  pub last_recorded_at : ℕ
  pub last_success_at : ℕ
  pub last_error : Text
  pub dropped_records : ℕ
  pub coverage_complete : Bool
  pub effective_interval_secs : ℕ
  pub updated_at : ℕ

abbrev pub zero_cursor : CollectorCursor
zero_cursor = record {
  source = [];
  identity = [];
  offset = 0;
  last_recorded_at = 0;
  last_success_at = 0;
  last_error = [];
  dropped_records = 0;
  coverage_complete = false;
  effective_interval_secs = 0;
  updated_at = 0;
}

abbrev pub maximum_dropped_records : ℕ
maximum_dropped_records = 1000000000

-- `boundedDrops`; `current >= maximum - added` on signed integers is `maximum <= current + added`.
unfoldable pub bounded_drops : ℕ → ℕ → ℕ
bounded_drops current added =
    if leb added 0
    then current
    else if leb maximum_dropped_records (current + added)
    then maximum_dropped_records
    else current + added

-- `boundedCursor`
unfoldable pub bounded_cursor : CollectorCursor → CollectorCursor
bounded_cursor c = record c {
  dropped_records =
      if ltb maximum_dropped_records c.dropped_records
      then maximum_dropped_records
      else c.dropped_records;
}

-- What fails outside of the program during one collection; `at_bucket n` is for the bucket
-- that is written `n`-th.
pub record Weather : Type 0 where
  pub at_bucket : ℕ → Faults
  pub get_fails : Bool
  pub upsert_fails : Bool

-- `Upsert` of the cursor store.
unfoldable pub upsert_cursor :
    Bool → CollectorCursor → Map Text CollectorCursor → Option (Map Text CollectorCursor)
unfolding is_empty
upsert_cursor fails c cursors =
    if is_empty c.source || fails then none else some (insert cursors c.source c)

-- `cursor, _ := c.writer.Get(ctx, source)`
abbrev pub cursor_or_zero : Bool → Text → Map Text CollectorCursor → CollectorCursor
cursor_or_zero fails source cursors =
    if fails then zero_cursor else get_or cursors source zero_cursor

-- `mergePersistedDrops`
unfoldable pub merge_persisted_drops :
    Bool → Map Text CollectorCursor → CollectorCursor → CollectorCursor
merge_persisted_drops fails cursors c = elim (cursors c.source) [
  | none ↦ c
  | some persisted ↦
      if not fails && ltb c.dropped_records persisted.dropped_records
      then record c { dropped_records = persisted.dropped_records }
      else c
]

-- The cursors after a write that may fail: a failure is only logged.
abbrev pub written_or :
    Option (Map Text CollectorCursor) → Map Text CollectorCursor → Map Text CollectorCursor
written_or none cursors = cursors
written_or (some new) cursors = new

-- `recordFailure`
unfoldable pub record_failure :
    Weather → ℕ → Text → Text → Map Text CollectorCursor → Map Text CollectorCursor
unfolding bounded_drops upsert_cursor
record_failure w now source category cursors =
    let c = cursor_or_zero w.get_fails source cursors in
    let failed = record c {
      source = source;
      last_error = category;
      coverage_complete = false;
      dropped_records = bounded_drops c.dropped_records 1;
      updated_at = now;
    } in
    written_or (upsert_cursor w.upsert_fails failed cursors) cursors

abbrev is_empty_list : List Text → Bool
is_empty_list [] = true
is_empty_list (t ∷ ts) = false

-- `strings.Join(partial, ",")`
unfoldable pub join_commas : List Text → Text
join_commas [] = []
join_commas (part ∷ []) = part
join_commas (part ∷ next ∷ parts) = part ++ 44 ∷ join_commas (next ∷ parts)

-- `recordSuccess`
unfoldable record_success :
    Weather
    → ℕ
    → Text
    → (recorded : ℕ) → List Text
    → (dropped : ℕ) → Map Text CollectorCursor
    → Map Text CollectorCursor
unfolding bounded_drops upsert_cursor join_commas
record_success w now source recorded partial dropped cursors =
    let c = cursor_or_zero w.get_fails source cursors in
    let succeeded = record c {
      source = source;
      last_recorded_at = if recorded == 0 then now else recorded;
      last_success_at = now;
      last_error = join_commas partial;
      coverage_complete = is_empty_list partial;
      dropped_records = bounded_drops c.dropped_records dropped;
      updated_at = now;
    } in
    written_or (upsert_cursor w.upsert_fails succeeded cursors) cursors

-- The cursor that `collectHTTP` writes once all buckets are.
unfoldable pub final_cursor : Weather → Map Text CollectorCursor → CollectorCursor → CollectorCursor
unfolding bounded_cursor merge_persisted_drops
final_cursor w cursors c = record (merge_persisted_drops w.get_fails cursors (bounded_cursor c)) {
  coverage_complete = true;
}

abbrev pub nginx : Text
nginx = bytes "nginx"
