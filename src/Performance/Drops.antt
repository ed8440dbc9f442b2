-- ===== src/Performance/Drops.antt =====
-- How much the collector's cursors count as dropped (`collectHTTP` and `recordFailure` of
-- internal/service/performance_collector.go).
use touchgrass.Base.{
  ℕ, ◌≤◌, ◌≡◌, subst, inl, inr, Bool, false, ◌||◌, Text, bytes, is_empty, List, [], ◌∷◌, Option,
  none, some, arith, Bool-cases, Option-cases,
}
use touchgrass.Base.Maps.{Map, text_key}
use touchgrass.Base.Results.{Result, ok, err}
use touchgrass.Performance.{Float64, minute, truncate_time}
use touchgrass.Performance.Ledger.{Formats}
use touchgrass.Performance.Cursors.{
  CollectorCursor, maximum_dropped_records, bounded_drops, bounded_cursor, Weather, upsert_cursor,
  cursor_or_zero, merge_persisted_drops, written_or, record_failure, final_cursor, nginx,
}
use touchgrass.Performance.Collector.{
  HttpObservation, aggregate_http, ingest_key_of, Collected, Round, write_buckets, collect_http,
  collect_all,
}

abbrev pub drops_of : Option CollectorCursor → ℕ
drops_of none = 0
drops_of (some c) = c.dropped_records

abbrev pub IsCapped : Map Text CollectorCursor → Type 0
IsCapped cursors = (t : Text) → drops_of (cursors t) ≤ maximum_dropped_records

bounded_drops-bound :
    (current added : ℕ)
    → current ≤ maximum_dropped_records
    → bounded_drops current added ≤ maximum_dropped_records
unfolding bounded_drops
bounded_drops-bound current added l = ground arith

upsert_cursor-IsCapped :
    (fails : Bool) (c : CollectorCursor) (cursors : Map Text CollectorCursor)
    → c.dropped_records ≤ maximum_dropped_records
    → IsCapped cursors
    → IsCapped (written_or (upsert_cursor fails c cursors) cursors)
unfolding upsert_cursor
upsert_cursor-IsCapped fails c cursors l k t = elim (Bool-cases (is_empty c.source || fails)) [
  | inl refused ↦ ground (arith, refused, k t)
  | inr stored ↦ ground (arith, stored, k t)
]

cursor_or_zero-capped :
    (fails : Bool) (source : Text) (cursors : Map Text CollectorCursor)
    → IsCapped cursors
    → (cursor_or_zero fails source cursors).dropped_records ≤ maximum_dropped_records
cursor_or_zero-capped fails source cursors k = elim (Option-cases (cursors source)) [
  | inl missing ↦ ground (arith, missing)
  | inr (c, found) ↦ ground (arith, found, k source)
]

record_failure-IsCapped :
    (w : Weather) (now : ℕ) (source category : Text) (cursors : Map Text CollectorCursor)
    → IsCapped cursors
    → IsCapped (record_failure w now source category cursors)
unfolding record_failure
record_failure-IsCapped w now source category cursors k =
    let c = cursor_or_zero w.get_fails source cursors in
    upsert_cursor-IsCapped w.upsert_fails
      (record c {
        source = source;
        last_error = category;
        coverage_complete = false;
        dropped_records = bounded_drops c.dropped_records 1;
        updated_at = now;
      })
      cursors
      (bounded_drops-bound c.dropped_records 1 (cursor_or_zero-capped w.get_fails source cursors k))
      k

final_cursor-capped :
    (w : Weather) (cursors : Map Text CollectorCursor) (c : CollectorCursor)
    → IsCapped cursors
    → (final_cursor w cursors c).dropped_records ≤ maximum_dropped_records
unfolding final_cursor merge_persisted_drops bounded_cursor
final_cursor-capped w cursors c k = elim (Option-cases (cursors c.source)) [
  | inl missing ↦ ground (arith, missing)
  | inr (p, found) ↦ ground (arith, found, k c.source)
]

module _ {F : Type 0} (fm : Formats) (fl : Float64 F) where
  abbrev IsBounded : Collected F → Type 0
  IsBounded s = IsCapped s.cursors × (s.held.dropped_records ≤ maximum_dropped_records)

  settled :
      (after : Collected F) (cursors : Map Text CollectorCursor) (held : CollectorCursor)
      → cursors ≡ after.cursors
      → held ≡ after.held
      → IsCapped cursors
      → held.dropped_records ≤ maximum_dropped_records
      → IsBounded after
  settled after cursors held e f k h =
      (subst IsCapped e k, subst (λ c. c.dropped_records ≤ maximum_dropped_records) f h)

  module _ (service environment : Text) where
    collect_http-IsBounded :
        (w : Weather) (now : ℕ) (read : Result (List (HttpObservation F) × CollectorCursor))
        (s : Collected F)
        → IsBounded s
        → IsBounded (collect_http fm fl w now service environment read s)
    unfolding collect_http
    collect_http-IsBounded w now (err e) s k =
        (record_failure-IsCapped w now nginx (bytes "nginx_unavailable") s.cursors k.0, k.1)
    collect_http-IsBounded w now (ok (os, c)) s k =
        let key = ingest_key_of fm c in
        let buckets = aggregate_http fl (truncate_time now minute) service environment os [] in
        let wrote = write_buckets fm fl w.at_bucket key 0 buckets s.ledger in
        let final = final_cursor w s.cursors c in
        let after = collect_http fm fl w now service environment (ok (os, c)) s in
        let failed = record_failure w now nginx (bytes "nginx_write_failed") s.cursors in
        let capped = final_cursor-capped w s.cursors c k.0 in
        elim (Bool-cases wrote.0) [
          | inr stopped ↦
              let cursors : failed ≡ after.cursors =
                unfold collect_http in ground (arith, stopped) in
              let held : s.held ≡ after.held = unfold collect_http in ground (arith, stopped) in
              settled after failed s.held cursors held
                (record_failure-IsCapped w now nginx (bytes "nginx_write_failed") s.cursors k.0) k.1
          | inl done ↦ elim (Option-cases (upsert_cursor w.upsert_fails final s.cursors)) [
            | inl refused ↦
                let cursors : s.cursors ≡ after.cursors =
                  unfold collect_http in ground (arith, done, refused) in
                let held : s.held ≡ after.held =
                  unfold collect_http in ground (arith, done, refused) in
                settled after s.cursors s.held cursors held k.0 k.1
            | inr (new, stored) ↦
                let cursors : new ≡ after.cursors =
                  unfold collect_http in ground (arith, done, stored) in
                let held : final ≡ after.held =
                  unfold collect_http in ground (arith, done, stored) in
                settled after new final cursors held
                  (subst (λ o. IsCapped (written_or o s.cursors)) stored
                    (upsert_cursor-IsCapped w.upsert_fails final s.cursors capped k.0))
                  capped
          ]
        ]

    -- However many turns are taken and whatever fails in them, no cursor counts more than a
    -- thousand million dropped records, given that none did at first.
    collect_all-drops :
        (rounds : List (Round F)) (s : Collected F)
        → ((t : Text) → drops_of (s.cursors t) ≤ maximum_dropped_records)
        → s.held.dropped_records ≤ maximum_dropped_records
        → ((t : Text)
            → drops_of ((collect_all fm fl service environment rounds s).cursors t)
              ≤ maximum_dropped_records)
          × ((collect_all fm fl service environment rounds s).held.dropped_records
              ≤ maximum_dropped_records)
    unfolding collect_all
    collect_all-drops [] s k h = (k, h)
    collect_all-drops (r ∷ rounds) s k h =
        let next = collect_http-IsBounded r.weather r.now r.read s (k, h) in
        collect_all-drops rounds (collect_http fm fl r.weather r.now service environment r.read s)
          next.0 next.1
