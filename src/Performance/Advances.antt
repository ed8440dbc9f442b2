-- ===== src/Performance/Advances.antt =====
-- When the tailer's cursor moves (`collectHTTP` of internal/service/performance_collector.go).
use touchgrass.Base.{
  ℕ, suc, ◌≡◌, refl, subst, ◌⊎◌, inl, inr, Bool, true, false, Text, List, [], ◌∷◌, All, arith,
  Bool-cases, Option-cases,
}
use touchgrass.Base.Maps.{Map, text_key}
use touchgrass.Base.Results.{Result, ok, err}
use touchgrass.Performance.{Float64, minute, truncate_time, HttpMetricBucket}
use touchgrass.Performance.Ledger.{Formats, Ledger, Faults, Delivery, is_known, upsert_http}
use touchgrass.Performance.Deliveries.{ok_is_known, upsert_http-knows}
use touchgrass.Performance.Cursors.{
  CollectorCursor, bounded_cursor, Weather, upsert_cursor, merge_persisted_drops, final_cursor,
}
use touchgrass.Performance.Collector.{
  HttpObservation, aggregate_http, ingest_key_of, Collected, write_buckets, collect_http,
}

module _ {F : Type 0} (fm : Formats) (fl : Float64 F) where
  abbrev pub delivered : Text → HttpMetricBucket F → Delivery F
  delivered key b = record { bucket = b; ingest_key = key }

  keeps_after :
      (faults : ℕ → Faults) (key : Text) (d : Delivery F) (n : ℕ) (bs : List (HttpMetricBucket F))
      (r : Result (Unit {0})) (l : Ledger F)
      → is_known fm d (write_buckets fm fl faults key (suc n) bs l).1 ≡ true
      → is_known fm d l ≡ true
      → is_known fm d
          (elim r as (λ x. Bool × Ledger F) [
            | ok u ↦ write_buckets fm fl faults key (suc n) bs l
            | err e ↦ (false, l)
          ]).1
        ≡ true
  keeps_after faults key d n bs (ok u) l h k = h
  keeps_after faults key d n bs (err e) l h k = k

  write_buckets-keeps :
      (faults : ℕ → Faults) (key : Text) (d : Delivery F) (n : ℕ) (bs : List (HttpMetricBucket F))
      (l : Ledger F)
      → is_known fm d l ≡ true
      → is_known fm d (write_buckets fm fl faults key n bs l).1 ≡ true
  unfolding write_buckets
  write_buckets-keeps faults key d n [] l k = k
  write_buckets-keeps faults key d n (b ∷ bs) l k =
      let one = upsert_http fm fl (faults n) (delivered key b) l in
      let kept = upsert_http-knows fm fl (faults n) d (delivered key b) l k in
      keeps_after faults key d n bs one.0 one.1
        (write_buckets-keeps faults key d (suc n) bs one.1 kept) kept

  known_after :
      (faults : ℕ → Faults) (key : Text) (n : ℕ) (b : HttpMetricBucket F)
      (bs : List (HttpMetricBucket F)) (r : Result (Unit {0})) (l : Ledger F)
      → (r ≡ ok tt → is_known fm (delivered key b) l ≡ true)
      → ((write_buckets fm fl faults key (suc n) bs l).0 ≡ true
          → All
              (λ c.
                is_known fm (delivered key c) (write_buckets fm fl faults key (suc n) bs l).1
                ≡ true)
              bs)
      → (elim r as (λ x. Bool × Ledger F) [
        | ok u ↦ write_buckets fm fl faults key (suc n) bs l
        | err e ↦ (false, l)
      ]).0
        ≡ true
      → All
          (λ c.
            is_known fm
              (delivered key c)
              (elim r as (λ x. Bool × Ledger F) [
                | ok u ↦ write_buckets fm fl faults key (suc n) bs l
                | err e ↦ (false, l)
              ]).1
            ≡ true)
          (b ∷ bs)
  known_after faults key n b bs (ok u) l mine others h =
      (write_buckets-keeps faults key (delivered key b) (suc n) bs l (mine refl), others h)
  known_after faults key n b bs (err e) l mine others h = absurd cc

  write_buckets-known :
      (faults : ℕ → Faults) (key : Text) (n : ℕ) (bs : List (HttpMetricBucket F)) (l : Ledger F)
      → (write_buckets fm fl faults key n bs l).0 ≡ true
      → All (λ b. is_known fm (delivered key b) (write_buckets fm fl faults key n bs l).1 ≡ true) bs
  unfolding write_buckets
  write_buckets-known faults key n [] l h = tt
  write_buckets-known faults key n (b ∷ bs) l h =
      let one = upsert_http fm fl (faults n) (delivered key b) l in
      known_after faults key n b bs one.0 one.1 (ok_is_known fm fl (faults n) (delivered key b) l)
        (write_buckets-known faults key (suc n) bs one.1) h

  final_cursor-place :
      (w : Weather) (cursors : Map Text CollectorCursor) (c : CollectorCursor)
      → ((final_cursor w cursors c).offset ≡ c.offset)
        × ((final_cursor w cursors c).identity ≡ c.identity)
  unfolding final_cursor merge_persisted_drops bounded_cursor
  final_cursor-place w cursors c = elim (Option-cases (cursors c.source)) [
    | inl missing ↦ (ground (arith, missing), ground (arith, missing))
    | inr (p, found) ↦ (ground (arith, found), ground (arith, found))
  ]

  module _ (w : Weather) (now : ℕ) (service environment : Text) where
    abbrev buckets_of : List (HttpObservation F) → List (HttpMetricBucket F)
    buckets_of os = aggregate_http fl (truncate_time now minute) service environment os []

    -- The tailer's cursor stays where it was, or it moves to where the batch ends and then every
    -- bucket of the batch is recorded under the batch's ingest key: no observation is skipped.
    pub collect_http-advances :
        (read : Result (List (HttpObservation F) × CollectorCursor)) (s : Collected F)
        → ((collect_http fm fl w now service environment read s).held ≡ s.held)
          ⊎ ((os : List (HttpObservation F)) × (c : CollectorCursor) × (read ≡ ok (os, c))
              × ((collect_http fm fl w now service environment read s).held.offset ≡ c.offset)
              × ((collect_http fm fl w now service environment read s).held.identity ≡ c.identity)
              × All
                  (λ b.
                    is_known fm
                      (delivered (ingest_key_of fm c) b)
                      (collect_http fm fl w now service environment read s).ledger
                    ≡ true)
                  (aggregate_http fl (truncate_time now minute) service environment os []))
    unfolding collect_http
    collect_http-advances (err e) s = inl refl
    collect_http-advances (ok (os, c)) s =
        let key = ingest_key_of fm c in
        let wrote = write_buckets fm fl w.at_bucket key 0 (buckets_of os) s.ledger in
        let final = final_cursor w s.cursors c in
        let after = collect_http fm fl w now service environment (ok (os, c)) s in
        elim (Bool-cases wrote.0) [
          | inr stopped ↦ inl (ground (arith, stopped))
          | inl done ↦ elim (Option-cases (upsert_cursor w.upsert_fails final s.cursors)) [
            | inl refused ↦ inl (ground (arith, done, refused))
            | inr (cursors, stored) ↦
                let held : final ≡ after.held =
                  unfold collect_http in ground (arith, done, stored) in
                let ledger : wrote.1 ≡ after.ledger =
                  unfold collect_http in ground (arith, done, stored) in
                let place = final_cursor-place w s.cursors c in
                inr (
                  os,
                  c,
                  refl,
                  subst (λ (h : CollectorCursor). h.offset ≡ c.offset) held place.0,
                  subst (λ (h : CollectorCursor). h.identity ≡ c.identity) held place.1,
                  subst (λ l. All (λ b. is_known fm (delivered key b) l ≡ true) (buckets_of os))
                      ledger (write_buckets-known w.at_bucket key 0 (buckets_of os) s.ledger done),
                )
          ]
        ]
