-- ===== src/Performance/Totals.antt =====
-- Sums over buckets, and what adding to a bucket does to them (the upserts of `UpsertHTTP` of
-- internal/store/performance.go).
use touchgrass.Base.{
  ℕ, ◌+◌, ◌≡◌, ap, inl, inr, Bool, true, if◌then◌else◌, text_eq_iff, List, [], ◌∷◌, arith,
  Bool-cases,
}
use touchgrass.Performance.{
  Float64, Series, same_series, Tally, add_tally, HttpMetricBucket, is_keyed, accumulate,
}

pub same_series-eq : (a b : Series) → same_series a b ≡ true → a ≡ b
unfolding same_series
same_series-eq a b h =
    let service_id = (text_eq_iff a.service_id b.service_id).0 (ground arith) in
    let environment = (text_eq_iff a.environment b.environment).0 (ground arith) in
    let method = (text_eq_iff a.method b.method).0 (ground arith) in
    let route_family = (text_eq_iff a.route_family b.route_family).0 (ground arith) in
    let upstream = (text_eq_iff a.upstream b.upstream).0 (ground arith) in
    let status_class : a.status_class ≡ b.status_class = ground arith in
    λ i. record {
      service_id = service_id i;
      environment = environment i;
      method = method i;
      route_family = route_family i;
      upstream = upstream i;
      status_class = status_class i;
    }

module _ {F : Type 0} where
  -- The sum of `f` over the buckets whose start and series pass a test.
  unfoldable pub total : (ℕ → Series → Bool) → (Tally F → ℕ) → List (HttpMetricBucket F) → ℕ
  total q f [] = 0
  total q f (row ∷ rows) =
      (if q row.bucket_start row.series then f row.tally else 0) + total q f rows

  -- A bucket's share of a sum.
  abbrev pub share_of : (ℕ → Series → Bool) → (Tally F → ℕ) → ℕ → Series → Tally F → ℕ
  share_of q f start series tally = if q start series then f tally else 0

  pub accumulate-total :
      (fl : Float64 F) (q : ℕ → Series → Bool) (f : Tally F → ℕ)
      (additive : (a b : Tally F) → f (add_tally fl a b) ≡ f a + f b) (start : ℕ) (series : Series)
      (tally : Tally F) (rows : List (HttpMetricBucket F))
      → total q f (accumulate fl start series tally rows)
        ≡ total q f rows + share_of q f start series tally
  unfolding accumulate total
  accumulate-total fl q f additive start series tally [] = omega arith
  accumulate-total fl q f additive start series tally (row ∷ rows) =
      elim (Bool-cases (is_keyed start series row)) [
        | inl same ↦
            let at : row.bucket_start ≡ start = ground (arith, same) in
            let whose : row.series ≡ series =
              same_series-eq row.series series (ground (arith, same)) in
            ground (
              arith,
              same,
              ap (λ t. q t row.series) at,
              ap (λ s. q start s) whose,
              additive row.tally tally,
            )
        | inr other ↦
            ground (arith, other, accumulate-total fl q f additive start series tally rows)
      ]
