-- ===== src/Performance/Agreement.antt =====
-- What the stored buckets add up to after any deliveries (`UpsertHTTP` of
-- internal/store/performance.go).
use touchgrass.Base.{
  ℕ, zero, suc, ◌+◌, ◌≡◌, refl, sym, ap, ◌∙◌, subst, ◌⊎◌, inl, inr, Bool, ◌&&◌, ◌==◌, List, [], ◌∷◌,
  arith,
}
use touchgrass.Performance.{
  Float64, minute, hour, truncate_time, Histogram, merge, Series, same_series, Tally, add_tally,
}
use touchgrass.Performance.Ledger.{
  Formats, Ledger, Faults, Delivery, record_delivery, upsert_http, deliver_all,
}
use touchgrass.Performance.Totals.{total, share_of, accumulate-total}

-- A counter of a histogram.
unfoldable pub counter : ℕ → Histogram → ℕ
counter i [] = 0
counter zero (c ∷ cs) = c
counter (suc i) (c ∷ cs) = counter i cs

pub counter-merge :
    (i : ℕ) (cs ks : Histogram) → counter i (merge cs ks) ≡ counter i cs + counter i ks
unfolding counter merge
counter-merge zero [] ks = omega arith
counter-merge (suc i) [] ks = omega arith
counter-merge zero (c ∷ cs) [] = omega arith
counter-merge (suc i) (c ∷ cs) [] = omega arith
counter-merge zero (c ∷ cs) (k ∷ ks) = omega arith
counter-merge (suc i) (c ∷ cs) (k ∷ ks) = omega (arith, counter-merge i cs ks)

-- What is counted of requests.
pub data Figure : Type 0 where
  requests errors sent received : Figure
  slot : ℕ → Figure

-- A minute's or an hour's bucket of a series.
abbrev pub is_bucket : ℕ → Series → ℕ → Series → Bool
is_bucket at whose start series = (start == at) && same_series series whose

-- The minutes of an hour, of a series.
abbrev pub is_within : ℕ → Series → ℕ → Series → Bool
is_within at whose start series = (truncate_time start hour == at) && same_series series whose

module _ {F : Type 0} where
  unfoldable pub figure : Figure → Tally F → ℕ
  unfolding counter
  figure requests t = t.request_count
  figure errors t = t.error_count
  figure sent t = t.bytes_sent
  figure received t = t.request_bytes
  figure (slot i) t = counter i t.histogram

  pub figure-add_tally :
      (fl : Float64 F) (g : Figure) (a b : Tally F)
      → figure g (add_tally fl a b) ≡ figure g a + figure g b
  unfolding figure add_tally
  figure-add_tally fl requests a b = refl
  figure-add_tally fl errors a b = refl
  figure-add_tally fl sent a b = refl
  figure-add_tally fl received a b = refl
  figure-add_tally fl (slot i) a b = counter-merge i a.histogram b.histogram

  abbrev pub no_rows : Ledger F
  no_rows = record { batches = []; minutes = []; hours = [] }

  -- What a delivery leaves behind: nothing new, or its record.
  upsert_http-cases :
      (fm : Formats) (fl : Float64 F) (x : Faults) (d : Delivery F) (l : Ledger F)
      → ((upsert_http fm fl x d l).1 ≡ l)
        ⊎ ((upsert_http fm fl x d l).1 ≡ record_delivery fm fl d l)
  unfolding upsert_http
  upsert_http-cases fm fl x d l = ground arith

  abbrev Agrees : Figure → ℕ → Series → Ledger F → Type 0
  Agrees g at whose l =
      total (is_bucket at whose) (figure g) l.hours
      ≡ total (is_within at whose) (figure g) l.minutes

  record_delivery-Agrees :
      (fm : Formats) (fl : Float64 F) (g : Figure) (at : ℕ) (whose : Series) (d : Delivery F)
      (l : Ledger F)
      → Agrees g at whose l
      → Agrees g at whose (record_delivery fm fl d l)
  unfolding record_delivery
  record_delivery-Agrees fm fl g at whose d l a =
      let b = d.bucket in
      let start = truncate_time b.bucket_start minute in
      accumulate-total fl (is_bucket at whose) (figure g) (figure-add_tally fl g)
        (truncate_time start hour) b.series b.tally l.hours
      ∙ ap (λ n. n + share_of (is_within at whose) (figure g) start b.series b.tally) a
      ∙ sym (
          accumulate-total fl (is_within at whose) (figure g) (figure-add_tally fl g) start b.series
            b.tally l.minutes)

  deliver_all-keeps :
      (fm : Formats) (fl : Float64 F) (g : Figure) (at : ℕ) (whose : Series)
      (ds : List (Faults × Delivery F)) (l : Ledger F)
      → Agrees g at whose l
      → Agrees g at whose (deliver_all fm fl ds l)
  unfolding deliver_all
  deliver_all-keeps fm fl g at whose [] l a = a
  deliver_all-keeps fm fl g at whose ((x, d) ∷ ds) l a =
      deliver_all-keeps fm fl g at whose ds (upsert_http fm fl x d l).1
        (elim (upsert_http-cases fm fl x d l) [
          | inl same ↦ subst (Agrees g at whose) (sym same) a
          | inr new ↦
              subst (Agrees g at whose) (sym new) (record_delivery-Agrees fm fl g at whose d l a)
        ])

  -- Whatever is delivered, repeated, refused or fails, an hourly bucket holds as many requests,
  -- errors, bytes and entries of each histogram counter as the minute buckets of its hour and
  -- series together.
  pub deliver_all-agrees :
      (fm : Formats) (fl : Float64 F) (g : Figure) (at : ℕ) (whose : Series)
      (ds : List (Faults × Delivery F))
      → total (is_bucket at whose) (figure g) (deliver_all fm fl ds no_rows).hours
        ≡ total (is_within at whose) (figure g) (deliver_all fm fl ds no_rows).minutes
  unfolding total
  deliver_all-agrees fm fl g at whose ds = deliver_all-keeps fm fl g at whose ds no_rows refl
