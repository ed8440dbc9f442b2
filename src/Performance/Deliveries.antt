-- ===== src/Performance/Deliveries.antt =====
-- Which deliveries count (`UpsertHTTP` of internal/store/performance.go, under retries).
use touchgrass.Base.{
  ℕ, ◌+◌, ◌*◌, ◌≡◌, refl, sym, ap, ◌∙◌, subst, inl, inr, Bool, true, false, not, ◌&&◌, ◌||◌,
  if◌then◌else◌, Text, text_eq, text_eq_refl, List, [], ◌∷◌, arith, Bool-cases,
}
use touchgrass.Base.Results.{ok}
use touchgrass.Performance.{Float64, minute, truncate_time, Series, Tally, accumulate}
use touchgrass.Performance.Ledger.{
  Formats, http_bucket_key, has_batch, Ledger, Faults, Delivery, validate_http_bucket, is_known,
  record_delivery, upsert_http, deliver_all,
}
use touchgrass.Performance.Totals.{total, share_of, accumulate-total}
use touchgrass.Performance.Agreement.{Figure, figure, figure-add_tally, is_bucket, no_rows}

-- No statement of the transaction fails.
abbrev pub is_clean : Faults → Bool
is_clean x = not (x.begin || (x.insert_batch || (x.upsert_minute || (x.upsert_hour || x.commit))))

module _ {F : Type 0} (fm : Formats) where
  abbrev pub key_of : Delivery F → Text
  key_of d = http_bucket_key fm (truncate_time d.bucket.bucket_start minute) d.bucket.series

  -- Some earlier delivery has the same ingest key and the same bucket.
  unfoldable pub is_repeat : Delivery F → List (Delivery F) → Bool
  unfolding text_eq
  is_repeat d [] = false
  is_repeat d (e ∷ es) =
      (text_eq e.ingest_key d.ingest_key && text_eq (key_of e) (key_of d)) || is_repeat d es

  -- The deliveries that are valid, run through, and repeat none that did, the latest first.
  unfoldable pub accepted : List (Faults × Delivery F) → List (Delivery F) → List (Delivery F)
  unfolding is_repeat validate_http_bucket
  accepted [] earlier = earlier
  accepted ((x, d) ∷ rest) earlier = accepted rest (
      if validate_http_bucket d && (is_clean x && not (is_repeat d earlier))
      then d ∷ earlier
      else earlier)

  -- The sum of `f` over deliveries whose minute and series pass a test.
  unfoldable pub brought : (ℕ → Series → Bool) → (Tally F → ℕ) → List (Delivery F) → ℕ
  brought q f [] = 0
  brought q f (d ∷ ds) =
      share_of q f (truncate_time d.bucket.bucket_start minute) d.bucket.series d.bucket.tally
      + brought q f ds

  -- The ledger after the deliveries `earlier` were recorded.
  record Reflects (q : ℕ → Series → Bool) (f : Tally F → ℕ) (earlier : List (Delivery F))
      (l : Ledger F) : Type 0 where
    known : (d : Delivery F) → is_known fm d l ≡ is_repeat d earlier
    sums : total q f l.minutes ≡ brought q f earlier

  record-Reflects :
      (fl : Float64 F) (q : ℕ → Series → Bool) (g : Figure) (d : Delivery F)
      (earlier : List (Delivery F)) (l : Ledger F)
      → Reflects q (figure g) earlier l
      → Reflects q (figure g) (d ∷ earlier) (record_delivery fm fl d l)
  unfolding record_delivery brought has_batch is_repeat
  record-Reflects fl q g d earlier l r = record {
    known = λ e.
        ap (λ b. (text_eq d.ingest_key e.ingest_key && text_eq (key_of d) (key_of e)) || b)
          (r.known e);
    sums = omega (
      arith,
      r.sums,
      accumulate-total fl q (figure g) (figure-add_tally fl g)
          (truncate_time d.bucket.bucket_start minute) d.bucket.series d.bucket.tally l.minutes,
    );
  }

  upsert_http-counts :
      (fl : Float64 F) (x : Faults) (d : Delivery F) (l : Ledger F)
      → (upsert_http fm fl x d l).1 ≡ (
          if validate_http_bucket d && (is_clean x && not (is_known fm d l))
          then record_delivery fm fl d l
          else l)
  unfolding upsert_http
  upsert_http-counts fl x d l = ground arith

  deliver_all-Reflects :
      (fl : Float64 F) (q : ℕ → Series → Bool) (g : Figure) (ds : List (Faults × Delivery F))
      (earlier : List (Delivery F)) (l : Ledger F)
      → Reflects q (figure g) earlier l
      → Reflects q (figure g) (accepted ds earlier) (deliver_all fm fl ds l)
  unfolding deliver_all accepted
  deliver_all-Reflects fl q g [] earlier l r = r
  deliver_all-Reflects fl q g ((x, d) ∷ ds) earlier l r =
      let new = validate_http_bucket d && (is_clean x && not (is_repeat d earlier)) in
      let left : (upsert_http fm fl x d l).1 ≡ (if new then record_delivery fm fl d l else l) =
        upsert_http-counts fl x d l
        ∙ ap
            (λ b.
              if validate_http_bucket d && (is_clean x && not b)
              then record_delivery fm fl d l
              else l)
            (r.known d) in
      deliver_all-Reflects fl q g ds (if new then d ∷ earlier else earlier)
        (upsert_http fm fl x d l).1
        (elim (Bool-cases new) [
          | inl fresh ↦
              subst (Reflects q (figure g) (if new then d ∷ earlier else earlier)) (sym left)
                (rw fresh (record-Reflects fl q g d earlier l r))
          | inr repeated ↦
              subst (Reflects q (figure g) (if new then d ∷ earlier else earlier)) (sym left)
                (rw repeated r)
        ])

  -- The minute bucket of a series holds exactly what the deliveries that are valid, ran through
  -- and repeat no such delivery's ingest key and bucket brought for it.
  pub deliver_all-counts :
      (fl : Float64 F) (g : Figure) (at : ℕ) (whose : Series) (ds : List (Faults × Delivery F))
      → total (is_bucket at whose) (figure g) (deliver_all fm fl ds no_rows).minutes
        ≡ brought (is_bucket at whose) (figure g) (accepted ds [])
  deliver_all-counts fl g at whose ds =
      (deliver_all-Reflects fl (is_bucket at whose) g ds [] no_rows (
        unfold has_batch is_repeat total brought in record { known = λ d. refl; sums = refl })).sums

  pub ok_is_known :
      (fl : Float64 F) (x : Faults) (d : Delivery F) (l : Ledger F)
      → (upsert_http fm fl x d l).0 ≡ ok tt
      → is_known fm d (upsert_http fm fl x d l).1 ≡ true
  unfolding upsert_http record_delivery has_batch
  ok_is_known fl x d l h = ground (arith, h, text_eq_refl d.ingest_key, text_eq_refl (key_of d))

  pub upsert_http-knows :
      (fl : Float64 F) (x : Faults) (d e : Delivery F) (l : Ledger F)
      → is_known fm d l ≡ true
      → is_known fm d (upsert_http fm fl x e l).1 ≡ true
  unfolding upsert_http record_delivery has_batch
  upsert_http-knows fl x d e l h = ground (arith, h)

  -- A valid bucket that is delivered again under a second ingest key is added a second time, where
  -- neither key was known for it and nothing fails.
  pub upsert_http-two_keys :
      (fl : Float64 F) (g : Figure) (at : ℕ) (whose : Series) (x y : Faults) (d : Delivery F)
      (other : Text) (l : Ledger F)
      → is_clean x ≡ true
      → is_clean y ≡ true
      → validate_http_bucket d ≡ true
      → validate_http_bucket (record d { ingest_key = other }) ≡ true
      → text_eq d.ingest_key other ≡ false
      → is_known fm d l ≡ false
      → is_known fm (record d { ingest_key = other }) l ≡ false
      → total
          (is_bucket at whose)
          (figure g)
          (upsert_http fm fl y
            (record d { ingest_key = other })
            (upsert_http fm fl x d l).1).1.minutes
        ≡ total (is_bucket at whose) (figure g) l.minutes
          + 2
            * share_of
                (is_bucket at whose)
                (figure g)
                (truncate_time d.bucket.bucket_start minute)
                d.bucket.series
                d.bucket.tally
  upsert_http-two_keys fl g at whose x y d other l cx cy vx vy differ new newer =
      let again : Delivery F = record d { ingest_key = other } in
      let one = record_delivery fm fl d l in
      let q = is_bucket at whose in
      let b = d.bucket in
      let start = truncate_time b.bucket_start minute in
      let first : (upsert_http fm fl x d l).1 ≡ one =
        upsert_http-counts fl x d l ∙ ground (arith, cx, vx, new) in
      let unknown : is_known fm again one ≡ false =
        unfold record_delivery has_batch in ground (arith, differ, newer) in
      let second : (upsert_http fm fl y again one).1 ≡ record_delivery fm fl again one =
        upsert_http-counts fl y again one ∙ ground (arith, cy, vy, unknown) in
      let figure_add = figure-add_tally fl g in
      ap (λ m. total q (figure g) (upsert_http fm fl y again m).1.minutes) first
      ∙ ap (λ (m : Ledger F). total q (figure g) m.minutes) second
      ∙ (unfold record_delivery in
          omega (
            arith,
            accumulate-total fl q (figure g) figure_add start b.series b.tally
                (accumulate fl start b.series b.tally l.minutes),
            accumulate-total fl q (figure g) figure_add start b.series b.tally l.minutes,
          ))
