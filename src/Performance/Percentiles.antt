-- ===== src/Performance/Percentiles.antt =====
-- What the percentiles of merged histograms say of the durations (`Observe` and `Merge` of
-- internal/model/performance.go, `histogramPercentile` of internal/service/performance.go).
use touchgrass.Base.{
  ℕ, suc, ◌+◌, ◌≤◌, ◌<◌, ◌≡◌, refl, sym, ap, ◌∙◌, subst, inl, inr, true, ◌||◌, ◌==◌, ltb, leb,
  if◌then◌else◌, List, [], ◌∷◌, ◌++◌, length, count, All, All_mono, arith, Bool-cases,
}
use touchgrass.Performance.{Float64, Histogram, empty_histogram, bounds, observe_in, observe, merge}
use touchgrass.Performance.Summary.{overflow_bound, total_count, scan_counts, histogram_percentile}

unfoldable pub concat : {F : Type 0} → List (List F) → List F
concat [] = []
concat (ds ∷ rest) = ds ++ concat rest

module _ {F : Type 0} (fl : Float64 F) where
  -- The histogram of some durations.
  unfoldable pub observe_all : List F → Histogram
  unfolding observe
  observe_all [] = empty_histogram
  observe_all (d ∷ ds) = observe fl d (observe_all ds)

  -- The histograms of several batches, merged one after the other.
  unfoldable pub merge_all : List (List F) → Histogram
  unfolding merge
  merge_all [] = empty_histogram
  merge_all (ds ∷ rest) = merge (observe_all ds) (merge_all rest)

  -- How many durations are not above a bound.
  abbrev pub reach : List F → ℕ → ℕ
  reach ds b = count (λ d. fl.at_most d b) ds

  -- The counters, after `seen`, are the steps between the values of `n` at the bounds.
  abbrev Matches : (ℕ → ℕ) → ℕ → ℕ → Histogram → List ℕ → Type 0
  Matches n total seen [] bs = ◌≡◌ {A = ℕ} 0 1
  Matches n total seen (c ∷ []) [] = seen + c ≡ total
  Matches n total seen (c ∷ k ∷ cs) [] = ◌≡◌ {A = ℕ} 0 1
  Matches n total seen (c ∷ cs) (b ∷ bs) = (seen + c ≡ n b) × Matches n total (seen + c) cs bs

  -- One more duration.
  abbrev more : F → (ℕ → ℕ) → ℕ → ℕ
  more d n b = (if fl.at_most d b then 1 else 0) + n b

  abbrev Ascends : List ℕ → Type 0
  Ascends [] = Unit
  Ascends (b ∷ bs) = All (λ k. b ≤ k) bs × Ascends bs

  shift-Matches :
      (d : F) (n : ℕ → ℕ) (total seen : ℕ) (cs : Histogram) (bs : List ℕ)
      → All (λ b. fl.at_most d b ≡ true) bs
      → Matches n total seen cs bs
      → Matches (more d n) (suc total) (suc seen) cs bs
  shift-Matches d n total seen [] bs a m = m
  shift-Matches d n total seen (c ∷ []) [] a m = omega (arith, m)
  shift-Matches d n total seen (c ∷ k ∷ cs) [] a m = m
  shift-Matches d n total seen (c ∷ cs) (b ∷ bs) a m = (
    ground (arith, a.0, m.0),
    subst (λ s. Matches (more d n) (suc total) s cs bs) {x = suc (seen + c)} (omega arith)
        (shift-Matches d n total (seen + c) cs bs a.1 m.1),
  )

  observe-Matches :
      (mono : (x : F) (j k : ℕ) → j ≤ k → fl.at_most x j ≡ true → fl.at_most x k ≡ true) (d : F)
      (n : ℕ → ℕ) (total seen : ℕ) (cs : Histogram) (bs : List ℕ)
      → Ascends bs
      → Matches n total seen cs bs
      → Matches (more d n) (suc total) seen (observe_in fl d bs cs) bs
  unfolding observe_in
  observe-Matches mono d n total seen [] bs a m = m
  observe-Matches mono d n total seen (c ∷ []) [] a m = omega (arith, m)
  observe-Matches mono d n total seen (c ∷ k ∷ cs) [] a m = m
  observe-Matches mono d n total seen (c ∷ cs) (b ∷ bs) a m = elim (Bool-cases (fl.at_most d b)) [
    | inl below ↦ rw below (
      ground (arith, below, m.0),
      subst (λ s. Matches (more d n) (suc total) s cs bs) {x = suc (seen + c)} (omega arith)
          (shift-Matches d n total (seen + c) cs bs
            (All_mono (λ k. b ≤ k) (λ k. fl.at_most d k ≡ true) bs (λ k l. mono d b k l below) a.0)
            m.1),
    )
    | inr beyond ↦
        rw beyond
          (ground (arith, beyond, m.0), observe-Matches mono d n total (seen + c) cs bs a.1 m.1)
  ]

  observe_all-Matches :
      (mono : (x : F) (j k : ℕ) → j ≤ k → fl.at_most x j ≡ true → fl.at_most x k ≡ true)
      (ds : List F)
      → Matches (reach ds) (length ds) 0 (observe_all ds) bounds
  unfolding observe_all count
  observe_all-Matches mono [] = omega arith
  observe_all-Matches mono (d ∷ ds) =
      observe-Matches mono d (reach ds) (length ds) 0 (observe_all ds) bounds (omega arith)
        (observe_all-Matches mono ds)

  -- Observing and merging commute.
  pub observe_in-merge :
      (d : F) (bs : List ℕ) (cs ks : Histogram)
      → length ks ≤ length cs
      → merge (observe_in fl d bs cs) ks ≡ observe_in fl d bs (merge cs ks)
  unfolding observe_in merge
  observe_in-merge d bs [] [] l = refl
  observe_in-merge d bs [] (k ∷ ks) l = absurd (omega (arith, l))
  observe_in-merge d [] (c ∷ cs) [] l = refl
  observe_in-merge d [] (c ∷ cs) (k ∷ ks) l = ap (λ n. n ∷ merge cs ks) (omega arith)
  observe_in-merge d (b ∷ bs) (c ∷ cs) [] l = ground arith
  observe_in-merge d (b ∷ bs) (c ∷ cs) (k ∷ ks) l =
      ground (arith, observe_in-merge d bs cs ks (omega (arith, l)))

  pub length-observe_in :
      (d : F) (bs : List ℕ) (cs : Histogram) → length (observe_in fl d bs cs) ≡ length cs
  unfolding observe_in
  length-observe_in d bs [] = refl
  length-observe_in d [] (c ∷ cs) = refl
  length-observe_in d (b ∷ bs) (c ∷ cs) = ground (arith, length-observe_in d bs cs)

  length-observe_all : (ds : List F) → length (observe_all ds) ≡ 10
  unfolding observe_all observe
  length-observe_all [] = refl
  length-observe_all (d ∷ ds) = length-observe_in d bounds (observe_all ds) ∙ length-observe_all ds

  length-merge : (cs ks : Histogram) → length cs ≡ length ks → length (merge cs ks) ≡ length cs
  unfolding merge
  length-merge [] [] l = refl
  length-merge [] (k ∷ ks) l = sym l
  length-merge (c ∷ cs) [] l = refl
  length-merge (c ∷ cs) (k ∷ ks) l = ap suc (length-merge cs ks (omega (arith, l)))

  pub empty-merge : (ks : Histogram) → length ks ≡ 10 → merge empty_histogram ks ≡ ks
  unfolding merge
  empty-merge ks l = ground (arith, l)

  observe_all-append :
      (xs ys : List F) → merge (observe_all xs) (observe_all ys) ≡ observe_all (xs ++ ys)
  unfolding observe_all observe
  observe_all-append [] ys = empty-merge (observe_all ys) (length-observe_all ys)
  observe_all-append (x ∷ xs) ys =
      observe_in-merge x bounds (observe_all xs) (observe_all ys)
        (omega (arith, length-observe_all xs, length-observe_all ys))
      ∙ ap (observe_in fl x bounds) (observe_all-append xs ys)

  merge_all-concat : (parts : List (List F)) → merge_all parts ≡ observe_all (concat parts)
  unfolding merge_all concat observe_all
  merge_all-concat [] = refl
  merge_all-concat (ds ∷ rest) =
      ap (merge (observe_all ds)) (merge_all-concat rest) ∙ observe_all-append ds (concat rest)

  total_count-Matches :
      (n : ℕ → ℕ) (total seen : ℕ) (cs : Histogram) (bs : List ℕ)
      → Matches n total seen cs bs
      → seen + total_count cs ≡ total
  unfolding total_count
  total_count-Matches n total seen [] bs m = absurd (omega (arith, m))
  total_count-Matches n total seen (c ∷ []) [] m = omega (arith, m)
  total_count-Matches n total seen (c ∷ k ∷ cs) [] m = absurd (omega (arith, m))
  total_count-Matches n total seen (c ∷ cs) (b ∷ bs) m =
      omega (arith, total_count-Matches n total (seen + c) cs bs m.1)

  -- The scan stops at the least bound that enough durations do not exceed, or at the last.
  abbrev IsLeast : (ℕ → ℕ) → ℕ → ℕ → List ℕ → Type 0
  IsLeast n target r bs =
      ((leb target (n r) || (r == overflow_bound)) ≡ true)
      × All (λ b. (leb r b || ltb (n b) target) ≡ true) bs

  scan_counts-IsLeast :
      (n : ℕ → ℕ) (total target seen : ℕ) (cs : Histogram) (bs : List ℕ)
      → Ascends bs
      → Matches n total seen cs bs
      → IsLeast n target (scan_counts target seen cs (bs ++ overflow_bound ∷ [])) bs
  unfolding scan_counts
  scan_counts-IsLeast n total target seen [] bs a m = absurd (omega (arith, m))
  scan_counts-IsLeast n total target seen (c ∷ []) [] a m = (ground arith, tt)
  scan_counts-IsLeast n total target seen (c ∷ k ∷ cs) [] a m = absurd (omega (arith, m))
  scan_counts-IsLeast n total target seen (c ∷ cs) (b ∷ bs) a m =
      let result = scan_counts target seen (c ∷ cs) (b ∷ bs ++ overflow_bound ∷ []) in
      elim (Bool-cases (leb target (seen + c))) [
        | inl enough ↦
            let same : b ≡ result = unfold scan_counts in ground (arith, enough) in
            subst (λ r. IsLeast n target r (b ∷ bs)) same
              (
                ground (arith, enough, m.0),
                (
                  ground arith,
                  All_mono (λ k. b ≤ k) (λ k. (leb b k || ltb (n k) target) ≡ true) bs
                      (λ k l. ground (arith, l)) a.0,
                ),
              )
        | inr short ↦
            let rest = scan_counts-IsLeast n total target (seen + c) cs bs a.1 m.1 in
            let same : scan_counts target (seen + c) cs (bs ++ overflow_bound ∷ []) ≡ result =
              unfold scan_counts in ground (arith, short) in
            subst (λ r. IsLeast n target r (b ∷ bs)) same
              (rest.0, (ground (arith, short, m.0), rest.1))
      ]

  -- However the durations were batched, where there are any, the percentile of the merged
  -- histograms is 5000 or a bound that at least as many durations do not exceed as the rank asks
  -- for, and every bound below the percentile is one that fewer do not exceed. A float64 that does
  -- not exceed a bound is assumed not to exceed a greater one.
  pub histogram_percentile-least :
      (mono : (x : F) (j k : ℕ) → j ≤ k → fl.at_most x j ≡ true → fl.at_most x k ≡ true)
      (parts : List (List F)) (quantile : ℕ)
      → 0 < length (concat parts)
      → ((leb
              (fl.rank quantile (length (concat parts)))
              (reach (concat parts) (histogram_percentile fl (merge_all parts) quantile))
            || (histogram_percentile fl (merge_all parts) quantile == overflow_bound))
          ≡ true)
        × All
            (λ b.
              (leb (histogram_percentile fl (merge_all parts) quantile) b
                || ltb (reach (concat parts) b) (fl.rank quantile (length (concat parts))))
              ≡ true)
            bounds
  histogram_percentile-least mono parts quantile l =
      let ds = concat parts in
      let h = observe_all ds in
      let target = fl.rank quantile (length ds) in
      let matching = observe_all-Matches mono ds in
      let counted : total_count h ≡ length ds =
        omega (arith, total_count-Matches (reach ds) (length ds) 0 h bounds matching) in
      let same : scan_counts target 0 h (bounds ++ overflow_bound ∷ [])
          ≡ histogram_percentile fl (merge_all parts) quantile =
        rw (merge_all-concat parts) (unfold histogram_percentile in ground (arith, counted, l)) in
      subst (λ r. IsLeast (reach ds) target r bounds) same
        (scan_counts-IsLeast (reach ds) (length ds) target 0 h bounds (omega arith) matching)
