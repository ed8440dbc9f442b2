-- ===== src/Ingest/Caps.antt =====
-- The caps on the fields of a report (`truncate` and `buildOccurrence` of
-- internal/service/ingest.go).
use touchgrass.Base.{
  ℕ, zero, suc, ◌-◌, ◌≤◌, ◌<◌, ◌+◌, ◌≡◌, ◌⊎◌, refl, ap, sym, ◌∙◌, subst, inl, inr, Bool, true,
  false, not, ◌||◌, ◌==◌, ltb, leb, Text, List, [], ◌∷◌, length, All, All_mono, arith, Bool-cases,
}
use touchgrass.Ingest.{rune_width, rune_starts, last_cut, take, truncate}

length-take {ℓ} :
    {A : Type ℓ} (n : ℕ) (xs : List A)
    → (length (take n xs) ≤ n) × (n ≤ length xs → length (take n xs) ≡ n)
unfolding take
length-take zero xs = (omega arith, λ l. refl)
length-take (suc n) [] = (omega arith, λ l. ground arith)
length-take (suc n) (x ∷ xs) =
    (ground (arith, length-take n xs), λ l. ground (arith, length-take n xs))

-- The offsets of a text, from `i` on, lie inside of it.
rune_starts-below : (skip i : ℕ) (s : Text) → All (λ k. k < i + length s) (rune_starts skip i s)
unfolding rune_starts
rune_starts-below skip i [] = tt
rune_starts-below (suc skip) i (c ∷ s) =
    All_mono _ _ (rune_starts skip (suc i) s) (λ k l. omega (arith, l))
      (rune_starts-below skip (suc i) s)
rune_starts-below zero i (c ∷ s) = (
  omega arith,
  All_mono _ _ (rune_starts (rune_width (c ∷ s) - 1) (suc i) s) (λ k l. omega (arith, l))
      (rune_starts-below (rune_width (c ∷ s) - 1) (suc i) s),
)

-- They ascend.
abbrev IsAscending : List ℕ → Type 0
IsAscending [] = Unit
IsAscending (i ∷ is) = All (λ k. i < k) is × IsAscending is

rune_starts-from : (skip i : ℕ) (s : Text) → All (λ k. i ≤ k) (rune_starts skip i s)
unfolding rune_starts
rune_starts-from skip i [] = tt
rune_starts-from (suc skip) i (c ∷ s) =
    All_mono _ _ (rune_starts skip (suc i) s) (λ k l. omega (arith, l))
      (rune_starts-from skip (suc i) s)
rune_starts-from zero i (c ∷ s) = (
  omega arith,
  All_mono _ _ (rune_starts (rune_width (c ∷ s) - 1) (suc i) s) (λ k l. omega (arith, l))
      (rune_starts-from (rune_width (c ∷ s) - 1) (suc i) s),
)

rune_starts-IsAscending : (skip i : ℕ) (s : Text) → IsAscending (rune_starts skip i s)
unfolding rune_starts
rune_starts-IsAscending skip i [] = tt
rune_starts-IsAscending (suc skip) i (c ∷ s) = rune_starts-IsAscending skip (suc i) s
rune_starts-IsAscending zero i (c ∷ s) = (
  All_mono _ _ (rune_starts (rune_width (c ∷ s) - 1) (suc i) s) (λ k l. omega (arith, l))
      (rune_starts-from (rune_width (c ∷ s) - 1) (suc i) s),
  rune_starts-IsAscending (rune_width (c ∷ s) - 1) (suc i) s,
)

last_cut-bounds :
    (cut m n : ℕ) (starts : List ℕ)
    → cut ≤ m
    → cut ≤ n
    → All (λ k. k < n) starts
    → (last_cut cut m starts ≤ m) × (last_cut cut m starts ≤ n)
unfolding last_cut
last_cut-bounds cut m n [] h l a = (h, l)
last_cut-bounds cut m n (i ∷ is) h l a = elim (Bool-cases (ltb m i)) [
  | inl past ↦ ground (arith, a.0)
  | inr inside ↦
      ground (arith, a.0, last_cut-bounds i m n is (ground arith) (omega (arith, a.0)) a.1)
]

-- It is the last of the offsets that are not above the maximum.
last_cut-last :
    (cut m : ℕ) (starts : List ℕ)
    → All (λ k. cut ≤ k) starts
    → IsAscending starts
    → All (λ k. (not (leb k m) || leb k (last_cut cut m starts)) ≡ true) starts
      × (cut ≤ last_cut cut m starts)
unfolding last_cut
last_cut-last cut m [] c a = (tt, omega arith)
last_cut-last cut m (i ∷ is) c a = elim (Bool-cases (ltb m i)) [
  | inl past ↦
      let same : cut ≡ last_cut cut m (i ∷ is) = unfold last_cut in ground (arith, past) in
      subst (λ r. All (λ k. (not (leb k m) || leb k r) ≡ true) (i ∷ is) × (cut ≤ r)) same
        ((ground arith, All_mono _ _ is (λ k l. ground (arith, l)) a.0), omega arith)
  | inr inside ↦
      let same : last_cut i m is ≡ last_cut cut m (i ∷ is) =
        unfold last_cut in ground (arith, inside) in
      let rest = last_cut-last i m is (All_mono _ _ is (λ k l. omega (arith, l)) a.0) a.1 in
      subst (λ r. All (λ k. (not (leb k m) || leb k r) ≡ true) (i ∷ is) × (cut ≤ r)) same
        ((ground (arith, rest.1), rest.0), omega (arith, rest.1, c.0))
]

abbrev pub is_in : ℕ → List ℕ → Bool
is_in k [] = false
is_in k (i ∷ is) = i == k || is_in k is

last_cut-is_in :
    (cut m : ℕ) (starts : List ℕ)
    → (last_cut cut m starts ≡ cut) ⊎ (is_in (last_cut cut m starts) starts ≡ true)
unfolding last_cut
last_cut-is_in cut m [] = inl refl
last_cut-is_in cut m (i ∷ is) = ground (arith, last_cut-is_in i m is)

starts_at_zero : (value : Text) → 0 < length value → is_in 0 (rune_starts 0 0 value) ≡ true
unfolding rune_starts
starts_at_zero [] l = absurd (omega (arith, l))
starts_at_zero (c ∷ s) l = refl

-- A text that is longer than the maximum is cut where one of its runes begins, to the longest such
-- prefix that fits: no rune begins after the cut and not after the maximum.
pub truncate-longest :
    (value : Text) (maximum : ℕ)
    → maximum < length value
    → (length (truncate value maximum) ≤ maximum)
      × (truncate value maximum ≡ take (length (truncate value maximum)) value)
      × (is_in (length (truncate value maximum)) (rune_starts 0 0 value) ≡ true)
      × All
          (λ k. (not (leb k maximum) || leb k (length (truncate value maximum))) ≡ true)
          (rune_starts 0 0 value)
truncate-longest value maximum l =
    let starts = rune_starts 0 0 value in
    let cut = last_cut 0 maximum starts in
    let bounds =
      last_cut-bounds 0 maximum (length value) starts (omega arith) (omega arith)
        (All_mono _ _ starts (λ k h. omega (arith, h)) (rune_starts-below 0 0 value)) in
    let cutting : truncate value maximum ≡ take cut value = unfold truncate in ground (arith, l) in
    let sized : cut ≡ length (truncate value maximum) =
      sym (ap length cutting ∙ (length-take cut value).1 bounds.1) in
    let member : is_in cut starts ≡ true =
      ground (arith, last_cut-is_in 0 maximum starts, starts_at_zero value (omega (arith, l))) in
    (
      subst (λ n. n ≤ maximum) sized bounds.0,
      cutting ∙ ap (λ n. take n value) sized,
      subst (λ n. is_in n starts ≡ true) sized member,
      subst (λ n. All (λ k. (not (leb k maximum) || leb k n) ≡ true) starts) sized
          (last_cut-last 0 maximum starts
            (All_mono _ _ starts (λ k h. omega arith) (rune_starts-below 0 0 value))
            (rune_starts-IsAscending 0 0 value)).0,
    )
