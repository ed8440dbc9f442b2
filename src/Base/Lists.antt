-- ===== src/Base/Lists.antt =====
-- Lists measured, counted and quantified over, for the native numbers.
use Prim.Native.Nat.{ℕ, zero, suc, ◌+◌}
use mathlib.Core.Path.{◌≡◌, refl, ap, subst}
use mathlib.Core.Bool.{Bool}
use mathlib.Core.List.{List, [], ◌∷◌, ◌++◌, map}
use mathlib.Core.Option.{Option, none, some}
use native.Mathlib.Omega.{arith}
use mathlib.Core.Logic.{inl, inr}
use touchgrass.Base.Tests.{if◌then◌else◌, Bool-cases}

module _ {ℓ} {A : Type ℓ} where
  abbrev pub length : List A → ℕ
  length [] = 0
  length (x ∷ xs) = suc (length xs)

  pub length-append : (xs ys : List A) → length (xs ++ ys) ≡ length xs + length ys
  length-append [] ys = omega arith
  length-append (x ∷ xs) ys = omega (arith, length-append xs ys)

  -- How many entries pass a test.
  unfoldable pub count : (A → Bool) → List A → ℕ
  count p [] = 0
  count p (x ∷ xs) = (if p x then 1 else 0) + count p xs

  pub count-append : (p : A → Bool) (xs ys : List A) → count p (xs ++ ys) ≡ count p xs + count p ys
  unfolding count
  count-append p [] ys = omega arith
  count-append p (x ∷ xs) ys = omega (arith, count-append p xs ys)

  -- Keep the entries that pass a test, in their order.
  unfoldable pub select : (A → Bool) → List A → List A
  select p [] = []
  select p (x ∷ xs) = if p x then x ∷ select p xs else select p xs

  -- The first entry that passes a test.
  unfoldable pub find : (A → Bool) → List A → Option A
  find p [] = none
  find p (x ∷ xs) = if p x then some x else find p xs

  -- A predicate of every entry.
  abbrev pub All {κ} : (A → Type κ) → List A → Type κ
  All P [] = Unit
  All P (x ∷ xs) = P x × All P xs

  abbrev pub get_elem? : List A → ℕ → Option A
  get_elem? [] i = none
  get_elem? (x ∷ xs) zero = some x
  get_elem? (x ∷ xs) (suc i) = get_elem? xs i

  -- A write out of bounds changes nothing.
  abbrev pub set : List A → ℕ → A → List A
  set [] i v = []
  set (x ∷ xs) zero v = v ∷ xs
  set (x ∷ xs) (suc i) v = x ∷ set xs i v

  -- A write exchanges one entry's share of a count.
  pub count-set :
      (p : A → Bool) (xs : List A) (i : ℕ) (y : A) {x : A}
      → get_elem? xs i ≡ some x
      → count p (set xs i y) + (if p x then 1 else 0) ≡ count p xs + (if p y then 1 else 0)
  unfolding count
  count-set p [] i y e = ground arith
  count-set p (w ∷ xs) zero y e = ground arith
  count-set p (w ∷ xs) (suc i) y {x} e = ground (arith, count-set p xs i y {x = x} e)

  -- A read after a write at the same place, and a second write there.
  pub get_elem-set :
      (xs : List A) (i : ℕ) (y : A) {x : A}
      → get_elem? xs i ≡ some x
      → get_elem? (set xs i y) i ≡ some y
  get_elem-set [] i y e = ground arith
  get_elem-set (w ∷ xs) zero y e = refl
  get_elem-set (w ∷ xs) (suc i) y {x} e = get_elem-set xs i y {x = x} e

  pub set-set : (xs : List A) (i : ℕ) (y z : A) → set (set xs i y) i z ≡ set xs i z
  set-set [] i y z = refl
  set-set (w ∷ xs) zero y z = refl
  set-set (w ∷ xs) (suc i) y z = ap (λ ys. w ∷ ys) (set-set xs i y z)

  -- A predicate of every entry, moved along.
  pub All_mono {κ μ} :
      (P : A → Type κ) (Q : A → Type μ) (xs : List A) → ((x : A) → P x → Q x) → All P xs → All Q xs
  All_mono P Q [] f a = tt
  All_mono P Q (x ∷ xs) f a = (f x a.0, All_mono P Q xs f a.1)

  pub All_both {κ μ ν} :
      (P : A → Type κ) (Q : A → Type μ) (R : A → Type ν) (xs : List A)
      → ((x : A) → P x → Q x → R x)
      → All P xs
      → All Q xs
      → All R xs
  All_both P Q R [] f a b = tt
  All_both P Q R (x ∷ xs) f a b = (f x a.0 b.0, All_both P Q R xs f a.1 b.1)

  pub map-All {κ} :
      (P : A → Type κ) (f : A → A) (xs : List A) → All (λ x. P (f x)) xs → All P (map f xs)
  map-All P f [] a = tt
  map-All P f (x ∷ xs) a = (a.0, map-All P f xs a.1)

  pub append-All {κ} : (P : A → Type κ) (xs ys : List A) → All P xs → All P ys → All P (xs ++ ys)
  append-All P [] ys a b = b
  append-All P (x ∷ xs) ys a b = (a.0, append-All P xs ys a.1 b)

  pub set-All {κ} :
      (P : A → Type κ) (xs : List A) (i : ℕ) (y : A) → All P xs → P y → All P (set xs i y)
  set-All P [] i y a b = tt
  set-All P (x ∷ xs) zero y a b = (b, a.1)
  set-All P (x ∷ xs) (suc i) y a b = (a.0, set-All P xs i y a.1 b)

  pub get_elem-All {κ} :
      (P : A → Type κ) (xs : List A) (i : ℕ) {x : A} → All P xs → get_elem? xs i ≡ some x → P x
  get_elem-All P [] i a e = absurd (ground arith)
  get_elem-All P (w ∷ xs) zero a e = subst P (ground arith) a.0
  get_elem-All P (w ∷ xs) (suc i) {x} a e = get_elem-All P xs i {x = x} a.1 e

  pub select-All {κ} :
      (P : A → Type κ) (p : A → Bool) (xs : List A) → All P xs → All P (select p xs)
  unfolding select
  select-All P p [] a = tt
  select-All P p (x ∷ xs) a = elim (Bool-cases (p x)) [
    | inl kept ↦ rw kept (a.0, select-All P p xs a.1)
    | inr cut ↦ rw cut (select-All P p xs a.1)
  ]
