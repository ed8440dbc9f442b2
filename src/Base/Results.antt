-- ===== src/Base/Results.antt =====
-- Go's `(value, error)` returns, and methods that change a state and may fail.
use mathlib.Core.Path.{◌≡◌, refl}
use mathlib.Core.Logic.{◌⊎◌, inl, inr}
use mathlib.Core.Bool.{Bool, true, false}

-- The errors that callers tell apart by `errors.Is`; the wrapped messages are left out.
pub data Error : Type 0 where
  invalid_input conflict unauthorized not_found database hashing backoff cancelled : Error
  io busy unconfigured rejected : Error

pub data Result {ℓ} (A : Type ℓ) : Type ℓ where
  ok : A → Result A
  err : Error → Result A

-- A method over the state `S`: its result, and the state it leaves, also where it fails.
abbrev pub Method {ℓ κ} : Type κ → Type ℓ → Type (ℓ ⊔ κ)
Method S A = S → Result A × S

infixl 5 ◌>>=◌ ◌>>◌
abbrev pub ◌>>=◌ {ℓ κ μ} :
    {S : Type κ} {A : Type ℓ} {B : Type μ} → Method S A → (A → Method S B) → Method S B
◌>>=◌ m f s = let (r, t) = m s in elim r [ ok a ↦ f a t | err e ↦ (err e, t) ]

abbrev pub ◌>>◌ {ℓ κ} : {S : Type κ} {B : Type ℓ} → Method S (Unit {0}) → Method S B → Method S B
m >> k = m >>= λ _. k

abbrev pub return {ℓ κ} : {S : Type κ} {A : Type ℓ} → A → Method S A
return a s = (ok a, s)

-- A method that reads the state and leaves it alone.
abbrev pub ask {ℓ κ} : {S : Type κ} {A : Type ℓ} → (S → Result A) → Method S A
ask m s = (m s, s)

-- A result that needs no state.
abbrev pub lift {ℓ κ} : {S : Type κ} {A : Type ℓ} → Result A → Method S A
lift r s = (r, s)

-- The error of a read as a value, for callers that look at it.
abbrev pub attempt {ℓ κ} : {S : Type κ} {A : Type ℓ} → (S → Result A) → Method S (Result A)
attempt m s = (ok (m s), s)

abbrev pub guard : Bool → Error → Result (Unit {0})
guard true e = ok tt
guard false e = err e

-- `if !test { return err }`
abbrev pub require {κ} : {S : Type κ} → Bool → Error → Method S (Unit {0})
require b e s = (guard b e, s)

abbrev pub gate : Bool → Result (Unit {0}) → Result (Unit {0})
gate true r = r
gate false r = ok tt

-- `if test { if err := m; err != nil { return err } }`
abbrev pub when {κ} : {S : Type κ} → Bool → (S → Result (Unit {0})) → Method S (Unit {0})
when b m s = (gate b (m s), s)

-- To split on a computed result and keep the equation.
pub Result-cases {ℓ} :
    {A : Type ℓ} (r : Result A) → ((a : A) × (r ≡ ok a)) ⊎ ((e : Error) × (r ≡ err e))
Result-cases (ok a) = inl (a, refl)
Result-cases (err e) = inr (e, refl)
