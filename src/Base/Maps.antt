-- ===== src/Base/Maps.antt =====
-- Go maps, as functions into `Option`, over keys with a Boolean equality.
use Prim.Native.Nat.{ℕ}
use mathlib.Core.Path.{◌≡◌}
use mathlib.Core.Logic.{◌↔◌}
use mathlib.Core.Bool.{Bool, true}
use mathlib.Core.Option.{Option, none, some}
use touchgrass.Base.Tests.{if◌then◌else◌, ◌==◌ as nat_eq, ==_iff}
use touchgrass.Base.Texts.{Text, text_eq, text_eq_iff}

pub record Key {ℓ} (K : Type ℓ) : Type ℓ where
  pub same : K → K → Bool
  pub same_iff : (a b : K) → (same a b ≡ true) ↔ (a ≡ b)

instance abbrev pub nat_key : Key ℕ
nat_key = record { same = nat_eq; same_iff = ==_iff }

instance abbrev pub text_key : Key Text
text_key = record { same = text_eq; same_iff = text_eq_iff }

abbrev pub Map {ℓ κ} : Type ℓ → Type κ → Type (ℓ ⊔ κ)
Map K V = K → Option V

abbrev pub empty {ℓ κ} : {K : Type ℓ} {V : Type κ} → Map K V
empty k = none

module _ {ℓ κ} {K : Type ℓ} {V : Type κ} ⦃e : Key K⦄ where
  -- `m[k] = v`
  abbrev pub insert : Map K V → K → V → Map K V
  insert m k v j = if e.same k j then some v else m j

  -- `delete(m, k)`
  abbrev pub erase : Map K V → K → Map K V
  erase m k j = if e.same k j then none else m j

-- `m[k]`, with the zero value for a missing key.
abbrev pub get_or {ℓ κ} : {K : Type ℓ} {V : Type κ} → Map K V → K → V → V
get_or m k zero = elim (m k) [ none ↦ zero | some v ↦ v ]
