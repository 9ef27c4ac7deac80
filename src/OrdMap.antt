-- ===== src/OrdMap.antt =====
-- `BTreeMap` as the list of its entries in key order: the operations that the program calls.
pub mod Laws
pub mod Sorted
pub mod Entries
pub mod Everywhere
use docsis_monitor.Base.{ℕ, retain, Bool, Option, none, some, List, [], ◌∷◌}
use docsis_monitor.Order.{Order}
use Prim.Native.Nat.Ordering.{lt, eq, gt}

abbrev pub OrdMap {ℓ κ} : Type ℓ → Type κ → Type (ℓ ⊔ κ)
OrdMap K V = List (K × V)

module _ {ℓ κ} {K : Type ℓ} {V : Type κ} ⦃o : Order K⦄ where
  -- `get`
  unfoldable pub lookup : K → OrdMap K V → Option V
  lookup k [] = none
  lookup k ((j, v) ∷ m) = elim (o.order k j) [ lt ↦ none | eq ↦ some v | gt ↦ lookup k m ]

  -- `*entry(k).or_insert(d)` changed by `g`
  unfoldable pub upsert : K → V → (V → V) → OrdMap K V → OrdMap K V
  upsert k d g [] = (k, g d) ∷ []
  upsert k d g ((j, v) ∷ m) = elim (o.order k j) [
    | lt ↦ (k, g d) ∷ (j, v) ∷ m
    | eq ↦ (j, g v) ∷ m
    | gt ↦ (j, v) ∷ upsert k d g m
  ]

  -- `insert`, which replaces the value of a key that is there
  unfoldable pub insert : K → V → OrdMap K V → OrdMap K V
  unfolding upsert
  insert k v m = upsert k v (λ _. v) m

  -- `remove`: what is left; what it answers is `lookup` before
  unfoldable pub remove : K → OrdMap K V → OrdMap K V
  remove k [] = []
  remove k ((j, v) ∷ m) = elim (o.order k j) [ lt ↦ (j, v) ∷ m | eq ↦ m | gt ↦ (j, v) ∷ remove k m ]

-- `retain` on the values
module _ {ℓ κ} {K : Type ℓ} {V : Type κ} where
  unfoldable pub retain_values : (V → Bool) → OrdMap K V → OrdMap K V
  unfolding retain
  retain_values p m = retain (λ e. p e.1) m
