-- ===== src/OrdMap/Everywhere.antt =====
-- What holds of every entry of a map, after each operation.
use docsis_monitor.OrdMap.{OrdMap, upsert, insert, remove, lookup, retain_values}
use docsis_monitor.Order.{Order}
use Prim.Native.Nat.Ordering.{lt, eq, gt}
use docsis_monitor.Base.{All, ◌≡◌, Bool, some, [], ◌∷◌, arith, true}

module _ {ℓ κ} {K : Type ℓ} {V : Type κ} ⦃o : Order K⦄ where
  pub upsert-All :
      (P : K × V → Type 0) (k : K) (d : V) (g : V → V) (m : OrdMap K V)
      → P (k, g d)
      → ((j : K) (v : V) → P (j, v) → P (j, g v))
      → All P m
      → All P (upsert k d g m)
  unfolding upsert
  upsert-All P k d g [] new old all = (new, tt)
  upsert-All P k d g ((j, v) ∷ m) new old all =
      elim (o.order k j)
        as (λ c. All P (elim c [
          | lt ↦ (k, g d) ∷ (j, v) ∷ m
          | eq ↦ (j, g v) ∷ m
          | gt ↦ (j, v) ∷ upsert k d g m
        ])) [
          | lt ↦ (new, all)
          | eq ↦ (old j v all.0, all.1)
          | gt ↦ (all.0, upsert-All P k d g m new old all.1)
        ]

  pub insert-All :
      (P : K × V → Type 0) (k : K) (v : V) (m : OrdMap K V)
      → P (k, v)
      → ((j : K) → P (j, v))
      → All P m
      → All P (insert k v m)
  unfolding insert
  insert-All P k v m here same all = upsert-All P k v (λ _. v) m here (λ j w _. same j) all

  pub remove-All : (P : K × V → Type 0) (k : K) (m : OrdMap K V) → All P m → All P (remove k m)
  unfolding remove
  remove-All P k [] all = tt
  remove-All P k ((j, v) ∷ m) all =
      elim (o.order k j)
        as (λ c. All P (elim c [ lt ↦ (j, v) ∷ m | eq ↦ m | gt ↦ (j, v) ∷ remove k m ])) [
          | lt ↦ all
          | eq ↦ all.1
          | gt ↦ (all.0, remove-All P k m all.1)
        ]

  pub lookup-All :
      (P : K × V → Type 0) (k : K) (m : OrdMap K V) (v : V)
      → lookup k m ≡ some v
      → All P m
      → P (k, v)
  unfolding lookup
  lookup-All P k [] v h all = absurd (cc h)
  lookup-All P k ((j, w) ∷ m) v h all = ground (arith, o.eq_of_order k j, lookup-All P k m v)

module _ {ℓ κ} {K : Type ℓ} {V : Type κ} where
  pub retain-All :
      (P : K × V → Type 0) (p : V → Bool) (m : OrdMap K V) → All P m → All P (retain_values p m)
  unfolding retain_values
  retain-All P p [] all = tt
  retain-All P p ((j, v) ∷ m) all = ground (arith, retain-All P p m, all)

  -- What is left has passed.
  pub All-retain :
      (P : K × V → Type 0) (p : V → Bool) (m : OrdMap K V)
      → ((j : K) (v : V) → p v ≡ true → P (j, v))
      → All P (retain_values p m)
  unfolding retain_values
  All-retain P p [] passed = tt
  All-retain P p ((j, v) ∷ m) passed = ground (arith, All-retain P p m passed, passed j v)
