-- ===== src/OrdMap/Laws.antt =====
-- Reading after writing, and sizes. None of these needs the entries to be sorted.
use docsis_monitor.OrdMap.{OrdMap, lookup, upsert, remove, insert}
use docsis_monitor.Order.{Order}
use mathlib.Core.Option.{get_or}
use docsis_monitor.Base.{length, ℕ, suc, ◌+◌, ◌≤◌, ◌≡◌, ◌≢◌, some, [], ◌∷◌, arith}

-- A count summed over the values.
abbrev pub sum_values {ℓ κ} : {K : Type ℓ} {V : Type κ} → (V → ℕ) → OrdMap K V → ℕ
sum_values f [] = 0
sum_values f (e ∷ m) = f e.1 + sum_values f m

module _ {ℓ κ} {K : Type ℓ} {V : Type κ} ⦃o : Order K⦄ where
  pub lookup-upsert_self :
      (k : K) (d : V) (g : V → V) (m : OrdMap K V)
      → lookup k (upsert k d g m) ≡ some (g (get_or (lookup k m) d))
  unfolding lookup upsert
  lookup-upsert_self k d g [] = ground (arith, o.order_self k)
  lookup-upsert_self k d g ((j, v) ∷ m) = ground (arith, o.order_self k, lookup-upsert_self k d g m)

  pub lookup-upsert_ne :
      (q k : K) (d : V) (g : V → V) (m : OrdMap K V)
      → q ≢ k
      → lookup q (upsert k d g m) ≡ lookup q m
  unfolding lookup upsert
  lookup-upsert_ne q k d g [] h = ground (arith, o.eq_of_order q k)
  lookup-upsert_ne q k d g ((j, v) ∷ m) h = ground (
    arith,
    o.eq_of_order q k,
    o.eq_of_order k j,
    o.order_trans q k j,
    lookup-upsert_ne q k d g m h,
  )

  pub length-upsert-le :
      (k : K) (d : V) (g : V → V) (m : OrdMap K V) → length (upsert k d g m) ≤ suc (length m)
  unfolding upsert
  length-upsert-le k d g [] = omega arith
  length-upsert-le k d g ((j, v) ∷ m) = ground (arith, length-upsert-le k d g m)

  pub lookup-insert_self : (k : K) (v : V) (m : OrdMap K V) → lookup k (insert k v m) ≡ some v
  unfolding insert
  lookup-insert_self k v m = lookup-upsert_self k v (λ _. v) m

  pub lookup-insert_ne :
      (q k : K) (v : V) (m : OrdMap K V) → q ≢ k → lookup q (insert k v m) ≡ lookup q m
  unfolding insert
  lookup-insert_ne q k v m h = lookup-upsert_ne q k v (λ _. v) m h

  pub length-insert-le : (k : K) (v : V) (m : OrdMap K V) → length (insert k v m) ≤ suc (length m)
  unfolding insert
  length-insert-le k v m = length-upsert-le k v (λ _. v) m

  -- A key that is there is replaced, and one that is removed leaves one entry less.
  pub length-remove :
      (k : K) (m : OrdMap K V) {v : V} → lookup k m ≡ some v → suc (length (remove k m)) ≡ length m
  unfolding lookup remove
  length-remove k [] h = cc
  length-remove k ((j, w) ∷ m) {v} h = ground (arith, length-remove k m {v = v})

  pub length-remove-le : (k : K) (m : OrdMap K V) → length (remove k m) ≤ length m
  unfolding remove
  length-remove-le k [] = omega arith
  length-remove-le k ((j, v) ∷ m) = ground (arith, length-remove-le k m)

  -- A sum over the values that stays below a bound changes by what `g` changes at the key.
  pub sum-upsert :
      (f : V → ℕ) (bound c : ℕ) (k : K) (d : V) (g : V → V) (m : OrdMap K V)
      → ((v : V) → f v ≤ bound → f (g v) ≡ f v + c)
      → f d ≡ 0
      → sum_values f m ≤ bound
      → sum_values f (upsert k d g m) ≡ sum_values f m + c
  unfolding upsert
  sum-upsert f bound c k d g [] h z b = omega (arith, h d (omega arith))
  sum-upsert f bound c k d g ((j, v) ∷ m) h z b =
      ground (
        arith,
        h v (omega arith),
        h d (omega arith),
        sum-upsert f bound c k d g m h z (omega arith),
      )
