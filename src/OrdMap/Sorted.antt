-- ===== src/OrdMap/Sorted.antt =====
-- The order of the entries: every operation keeps it, and where it holds a key stands once.
use docsis_monitor.OrdMap.{OrdMap, lookup, upsert, remove, retain_values, insert}
use docsis_monitor.Order.{Order}
use Prim.Native.Nat.Ordering.{lt}
use docsis_monitor.Base.{if◌then◌else◌, ◌≡◌, refl, ◌≢◌, Bool, none, some, [], ◌∷◌, arith}

module _ {ℓ κ} {K : Type ℓ} {V : Type κ} ⦃o : Order K⦄ where
  -- Every key is above `k`.
  abbrev pub IsAbove : K → OrdMap K V → Type 0
  IsAbove k [] = Unit {0}
  IsAbove k (e ∷ m) = (o.order k e.0 ≡ lt) × IsAbove k m

  abbrev pub IsSorted : OrdMap K V → Type 0
  IsSorted [] = Unit {0}
  IsSorted (e ∷ m) = IsAbove e.0 m × IsSorted m

  pub IsAbove-trans : (j k : K) (m : OrdMap K V) → o.order j k ≡ lt → IsAbove k m → IsAbove j m
  IsAbove-trans j k [] h a = tt
  IsAbove-trans j k (e ∷ m) h a = (o.order_trans j k e.0 h a.0, IsAbove-trans j k m h a.1)

  pub lookup_above : (k : K) (m : OrdMap K V) → IsAbove k m → lookup k m ≡ none
  unfolding lookup
  lookup_above k [] a = refl
  lookup_above k ((j, v) ∷ m) a = ground arith

  upsert-IsAbove :
      (q k : K) (d : V) (g : V → V) (m : OrdMap K V)
      → o.order q k ≡ lt
      → IsAbove q m
      → IsAbove q (upsert k d g m)
  unfolding upsert
  upsert-IsAbove q k d g [] h a = (h, tt)
  upsert-IsAbove q k d g ((j, v) ∷ m) h a = ground (arith, upsert-IsAbove q k d g m h)

  pub upsert-IsSorted :
      (k : K) (d : V) (g : V → V) (m : OrdMap K V) → IsSorted m → IsSorted (upsert k d g m)
  unfolding upsert
  upsert-IsSorted k d g [] s = (tt, tt)
  upsert-IsSorted k d g ((j, v) ∷ m) s = ground (
    arith,
    o.order_swap k j,
    IsAbove-trans k j m,
    upsert-IsAbove j k d g m,
    upsert-IsSorted k d g m,
  )

  pub insert-IsSorted : (k : K) (v : V) (m : OrdMap K V) → IsSorted m → IsSorted (insert k v m)
  unfolding insert
  insert-IsSorted k v m s = upsert-IsSorted k v (λ _. v) m s

  remove-IsAbove : (q k : K) (m : OrdMap K V) → IsAbove q m → IsAbove q (remove k m)
  unfolding remove
  remove-IsAbove q k [] a = tt
  remove-IsAbove q k ((j, v) ∷ m) a = ground (arith, remove-IsAbove q k m)

  pub remove-IsSorted : (k : K) (m : OrdMap K V) → IsSorted m → IsSorted (remove k m)
  unfolding remove
  remove-IsSorted k [] s = tt
  remove-IsSorted k ((j, v) ∷ m) s = ground (arith, remove-IsAbove j k m, remove-IsSorted k m)

  retain-IsAbove :
      (q : K) (p : V → Bool) (m : OrdMap K V) → IsAbove q m → IsAbove q (retain_values p m)
  unfolding retain_values
  retain-IsAbove q p [] a = tt
  retain-IsAbove q p ((j, v) ∷ m) a = ground (arith, retain-IsAbove q p m)

  pub retain-IsSorted : (p : V → Bool) (m : OrdMap K V) → IsSorted m → IsSorted (retain_values p m)
  unfolding retain_values
  retain-IsSorted p [] s = tt
  retain-IsSorted p ((j, v) ∷ m) s = ground (arith, retain-IsAbove j p m, retain-IsSorted p m)

  -- In a sorted map a removed key is gone, and every other key stays.
  pub lookup-remove_self : (k : K) (m : OrdMap K V) → IsSorted m → lookup k (remove k m) ≡ none
  unfolding lookup remove
  lookup-remove_self k [] s = refl
  lookup-remove_self k ((j, v) ∷ m) s =
      ground (arith, lookup-remove_self k m, lookup_above k m, o.eq_of_order k j)

  pub lookup-remove_ne :
      (q k : K) (m : OrdMap K V) → IsSorted m → q ≢ k → lookup q (remove k m) ≡ lookup q m
  unfolding lookup remove
  lookup-remove_ne q k [] s h = refl
  lookup-remove_ne q k ((j, v) ∷ m) s h = ground (
    arith,
    lookup-remove_ne q k m,
    o.eq_of_order k j,
    o.eq_of_order q j,
    IsAbove-trans q j m,
    lookup_above q m,
  )

  -- What a sorted map still holds after `retain` is what it held and what passes.
  pub lookup-retain :
      (q : K) (p : V → Bool) (m : OrdMap K V)
      → IsSorted m
      → lookup q (retain_values p m)
        ≡ elim (lookup q m) [ none ↦ none | some v ↦ if p v then some v else none ]
  unfolding lookup retain_values
  lookup-retain q p [] s = refl
  lookup-retain q p ((j, v) ∷ m) s = ground (
    arith,
    lookup-retain q p m,
    o.eq_of_order q j,
    IsAbove-trans q j m,
    retain-IsAbove q p m,
    lookup_above q (retain_values p m),
  )
