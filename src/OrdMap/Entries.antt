-- ===== src/OrdMap/Entries.antt =====
-- The entries of a sorted map, one by one: each is what its key finds.
use docsis_monitor.OrdMap.{OrdMap, lookup}
use docsis_monitor.OrdMap.Sorted.{IsAbove, IsSorted, IsAbove-trans, lookup_above}
use docsis_monitor.Order.{Order}
use docsis_monitor.Base.{◌≡◌, some, [], ◌∷◌, arith, ◌≤◌, ℕ, max, inl, inr, suc, ◌⊎◌}
use native.Mathlib.Decide.{dec_le}

-- The largest measure of some entries.
abbrev pub largest {ℓ κ} : {K : Type ℓ} {V : Type κ} → (K → V → ℕ) → OrdMap K V → ℕ
largest measure [] = 0
largest measure (e ∷ m) = max (measure e.0 e.1) (largest measure m)

max_reached : (a b n : ℕ) → max a b ≡ n → (a ≡ n) ⊎ (b ≡ n)
max_reached a b n h = elim (dec_le a b) [
  | yes le ↦ inr (omega (arith, le, h))
  | no gt ↦ inl (omega (arith, gt, h))
]

module _ {ℓ κ} {K : Type ℓ} {V : Type κ} ⦃o : Order K⦄ where
  lookup-cons :
      (q j : K) (w : V) (m : OrdMap K V) {v : V}
      → IsAbove j m
      → lookup q m ≡ some v
      → lookup q ((j, w) ∷ m) ≡ some v
  unfolding lookup
  lookup-cons q j w m {v} a h =
      ground (arith, o.eq_of_order q j, IsAbove-trans q j m, lookup_above q m)

  lookup_here : (j : K) (w : V) (m : OrdMap K V) → lookup j ((j, w) ∷ m) ≡ some w
  unfolding lookup
  lookup_here j w m = ground (arith, o.order_self j)

  -- What a key finds measures no more than the largest.
  pub lookup-largest :
      (measure : K → V → ℕ) (q : K) (m : OrdMap K V) (v : V)
      → lookup q m ≡ some v
      → measure q v ≤ largest measure m
  unfolding lookup
  lookup-largest measure q [] v h = cc
  lookup-largest measure q ((j, w) ∷ m) v h =
      ground (arith, o.eq_of_order q j, lookup-largest measure q m v)

  -- The largest, where it is above 0, is the measure of an entry, which its key finds.
  pub largest_found :
      (measure : K → V → ℕ) (n : ℕ) (m : OrdMap K V)
      → IsSorted m
      → largest measure m ≡ suc n
      → (q : K) × (v : V) × (lookup q m ≡ some v) × (measure q v ≡ suc n)
  largest_found measure n [] s h = absurd (omega (arith, h))
  largest_found measure n ((j, w) ∷ m) s h = elim (max_reached _ _ _ h) [
    | inl here ↦ (j, w, lookup_here j w m, here)
    | inr below ↦
        let (q, v, found, e) = largest_found measure n m s.1 below in
        (q, v, lookup-cons q j w m s.0 found, e)
  ]
