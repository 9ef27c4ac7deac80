-- ===== src/Base/Lists.antt =====
-- Lists measured and indexed by native numbers, under the library's names, and the three ways in
-- which the program reads a slice: one element, a range, and everything from a position.
use Prim.Native.Nat.{ℕ, zero, suc, ◌+◌, ◌-◌, ◌≤◌, min}
use mathlib.Core.Path.{◌≡◌, refl, ap}
use mathlib.Core.Bool.{Bool}
use mathlib.Core.List.{List, [], ◌∷◌, ◌++◌}
use mathlib.Core.Option.{Option, none, some}
use native.Mathlib.Omega.{arith}
use native.Mathlib.Nat.{suc-add, zero-add}
use docsis_monitor.Base.Tests.{leb, if◌then◌else◌}

module _ {ℓ} {A : Type ℓ} where
  abbrev pub length : List A → ℕ
  length [] = 0
  length (x ∷ xs) = suc (length xs)

  abbrev pub get_elem? : List A → ℕ → Option A
  get_elem? [] i = none
  get_elem? (x ∷ xs) zero = some x
  get_elem? (x ∷ xs) (suc i) = get_elem? xs i

  abbrev pub take : ℕ → List A → List A
  take zero xs = []
  take (suc n) [] = []
  take (suc n) (x ∷ xs) = x ∷ take n xs

  abbrev pub drop : ℕ → List A → List A
  drop zero xs = xs
  drop (suc n) [] = []
  drop (suc n) (x ∷ xs) = drop n xs

  abbrev pub replicate : ℕ → A → List A
  replicate zero a = []
  replicate (suc n) a = a ∷ replicate n a

  abbrev pub All {κ} : (A → Type κ) → List A → Type κ
  All P [] = Unit {κ}
  All P (x ∷ xs) = P x × All P xs

  -- `retain` and `Iterator::filter`: the elements that pass a test, in order.
  unfoldable pub retain : (A → Bool) → List A → List A
  retain p [] = []
  retain p (x ∷ xs) = let rest = retain p xs in if p x then x ∷ rest else rest

  -- `b.get(at..)`.
  abbrev pub get_from : List A → ℕ → Option (List A)
  get_from xs i = if leb i (length xs) then some (drop i xs) else none

  -- `b.get(at..at + n)`.
  abbrev pub get_range : List A → ℕ → ℕ → Option (List A)
  get_range xs i n = if leb (i + n) (length xs) then some (take n (drop i xs)) else none

module _ {ℓ} {A : Type ℓ} where
  pub length-append : (xs ys : List A) → length (xs ++ ys) ≡ length xs + length ys
  length-append [] ys = omega arith
  length-append (x ∷ xs) ys = omega (arith, length-append xs ys)

  pub length-drop : (n : ℕ) (xs : List A) → length (drop n xs) ≡ length xs - n
  length-drop zero xs = omega arith
  length-drop (suc n) [] = omega arith
  length-drop (suc n) (x ∷ xs) = omega (arith, length-drop n xs)

  pub length-take : (n : ℕ) (xs : List A) → length (take n xs) ≡ min n (length xs)
  length-take zero xs = omega arith
  length-take (suc n) [] = omega arith
  length-take (suc n) (x ∷ xs) = omega (arith, length-take n xs)

  pub length-retain-le : (p : A → Bool) (xs : List A) → length (retain p xs) ≤ length xs
  unfolding retain
  length-retain-le p [] = omega arith
  length-retain-le p (x ∷ xs) = ground (arith, length-retain-le p xs)

  pub drop-append : (xs ys : List A) → drop (length xs) (xs ++ ys) ≡ ys
  drop-append [] ys = refl
  drop-append (x ∷ xs) ys = drop-append xs ys

  pub take-append : (xs ys : List A) → take (length xs) (xs ++ ys) ≡ xs
  take-append [] ys = refl
  take-append (x ∷ xs) ys = ap (◌∷◌ x) (take-append xs ys)

  -- Reading behind a prefix is reading what follows it.
  pub get_elem?-append :
      (xs ys : List A) (i : ℕ) → get_elem? (xs ++ ys) (length xs + i) ≡ get_elem? ys i
  get_elem?-append [] ys i = ground arith
  get_elem?-append (x ∷ xs) ys i = ground (arith, get_elem?-append xs ys i)

  pub drop-append_add : (xs ys : List A) (i : ℕ) → drop (length xs + i) (xs ++ ys) ≡ drop i ys
  drop-append_add [] ys i = rw zero-add
  drop-append_add (x ∷ xs) ys i = rw suc-add (drop-append_add xs ys i)

  pub get_from-append :
      (xs ys : List A) (i : ℕ) → get_from (xs ++ ys) (length xs + i) ≡ get_from ys i
  get_from-append xs ys i = ground (arith, length-append xs ys, drop-append_add xs ys i)

  pub get_range-append :
      (xs ys : List A) (i n : ℕ) → get_range (xs ++ ys) (length xs + i) n ≡ get_range ys i n
  get_range-append xs ys i n = ground (arith, length-append xs ys, drop-append_add xs ys i)

  -- A prefix skipped whole leaves the rest.
  pub get_from-append_self : (xs ys : List A) → get_from (xs ++ ys) (length xs) ≡ some ys
  get_from-append_self xs ys = ground (arith, length-append xs ys, drop-append xs ys)

  -- The range between a prefix and the rest.
  pub get_range-append_middle :
      (pre mid rest : List A) (i n : ℕ)
      → length pre ≡ i
      → length mid ≡ n
      → get_range (pre ++ (mid ++ rest)) i n ≡ some mid
  get_range-append_middle pre mid rest i n p q = ground (
    arith,
    length-append pre (mid ++ rest),
    length-append mid rest,
    drop-append pre (mid ++ rest),
    take-append mid rest,
  )
