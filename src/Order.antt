-- ===== src/Order.antt =====
-- Total orders as the derived `Ord` of the program's key types gives them: numbers, the variants of
-- a data type in declaration order, and fields compared one after the other.
use docsis_monitor.Base.{ℕ, ◌≡◌, refl, ap, Option, none, some, arith, List, [], ◌∷◌}
use Prim.Native.Nat.{compare, Ordering}
use Prim.Native.Nat.Ordering.{lt, eq, gt}

abbrev pub swapped : Ordering → Ordering
swapped lt = gt
swapped eq = eq
swapped gt = lt

pub record Order {ℓ} (K : Type ℓ) : Type ℓ where
  pub order : K → K → Ordering
  pub order_self : (a : K) → order a a ≡ eq
  pub eq_of_order : (a b : K) → order a b ≡ eq → a ≡ b
  pub order_swap : (a b : K) → order b a ≡ swapped (order a b)
  pub order_trans : (a b c : K) → order a b ≡ lt → order b c ≡ lt → order a c ≡ lt

abbrev pub then : Ordering → Ordering → Ordering
then eq o = o
then lt _ = lt
then gt _ = gt

pub nat_self : (a : ℕ) → compare a a ≡ eq
nat_self a = ground arith

pub nat_eq_of : (a b : ℕ) → compare a b ≡ eq → a ≡ b
nat_eq_of a b h = ground arith

pub nat_swap : (a b : ℕ) → compare b a ≡ swapped (compare a b)
nat_swap a b = ground arith

pub nat_trans : (a b c : ℕ) → compare a b ≡ lt → compare b c ≡ lt → compare a c ≡ lt
nat_trans a b c h k = ground arith

instance abbrev pub nat_order : Order ℕ
nat_order = record {
  order = compare;
  order_self = nat_self;
  eq_of_order = nat_eq_of;
  order_swap = nat_swap;
  order_trans = nat_trans;
}

-- A field more: the first decides, then the second.
module _ {ℓ κ} {A : Type ℓ} {B : Type κ} ⦃a : Order A⦄ ⦃b : Order B⦄ where
  abbrev pub pair_compare : A × B → A × B → Ordering
  pair_compare x y = then (a.order x.0 y.0) (b.order x.1 y.1)

  pub pair_self : (x : A × B) → pair_compare x x ≡ eq
  pair_self x = simp (a.order_self, b.order_self)

  pub pair_eq_of : (x y : A × B) → pair_compare x y ≡ eq → x ≡ y
  pair_eq_of x y h = ground (arith, a.eq_of_order x.0 y.0, b.eq_of_order x.1 y.1)

  pub pair_swap : (x y : A × B) → pair_compare y x ≡ swapped (pair_compare x y)
  pair_swap x y = ground (arith, a.order_swap x.0 y.0, b.order_swap x.1 y.1)

  pub pair_trans :
      (x y z : A × B) → pair_compare x y ≡ lt → pair_compare y z ≡ lt → pair_compare x z ≡ lt
  pair_trans x y z h k = ground (
    arith,
    a.eq_of_order x.0 y.0,
    a.eq_of_order y.0 z.0,
    a.order_trans x.0 y.0 z.0,
    b.order_trans x.1 y.1 z.1,
  )

  instance abbrev pub pair_order : Order (A × B)
  pair_order = record {
    order = pair_compare;
    order_self = pair_self;
    eq_of_order = pair_eq_of;
    order_swap = pair_swap;
    order_trans = pair_trans;
  }

-- `None` comes before every `Some`.
module _ {ℓ} {A : Type ℓ} ⦃a : Order A⦄ where
  abbrev pub option_compare : Option A → Option A → Ordering
  option_compare none none = eq
  option_compare none (some _) = lt
  option_compare (some _) none = gt
  option_compare (some x) (some y) = a.order x y

  pub option_self : (x : Option A) → option_compare x x ≡ eq
  option_self none = refl
  option_self (some x) = a.order_self x

  pub option_eq_of : (x y : Option A) → option_compare x y ≡ eq → x ≡ y
  option_eq_of none none h = refl
  option_eq_of none (some y) h = cc
  option_eq_of (some x) none h = cc
  option_eq_of (some x) (some y) h = ap some (a.eq_of_order x y h)

  pub option_swap : (x y : Option A) → option_compare y x ≡ swapped (option_compare x y)
  option_swap none none = refl
  option_swap none (some y) = refl
  option_swap (some x) none = refl
  option_swap (some x) (some y) = a.order_swap x y

  pub option_trans :
      (x y z : Option A)
      → option_compare x y ≡ lt
      → option_compare y z ≡ lt
      → option_compare x z ≡ lt
  option_trans none none z h k = cc
  option_trans none (some y) none h k = cc
  option_trans none (some y) (some z) h k = refl
  option_trans (some x) none z h k = cc
  option_trans (some x) (some y) none h k = cc
  option_trans (some x) (some y) (some z) h k = a.order_trans x y z h k

  instance abbrev pub option_order : Order (Option A)
  option_order = record {
    order = option_compare;
    order_self = option_self;
    eq_of_order = option_eq_of;
    order_swap = option_swap;
    order_trans = option_trans;
  }

-- Lists as in a dictionary, which is how strings are ordered by their bytes.
module _ {ℓ} {A : Type ℓ} ⦃a : Order A⦄ where
  unfoldable pub list_compare : List A → List A → Ordering
  list_compare [] [] = eq
  list_compare [] (_ ∷ _) = lt
  list_compare (_ ∷ _) [] = gt
  list_compare (x ∷ xs) (y ∷ ys) = then (a.order x y) (list_compare xs ys)

  pub list_self : (xs : List A) → list_compare xs xs ≡ eq
  unfolding list_compare
  list_self [] = refl
  list_self (x ∷ xs) = simp (a.order_self, list_self xs)

  pub list_eq_of : (xs ys : List A) → list_compare xs ys ≡ eq → xs ≡ ys
  unfolding list_compare
  list_eq_of [] [] h = refl
  list_eq_of [] (y ∷ ys) h = cc
  list_eq_of (x ∷ xs) [] h = cc
  list_eq_of (x ∷ xs) (y ∷ ys) h = ground (arith, a.eq_of_order x y, list_eq_of xs ys)

  pub list_swap : (xs ys : List A) → list_compare ys xs ≡ swapped (list_compare xs ys)
  unfolding list_compare
  list_swap [] [] = refl
  list_swap [] (y ∷ ys) = refl
  list_swap (x ∷ xs) [] = refl
  list_swap (x ∷ xs) (y ∷ ys) = ground (arith, a.order_swap x y, list_swap xs ys)

  pub list_trans :
      (xs ys zs : List A)
      → list_compare xs ys ≡ lt
      → list_compare ys zs ≡ lt
      → list_compare xs zs ≡ lt
  unfolding list_compare
  list_trans [] [] zs h k = cc
  list_trans [] (y ∷ ys) [] h k = cc
  list_trans [] (y ∷ ys) (z ∷ zs) h k = refl
  list_trans (x ∷ xs) [] zs h k = cc
  list_trans (x ∷ xs) (y ∷ ys) [] h k = cc
  list_trans (x ∷ xs) (y ∷ ys) (z ∷ zs) h k =
      ground (arith, a.eq_of_order x y, a.eq_of_order y z, a.order_trans x y z, list_trans xs ys zs)

  instance abbrev pub list_order : Order (List A)
  list_order = record {
    order = list_compare;
    order_self = list_self;
    eq_of_order = list_eq_of;
    order_swap = list_swap;
    order_trans = list_trans;
  }

-- A type ordered by an injective key.
module _ {ℓ κ} {A : Type ℓ} {B : Type κ} ⦃b : Order B⦄ (key : A → B)
    (inj : (x y : A) → key x ≡ key y → x ≡ y) where
  abbrev pub order_by : Order A
  order_by = record {
    order = λ x y. b.order (key x) (key y);
    order_self = λ x. b.order_self (key x);
    eq_of_order = λ x y h. inj x y (b.eq_of_order (key x) (key y) h);
    order_swap = λ x y. b.order_swap (key x) (key y);
    order_trans = λ x y z. b.order_trans (key x) (key y) (key z);
  }
