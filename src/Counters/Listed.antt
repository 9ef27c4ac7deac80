-- ===== src/Counters/Listed.antt =====
-- `by_flow` of counters.rs: the flows of the window, each once, busiest first.
use docsis_monitor.Counters.Flow.{Flow, Dest, dest_total, flow_order}
use docsis_monitor.Counters.Window.{Counters, expire}
use docsis_monitor.Counters.Sort.{busier, insert_sorted, sort_flows, by_flow}
use Prim.Native.Nat.{Ordering}
use mathlib.Core.List.{Perm}
use docsis_monitor.Base.{All, ℕ, ◌≤◌, ◌≡◌, refl, ◌≢◌, List, [], ◌∷◌, arith}
use mathlib.Core.List.Perm

-- Nothing that follows has a larger total.
abbrev pub IsBusiestFirst : List (Flow × Dest) → Type 0
IsBusiestFirst [] = Unit {0}
IsBusiestFirst (e ∷ es) =
    All (λ (x : Flow × Dest). dest_total x.1 ≤ dest_total e.1) es × IsBusiestFirst es

All-weaken :
    (n m : ℕ) (es : List (Flow × Dest))
    → n ≤ m
    → All (λ (x : Flow × Dest). dest_total x.1 ≤ n) es
    → All (λ (x : Flow × Dest). dest_total x.1 ≤ m) es
All-weaken n m [] h a = tt
All-weaken n m (e ∷ es) h a = (omega arith, All-weaken n m es h a.1)

busier-gt : (a b : Flow × Dest) → busier a b ≡ Ordering.gt → dest_total a.1 ≤ dest_total b.1
busier-gt a b h = ground arith

busier-not_gt : (a b : Flow × Dest) → busier a b ≢ Ordering.gt → dest_total b.1 ≤ dest_total a.1
busier-not_gt a b h = ground arith

insert_sorted-All :
    (n : ℕ) (e : Flow × Dest) (es : List (Flow × Dest))
    → dest_total e.1 ≤ n
    → All (λ (x : Flow × Dest). dest_total x.1 ≤ n) es
    → All (λ (x : Flow × Dest). dest_total x.1 ≤ n) (insert_sorted e es)
unfolding insert_sorted
insert_sorted-All n e [] h a = (h, tt)
insert_sorted-All n e (x ∷ xs) h a = ground (arith, insert_sorted-All n e xs h)

insert_sorted-IsBusiestFirst :
    (e : Flow × Dest) (es : List (Flow × Dest))
    → IsBusiestFirst es
    → IsBusiestFirst (insert_sorted e es)
unfolding insert_sorted
insert_sorted-IsBusiestFirst e [] s = (tt, tt)
insert_sorted-IsBusiestFirst e (x ∷ xs) s = ground (
  arith,
  busier-gt e x,
  busier-not_gt e x,
  All-weaken (dest_total x.1) (dest_total e.1) xs,
  insert_sorted-All (dest_total x.1) e xs,
  insert_sorted-IsBusiestFirst e xs,
)

sort_flows-IsBusiestFirst : (es : List (Flow × Dest)) → IsBusiestFirst (sort_flows es)
unfolding sort_flows
sort_flows-IsBusiestFirst [] = tt
sort_flows-IsBusiestFirst (e ∷ es) =
    insert_sorted-IsBusiestFirst e (sort_flows es) (sort_flows-IsBusiestFirst es)

insert_sorted-perm :
    (e : Flow × Dest) (es : List (Flow × Dest)) → Perm (insert_sorted e es) (e ∷ es)
unfolding insert_sorted
insert_sorted-perm e [] = Perm.refl (e ∷ [])
insert_sorted-perm e (x ∷ xs) = split (insert_sorted-perm e xs) (busier e x) refl
  where
    split :
        Perm (insert_sorted e xs) (e ∷ xs)
        → (o : Ordering) → busier e x ≡ o
        → Perm (insert_sorted e (x ∷ xs)) (e ∷ x ∷ xs)
    split p Ordering.gt h = rw (h, insert_sorted) (Perm.trans (Perm.cons x p) (Perm.swap e x xs))
    split p Ordering.lt h = rw (h, insert_sorted) (Perm.refl (e ∷ x ∷ xs))
    split p Ordering.eq h = rw (h, insert_sorted) (Perm.refl (e ∷ x ∷ xs))

sort_flows-perm : (es : List (Flow × Dest)) → Perm (sort_flows es) es
unfolding sort_flows
sort_flows-perm [] = Perm.refl []
sort_flows-perm (e ∷ es) =
    Perm.trans (insert_sorted-perm e (sort_flows es)) (Perm.cons e (sort_flows-perm es))

-- The list holds every flow that is not expired, as often as the table does, with the largest
-- total first; and the table that is left is the expired one.
pub by_flow_sorts :
    (now : ℕ) (c : Counters)
    → IsBusiestFirst (by_flow now c).1
      × Perm (by_flow now c).1 (by_flow now c).0.flows
      × ((by_flow now c).0 ≡ expire now c)
unfolding by_flow
by_flow_sorts now c =
    (sort_flows-IsBusiestFirst (expire now c).flows, sort_flows-perm (expire now c).flows, refl)
