-- ===== src/Counters/Sort.antt =====
-- counters.rs: `by_flow`, the flows busiest first. The keys are distinct, so that every stable sort
-- gives the same list; this one inserts.
use docsis_monitor.Counters.Flow.{Flow, Dest, dest_total, flow_order}
use docsis_monitor.Counters.Window.{Counters, expire}
use Prim.Native.Nat.{compare, Ordering}
use docsis_monitor.Order.{then}
use docsis_monitor.Base.{ℕ, List, [], ◌∷◌}

-- `b.1.total().cmp(&a.1.total()).then(a.0.cmp(&b.0))`
abbrev pub busier : Flow × Dest → Flow × Dest → Ordering
busier a b = then (compare (dest_total b.1) (dest_total a.1)) (flow_order.order a.0 b.0)

unfoldable pub insert_sorted : Flow × Dest → List (Flow × Dest) → List (Flow × Dest)
insert_sorted e [] = e ∷ []
insert_sorted e (x ∷ xs) = elim (busier e x) [
  | Ordering.gt ↦ x ∷ insert_sorted e xs
  | _ ↦ e ∷ x ∷ xs
]

unfoldable pub sort_flows : List (Flow × Dest) → List (Flow × Dest)
unfolding insert_sorted
sort_flows [] = []
sort_flows (e ∷ es) = insert_sorted e (sort_flows es)

unfoldable pub by_flow : ℕ → Counters → Counters × List (Flow × Dest)
unfolding expire sort_flows
by_flow now c = let e = expire now c in (e, sort_flows e.flows)
