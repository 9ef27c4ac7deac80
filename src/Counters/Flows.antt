-- ===== src/Counters/Flows.antt =====
-- The flows of counters.rs: what one packet and one expiry do to what is found of a flow.
use docsis_monitor.OrdMap.{OrdMap, lookup, upsert, retain_values}
use docsis_monitor.OrdMap.Sorted.{IsSorted, upsert-IsSorted, retain-IsSorted, lookup-retain}
use docsis_monitor.OrdMap.Laws.{lookup-upsert_self, lookup-upsert_ne}
use docsis_monitor.Counters.Flow.{Flow, Dest, no_dest, flow_order, slot}
use docsis_monitor.Counters.Window.{new, expire, add, note_dest}
use docsis_monitor.Counters.History.{Packet, replay}
use Prim.Native.Nat.Ordering.{lt, eq, gt}
use Prim.Native.Nat.{Ordering}
use docsis_monitor.Base.{
  ltb, if◌then◌else◌, ℕ, ◌-◌, max, ◌≡◌, refl, sym, ap, ◌∙◌, ◌≢◌, Option, none, some, List, [], ◌∷◌,
  arith,
}
use mathlib.Core.Option.{get_or}

replay-window : (w : ℕ) (h : List Packet) → (replay w h).window ≡ max w 1
unfolding replay new
replay-window w [] = refl
replay-window w (p ∷ h) = unfold add in replay-window w h

replay-IsSorted : (w : ℕ) (h : List Packet) → IsSorted (replay w h).flows
unfolding replay new add
replay-IsSorted w [] = tt
replay-IsSorted w (p ∷ h) =
    upsert-IsSorted p.flow no_dest (note_dest p.at (slot p.kind)) (expire p.at (replay w h)).flows (
      unfold expire in
      retain-IsSorted (λ (d : Dest). ltb (p.at - (replay w h).window) d.last) (replay w h).flows
        (replay-IsSorted w h))

-- A flow that was seen after second `cut`.
abbrev pub keep : ℕ → Option Dest → Option Dest
keep cut none = none
keep cut (some d) = if ltb cut d.last then some d else none

dest-upsert :
    (f : Flow) (p : Packet) (m : OrdMap Flow Dest)
    → lookup f (upsert p.flow no_dest (note_dest p.at (slot p.kind)) m)
      ≡ elim (flow_order.order f p.flow) [
        | eq ↦ some (note_dest p.at (slot p.kind) (get_or (lookup f m) no_dest))
        | _ ↦ lookup f m
      ]
dest-upsert f p m = split (flow_order.order f p.flow) refl
  where
    g : Dest → Dest
    g = note_dest p.at (slot p.kind)

    apart : (o : Ordering) → o ≢ eq → flow_order.order f p.flow ≡ o → f ≢ p.flow
    apart o ne h same =
        ne
          (sym h ∙ ap (λ (x : Flow). flow_order.order x p.flow) same ∙ flow_order.order_self p.flow)

    split :
        (o : Ordering)
        → flow_order.order f p.flow ≡ o
        → lookup f (upsert p.flow no_dest g m)
          ≡ elim o [ eq ↦ some (g (get_or (lookup f m) no_dest)) | _ ↦ lookup f m ]
    split eq h = rw (flow_order.eq_of_order f p.flow h, lookup-upsert_self p.flow no_dest g m)
    split lt h = lookup-upsert_ne f p.flow no_dest g m (apart lt (λ e. cc) h)
    split gt h = lookup-upsert_ne f p.flow no_dest g m (apart gt (λ e. cc) h)

dest-retain :
    (f : Flow) (cut : ℕ) (m : OrdMap Flow Dest)
    → IsSorted m
    → lookup f (retain_values (λ (d : Dest). ltb cut d.last) m) ≡ keep cut (lookup f m)
dest-retain f cut m s = ground (arith, lookup-retain f (λ (d : Dest). ltb cut d.last) m s)

pub dest-expire :
    (w now : ℕ) (f : Flow) (h : List Packet)
    → lookup f (expire now (replay w h)).flows ≡ keep (now - max w 1) (lookup f (replay w h).flows)
unfolding expire
dest-expire w now f h =
    dest-retain f (now - (replay w h).window) (replay w h).flows (replay-IsSorted w h)
    ∙ ap (λ (n : ℕ). keep (now - n) (lookup f (replay w h).flows)) (replay-window w h)

-- What adding a packet leaves to be found.
pub dest-add :
    (w : ℕ) (f : Flow) (p : Packet) (h : List Packet)
    → lookup f (replay w (p ∷ h)).flows ≡ elim (flow_order.order f p.flow) [
      | eq ↦ some (
          note_dest p.at (slot p.kind) (get_or (lookup f (expire p.at (replay w h)).flows) no_dest))
      | _ ↦ lookup f (expire p.at (replay w h)).flows
    ]
unfolding replay add
dest-add w f p h = dest-upsert f p (expire p.at (replay w h)).flows
