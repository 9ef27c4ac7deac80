-- ===== src/Counters/Sessions.antt =====
-- What the flows of counters.rs hold, against the packets of each flow alone.
use Prim.Native.Nat.Ordering.{lt, eq, gt}
use docsis_monitor.Counters.Flow.{Flow, flow_order, Counts, Dest, no_dest, slot}
use docsis_monitor.Counters.History.{Packet, IsOrdered, replay, count_all, count_all-le-length}
use docsis_monitor.Counters.Flows.{keep, dest-expire, dest-add}
use docsis_monitor.Base.{
  u64_mod, ltb, if◌then◌else◌, length, ℕ, ◌+◌, ◌-◌, ◌≤◌, ◌<◌, max, ◌≡◌, refl, Option, none, some,
  List, [], ◌∷◌, arith, Bool-cases, ap, ◌∙◌, inl, inr,
}
use docsis_monitor.Counters.Window.{note_dest, expire, new}
use docsis_monitor.Packet.Classify.{Kind}
use Prim.Native.Nat.{Ordering}
use mathlib.Core.Option.{get_or}
use docsis_monitor.OrdMap.{lookup}

-- The packets of a flow.
abbrev pub own : Flow → List Packet → List Packet
own f [] = []
own f (p ∷ h) = elim (flow_order.order f p.flow) [ eq ↦ p ∷ own f h | _ ↦ own f h ]

-- The packets before second `t`, latest first, up to the first pause of `w` seconds or more.
abbrev pub before_pause : ℕ → ℕ → List Packet → List Packet
before_pause w t [] = []
before_pause w t (q ∷ h) =
    let rest = before_pause w q.at h in if ltb (t - max w 1) q.at then q ∷ rest else []

-- How many of each kind there are.
abbrev pub tally : List Packet → Counts
tally h = record {
  c0 = count_all Kind.client_request h;
  c1 = count_all Kind.server_reply h;
  c2 = count_all Kind.tftp_request h;
  c3 = count_all Kind.tftp_reply h;
}

-- What there is to hold of a flow: its packets since its last pause, and when it was seen last.
abbrev pub session : ℕ → List Packet → Option Dest
session w [] = none
session w (p ∷ h) = some (record { counts = tally (p ∷ before_pause w p.at h); last = p.at })

keep-keep : (cut later : ℕ) (o : Option Dest) → cut ≤ later → keep later (keep cut o) ≡ keep later o
keep-keep cut later none h = refl
keep-keep cut later (some d) h = ground (arith, h)

length-own-le : (f : Flow) (h : List Packet) → length (own f h) ≤ length h
length-own-le f [] = omega arith
length-own-le f (p ∷ h) = ground (arith, length-own-le f h)

length-before_pause-le : (w t : ℕ) (h : List Packet) → length (before_pause w t h) ≤ length h
length-before_pause-le w t [] = omega arith
length-before_pause-le w t (q ∷ h) = ground (arith, length-before_pause-le w q.at h)

note_dest-tally :
    (k : Kind) (f : Flow) (at last : ℕ) (h : List Packet)
    → length h + 1 < u64_mod
    → note_dest at (slot k) (record { counts = tally h; last = last })
      ≡ record { counts = tally (record { kind = k; flow = f; at = at } ∷ h); last = at }
unfolding slot
note_dest-tally Kind.client_request f at last h room =
    ground (arith, count_all-le-length Kind.client_request h)
note_dest-tally Kind.server_reply f at last h room =
    ground (arith, count_all-le-length Kind.server_reply h)
note_dest-tally Kind.tftp_request f at last h room =
    ground (arith, count_all-le-length Kind.tftp_request h)
note_dest-tally Kind.tftp_reply f at last h room =
    ground (arith, count_all-le-length Kind.tftp_reply h)

-- One packet more of a flow, of which `o` was held, is the next of a session or the first of one.
session-cons :
    (w : ℕ) (p : Packet) (l : List Packet)
    → length l + 1 < u64_mod
    → some (note_dest p.at (slot p.kind) (get_or (keep (p.at - max w 1) (session w l)) no_dest))
      ≡ session w (p ∷ l)
session-cons w p [] room = ap some (note_dest-tally p.kind p.flow p.at 0 [] room)
session-cons w p (q ∷ l) room = elim (Bool-cases (ltb (p.at - max w 1) q.at)) [
  | inl soon ↦ rw soon (
      ap some (
        note_dest-tally p.kind p.flow p.at q.at (q ∷ before_pause w q.at l)
          (omega (arith, room, length-before_pause-le w q.at l))))
  | inr paused ↦ rw paused (ap some (note_dest-tally p.kind p.flow p.at 0 [] (omega arith)))
]

-- What adding a packet leaves to be found, seen from a later second.
keep-session :
    (o : Ordering) (w later : ℕ) (p : Packet) (l : List Packet)
    → p.at ≤ later
    → length l + 1 < u64_mod
    → keep (later - max w 1) (elim o [
      | eq ↦
          some (note_dest p.at (slot p.kind) (get_or (keep (p.at - max w 1) (session w l)) no_dest))
      | _ ↦ keep (p.at - max w 1) (session w l)
    ])
      ≡ keep (later - max w 1) (session w (elim o [ eq ↦ p ∷ l | _ ↦ l ]))
keep-session eq w later p l h room = ap (keep (later - max w 1)) (session-cons w p l room)
keep-session lt w later p l h room =
    keep-keep (p.at - max w 1) (later - max w 1) (session w l) (omega (arith, h))
keep-session gt w later p l h room =
    keep-keep (p.at - max w 1) (later - max w 1) (session w l) (omega (arith, h))

-- For packets in the order of time, fewer than 2^64 of them, a flow is listed exactly if it was seen
-- in the last `w` seconds (one, if `w` is 0) before `now`; and then with the second in which it was
-- seen last, and how many packets of each kind it had since it last paused for `w` seconds or more,
-- whatever other flows did. Second 0 counts as long ago.
pub lookup-session :
    (w now : ℕ) (f : Flow) (h : List Packet)
    → IsOrdered now h
    → length h < u64_mod
    → lookup f (expire now (replay w h)).flows ≡ keep (now - max w 1) (session w (own f h))
lookup-session w now f [] o room =
    dest-expire w now f [] ∙ (unfold replay in unfold new in unfold lookup in refl)
lookup-session w now f (p ∷ h) o room =
    dest-expire w now f (p ∷ h)
    ∙ ap (keep (now - max w 1)) (dest-add w f p h)
    ∙ ap
        (λ (x : Option Dest). keep (now - max w 1) (elim (flow_order.order f p.flow) [
          | eq ↦ some (note_dest p.at (slot p.kind) (get_or x no_dest))
          | _ ↦ x
        ]))
        (lookup-session w p.at f h o.1 (omega (arith, room)))
    ∙ keep-session (flow_order.order f p.flow) w now p (own f h) o.0
        (omega (arith, room, length-own-le f h))
