-- ===== src/Counters/Tests.antt =====
-- counters.rs on three packets in a window of ten seconds.
use docsis_monitor.Base.{
  length, All, ◌-◌, ◌≤◌, ◌<◌, max, ◌≡◌, refl, none, List, [], ◌∷◌, arith, retain,
}
use docsis_monitor.Counters.Flow.{flow_order, Flow}
use docsis_monitor.Counters.History.{Packet, IsOrdered, replay}
use docsis_monitor.Counters.Window.{window, total, expire}
use docsis_monitor.Counters.Listed.{IsBusiestFirst, by_flow_sorts}
use docsis_monitor.Counters.Flows.{keep}
use docsis_monitor.Counters.Sessions.{own, session, lookup-session}
use docsis_monitor.Counters.Counted.{window_spec, total_spec, window-replay}
use docsis_monitor.Counters.Bounded.{length-replay-buckets-le}
use docsis_monitor.Counters.Sort.{by_flow}
use docsis_monitor.OrdMap.{lookup}
use docsis_monitor.Packet.Headers.{IpAddr}
use docsis_monitor.Packet.Classify.{Kind}
use mathlib.Core.List.{Perm}

abbrev up : Flow
up = record { src = IpAddr.v4 1; dst = IpAddr.v4 2; gi = none }

abbrev down : Flow
down = record { src = IpAddr.v4 2; dst = IpAddr.v4 1; gi = none }

abbrev three : List Packet
three =
    record { kind = Kind.server_reply; flow = down; at = 109 }
    ∷ record { kind = Kind.client_request; flow = up; at = 108 }
    ∷ record { kind = Kind.client_request; flow = up; at = 99 }
    ∷ []

three-IsOrdered : IsOrdered 115 three
three-IsOrdered = (omega arith, (omega arith, (omega arith, tt)))

three-IsDated : All (λ (p : Packet). 0 < p.at) three
three-IsDated = (omega arith, (omega arith, (omega arith, tt)))

window_three :
    (window 115 (replay 10 three)).1
    ≡ record { requests = 1; replies = 1; tftp_reads = 0; tftp_sends = 0 }
unfolding window replay docsis_monitor.Base.retain
window_three = refl

window-replay_example :
    ((window 115 (replay 10 three)).1 ≡ window_spec 105 three)
    × (total (replay 10 three) ≡ total_spec three)
window-replay_example = window-replay 10 115 three three-IsOrdered (omega arith)

length-replay-buckets-le_example : length (replay 10 three).buckets ≤ max 10 1
length-replay-buckets-le_example =
    length-replay-buckets-le 10 115 three three-IsOrdered three-IsDated

by_flow_sorts_example :
    IsBusiestFirst (by_flow 115 (replay 10 three)).1
    × Perm (by_flow 115 (replay 10 three)).1 (by_flow 115 (replay 10 three)).0.flows
    × ((by_flow 115 (replay 10 three)).0 ≡ expire 115 (replay 10 three))
by_flow_sorts_example = by_flow_sorts 115 (replay 10 three)

lookup-session_example :
    lookup up (expire 115 (replay 10 three)).flows
    ≡ keep (115 - max 10 1) (session 10 (own up three))
lookup-session_example = lookup-session 10 115 up three three-IsOrdered (omega arith)
