-- ===== src/Counters/History.antt =====
-- The packets that counters.rs was told of, latest first, and what they add up to: the
-- specification of the window, which keeps every packet and its time.
use docsis_monitor.Counters.Flow.{Flow}
use docsis_monitor.Counters.Window.{Counters, new, add}
use docsis_monitor.Packet.Classify.{Kind}
use docsis_monitor.Base.{ltb, if◌then◌else◌, length, ℕ, ◌+◌, ◌≤◌, List, [], ◌∷◌, arith}

pub record Packet : Type 0 where
  pub kind : Kind
  pub flow : Flow
  pub at : ℕ

-- No packet is later than `now`, and the times do not fall.
abbrev pub IsOrdered : ℕ → List Packet → Type 0
IsOrdered now [] = Unit {0}
IsOrdered now (p ∷ earlier) = (p.at ≤ now) × IsOrdered p.at earlier

-- The counters after these packets.
unfoldable pub replay : ℕ → List Packet → Counters
unfolding new add
replay window [] = new window
replay window (p ∷ earlier) = add p.kind p.flow p.at (replay window earlier)

-- 1 for the same kind.
abbrev pub same_kind : Kind → Kind → ℕ
same_kind Kind.client_request Kind.client_request = 1
same_kind Kind.server_reply Kind.server_reply = 1
same_kind Kind.tftp_request Kind.tftp_request = 1
same_kind Kind.tftp_reply Kind.tftp_reply = 1
same_kind _ _ = 0

-- How many packets of a kind came after the second `cut`, and how many in all.
abbrev pub count_after : Kind → ℕ → List Packet → ℕ
count_after k cut [] = 0
count_after k cut (p ∷ earlier) =
    (if ltb cut p.at then same_kind k p.kind else 0) + count_after k cut earlier

abbrev pub count_all : Kind → List Packet → ℕ
count_all k [] = 0
count_all k (p ∷ earlier) = same_kind k p.kind + count_all k earlier

pub same_kind-le : (k k' : Kind) → same_kind k k' ≤ 1
same_kind-le Kind.client_request k' = ground arith
same_kind-le k k' = ground arith

pub count_all-le-length : (k : Kind) (h : List Packet) → count_all k h ≤ length h
count_all-le-length k [] = omega arith
count_all-le-length k (p ∷ h) = omega (arith, same_kind-le k p.kind, count_all-le-length k h)
