-- ===== src/Counters/Flow.antt =====
-- counters.rs: flows and their order, and the four counts of a packet's kind.
use docsis_monitor.Order.{Order, order_by, pair_order, option_order, nat_order}
use docsis_monitor.Packet.Headers.{IpAddr}
use docsis_monitor.Packet.Classify.{Kind}
use docsis_monitor.Base.{add64, if◌then◌else◌, ◌==◌, ℕ, ◌≡◌, ap, Option, arith}

-- The variant, then the value: the derived order of `IpAddr`.
abbrev pub ip_key : IpAddr → ℕ × ℕ
ip_key (IpAddr.v4 a) = (0, a)
ip_key (IpAddr.v6 a) = (1, a)

pub ip_key_inj : (x y : IpAddr) → ip_key x ≡ ip_key y → x ≡ y
ip_key_inj (IpAddr.v4 a) (IpAddr.v4 b) h = ap IpAddr.v4 (ap (λ (p : ℕ × ℕ). p.1) h)
ip_key_inj (IpAddr.v4 a) (IpAddr.v6 b) h = absurd (omega (arith, ap (λ (p : ℕ × ℕ). p.0) h))
ip_key_inj (IpAddr.v6 a) (IpAddr.v4 b) h = absurd (omega (arith, ap (λ (p : ℕ × ℕ). p.0) h))
ip_key_inj (IpAddr.v6 a) (IpAddr.v6 b) h = ap IpAddr.v6 (ap (λ (p : ℕ × ℕ). p.1) h)

instance abbrev pub ip_order : Order IpAddr
ip_order = order_by ip_key ip_key_inj

-- `struct Flow`.
pub record Flow : Type 0 where
  pub src : IpAddr
  pub dst : IpAddr
  pub gi : Option ℕ

abbrev pub flow_key : Flow → IpAddr × (IpAddr × Option ℕ)
flow_key f = (f.src, (f.dst, f.gi))

pub flow_key_inj : (x y : Flow) → flow_key x ≡ flow_key y → x ≡ y
flow_key_inj x y h = λ i. record { src = (h i).0; dst = (h i).1.0; gi = (h i).1.1 }

instance abbrev pub flow_order : Order Flow
flow_order = order_by flow_key flow_key_inj

-- The array `[u64; 4]`.
pub record Counts : Type 0 where
  pub c0 : ℕ
  pub c1 : ℕ
  pub c2 : ℕ
  pub c3 : ℕ

abbrev pub no_counts : Counts
no_counts = record { c0 = 0; c1 = 0; c2 = 0; c3 = 0 }

unfoldable pub slot : Kind → ℕ
slot Kind.client_request = 0
slot Kind.server_reply = 1
slot Kind.tftp_request = 2
slot Kind.tftp_reply = 3

-- `counts[i]`.
abbrev pub at_slot : ℕ → Counts → ℕ
at_slot i c = if i == 0 then c.c0 else if i == 1 then c.c1 else if i == 2 then c.c2 else c.c3

-- `counts[i] += 1`.
abbrev pub bump : ℕ → Counts → Counts
bump i c =
    if i == 0
    then record c { c0 = add64 c.c0 1 }
    else if i == 1
    then record c { c1 = add64 c.c1 1 }
    else if i == 2
    then record c { c2 = add64 c.c2 1 }
    else record c { c3 = add64 c.c3 1 }

-- `struct Dest` and `Dest::total`.
pub record Dest : Type 0 where
  pub counts : Counts
  pub last : ℕ

abbrev pub no_dest : Dest
no_dest = record { counts = no_counts; last = 0 }

unfoldable pub dest_total : Dest → ℕ
dest_total d = add64 (add64 (add64 d.counts.c0 d.counts.c1) d.counts.c2) d.counts.c3
