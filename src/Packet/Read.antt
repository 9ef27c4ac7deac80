-- ===== src/Packet/Read.antt =====
-- packet.rs: `read`, from the frame to what it turned out to be.
use docsis_monitor.Base.{ℕ, Option, none, some, List, ◌==◌, if◌then◌else◌, ◌>>=◌, not}
use docsis_monitor.Packet.Headers.{IpAddr, ethernet, ipv4, ipv6, udp}
use docsis_monitor.Packet.Classify.{Kind, classify, giaddr, xid}

-- `struct Seen`.
pub record Seen : Type 0 where
  pub kind : Kind
  pub src : IpAddr
  pub dst : IpAddr
  pub sport : ℕ
  pub dport : ℕ
  pub gi : Option ℕ
  pub xid : Option ℕ
  pub bytes : ℕ

-- The `match ethertype` of `read`.
unfoldable pub network : ℕ → List ℕ → Option (IpAddr × IpAddr × ℕ × List ℕ)
network ethertype rest =
    if ethertype == 0x0800 then ipv4 rest else if ethertype == 0x86dd then ipv6 rest else none

-- What `read` does from the UDP header on.
unfoldable pub transport : IpAddr → IpAddr → ℕ → List ℕ → Option Seen
transport src dst proto payload = if not (proto == 17) then none else do
  (sport, dport, len, body) ← udp payload
  kind ← classify sport dport body
  some (record {
    kind = kind;
    src = src;
    dst = dst;
    sport = sport;
    dport = dport;
    gi = giaddr sport dport body;
    xid = xid sport dport body;
    bytes = len;
  })

unfoldable pub read : List ℕ → Option Seen
unfolding network transport
read frame = do
  (ethertype, rest) ← ethernet frame
  (src, dst, proto, payload) ← network ethertype rest
  transport src dst proto payload
