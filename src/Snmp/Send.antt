-- ===== src/Snmp/Send.antt =====
-- snmp.rs: `send`, over the sockets of the host as parameters.
use docsis_monitor.Result.{Result, ok, bail, ◌>>=◌}
use docsis_monitor.Base.{if◌then◌else◌, Text, codes, ℕ, Bool, true, false, List, [], ◌∷◌, ◌++◌}
use docsis_monitor.Packet.Headers.{IpAddr}
use docsis_monitor.Snmp.Trap.{encode, Trap}
use docsis_monitor.Config.Settings.{Target}

-- The calls of the operating system: the addresses of a name, a socket bound to a local address,
-- and a datagram handed over.
pub record Net : Type 0 where
  pub resolve : Text → ℕ → Result (List IpAddr)
  pub bind : Text → Result (Unit {0})
  pub send_to : IpAddr → ℕ → List ℕ → Result (Unit {0})

abbrev pub is_ipv6 : IpAddr → Bool
is_ipv6 (IpAddr.v4 a) = false
is_ipv6 (IpAddr.v6 a) = true

-- `.next().ok_or_else(…)`.
unfoldable pub first_address : Text → List IpAddr → Result IpAddr
first_address host [] = bail (host ++ codes " resolves to no address")
first_address host (a ∷ _) = ok a

-- `send`.
unfoldable pub send : Net → Target → Trap → Result (Unit {0})
unfolding first_address encode
send net target t = do
  addresses ← net.resolve target.host target.port
  to ← first_address target.host addresses
  bound ← net.bind (if is_ipv6 to then codes "[::]:0" else codes "0.0.0.0:0")
  net.send_to to target.port (encode target.community t)
