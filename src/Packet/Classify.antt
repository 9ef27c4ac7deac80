-- ===== src/Packet/Classify.antt =====
-- packet.rs: which kind of packet it is, its gi-address and its transaction id.
use docsis_monitor.Base.{
  ℕ, ◌+◌, ◌*◌, ◌^◌, List, [], ◌∷◌, Option, none, some, Bool, ◌==◌, not, ◌&&◌, ◌||◌, if◌then◌else◌,
  ◌>>=◌, get_elem?,
}
use docsis_monitor.Packet.Headers.{be16, quad, be_value}

abbrev pub dhcp_server : ℕ
dhcp_server = 67

abbrev pub dhcp_client : ℕ
dhcp_client = 68

abbrev pub dhcp6_client : ℕ
dhcp6_client = 546

abbrev pub dhcp6_server : ℕ
dhcp6_server = 547

abbrev pub tftp : ℕ
tftp = 69

pub data Kind : Type 0 where
  client_request server_reply tftp_request tftp_reply : Kind

-- The pattern `DHCP_SERVER | DHCP_CLIENT`, and its DHCPv6 twin.
abbrev pub is_dhcp4 : ℕ → Bool
is_dhcp4 p = p == dhcp_server || p == dhcp_client

abbrev pub is_dhcp6 : ℕ → Bool
is_dhcp6 p = p == dhcp6_server || p == dhcp6_client

unfoldable pub giaddr : ℕ → ℕ → List ℕ → Option ℕ
unfolding quad
giaddr sport dport body =
    if not (is_dhcp4 sport && is_dhcp4 dport)
    then none
    else do q ← quad body 24; let gi = be_value q; if gi == 0 then none else some gi

unfoldable pub xid : ℕ → ℕ → List ℕ → Option ℕ
unfolding quad
xid sport dport body =
    if is_dhcp4 sport && is_dhcp4 dport
    then (do q ← quad body 4; some (be_value q))
    else if is_dhcp6 sport && is_dhcp6 dport
    then (do
      a ← get_elem? body 1
      b ← get_elem? body 2
      c ← get_elem? body 3
      -- The three shifted bytes share no bit, so `|` adds them.
      some (a * 2 ^ 16 + b * 2 ^ 8 + c))
    else none

-- The match of `tftp_kind` on the opcode.
unfoldable pub tftp_opcode : ℕ → Option Kind
tftp_opcode opcode =
    if opcode == 1 || opcode == 2
    then some Kind.tftp_request
    else if opcode == 3 || opcode == 5 || opcode == 6
    then some Kind.tftp_reply
    else none

unfoldable pub tftp_kind : List ℕ → Option Kind
unfolding be16 tftp_opcode
tftp_kind body = do opcode ← be16 body 0; tftp_opcode opcode

unfoldable pub is_dhcp6_server_message : ℕ → Bool
is_dhcp6_server_message t = t == 2 || t == 7 || t == 10 || t == 13

unfoldable pub port_direction : ℕ → ℕ → Kind
port_direction sport dport =
    if (sport == dhcp_server || sport == dhcp6_server)
      && (dport == dhcp_client || dport == dhcp6_client)
    then Kind.server_reply
    else Kind.client_request

-- The two inner matches of `classify` on the first byte of the payload.
unfoldable pub dhcp4_kind : ℕ → ℕ → List ℕ → Kind
unfolding port_direction
dhcp4_kind sport dport [] = port_direction sport dport
dhcp4_kind sport dport (op ∷ _) = if op == 2 then Kind.server_reply else Kind.client_request

unfoldable pub dhcp6_kind : ℕ → ℕ → List ℕ → Kind
unfolding port_direction is_dhcp6_server_message
dhcp6_kind sport dport [] = port_direction sport dport
dhcp6_kind sport dport (t ∷ _) =
    if is_dhcp6_server_message t then Kind.server_reply else Kind.client_request

unfoldable pub classify : ℕ → ℕ → List ℕ → Option Kind
unfolding tftp_kind dhcp4_kind dhcp6_kind
classify sport dport body =
    if dport == tftp || sport == tftp
    then tftp_kind body
    else if is_dhcp4 sport && is_dhcp4 dport
    then some (dhcp4_kind sport dport body)
    else if is_dhcp6 sport && is_dhcp6 dport
    then some (dhcp6_kind sport dport body)
    else none
