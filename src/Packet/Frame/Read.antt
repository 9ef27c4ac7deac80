-- ===== src/Packet/Frame/Read.antt =====
-- A whole frame, Ethernet to UDP, against `read` of packet.rs.
use docsis_monitor.Packet.Frame.Ethernet.{Tag, tagged, ethernet-tagged}
use docsis_monitor.Packet.Frame.Ipv4.{Ipv4Header, IsHeader, ipv4_bytes, ipv4-bytes, address}
use docsis_monitor.Packet.Frame.Ipv4.{Pair, value16, udp_bytes, udp-bytes}
use docsis_monitor.Packet.Classify.{Kind, classify, giaddr, xid}
use docsis_monitor.Base.{List, length, ℕ, ◌≡◌, ◌≤◌, ◌++◌, ◌∷◌, arith, ◌-◌, All}
use docsis_monitor.Packet.Read.{Seen, read}
use docsis_monitor.Packet.Headers.{IpAddr, be_value}
use docsis_monitor.Packet.Frame.Ipv6.{Ipv6Header, IsHeader6, ipv6_bytes, ipv6-bytes, Ext, IsExt}
use mathlib.Core.Option

-- A UDP datagram in an IPv4 packet in an Ethernet frame.
pub record Frame : Type 0 where
  pub macs : List ℕ
  pub tags : List Tag
  pub header : Ipv4Header
  pub sport : Pair
  pub dport : Pair
  pub len : Pair
  pub sum : Pair
  pub body : List ℕ

pub record IsFrame (f : Frame) : Type 0 where
  pub two_macs : length f.macs ≡ 12
  pub few_tags : length f.tags ≤ 2
  pub header_valid : IsHeader f.header
  pub is_udp : f.header.protocol ≡ 17
  pub len_covers_header : 8 ≤ value16 f.len

abbrev pub frame_bytes : Frame → List ℕ
frame_bytes f =
    f.macs
    ++ tagged f.tags
        (0x08 ∷ 0x00 ∷ ipv4_bytes f.header (udp_bytes f.sport f.dport f.len f.sum f.body))

-- What the monitor is to see in the frame, once its kind is known.
abbrev pub seen_in : Frame → Kind → Seen
seen_in f k = record {
  kind = k;
  src = IpAddr.v4 (address f.header.src);
  dst = IpAddr.v4 (address f.header.dst);
  sport = value16 f.sport;
  dport = value16 f.dport;
  gi = giaddr (value16 f.sport) (value16 f.dport) f.body;
  xid = xid (value16 f.sport) (value16 f.dport) f.body;
  bytes = value16 f.len - 8;
}

-- Every well-formed frame, with up to two tags and any IPv4 options, is read back: its kind is
-- what `classify` says of its ports and payload, its addresses, ports and length are the
-- frame's, and it is refused exactly if it has no kind.
pub read-frame_bytes :
    (f : Frame)
    → IsFrame f
    → read (frame_bytes f)
      ≡ Option.map (seen_in f) (classify (value16 f.sport) (value16 f.dport) f.body)
unfolding read
read-frame_bytes f v = ground (
  arith,
  ethernet-tagged 0x08 0x00 (ipv4_bytes f.header (udp_bytes f.sport f.dport f.len f.sum f.body))
      f.macs f.tags,
  ipv4-bytes f.header (udp_bytes f.sport f.dport f.len f.sum f.body),
  udp-bytes f.sport f.dport f.len f.sum f.body,
)

-- A UDP datagram in an IPv6 packet in an Ethernet frame.
pub record Frame6 : Type 0 where
  pub macs : List ℕ
  pub tags : List Tag
  pub header : Ipv6Header
  pub exts : List Ext
  pub sport : Pair
  pub dport : Pair
  pub len : Pair
  pub sum : Pair
  pub body : List ℕ

pub record IsFrame6 (f : Frame6) : Type 0 where
  pub two_macs : length f.macs ≡ 12
  pub few_tags : length f.tags ≤ 2
  pub header_valid : IsHeader6 f.header
  pub few_exts : length f.exts ≤ 8
  pub exts_valid : All IsExt f.exts
  pub len_covers_header : 8 ≤ value16 f.len

abbrev pub frame6_packet : Frame6 → List ℕ
frame6_packet f = ipv6_bytes f.header f.exts 17 (udp_bytes f.sport f.dport f.len f.sum f.body)

abbrev pub frame6_bytes : Frame6 → List ℕ
frame6_bytes f = f.macs ++ tagged f.tags (0x86 ∷ 0xdd ∷ frame6_packet f)

abbrev pub seen_in6 : Frame6 → Kind → Seen
seen_in6 f k = record {
  kind = k;
  src = IpAddr.v6 (be_value f.header.src);
  dst = IpAddr.v6 (be_value f.header.dst);
  sport = value16 f.sport;
  dport = value16 f.dport;
  gi = giaddr (value16 f.sport) (value16 f.dport) f.body;
  xid = xid (value16 f.sport) (value16 f.dport) f.body;
  bytes = value16 f.len - 8;
}

-- The same over IPv6: every well-formed frame with up to two tags and up to eight extension
-- headers of the four kinds is read back.
pub read-frame6_bytes :
    (f : Frame6)
    → IsFrame6 f
    → read (frame6_bytes f)
      ≡ Option.map (seen_in6 f) (classify (value16 f.sport) (value16 f.dport) f.body)
unfolding read
read-frame6_bytes f v = ground (
  arith,
  ethernet-tagged 0x86 0xdd (frame6_packet f) f.macs f.tags,
  ipv6-bytes f.header f.exts 17 (udp_bytes f.sport f.dport f.len f.sum f.body) v.header_valid
      v.few_exts v.exts_valid (omega arith),
  udp-bytes f.sport f.dport f.len f.sum f.body,
)
