-- ===== src/Packet/Frame/Ipv4.antt =====
-- IPv4 packets and UDP datagrams as a sender builds them, against `ipv4` and `udp` of packet.rs.
use docsis_monitor.Base.{
  ℕ, ◌+◌, ◌-◌, ◌*◌, ◌<◌, ◌≤◌, ◌≡◌, List, [], ◌∷◌, ◌++◌, none, some, length, arith, ap, low_bits,
  get_from, ◌∙◌,
}
use docsis_monitor.Base.Lists.{get_from-append, get_from-append_self}
use docsis_monitor.Packet.Headers.{IpAddr, ipv4, udp}

-- Four octets of an address.
pub record Octets : Type 0 where
  pub a : ℕ
  pub b : ℕ
  pub c : ℕ
  pub d : ℕ

abbrev pub octet_list : Octets → List ℕ → List ℕ
octet_list o rest = o.a ∷ o.b ∷ o.c ∷ o.d ∷ rest

-- The address as one number.
abbrev pub address : Octets → ℕ
address o = ((o.a * 256 + o.b) * 256 + o.c) * 256 + o.d

-- The fields of an IPv4 header. `words` counts the 32-bit words of options; `flags` is the top
-- three bits of the fragment field, whose offset is zero.
pub record Ipv4Header : Type 0 where
  pub words : ℕ
  pub tos : ℕ
  pub total_high : ℕ
  pub total_low : ℕ
  pub id_high : ℕ
  pub id_low : ℕ
  pub flags : ℕ
  pub ttl : ℕ
  pub protocol : ℕ
  pub sum_high : ℕ
  pub sum_low : ℕ
  pub src : Octets
  pub dst : Octets
  pub options : List ℕ

pub record IsHeader (h : Ipv4Header) : Type 0 where
  pub few_words : h.words ≤ 10
  pub flag_bits : h.flags < 8
  pub options_length : length h.options ≡ h.words * 4

-- The header's bytes with the thirteen bits of a fragment offset.
abbrev pub fragment_bytes : Ipv4Header → ℕ → ℕ → List ℕ → List ℕ
fragment_bytes h offset_high offset_low rest =
    (64 + (5 + h.words))
    ∷ h.tos
    ∷ h.total_high
    ∷ h.total_low
    ∷ h.id_high
    ∷ h.id_low
    ∷ (h.flags * 32 + offset_high)
    ∷ offset_low
    ∷ h.ttl
    ∷ h.protocol
    ∷ h.sum_high
    ∷ h.sum_low
    ∷ octet_list h.src (octet_list h.dst (h.options ++ rest))

abbrev pub ipv4_bytes : Ipv4Header → List ℕ → List ℕ
ipv4_bytes h rest = fragment_bytes h 0 0 rest

-- A 16-bit field as its two bytes.
pub record Pair : Type 0 where
  pub high : ℕ
  pub low : ℕ

abbrev pub value16 : Pair → ℕ
value16 p = p.high * 256 + p.low

abbrev pub udp_bytes : Pair → Pair → Pair → Pair → List ℕ → List ℕ
udp_bytes sport dport len sum body =
    sport.high ∷ sport.low ∷ dport.high ∷ dport.low ∷ len.high ∷ len.low ∷ sum.high ∷ sum.low ∷ body

-- The twenty bytes that every header has.
abbrev fixed_part : Ipv4Header → List ℕ
fixed_part h =
    (64 + (5 + h.words))
    ∷ h.tos
    ∷ h.total_high
    ∷ h.total_low
    ∷ h.id_high
    ∷ h.id_low
    ∷ (h.flags * 32 + 0)
    ∷ 0
    ∷ h.ttl
    ∷ h.protocol
    ∷ h.sum_high
    ∷ h.sum_low
    ∷ octet_list h.src (octet_list h.dst [])

payload_offset :
    (h : Ipv4Header) → IsHeader h → low_bits (64 + (5 + h.words)) 4 * 4 ≡ 20 + length h.options
payload_offset h v = omega arith

payload-ipv4_bytes :
    (h : Ipv4Header) (rest : List ℕ)
    → IsHeader h
    → get_from (ipv4_bytes h rest) (low_bits (64 + (5 + h.words)) 4 * 4) ≡ some rest
payload-ipv4_bytes h rest v =
    ap (get_from (ipv4_bytes h rest)) (payload_offset h v)
    ∙ get_from-append (fixed_part h) (h.options ++ rest) (length h.options)
    ∙ get_from-append_self h.options rest

-- A header with any options and no fragment offset reads as its addresses, its protocol and
-- exactly what follows the options.
pub ipv4-bytes :
    (h : Ipv4Header) (rest : List ℕ)
    → IsHeader h
    → ipv4 (ipv4_bytes h rest)
      ≡ some (IpAddr.v4 (address h.src), IpAddr.v4 (address h.dst), h.protocol, rest)
unfolding ipv4
ipv4-bytes h rest v = ground (arith, payload-ipv4_bytes h rest v)

-- A header with a fragment offset is refused, whatever its other fields.
pub ipv4_fragment :
    (h : Ipv4Header) (offset_high offset_low : ℕ) (rest : List ℕ)
    → offset_high < 32
    → offset_low < 256
    → 0 < offset_high * 256 + offset_low
    → ipv4 (fragment_bytes h offset_high offset_low rest) ≡ none
unfolding ipv4
ipv4_fragment h offset_high offset_low rest p q r = ground arith

-- A datagram reads as its ports, the length that its header states and its payload.
pub udp-bytes :
    (sport dport : Pair) (len sum : Pair) (body : List ℕ)
    → 8 ≤ value16 len
    → udp (udp_bytes sport dport len sum body)
      ≡ some (value16 sport, value16 dport, value16 len - 8, body)
unfolding udp
udp-bytes sport dport len sum body p = ground arith
