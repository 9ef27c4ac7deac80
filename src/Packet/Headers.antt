-- ===== src/Packet/Headers.antt =====
-- packet.rs: the bounds-checked reads and the Ethernet, IPv4, IPv6 and UDP headers. A byte is a
-- number below 256; an address is its big-endian value, which orders as the octets do.
use docsis_monitor.Base.{
  ℕ, zero, suc, ◌+◌, ◌-◌, ◌*◌, List, [], ◌∷◌, Option, some, ◌==◌, leb, ◌||◌, if◌then◌else◌, ◌>>=◌,
  ◌>>◌, guard, get_elem?, get_from, get_range, shr, low_bits,
}
use mathlib.Core.Option.{get_or}
use mathlib.Core.List.{foldl}

pub data IpAddr : Type 0 where
  v4 : ℕ → IpAddr
  v6 : ℕ → IpAddr

-- The big-endian value of some bytes: `from_be_bytes`, `Ipv4Addr::from`, `Ipv6Addr::from`.
abbrev pub be_value : List ℕ → ℕ
be_value = foldl (λ n b. n * 256 + b) 0

unfoldable pub be16 : List ℕ → ℕ → Option ℕ
be16 b at = do hi ← get_elem? b at; lo ← get_elem? b (at + 1); some (be_value (hi ∷ lo ∷ []))

unfoldable pub quad : List ℕ → ℕ → Option (List ℕ)
quad b at = get_range b at 4

unfoldable pub sixteen : List ℕ → ℕ → Option (List ℕ)
sixteen b at = get_range b at 16

-- The loop of `ethernet`, with the rounds that are left.
unfoldable pub skip_tags : ℕ → List ℕ → ℕ → ℕ → Option (ℕ × ℕ)
unfolding be16
skip_tags zero frame at ethertype = some (at, ethertype)
skip_tags (suc n) frame at ethertype =
    if ethertype == 0x8100 || ethertype == 0x88a8
    then (do ethertype' ← be16 frame (at + 4); skip_tags n frame (at + 4) ethertype')
    else some (at, ethertype)

unfoldable pub ethernet : List ℕ → Option (ℕ × List ℕ)
unfolding skip_tags be16
ethernet frame = do
  first ← be16 frame 12
  (at, ethertype) ← skip_tags 2 frame 12 first
  rest ← get_from frame (at + 2)
  some (ethertype, rest)

unfoldable pub ipv4 : List ℕ → Option (IpAddr × IpAddr × ℕ × List ℕ)
unfolding be16 quad
ipv4 b = do
  first ← get_elem? b 0
  guard (shr first 4 == 4)
  let ihl = low_bits first 4 * 4
  guard (leb 20 ihl)
  proto ← get_elem? b 9
  src ← quad b 12
  dst ← quad b 16
  frag ← be16 b 6
  guard (low_bits frag 13 == 0)
  payload ← get_from b ihl
  some (v4 (be_value src), v4 (be_value dst), proto, payload)

-- The loop of `ipv6` over the extension headers, with the rounds that are left.
unfoldable pub walk : ℕ → List ℕ → ℕ → ℕ → Option (ℕ × ℕ)
walk zero b next at = some (next, at)
walk (suc n) b next at =
    if next == 0 || next == 43 || next == 60
    then (do
      len ← get_elem? b (at + 1)
      next' ← get_elem? b at
      walk n b next' (at + (len + 1) * 8))
    else if next == 44
    then (do next' ← get_elem? b at; walk n b next' (at + 8))
    else some (next, at)

unfoldable pub ipv6 : List ℕ → Option (IpAddr × IpAddr × ℕ × List ℕ)
unfolding sixteen walk
ipv6 b = do
  first ← get_elem? b 0
  guard (shr first 4 == 6)
  src ← sixteen b 8
  dst ← sixteen b 24
  first_next ← get_elem? b 6
  (next, at) ← walk 8 b first_next 40
  payload ← get_from b at
  some (v6 (be_value src), v6 (be_value dst), next, payload)

unfoldable pub udp : List ℕ → Option (ℕ × ℕ × ℕ × List ℕ)
unfolding be16
udp b = do
  sport ← be16 b 0
  dport ← be16 b 2
  len ← be16 b 4
  guard (leb 8 len)
  some (sport, dport, len - 8, get_or (get_from b 8) [])
