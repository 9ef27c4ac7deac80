-- ===== src/Snmp/Ber.antt =====
-- snmp.rs: the parts of BER that a trap needs.
use mathlib.Core.Option
use docsis_monitor.Base.{
  add64, mul64, shr, low_bits, ltb, leb, if◌then◌else◌, length, get_elem?, drop, ◌==◌, ℕ, zero, suc,
  ◌+◌, ◌-◌, ◌/◌, ◌%◌, ◌^◌, Bool, not, ◌&&◌, ◌||◌, Option, none, some, List, [], ◌∷◌, ◌++◌,
}
use mathlib.Core.Option.{get_or}

-- `to_be_bytes` of a word of `k` bytes.
abbrev pub be_bytes : ℕ → ℕ → List ℕ
be_bytes zero n = []
be_bytes (suc k) n = ((n / 256 ^ k) % 256) ∷ be_bytes k n

-- `iter().position(|b| *b != 0)`.
unfoldable pub first_nonzero : List ℕ → Option ℕ
first_nonzero [] = none
first_nonzero (b ∷ bs) =
    let rest = first_nonzero bs in if b == 0 then Option.map (λ (i : ℕ). suc i) rest else some 0

-- `&be[first..]` with `first` the position of the first byte that is not zero, or the last one.
unfoldable pub significant : List ℕ → List ℕ
unfolding first_nonzero
significant be = drop (get_or (first_nonzero be) (length be - 1)) be

-- `u8::try_from(n).unwrap_or(d)`.
abbrev pub u8_or : ℕ → ℕ → ℕ
u8_or d n = if ltb n 256 then n else d

-- `length`. The count of length bytes is below 128, so that `0x80 |` adds.
unfoldable pub ber_length : ℕ → List ℕ
unfolding significant
ber_length n =
    if ltb n 0x80
    then u8_or 0x7f n ∷ []
    else let bytes = significant (be_bytes 8 n) in (0x80 + u8_or 1 (length bytes)) ∷ bytes

unfoldable pub tlv : ℕ → List ℕ → List ℕ
unfolding ber_length
tlv tag body = tag ∷ (ber_length (length body) ++ body)

-- `b & 0x80 != 0` of a byte.
abbrev pub high_bit : ℕ → Bool
high_bit b = leb 128 b

-- The loop of `integer`: what it leaves of the bytes from `at` on.
unfoldable pub strip_sign : List ℕ → List ℕ
strip_sign [] = []
strip_sign (b ∷ []) = b ∷ []
strip_sign (b ∷ c ∷ bs) =
    let rest = strip_sign (c ∷ bs) in
    if (b == 0 && not (high_bit c)) || (b == 0xff && high_bit c) then rest else b ∷ c ∷ bs

-- `integer`. An i64 is the 64-bit word that holds it in two's complement.
unfoldable pub integer : ℕ → List ℕ
unfolding tlv strip_sign
integer v = tlv 0x02 (strip_sign (be_bytes 8 v))

abbrev pub u32_max : ℕ
u32_max = 0xffff_ffff

-- `if be[first] & 0x80 != 0 { body.push(0); }`.
unfoldable pub lead_zero : List ℕ → List ℕ
lead_zero [] = []
lead_zero (b ∷ bs) = if high_bit b then 0 ∷ b ∷ bs else b ∷ bs

unfoldable pub unsigned : ℕ → ℕ → List ℕ
unfolding significant lead_zero tlv
unsigned tag v =
    let w = if leb v u32_max then v else u32_max in tlv tag (lead_zero (significant (be_bytes 4 w)))

unfoldable pub octet_string : List ℕ → List ℕ
unfolding tlv
octet_string b = tlv 0x04 b

-- The loop of `base128`. Each round takes seven bits, so that nine rounds are enough for what a u64
-- has left above its lowest seven; the high bit is not set in a group of seven, so that `| 0x80`
-- adds.
unfoldable pub base128_rounds : ℕ → ℕ → List ℕ → List ℕ
base128_rounds zero v out = out
base128_rounds (suc n) v out =
    let more = base128_rounds n (shr v 7) ((low_bits v 7 + 0x80) ∷ out) in
    if ltb 0 v then more else out

unfoldable pub base128 : ℕ → List ℕ
unfolding base128_rounds
base128 v = base128_rounds 9 (shr v 7) (low_bits v 7 ∷ [])

-- The loop of `oid` over the arcs from the third on.
unfoldable pub arcs_bytes : List ℕ → List ℕ
unfolding base128
arcs_bytes [] = []
arcs_bytes (a ∷ arcs) = base128 a ++ arcs_bytes arcs

-- `oid`.
unfoldable pub oid_bytes : List ℕ → List ℕ
unfolding base128 arcs_bytes tlv
oid_bytes arcs =
    let a = get_or (get_elem? arcs 0) 0 in
    let b = get_or (get_elem? arcs 1) 0 in
    tlv 0x06 (base128 (add64 (mul64 a 40) b) ++ arcs_bytes (drop 2 arcs))
