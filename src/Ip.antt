-- ===== src/Ip.antt =====
-- `Display` of addresses, as Rust's library writes them.
pub mod RoundTrip
pub mod Digits
use docsis_monitor.Base.{
  ltb, if◌then◌else◌, take, drop, Text, codes, decimal, join, ◌==◌, ℕ, zero, suc, ◌+◌, ◌-◌, ◌/◌,
  ◌%◌, ◌^◌, ◌≡◌, refl, List, [], ◌∷◌, ◌++◌, map,
}
use docsis_monitor.Packet.Headers.{IpAddr}

-- Four numbers in decimal, with dots between them.
unfoldable pub dotted : ℕ → Text
unfolding decimal
dotted a =
    decimal (a / 2 ^ 24 % 256)
    ++ (codes "."
        ++ (decimal (a / 2 ^ 16 % 256)
            ++ (codes "." ++ (decimal (a / 2 ^ 8 % 256) ++ (codes "." ++ decimal (a % 256))))))

-- `{:x}`: lower-case digits without leading zeros. A segment has at most four.
pub hex_fuel : ℕ → ℕ → Text → Text
hex_fuel zero n acc = acc
hex_fuel (suc f) n acc =
    let digit = if ltb (n % 16) 10 then n % 16 + b'0' else n % 16 - 10 + b'a' in
    let rest = hex_fuel f (n / 16) (digit ∷ acc) in if ltb n 16 then digit ∷ acc else rest

unfoldable pub hex16 : ℕ → Text
unfolding hex_fuel
hex16 n = hex_fuel 4 n []

-- The eight segments.
abbrev pub segments : ℕ → List ℕ
segments a =
    (a / 2 ^ 112 % 2 ^ 16)
    ∷ (a / 2 ^ 96 % 2 ^ 16)
    ∷ (a / 2 ^ 80 % 2 ^ 16)
    ∷ (a / 2 ^ 64 % 2 ^ 16)
    ∷ (a / 2 ^ 48 % 2 ^ 16)
    ∷ (a / 2 ^ 32 % 2 ^ 16)
    ∷ (a / 2 ^ 16 % 2 ^ 16)
    ∷ (a % 2 ^ 16)
    ∷ []

pub record Span : Type 0 where
  pub start : ℕ
  pub len : ℕ

abbrev pub no_span : Span
no_span = record { start = 0; len = 0 }

-- The first of the longest runs of zeros, from the segment `i` on.
unfoldable pub longest_zeros : ℕ → Span → Span → List ℕ → Span
longest_zeros i longest current [] = longest
longest_zeros i longest current (segment ∷ rest) =
    let grown : Span =
      if current.len == 0
      then record { start = i; len = 1 }
      else record current { len = current.len + 1 } in
    let next = if segment == 0 then grown else no_span in
    longest_zeros (i + 1) (if ltb longest.len next.len then next else longest) next rest

unfoldable pub ipv6_text : ℕ → Text
unfolding dotted hex16 longest_zeros join
ipv6_text a =
    let all = segments a in
    let zeros = longest_zeros 0 no_span no_span all in
    let part = λ (chunk : List ℕ). join (codes ":") (map hex16 chunk) in
    if a / 2 ^ 32 == 0xffff
    then codes "::ffff:" ++ dotted (a % 2 ^ 32)
    else if ltb 1 zeros.len
    then part (take zeros.start all) ++ (codes "::" ++ part (drop (zeros.start + zeros.len) all))
    else part all

unfoldable pub ip_text : IpAddr → Text
unfolding dotted ipv6_text
ip_text (IpAddr.v4 a) = dotted a
ip_text (IpAddr.v6 a) = ipv6_text a

loopback : ipv6_text 1 ≡ codes "::1"
unfolding ipv6_text
loopback = refl

documentation : ipv6_text 0x2001_0db8_0000_0000_0001_0000_0000_0001 ≡ codes "2001:db8::1:0:0:1"
unfolding ipv6_text
documentation = refl

mapped : ipv6_text 0xffff_0a01_0001 ≡ codes "::ffff:10.1.0.1"
unfolding ipv6_text
mapped = refl
