-- ===== src/Packet/Frame/Ipv6.antt =====
-- IPv6 packets with extension headers as a sender builds them, against `ipv6` of packet.rs.
use docsis_monitor.Base.{
  ℕ, List, length, ◌≢◌, ◌≡◌, ◌∷◌, get_elem?, ◌≤◌, ◌+◌, ◌++◌, All, ◌*◌, some, arith, suc, zero, refl,
  [], ◌<◌, sym, ap, get_from, ◌∙◌,
}
use docsis_monitor.Packet.Headers.{walk, sixteen, ipv6, IpAddr, be_value}
use docsis_monitor.Base.Lists.{
  get_elem?-append, length-append, get_range-append_middle, get_from-append,
}
use mathlib.Core.List.{append_assoc}
use docsis_monitor.Packet.Frame.Ipv4.{Octets}
use mathlib.Core.Path.{ap₂}

-- The extension headers that the monitor follows. A header states the number of the next one, then
-- holds a second byte and a body.
pub data ExtKind : Type 0 where
  hop_by_hop routing destination fragment : ExtKind

pub record Ext : Type 0 where
  pub kind : ExtKind
  pub second : ℕ
  pub content : List ℕ

abbrev pub ext_number : ExtKind → ℕ
ext_number hop_by_hop = 0
ext_number routing = 43
ext_number destination = 60
ext_number fragment = 44

-- The second byte counts 8-octet units after the first; a fragment header has eight bytes.
abbrev pub IsExt : Ext → Type 0
IsExt e = elim e.kind [ fragment ↦ length e.content ≡ 6 | _ ↦ length e.content ≡ 6 + e.second * 8 ]

-- The number that announces the chain, the chain's bytes in front of the payload, and its length.
abbrev pub announced : List Ext → ℕ → ℕ
announced [] final = final
announced (e ∷ es) final = ext_number e.kind

abbrev pub chain : List Ext → ℕ → List ℕ → List ℕ
chain [] final rest = rest
chain (e ∷ es) final rest = announced es final ∷ e.second ∷ (e.content ++ chain es final rest)

abbrev pub chain_length : List Ext → ℕ
chain_length [] = 0
chain_length (e ∷ es) = suc (suc (length e.content)) + chain_length es

-- A number that ends the walk.
abbrev pub IsFinal : ℕ → Type 0
IsFinal n = (n ≢ 0) × (n ≢ 43) × (n ≢ 60) × (n ≢ 44)

head-append :
    (pre : List ℕ) (x : ℕ) (rest : List ℕ) → get_elem? (pre ++ x ∷ rest) (length pre) ≡ some x
head-append [] x rest = refl
head-append (y ∷ pre) x rest = head-append pre x rest

second-append :
    (pre : List ℕ) (x y : ℕ) (rest : List ℕ)
    → get_elem? (pre ++ x ∷ y ∷ rest) (length pre + 1) ≡ some y
second-append pre x y rest = get_elem?-append pre (x ∷ y ∷ rest) 1

walk-chain :
    (n : ℕ) (exts : List Ext) (final : ℕ) (rest pre : List ℕ)
    → length exts ≤ n
    → All IsExt exts
    → IsFinal final
    → walk n (pre ++ chain exts final rest) (announced exts final) (length pre)
      ≡ some (final, length pre + chain_length exts)
unfolding walk
walk-chain zero [] final rest pre h v f = ground arith
walk-chain zero (e ∷ es) final rest pre h v f = absurd (omega arith)
walk-chain (suc n) [] final rest pre h v f = ground arith
walk-chain (suc n) (e ∷ es) final rest pre h v f =
    let header : List ℕ = announced es final ∷ e.second ∷ e.content in
    ground (
      arith,
      head-append pre (announced es final) (e.second ∷ (e.content ++ chain es final rest)),
      second-append pre (announced es final) e.second (e.content ++ chain es final rest),
      append_assoc pre header (chain es final rest),
      length-append pre header,
      walk-chain n es final rest (pre ++ header),
    )

chain_payload :
    (exts : List Ext) (final : ℕ) (rest : List ℕ)
    → get_from (chain exts final rest) (chain_length exts) ≡ some rest
chain_payload [] final rest = ground arith
chain_payload (e ∷ es) final rest =
    get_from-append (announced es final ∷ e.second ∷ e.content) (chain es final rest)
      (chain_length es)
    ∙ chain_payload es final rest

-- The fixed header: version and traffic class, flow label and length, then the first number, the
-- hop limit and the two addresses.
pub record Ipv6Header : Type 0 where
  pub class_high : ℕ
  pub flow : Octets
  pub length_low : ℕ
  pub length_high : ℕ
  pub hop_limit : ℕ
  pub src : List ℕ
  pub dst : List ℕ

pub record IsHeader6 (h : Ipv6Header) : Type 0 where
  pub class_bits : h.class_high < 16
  pub src_length : length h.src ≡ 16
  pub dst_length : length h.dst ≡ 16

abbrev pub ipv6_bytes : Ipv6Header → List Ext → ℕ → List ℕ → List ℕ
ipv6_bytes h exts final rest =
    (6 * 16 + h.class_high)
    ∷ h.flow.a
    ∷ h.flow.b
    ∷ h.flow.c
    ∷ h.length_high
    ∷ h.length_low
    ∷ announced exts final
    ∷ h.hop_limit
    ∷ (h.src ++ (h.dst ++ chain exts final rest))

fixed_front : Ipv6Header → ℕ → List ℕ
fixed_front h next =
    (6 * 16 + h.class_high)
    ∷ h.flow.a
    ∷ h.flow.b
    ∷ h.flow.c
    ∷ h.length_high
    ∷ h.length_low
    ∷ next
    ∷ h.hop_limit
    ∷ []

module _ (h : Ipv6Header) (exts : List Ext) (final : ℕ) (rest : List ℕ) (v : IsHeader6 h) where
  -- The forty bytes in front of the chain.
  abbrev front : List ℕ
  front = fixed_front h (announced exts final) ++ (h.src ++ h.dst)

  front-length : length front ≡ 40
  unfolding fixed_front
  front-length = omega (arith, length-append h.src h.dst)

  front_split : ipv6_bytes h exts final rest ≡ front ++ chain exts final rest
  unfolding fixed_front
  front_split =
      ap (λ (t : List ℕ). fixed_front h (announced exts final) ++ t)
        (sym (append_assoc h.src h.dst (chain exts final rest)))

  read_src : sixteen (ipv6_bytes h exts final rest) 8 ≡ some h.src
  unfolding sixteen fixed_front
  read_src =
      get_range-append_middle (fixed_front h (announced exts final)) h.src
        (h.dst ++ chain exts final rest) 8 16 refl v.src_length

  read_dst : sixteen (ipv6_bytes h exts final rest) 24 ≡ some h.dst
  unfolding sixteen fixed_front
  read_dst =
      get_range-append_middle (fixed_front h (announced exts final) ++ h.src) h.dst
        (chain exts final rest) 24 16 (omega (arith, v.src_length)) v.dst_length

  module _ (few : length exts ≤ 8) (sound : All IsExt exts) (ends : IsFinal final) where
    walk-ipv6_bytes :
        walk 8 (ipv6_bytes h exts final rest) (announced exts final) 40
        ≡ some (final, 40 + chain_length exts)
    walk-ipv6_bytes =
        rw (front_split, ← front-length) (walk-chain 8 exts final rest front few sound ends)

    payload-ipv6_bytes :
        get_from (ipv6_bytes h exts final rest) (40 + chain_length exts) ≡ some rest
    payload-ipv6_bytes =
        ap₂ get_from front_split (ap (λ (n : ℕ). n + chain_length exts) (sym front-length))
        ∙ get_from-append front (chain exts final rest) (chain_length exts)
        ∙ chain_payload exts final rest

    -- A packet with up to eight extension headers reads as its addresses, the number that ends
    -- the chain and exactly what follows the chain.
    pub ipv6-bytes :
        ipv6 (ipv6_bytes h exts final rest)
        ≡ some (IpAddr.v6 (be_value h.src), IpAddr.v6 (be_value h.dst), final, rest)
    unfolding ipv6
    ipv6-bytes = ground (arith, read_src, read_dst, walk-ipv6_bytes, payload-ipv6_bytes)
