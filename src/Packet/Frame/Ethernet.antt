-- ===== src/Packet/Frame/Ethernet.antt =====
-- Ethernet frames with VLAN tags, against `ethernet` of packet.rs.
use docsis_monitor.Base.{
  ℕ, ◌+◌, ◌*◌, ◌≤◌, ◌≡◌, List, [], ◌∷◌, ◌++◌, none, some, Bool, false, ◌==◌, ◌||◌, length, arith,
}
use docsis_monitor.Packet.Headers.{ethernet}
use docsis_monitor.Packet.Read.{read}

-- The two tag protocol identifiers: 802.1Q and 802.1ad.
pub data Tpid : Type 0 where
  customer service : Tpid

-- A tag is its identifier and two bytes of control information.
pub record Tag : Type 0 where
  pub tpid : Tpid
  pub high : ℕ
  pub low : ℕ

abbrev pub tag_bytes : Tag → List ℕ → List ℕ
tag_bytes t rest = elim t.tpid [
  | customer ↦ 0x81 ∷ 0x00 ∷ t.high ∷ t.low ∷ rest
  | service ↦ 0x88 ∷ 0xa8 ∷ t.high ∷ t.low ∷ rest
]

-- The tags in front of what follows them.
abbrev pub tagged : List Tag → List ℕ → List ℕ
tagged [] rest = rest
tagged (t ∷ ts) rest = tag_bytes t (tagged ts rest)

abbrev pub is_vlan : ℕ → Bool
is_vlan ethertype = ethertype == 0x8100 || ethertype == 0x88a8

module _ (hi lo : ℕ) (rest : List ℕ) where
  -- Up to two tags are stepped over: a frame reads as its ethertype and what follows it,
  -- whatever the addresses and the tags hold.
  pub ethernet-tagged :
      (macs : List ℕ) (tags : List Tag)
      → is_vlan (hi * 256 + lo) ≡ false
      → length macs ≡ 12
      → length tags ≤ 2
      → ethernet (macs ++ tagged tags (hi ∷ lo ∷ rest)) ≡ some (hi * 256 + lo, rest)
  unfolding ethernet
  ethernet-tagged (a ∷ b ∷ c ∷ d ∷ e ∷ f ∷ g ∷ h ∷ i ∷ j ∷ k ∷ l ∷ []) [] v p q = ground arith
  ethernet-tagged (a ∷ b ∷ c ∷ d ∷ e ∷ f ∷ g ∷ h ∷ i ∷ j ∷ k ∷ l ∷ []) (t ∷ []) v p q = ground arith
  ethernet-tagged (a ∷ b ∷ c ∷ d ∷ e ∷ f ∷ g ∷ h ∷ i ∷ j ∷ k ∷ l ∷ []) (t ∷ u ∷ []) v p q =
      ground arith
  ethernet-tagged _ _ v p q = absurd (omega arith)

-- A frame with three tags or more is refused: the walk over the tags is bounded.
pub read_three_tags :
    (macs : List ℕ) (t u v : Tag) (rest : List ℕ)
    → length macs ≡ 12
    → read (macs ++ tagged (t ∷ u ∷ v ∷ []) rest) ≡ none
unfolding read ethernet
read_three_tags (a ∷ b ∷ c ∷ d ∷ e ∷ f ∷ g ∷ h ∷ i ∷ j ∷ k ∷ l ∷ []) t u v rest p = ground arith
read_three_tags _ t u v rest p = absurd (omega arith)
