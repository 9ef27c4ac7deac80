-- ===== src/Packet/Direction.antt =====
-- What the classification of packet.rs means: which packets it counts, and that the message and
-- not the order of the ports says which way a packet goes.
use docsis_monitor.Packet.Classify.{Kind, classify, is_dhcp4, is_dhcp6, tftp}
use Prim.Native.Nat.{ℕ}
use docsis_monitor.Base.{List, ◌≡◌, ◌∷◌, ◌⊎◌, some, arith, true}

-- A packet with a payload has the same kind whichever way its ports stand: a relay's answer on
-- 67 to 67 and a direct one on 67 to 68 are told by the message.
pub classify_swap :
    (sport dport b : ℕ) (body : List ℕ)
    → classify sport dport (b ∷ body) ≡ classify dport sport (b ∷ body)
unfolding classify
classify_swap sport dport b body = ground arith

-- A pair of ports is provisioning if one is TFTP's, or both are DHCP's of one family.
abbrev pub IsProvisioning : ℕ → ℕ → Type 0
IsProvisioning sport dport =
    ((dport ≡ tftp) ⊎ (sport ≡ tftp))
    ⊎ (((is_dhcp4 sport ≡ true) × (is_dhcp4 dport ≡ true))
        ⊎ ((is_dhcp6 sport ≡ true) × (is_dhcp6 dport ≡ true)))

pub classify-IsProvisioning :
    (sport dport : ℕ) (body : List ℕ) {k : Kind}
    → classify sport dport body ≡ some k
    → IsProvisioning sport dport
unfolding classify
classify-IsProvisioning sport dport body h = ground arith
