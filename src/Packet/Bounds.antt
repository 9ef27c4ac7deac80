-- ===== src/Packet/Bounds.antt =====
-- What holds of every frame that packet.rs accepts, well formed or not.
use docsis_monitor.Packet.Direction.{IsProvisioning, classify-IsProvisioning}
use docsis_monitor.Packet.Classify.{Kind, classify, is_dhcp4, is_dhcp6, giaddr, xid, tftp}
use docsis_monitor.Base.{
  get_elem?, All, ℕ, zero, suc, ◌+◌, ◌*◌, ◌≤◌, ◌<◌, ◌≡◌, some, List, [], ◌∷◌, arith, Option-cases,
  inl, inr, ◌≢◌, ◌↔◌, ◌⊎◌, true, none,
}
use docsis_monitor.Packet.Headers.{walk, quad, IpAddr, udp, ethernet}
use docsis_monitor.Packet.Read.{Seen, transport, read, network}

abbrev pub IsByte : ℕ → Type 0
IsByte b = b < 256

IsByte-get_elem? : (b : List ℕ) (i : ℕ) {v : ℕ} → All IsByte b → get_elem? b i ≡ some v → IsByte v
IsByte-get_elem? [] i h e = cc
IsByte-get_elem? (x ∷ xs) zero h e = ground arith
IsByte-get_elem? (x ∷ xs) (suc i) h e = IsByte-get_elem? xs i h.1 e

-- On any bytes, a walk of at most `n` extension headers that ends does so between its start and its
-- start plus 2048 times `n`.
pub walk_bound :
    (n : ℕ) (b : List ℕ) (next at last end : ℕ)
    → All IsByte b
    → walk n b next at ≡ some (last, end)
    → (at ≤ end) × (end ≤ at + n * 2048)
unfolding walk
walk_bound zero b next at last end h e = ground arith
walk_bound (suc n) b next at last end h e = elim (Option-cases (get_elem? b at)) [
  | inl gone ↦ ground arith
  | inr (next', there) ↦ elim (Option-cases (get_elem? b (at + 1))) [
    | inl gone ↦ ground (arith, walk_bound n b next' (at + 8) last end)
    | inr (len, second) ↦ ground (
      arith,
      IsByte-get_elem? b (at + 1) h second,
      walk_bound n b next' (at + 8) last end,
      walk_bound n b next' (at + (len + 1) * 8) last end,
    )
  ]
]

-- What `read` claims of a packet is consistent: its ports are a provisioning pair, it is TFTP by
-- kind only if one port is TFTP's, a transaction id is there only on a DHCP pair, a gi-address
-- only on a DHCPv4 pair, and the gi-address is never 0.0.0.0.
pub record IsConsistent (s : Seen) : Type 0 where
  pub provisioning : IsProvisioning s.sport s.dport
  pub no_zero_gi : s.gi ≢ some 0
  pub gi_relayed : (s.gi ≡ none) ⊎ ((is_dhcp4 s.sport ≡ true) × (is_dhcp4 s.dport ≡ true))
  pub xid_dhcp :
      (s.xid ≡ none)
      ⊎ (((is_dhcp4 s.sport ≡ true) × (is_dhcp4 s.dport ≡ true))
          ⊎ ((is_dhcp6 s.sport ≡ true) × (is_dhcp6 s.dport ≡ true)))
  pub tftp_kinds :
      ((s.kind ≡ Kind.tftp_request) ⊎ (s.kind ≡ Kind.tftp_reply))
      ↔ ((s.dport ≡ tftp) ⊎ (s.sport ≡ tftp))

giaddr-ne-zero : (sport dport : ℕ) (body : List ℕ) → giaddr sport dport body ≢ some 0
unfolding giaddr quad
giaddr-ne-zero sport dport body = ground arith

giaddr_relayed :
    (sport dport : ℕ) (body : List ℕ)
    → (giaddr sport dport body ≡ none) ⊎ ((is_dhcp4 sport ≡ true) × (is_dhcp4 dport ≡ true))
unfolding giaddr
giaddr_relayed sport dport body = ground arith

xid_dhcp_lem :
    (sport dport : ℕ) (body : List ℕ)
    → (xid sport dport body ≡ none)
      ⊎ (((is_dhcp4 sport ≡ true) × (is_dhcp4 dport ≡ true))
          ⊎ ((is_dhcp6 sport ≡ true) × (is_dhcp6 dport ≡ true)))
unfolding xid
xid_dhcp_lem sport dport body = ground arith

classify-tftp :
    (sport dport : ℕ) (body : List ℕ) (k : Kind)
    → classify sport dport body ≡ some k
    → ((k ≡ Kind.tftp_request) ⊎ (k ≡ Kind.tftp_reply)) ↔ ((dport ≡ tftp) ⊎ (sport ≡ tftp))
unfolding classify
classify-tftp sport dport body k e = ground arith

seen-IsConsistent :
    (sport dport : ℕ) (body : List ℕ) {k : Kind} {s : Seen}
    → classify sport dport body ≡ some k
    → s.kind ≡ k
    → s.sport ≡ sport
    → s.dport ≡ dport
    → s.gi ≡ giaddr sport dport body
    → s.xid ≡ xid sport dport body
    → IsConsistent s
seen-IsConsistent sport dport body {k} {s} e hk hs hd hg hx = record {
  provisioning = rw (hs, hd) (classify-IsProvisioning sport dport body e);
  no_zero_gi = rw hg (giaddr-ne-zero sport dport body);
  gi_relayed = rw (hg, hs, hd) (giaddr_relayed sport dport body);
  xid_dhcp = rw (hx, hs, hd) (xid_dhcp_lem sport dport body);
  tftp_kinds = rw (hk, hs, hd) (classify-tftp sport dport body k e);
}

transport-IsConsistent :
    (src dst : IpAddr) (proto : ℕ) (payload : List ℕ) {s : Seen}
    → transport src dst proto payload ≡ some s
    → IsConsistent s
unfolding transport
transport-IsConsistent src dst proto payload {s} e = elim (Option-cases (udp payload)) [
  | inl gone ↦ absurd (ground arith)
  | inr ((sport, dport, len, body), found) ↦ elim (Option-cases (classify sport dport body)) [
    | inl gone ↦ absurd (ground arith)
    | inr (k, kind) ↦
        seen-IsConsistent sport dport body {s = s} kind (ground arith) (ground arith) (ground arith)
          (ground arith) (ground arith)
  ]
]

-- Whatever bytes arrive, an accepted frame is consistent.
pub read-IsConsistent : (frame : List ℕ) {s : Seen} → read frame ≡ some s → IsConsistent s
unfolding read network
read-IsConsistent frame {s} e = elim (Option-cases (ethernet frame)) [
  | inl gone ↦ absurd (ground arith)
  | inr ((ethertype, rest), found) ↦ elim (Option-cases (network ethertype rest)) [
    | inl gone ↦ absurd (ground arith)
    | inr ((src, dst, proto, payload), packet) ↦
        transport-IsConsistent src dst proto payload (ground arith)
  ]
]
