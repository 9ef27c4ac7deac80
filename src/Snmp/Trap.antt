-- ===== src/Snmp/Trap.antt =====
-- snmp.rs: traps, and the datagram that carries one.
use docsis_monitor.Snmp.Ber.{tlv, integer, unsigned, octet_string, oid_bytes}
use docsis_monitor.Base.{low_bits, Text, ℕ, List, [], ◌∷◌, ◌++◌}

-- `enum Value`.
pub data Value : Type 0 where
  str : Text → Value
  count : ℕ → Value
  oid : List ℕ → Value
  ticks : ℕ → Value

-- `struct Trap`.
pub record Trap : Type 0 where
  pub uptime_ticks : ℕ
  pub which : ℕ
  pub bindings : List (List ℕ × Value)

abbrev pub enterprise : List ℕ
enterprise = 1 ∷ 3 ∷ 6 ∷ 1 ∷ 4 ∷ 1 ∷ 99_999 ∷ []

abbrev pub sys_uptime : List ℕ
sys_uptime = 1 ∷ 3 ∷ 6 ∷ 1 ∷ 2 ∷ 1 ∷ 1 ∷ 3 ∷ 0 ∷ []

abbrev pub trap_oid : List ℕ
trap_oid = 1 ∷ 3 ∷ 6 ∷ 1 ∷ 6 ∷ 3 ∷ 1 ∷ 1 ∷ 4 ∷ 1 ∷ 0 ∷ []

-- `Trap::oid` and `Trap::field`.
unfoldable pub oid_of : Trap → List ℕ
oid_of t = enterprise ++ t.which ∷ []

unfoldable pub field : ℕ → List ℕ
field n = enterprise ++ 1 ∷ n ∷ []

-- The match of `varbind` on the value.
unfoldable pub value_bytes : Value → List ℕ
unfolding octet_string unsigned oid_bytes
value_bytes (Value.str s) = octet_string s
value_bytes (Value.count n) = unsigned 0x41 n
value_bytes (Value.ticks n) = unsigned 0x43 n
value_bytes (Value.oid o) = oid_bytes o

unfoldable pub varbind : List ℕ → Value → List ℕ
unfolding value_bytes tlv oid_bytes
varbind name v = tlv 0x30 (oid_bytes name ++ value_bytes v)

-- The loop of `encode` over the bindings.
unfoldable pub varbinds : List (List ℕ × Value) → List ℕ
unfolding varbind
varbinds [] = []
varbinds ((name, v) ∷ bs) = varbind name v ++ varbinds bs

-- The bindings that a trap must open with, and then its own.
unfoldable pub all_bindings : Trap → List (List ℕ × Value)
unfolding oid_of
all_bindings t =
    (sys_uptime, Value.ticks t.uptime_ticks) ∷ (trap_oid, Value.oid (oid_of t)) ∷ t.bindings

-- The request id, the two errors and the bindings, and then the whole message.
unfoldable pub pdu_bytes : Trap → List ℕ
unfolding integer varbinds all_bindings tlv
pdu_bytes t =
    integer (low_bits t.uptime_ticks 31)
    ++ (integer 0 ++ (integer 0 ++ tlv 0x30 (varbinds (all_bindings t))))

unfoldable pub encode : Text → Trap → List ℕ
unfolding integer octet_string pdu_bytes tlv
encode community t = tlv 0x30 (integer 1 ++ (octet_string community ++ tlv 0xa7 (pdu_bytes t)))
