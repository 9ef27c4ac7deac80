-- ===== src/Snmp/Message.antt =====
-- Every trap of snmp.rs is read back by a receiver.
use docsis_monitor.Base.{
  length, ℕ, zero, suc, ◌^◌, ◌≤◌, ◌<◌, ◌≡◌, refl, ap, ◌∙◌, Option, some, List, [], ◌∷◌, ◌++◌, arith,
  ◌>>=◌, low_bits, Text,
}
use docsis_monitor.Snmp.Trap.{
  varbind, varbinds, oid_of, all_bindings, Trap, pdu_bytes, Value, sys_uptime, trap_oid, encode,
}
use docsis_monitor.Snmp.Ber.{strip_sign, integer, tlv, be_bytes, octet_string}
use docsis_monitor.Snmp.Groups.{IsOid}
use docsis_monitor.Snmp.Reader.{
  read_tlv, Message, read_varbind, read_varbinds, read_pdu, read_body, read_message,
}
use docsis_monitor.Snmp.Datagram.{
  AreWritable, length-tlv-le, received_all, received, varbind_body, read_tlv-tlv_alone,
  read_varbind-varbind,
}
use docsis_monitor.Base.Lists.{length-append}
use docsis_monitor.Snmp.Lengths.{read_tlv-tlv, length-be_bytes-le_8}
use docsis_monitor.Snmp.Integers.{signed_word-integer}

read_varbinds-cons :
    (n : ℕ) (name : List ℕ) (v : Value) (bs : List (List ℕ × Value))
    → read_varbind (varbind name v ++ varbinds bs) ≡ some ((name, received v), varbinds bs)
    → read_varbinds n (varbinds bs) ≡ some (received_all bs)
    → read_varbinds (suc n) (varbind name v ++ varbinds bs) ≡ some (received_all ((name, v) ∷ bs))
unfolding varbind tlv
read_varbinds-cons n name v bs first others =
    ap
      (λ (r : Option ((List ℕ × Value) × List ℕ)).
        r >>= λ p. read_varbinds n p.1 >>= λ o. some (p.0 ∷ o))
      first
    ∙ ap (λ (r : Option (List (List ℕ × Value))). r >>= λ o. some ((name, received v) ∷ o)) others

read_varbinds-varbinds :
    (n : ℕ) (bs : List (List ℕ × Value))
    → length bs ≤ n
    → AreWritable bs
    → length (varbinds bs) < 2 ^ 64
    → read_varbinds n (varbinds bs) ≡ some (received_all bs)
unfolding varbinds
read_varbinds-varbinds n [] h w s = refl
read_varbinds-varbinds zero (b ∷ bs) h w s = absurd (omega arith)
read_varbinds-varbinds (suc n) ((name, v) ∷ bs) h w s =
    let long = length-append (varbind name v) (varbinds bs) in
    read_varbinds-cons n name v bs
      (read_varbind-varbind name v (varbinds bs) w.0.0 w.0.1 (omega (arith, long)))
      (read_varbinds-varbinds n bs (omega arith) w.1 (omega (arith, long)))

length-varbinds-le : (bs : List (List ℕ × Value)) → length bs ≤ length (varbinds bs)
unfolding varbinds varbind
length-varbinds-le [] = omega arith
length-varbinds-le ((name, v) ∷ bs) = omega (
  arith,
  length-tlv-le 0x30 (varbind_body name v),
  length-append (tlv 0x30 (varbind_body name v)) (varbinds bs),
  length-varbinds-le bs,
)

length-strip_sign-le : (bs : List ℕ) → length (strip_sign bs) ≤ length bs
unfolding strip_sign
length-strip_sign-le [] = omega arith
length-strip_sign-le (b ∷ []) = omega arith
length-strip_sign-le (b ∷ c ∷ bs) = ground (arith, length-strip_sign-le (c ∷ bs))

short_integer : (be : List ℕ) → length be ≤ 8 → length (strip_sign be) < 2 ^ 64
short_integer be h = omega (arith, length-strip_sign-le be)

read_tlv-integer :
    (v : ℕ) (rest : List ℕ)
    → read_tlv 0x02 (integer v ++ rest) ≡ some (strip_sign (be_bytes 8 v), rest)
unfolding integer
read_tlv-integer v rest =
    read_tlv-tlv 0x02 (strip_sign (be_bytes 8 v)) rest
      (short_integer (be_bytes 8 v) (length-be_bytes-le_8 v))

sys_uptime-IsOid : IsOid sys_uptime
sys_uptime-IsOid = ground arith

trap_oid-IsOid : IsOid trap_oid
trap_oid-IsOid = ground arith

oid_of-IsOid : (t : Trap) → t.which < 2 ^ 64 → IsOid (oid_of t)
unfolding oid_of
oid_of-IsOid t h = ground arith

all_bindings-AreWritable :
    (t : Trap) → t.which < 2 ^ 64 → AreWritable t.bindings → AreWritable (all_bindings t)
unfolding all_bindings
all_bindings-AreWritable t h w = ((sys_uptime-IsOid, tt), ((trap_oid-IsOid, oid_of-IsOid t h), w))

-- The message that the receiver is to see.
abbrev pub message_of : Text → Trap → Message
message_of community t = record {
  community = community;
  request_id = low_bits t.uptime_ticks 31;
  error_status = 0;
  error_index = 0;
  bindings = received_all (all_bindings t);
}

abbrev bindings_bytes : Trap → List ℕ
bindings_bytes t = varbinds (all_bindings t)

read_pdu-pdu_bytes :
    (community : Text) (t : Trap)
    → t.which < 2 ^ 64
    → AreWritable t.bindings
    → length (bindings_bytes t) < 2 ^ 64
    → read_pdu community (pdu_bytes t) ≡ some (message_of community t)
unfolding pdu_bytes
read_pdu-pdu_bytes community t w bs h =
    rw
      (
        read_tlv-integer (low_bits t.uptime_ticks 31)
            (integer 0 ++ (integer 0 ++ tlv 0x30 (bindings_bytes t))),
        read_tlv-integer 0 (integer 0 ++ tlv 0x30 (bindings_bytes t)),
        read_tlv-integer 0 (tlv 0x30 (bindings_bytes t)),
        read_tlv-tlv_alone 0x30 (bindings_bytes t) h,
        read_varbinds-varbinds (length (bindings_bytes t)) (all_bindings t)
            (length-varbinds-le (all_bindings t)) (all_bindings-AreWritable t w bs) h,
        signed_word-integer (low_bits t.uptime_ticks 31) (omega arith),
        signed_word-integer 0 (omega arith),
      )
      refl

length-varbinds-pdu_le : (t : Trap) → length (bindings_bytes t) < length (pdu_bytes t)
unfolding pdu_bytes
length-varbinds-pdu_le t =
    let list = tlv 0x30 (bindings_bytes t) in
    omega (
      arith,
      length-tlv-le 0x30 (bindings_bytes t),
      length-append (integer 0) list,
      length-append (integer 0) (integer 0 ++ list),
      length-append (integer (low_bits t.uptime_ticks 31)) (integer 0 ++ (integer 0 ++ list)),
    )

-- The body of `encode`.
abbrev message_body : Text → Trap → List ℕ
message_body community t = integer 1 ++ (octet_string community ++ tlv 0xa7 (pdu_bytes t))

length-message_body :
    (community : Text) (t : Trap)
    → (length community < length (message_body community t))
      × (length (pdu_bytes t) < length (message_body community t))
unfolding octet_string
length-message_body community t =
    let pdu = tlv 0xa7 (pdu_bytes t) in
    let whole = length-append (integer 1) (tlv 0x04 community ++ pdu) in
    let rest = length-append (tlv 0x04 community) pdu in
    let c = length-tlv-le 0x04 community in
    let p = length-tlv-le 0xa7 (pdu_bytes t) in (omega arith, omega arith)

read_body-message_body :
    (community : Text) (t : Trap)
    → t.which < 2 ^ 64
    → AreWritable t.bindings
    → length (message_body community t) < 2 ^ 64
    → read_body (message_body community t) ≡ some (message_of community t)
unfolding octet_string
read_body-message_body community t w bs h =
    let (c, p) = length-message_body community t in
    rw
      (
        read_tlv-integer 1 (tlv 0x04 community ++ tlv 0xa7 (pdu_bytes t)),
        read_tlv-tlv 0x04 community (tlv 0xa7 (pdu_bytes t)) (omega arith),
        read_tlv-tlv_alone 0xa7 (pdu_bytes t) (omega arith),
        signed_word-integer 1 (omega arith),
        read_pdu-pdu_bytes community t w bs (omega (arith, length-varbinds-pdu_le t)),
      )
      refl

-- A datagram of fewer than 2^64 bytes is read back by a receiver, for a trap whose number is a u64
-- and whose identifiers are identifiers: the community, the request id from the low 31 bits of
-- the uptime, no error, and every binding in order, the two mandatory ones first, with counters
-- and times capped at 2^32 - 1.
pub read_message-encode :
    (community : Text) (t : Trap)
    → t.which < 2 ^ 64
    → AreWritable t.bindings
    → length (encode community t) < 2 ^ 64
    → read_message (encode community t) ≡ some (message_of community t)
unfolding encode
read_message-encode community t w bs h =
    let body = message_body community t in
    let short : length body < 2 ^ 64 = omega (arith, length-tlv-le 0x30 body) in
    ap (λ (r : Option (List ℕ × List ℕ)). r >>= λ p. read_body p.0)
      (read_tlv-tlv_alone 0x30 body short)
    ∙ read_body-message_body community t w bs short
