-- ===== src/Snmp/Datagram.antt =====
-- A whole trap of snmp.rs as a receiver reads it.
use mathlib.Core.List.{append-nil}
use docsis_monitor.Base.{
  length, All, ℕ, ◌^◌, ◌<◌, ◌≡◌, refl, ap, ◌∙◌, some, List, [], ◌∷◌, ◌++◌, arith, leb,
  if◌then◌else◌, sym, Option, ◌>>=◌,
}
use docsis_monitor.Snmp.Trap.{Value, value_bytes, varbind}
use docsis_monitor.Snmp.Ber.{tlv, oid_bytes, ber_length, octet_string, be_bytes, u32_max}
use docsis_monitor.Snmp.Groups.{IsOid, oid_body, read_oid-oid_body}
use docsis_monitor.Snmp.Integers.{
  capped, unsigned_body, short_body, unsigned-tlv, natural-unsigned_body, four,
}
use docsis_monitor.Base.Lists.{length-append}
use docsis_monitor.Snmp.Reader.{
  read_tlv, read_oid, read_value, tagged_value, read_varbind, read_binding,
}
use docsis_monitor.Snmp.Lengths.{read_tlv-tlv}

-- A value as the receiver gets it: a counter or a time that needs more than 32 bits counts as the
-- largest.
abbrev pub received : Value → Value
received (Value.str s) = Value.str s
received (Value.count n) = Value.count (capped n)
received (Value.ticks n) = Value.ticks (capped n)
received (Value.oid o) = Value.oid o

abbrev pub received_all : List (List ℕ × Value) → List (List ℕ × Value)
received_all [] = []
received_all ((name, v) ∷ bs) = (name, received v) ∷ received_all bs

-- What can be written: identifiers that are identifiers.
abbrev pub IsWritable : Value → Type 0
IsWritable (Value.oid o) = IsOid o
IsWritable _ = Unit {0}

abbrev pub AreWritable : List (List ℕ × Value) → Type 0
AreWritable bs = All (λ (b : List ℕ × Value). IsOid b.0 × IsWritable b.1) bs

pub length-tlv-le : (tag : ℕ) (body : List ℕ) → length body < length (tlv tag body)
unfolding tlv
length-tlv-le tag body = omega (arith, length-append (ber_length (length body)) body)

oid_bytes-tlv : (arcs : List ℕ) → oid_bytes arcs ≡ tlv 0x06 (oid_body arcs)
unfolding oid_bytes
oid_bytes-tlv arcs = refl

read_oid-oid_bytes :
    (arcs rest : List ℕ)
    → IsOid arcs
    → length (oid_bytes arcs) < 2 ^ 64
    → (body : List ℕ) × (read_tlv 0x06 (oid_bytes arcs ++ rest) ≡ some (body, rest))
      × (read_oid body ≡ arcs)
read_oid-oid_bytes arcs rest v h = (
  oid_body arcs,
  ap (λ (t : List ℕ). read_tlv 0x06 (t ++ rest)) (oid_bytes-tlv arcs)
      ∙ read_tlv-tlv 0x06 (oid_body arcs) rest (
          omega (
            arith,
            length-tlv-le 0x06 (oid_body arcs),
            ap (λ (t : List ℕ). length t) (oid_bytes-tlv arcs),
          )),
  read_oid-oid_body arcs v,
)

pub read_tlv-tlv_alone :
    (tag : ℕ) (body : List ℕ) → length body < 2 ^ 64 → read_tlv tag (tlv tag body) ≡ some (body, [])
read_tlv-tlv_alone tag body h =
    ap (read_tlv tag) (sym (append-nil (tlv tag body))) ∙ read_tlv-tlv tag body [] h

read_value-tlv :
    (tag : ℕ) (body : List ℕ)
    → length body < 2 ^ 64
    → read_value (tlv tag body) ≡ tagged_value tag body
unfolding tlv
read_value-tlv tag body h =
    ap (λ (r : Option (List ℕ × List ℕ)). r >>= λ p. tagged_value tag p.0)
      (read_tlv-tlv_alone tag body h)

unsigned_body-short : (v : ℕ) → length (unsigned_body v) < 2 ^ 64
unsigned_body-short v =
    short_body (be_bytes 4 (if leb v u32_max then v else u32_max))
      (four (if leb v u32_max then v else u32_max))

read_value-value_bytes :
    (v : Value)
    → IsWritable v
    → length (value_bytes v) < 2 ^ 64
    → read_value (value_bytes v) ≡ some (received v)
unfolding value_bytes octet_string
read_value-value_bytes (Value.str s) w h =
    read_value-tlv 0x04 s (omega (arith, length-tlv-le 0x04 s))
read_value-value_bytes (Value.count n) w h =
    ap read_value (unsigned-tlv 0x41 n)
    ∙ read_value-tlv 0x41 (unsigned_body n) (unsigned_body-short n)
    ∙ ap (λ (r : Option ℕ). r >>= λ k. some (Value.count k)) (natural-unsigned_body n)
read_value-value_bytes (Value.ticks n) w h =
    ap read_value (unsigned-tlv 0x43 n)
    ∙ read_value-tlv 0x43 (unsigned_body n) (unsigned_body-short n)
    ∙ ap (λ (r : Option ℕ). r >>= λ k. some (Value.ticks k)) (natural-unsigned_body n)
read_value-value_bytes (Value.oid o) w h =
    ap read_value (oid_bytes-tlv o)
    ∙ read_value-tlv 0x06 (oid_body o) (
        omega
          (arith, length-tlv-le 0x06 (oid_body o), ap (λ (t : List ℕ). length t) (oid_bytes-tlv o)))
    ∙ ap (λ (k : List ℕ). some (Value.oid k)) (read_oid-oid_body o w)

-- The body of `varbind`.
abbrev pub varbind_body : List ℕ → Value → List ℕ
varbind_body name v = oid_bytes name ++ value_bytes v

read_binding-varbind_body :
    (name : List ℕ) (v : Value)
    → IsOid name
    → IsWritable v
    → length (varbind_body name v) < 2 ^ 64
    → read_binding (varbind_body name v) ≡ some (name, received v)
read_binding-varbind_body name v o w h =
    let long = length-append (oid_bytes name) (value_bytes v) in
    let (body, found, same) = read_oid-oid_bytes name (value_bytes v) o (omega (arith, long)) in
    rw (found, read_value-value_bytes v w (omega (arith, long)), same) refl

pub read_varbind-varbind :
    (name : List ℕ) (v : Value) (rest : List ℕ)
    → IsOid name
    → IsWritable v
    → length (varbind name v) < 2 ^ 64
    → read_varbind (varbind name v ++ rest) ≡ some ((name, received v), rest)
unfolding varbind
read_varbind-varbind name v rest o w h =
    let short : length (varbind_body name v) < 2 ^ 64 =
      omega (arith, length-tlv-le 0x30 (varbind_body name v)) in
    ap (λ (r : Option (List ℕ × List ℕ)). r >>= λ p. read_binding p.0 >>= λ b. some (b, p.1))
      (read_tlv-tlv 0x30 (varbind_body name v) rest short)
    ∙ ap (λ (r : Option (List ℕ × Value)). r >>= λ b. some (b, rest))
        (read_binding-varbind_body name v o w short)
