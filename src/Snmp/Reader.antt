-- ===== src/Snmp/Reader.antt =====
-- A reader of BER, written from its rules and not from snmp.rs: what a receiver of the traps sees.
use docsis_monitor.Base.{
  ◌>>=◌, ltb, leb, if◌then◌else◌, length, take, drop, ◌==◌, ℕ, suc, ◌+◌, ◌-◌, ◌*◌, ◌/◌, ◌^◌, min,
  not, Option, none, some, List, [], ◌∷◌, zero,
}
use docsis_monitor.Snmp.Trap.{Value}

-- The big-endian value of some bytes, and the value of two's complement as a 64-bit word.
abbrev pub value : List ℕ → ℕ
value [] = 0
value (b ∷ bs) = b * 256 ^ length bs + value bs

abbrev pub signed_word : List ℕ → ℕ
signed_word [] = 0
signed_word (b ∷ bs) =
    if leb 128 b then 2 ^ 64 - 256 ^ suc (length bs) + value (b ∷ bs) else value (b ∷ bs)

-- A length and what follows it.
abbrev pub read_length : List ℕ → Option (ℕ × List ℕ)
read_length [] = none
read_length (b ∷ bs) =
    if ltb b 128
    then some (b, bs)
    else if ltb (length bs) (b - 128)
    then none
    else some (value (take (b - 128) bs), drop (b - 128) bs)

-- The body of an element with this tag and what follows the element.
abbrev pub read_tlv : ℕ → List ℕ → Option (List ℕ × List ℕ)
read_tlv tag [] = none
read_tlv tag (b ∷ bs) = if not (b == tag) then none else do
  (n, rest) ← read_length bs
  if ltb (length rest) n then none else some (take n rest, drop n rest)

-- The numbers that a sequence of base-128 groups holds; a high bit says that one goes on.
abbrev pub read_groups : ℕ → List ℕ → List ℕ
read_groups acc [] = []
read_groups acc (b ∷ bs) =
    let ends = (acc * 128 + b) ∷ read_groups 0 bs in
    let goes_on = read_groups (acc * 128 + (b - 128)) bs in if ltb b 128 then ends else goes_on

-- The arcs of an object identifier: the first number holds the first two.
abbrev pub split_first : List ℕ → List ℕ
split_first [] = []
split_first (n ∷ ns) = min (n / 40) 2 ∷ (n - 40 * min (n / 40) 2) ∷ ns

abbrev pub read_oid : List ℕ → List ℕ
read_oid body = split_first (read_groups 0 body)

-- A number that may not be negative: its body is in two's complement, as that of every integer of
-- BER, and one whose first bit is set, or that has no bytes, is refused.
abbrev pub natural : List ℕ → Option ℕ
natural [] = none
natural (b ∷ bs) = if leb 128 b then none else some (value (b ∷ bs))

-- The value of a binding, by its tag.
abbrev pub tagged_value : ℕ → List ℕ → Option Value
tagged_value tag body =
    if tag == 0x04
    then some (Value.str body)
    else if tag == 0x41
    then (natural body >>= λ n. some (Value.count n))
    else if tag == 0x43
    then (natural body >>= λ n. some (Value.ticks n))
    else if tag == 0x06
    then some (Value.oid (read_oid body))
    else none

abbrev pub read_value : List ℕ → Option Value
read_value [] = none
read_value (tag ∷ bs) = do (body, rest) ← read_tlv tag (tag ∷ bs); tagged_value tag body

-- The name and the value of a binding.
abbrev pub read_binding : List ℕ → Option (List ℕ × Value)
read_binding body = do (name, bs) ← read_tlv 0x06 body; v ← read_value bs; some (read_oid name, v)

abbrev pub read_varbind : List ℕ → Option ((List ℕ × Value) × List ℕ)
read_varbind bs = do (body, rest) ← read_tlv 0x30 bs; b ← read_binding body; some (b, rest)

-- Bindings until the bytes end, at most `n` of them.
abbrev pub read_varbinds : ℕ → List ℕ → Option (List (List ℕ × Value))
read_varbinds n [] = some []
read_varbinds zero (b ∷ bs) = none
read_varbinds (suc n) (b ∷ bs) = do
  (first, rest) ← read_varbind (b ∷ bs)
  others ← read_varbinds n rest
  some (first ∷ others)

-- What a version 2c trap says.
pub record Message : Type 0 where
  pub community : List ℕ
  pub request_id : ℕ
  pub error_status : ℕ
  pub error_index : ℕ
  pub bindings : List (List ℕ × Value)

abbrev pub read_pdu : List ℕ → List ℕ → Option Message
read_pdu community pdu = do
  (id, r) ← read_tlv 0x02 pdu
  (status, s) ← read_tlv 0x02 r
  (index, t) ← read_tlv 0x02 s
  (list, end) ← read_tlv 0x30 t
  bindings ← read_varbinds (length list) list
  some (record {
    community = community;
    request_id = signed_word id;
    error_status = signed_word status;
    error_index = signed_word index;
    bindings = bindings;
  })

abbrev pub read_body : List ℕ → Option Message
read_body message = do
  (version, r) ← read_tlv 0x02 message
  (community, s) ← read_tlv 0x04 r
  (pdu, end) ← read_tlv 0xa7 s
  if signed_word version == 1 then read_pdu community pdu else none

abbrev pub read_message : List ℕ → Option Message
read_message bytes = do (message, end) ← read_tlv 0x30 bytes; read_body message
