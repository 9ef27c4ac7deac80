-- ===== src/Snmp/Lengths.antt =====
-- Words, lengths and elements of snmp.rs are read back.
use docsis_monitor.Base.{
  true, ℕ, ◌^◌, ◌<◌, ◌≡◌, refl, List, [], ◌∷◌, arith, length, zero, suc, ◌-◌, ◌≤◌, some, ◌++◌, ltb,
  Bool-cases, ◌+◌, ap, ◌∙◌, inl, inr,
}
use docsis_monitor.Snmp.Reader.{value, read_length, read_tlv}
use docsis_monitor.Snmp.Ber.{significant, be_bytes, first_nonzero, ber_length, u8_or, tlv}
use docsis_monitor.Base.Lists.{length-drop, length-append, take-append, drop-append}
use mathlib.Core.Option.{get_or}
use mathlib.Core.List.{append_assoc}

pub value-be_bytes_4 : (n : ℕ) → n < 2 ^ 32 → value (be_bytes 4 n) ≡ n
value-be_bytes_4 n h = omega arith

pub value-be_bytes_8 : (n : ℕ) → n < 2 ^ 64 → value (be_bytes 8 n) ≡ n
value-be_bytes_8 n h = omega arith

pub value-significant : (bs : List ℕ) → value (significant bs) ≡ value bs
unfolding significant first_nonzero
value-significant [] = refl
value-significant (b ∷ []) = ground arith
value-significant (b ∷ c ∷ bs) = ground (arith, value-significant (c ∷ bs))

length-be_bytes : (k n : ℕ) → length (be_bytes k n) ≡ k
length-be_bytes zero n = refl
length-be_bytes (suc k) n = omega (arith, length-be_bytes k n)

pub length-significant-le : (bs : List ℕ) → length (significant bs) ≤ length bs
unfolding significant
length-significant-le bs = omega (arith, length-drop (get_or (first_nonzero bs) (length bs - 1)) bs)

read_length_long :
    (bytes rest : List ℕ)
    → length bytes ≤ 8
    → read_length ((0x80 + u8_or 1 (length bytes)) ∷ (bytes ++ rest)) ≡ some (value bytes, rest)
read_length_long bytes rest h =
    ground (arith, length-append bytes rest, take-append bytes rest, drop-append bytes rest)

read_length-significant :
    (be rest : List ℕ) (n : ℕ)
    → length be ≤ 8
    → value be ≡ n
    → read_length ((0x80 + u8_or 1 (length (significant be))) ∷ (significant be ++ rest))
      ≡ some (n, rest)
read_length-significant be rest n h e =
    read_length_long (significant be) rest (omega (arith, length-significant-le be))
    ∙ ap (λ (m : ℕ). some (m, rest)) (value-significant be ∙ e)

pub length-be_bytes-le_8 : (n : ℕ) → length (be_bytes 8 n) ≤ 8
length-be_bytes-le_8 n = omega arith

read_length_short :
    (n : ℕ) (rest : List ℕ) → ltb n 0x80 ≡ true → read_length (u8_or 0x7f n ∷ rest) ≡ some (n, rest)
read_length_short n rest h = ground arith

-- A length in either form is read back, whatever follows it.
pub read_length-ber_length :
    (n : ℕ) (rest : List ℕ) → n < 2 ^ 64 → read_length (ber_length n ++ rest) ≡ some (n, rest)
unfolding ber_length
read_length-ber_length n rest h = elim (Bool-cases (ltb n 0x80)) [
  | inl short ↦ rw short (read_length_short n rest short)
  | inr long ↦ rw long (
      read_length-significant (be_bytes 8 n) rest n (length-be_bytes-le_8 n) (value-be_bytes_8 n h))
]

read_tlv-read_length :
    (tag : ℕ) (bs body rest : List ℕ)
    → read_length bs ≡ some (length body, body ++ rest)
    → read_tlv tag (tag ∷ bs) ≡ some (body, rest)
read_tlv-read_length tag bs body rest h =
    ground (arith, length-append body rest, take-append body rest, drop-append body rest)

-- An element is read back as its body, whatever follows it.
pub read_tlv-tlv :
    (tag : ℕ) (body rest : List ℕ)
    → length body < 2 ^ 64
    → read_tlv tag (tlv tag body ++ rest) ≡ some (body, rest)
unfolding tlv
read_tlv-tlv tag body rest h =
    read_tlv-read_length tag ((ber_length (length body) ++ body) ++ rest) body rest (
      ap read_length (append_assoc (ber_length (length body)) body rest)
      ∙ read_length-ber_length (length body) (body ++ rest) h)
