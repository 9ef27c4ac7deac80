-- ===== src/Snmp/Integers.antt =====
-- Integers of snmp.rs are read back with their sign.
use docsis_monitor.Base.{
  length, ℕ, suc, ◌^◌, ◌≤◌, ◌<◌, ◌≡◌, refl, List, [], ◌∷◌, arith, leb, if◌then◌else◌, zero, min,
  ◌∙◌, some, ap, ◌/◌, ◌%◌,
}
use docsis_monitor.Snmp.Reader.{signed_word, value, natural}
use docsis_monitor.Snmp.Ber.{
  strip_sign, be_bytes, lead_zero, u32_max, unsigned, significant, high_bit, tlv,
}
use docsis_monitor.Snmp.Lengths.{value-be_bytes_8, value-be_bytes_4, length-significant-le}

pow_le : (n m : ℕ) → n ≤ m → 256 ^ n ≤ 256 ^ m
pow_le zero zero h = omega arith
pow_le zero (suc m) h = omega (arith, pow_le zero m (omega arith))
pow_le (suc n) zero h = absurd (omega arith)
pow_le (suc n) (suc m) h = omega (arith, pow_le n m (omega arith))

strip_ones :
    (c : ℕ) (bs : List ℕ)
    → suc (suc (length bs)) ≤ 8
    → 128 ≤ c
    → signed_word (c ∷ bs) ≡ signed_word (0xff ∷ c ∷ bs)
strip_ones c bs h k = ground (arith, pow_le (suc (suc (length bs))) 8 h)

strip_zero : (c : ℕ) (bs : List ℕ) → c < 128 → signed_word (c ∷ bs) ≡ signed_word (0 ∷ c ∷ bs)
strip_zero c bs k = ground arith

-- The bytes that `integer` strips do not change what the rest means in two's complement.
pub signed_word-strip_sign :
    (be : List ℕ) → length be ≤ 8 → signed_word (strip_sign be) ≡ signed_word be
unfolding strip_sign
signed_word-strip_sign [] h = refl
signed_word-strip_sign (b ∷ []) h = refl
signed_word-strip_sign (b ∷ c ∷ bs) h =
    ground (arith, strip_ones c bs, strip_zero c bs, signed_word-strip_sign (c ∷ bs))

-- The body of `integer v`, read in two's complement, is the 64-bit word `v`.
pub signed_word-integer : (v : ℕ) → v < 2 ^ 64 → signed_word (strip_sign (be_bytes 8 v)) ≡ v
signed_word-integer v h = signed_word-strip_sign (be_bytes 8 v) (omega arith) ∙ word
  where
    word : signed_word (be_bytes 8 v) ≡ v
    word = ground (arith, value-be_bytes_8 v h)

natural-lead_zero : (b : ℕ) (bs : List ℕ) → natural (lead_zero (b ∷ bs)) ≡ some (value (b ∷ bs))
unfolding lead_zero
natural-lead_zero b bs = ground arith

natural-significant :
    (b : ℕ) (bs : List ℕ) → natural (lead_zero (significant (b ∷ bs))) ≡ some (value (b ∷ bs))
unfolding significant docsis_monitor.Snmp.Ber.first_nonzero
natural-significant b [] = ground (arith, natural-lead_zero b [])
natural-significant b (c ∷ bs) =
    ground (arith, natural-lead_zero b (c ∷ bs), natural-significant c bs)

-- The value that `unsigned` writes: a number that needs more than 32 bits counts as the largest.
abbrev pub capped : ℕ → ℕ
capped v = min v u32_max

abbrev pub unsigned_body : ℕ → List ℕ
unsigned_body v = lead_zero (significant (be_bytes 4 (if leb v u32_max then v else u32_max)))

-- A receiver reads the number back, and never as a negative one.
pub natural-unsigned_body : (v : ℕ) → natural (unsigned_body v) ≡ some (capped v)
natural-unsigned_body v =
    let w = if leb v u32_max then v else u32_max in
    natural-significant ((w / 256 ^ 3) % 256) (be_bytes 3 w)
    ∙ ap (λ (n : ℕ). some n) (value-be_bytes_4 w (ground arith) ∙ (ground arith))

length-lead_zero-le : (bs : List ℕ) → length (lead_zero bs) ≤ suc (length bs)
unfolding lead_zero
length-lead_zero-le [] = omega arith
length-lead_zero-le (b ∷ bs) = ground arith

pub short_body : (be : List ℕ) → length be ≤ 4 → length (lead_zero (significant be)) < 2 ^ 64
short_body be h = omega (arith, length-lead_zero-le (significant be), length-significant-le be)

pub unsigned-tlv : (tag v : ℕ) → unsigned tag v ≡ tlv tag (unsigned_body v)
unfolding unsigned
unsigned-tlv tag v = refl

pub four : (n : ℕ) → length (be_bytes 4 n) ≤ 4
four n = omega arith
