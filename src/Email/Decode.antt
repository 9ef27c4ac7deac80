-- ===== src/Email/Decode.antt =====
-- What `base64` of email.rs writes is decoded to what it was given.
use docsis_monitor.Base.{
  leb, if◌then◌else◌, get_elem?, Text, ◌==◌, ℕ, zero, suc, ◌+◌, ◌-◌, ◌*◌, ◌/◌, ◌%◌, ◌<◌, ◌≡◌, refl,
  Bool, true, false, not, ◌&&◌, [], ◌∷◌, arith, shr, low_bits, All, ==_iff, ap, ◌∙◌,
}
use docsis_monitor.Email.Base64.{pad, alphabet, letter, base64, chunk_bits}
use mathlib.Core.Option.{get_or}
use docsis_monitor.Packet.Bounds.{IsByte}

-- The six bits of a letter.
abbrev pub six_bits : ℕ → ℕ
six_bits c =
    if leb b'A' c && leb c b'Z'
    then c - b'A'
    else if leb b'a' c && leb c b'z'
    then c - b'a' + 26
    else if leb b'0' c && leb c b'9'
    then c - b'0' + 52
    else if c == b'+'
    then 62
    else 63

-- The bytes of four letters at a time; `=` stands where a byte is missing.
unfoldable pub decode : Text → Text
decode (w ∷ x ∷ y ∷ z ∷ rest) =
    let first = six_bits w * 4 + six_bits x / 16 in
    let second = six_bits x % 16 * 16 + six_bits y / 4 in
    let third = six_bits y % 4 * 64 + six_bits z in
    let more = decode rest in
    if y == pad
    then first ∷ []
    else if z == pad
    then first ∷ second ∷ []
    else first ∷ second ∷ third ∷ more
decode _ = []

-- A test passes on every number under a bound.
passes_under : (ℕ → Bool) → ℕ → Bool
passes_under test zero = true
passes_under test (suc bound) = passes_under test bound && test bound

passes_under-true :
    (test : ℕ → Bool) (bound k : ℕ) → k < bound → passes_under test bound ≡ true → test k ≡ true
unfolding passes_under
passes_under-true test zero k small passed = absurd (omega arith)
passes_under-true test (suc bound) k small passed = ground (arith, passes_under-true test bound k)

abbrev letter_at : ℕ → ℕ
letter_at n = get_or (get_elem? alphabet n) 0

-- Every letter says its six bits, and none is the padding.
letters_table :
    passes_under (λ n. six_bits (letter_at n) == n && not (letter_at n == pad)) 64 ≡ true
unfolding passes_under
letters_table = refl

and-eq-true : (a b : Bool) → (a && b) ≡ true → (a ≡ true) × (b ≡ true)
and-eq-true true true h = (refl, refl)
and-eq-true true false h = cc
and-eq-true false b h = cc

not-eq-true : (a : Bool) → not a ≡ true → a ≡ false
not-eq-true true h = cc
not-eq-true false h = refl

letter_bits : (n : ℕ) → n < 64 → six_bits (letter_at n) ≡ n
letter_bits n h =
    (==_iff (six_bits (letter_at n)) n).0
      (and-eq-true (six_bits (letter_at n) == n) (not (letter_at n == pad)) (
        passes_under-true (λ n. six_bits (letter_at n) == n && not (letter_at n == pad)) 64 n h
          letters_table)).0

letter_not_pad : (n : ℕ) → n < 64 → (letter_at n == pad) ≡ false
letter_not_pad n h =
    not-eq-true (letter_at n == pad)
      (and-eq-true (six_bits (letter_at n) == n) (not (letter_at n == pad)) (
        passes_under-true (λ n. six_bits (letter_at n) == n && not (letter_at n == pad)) 64 n h
          letters_table)).1

module _ (n shift : ℕ) where
  six_bits-letter : six_bits (letter n shift) ≡ low_bits (shr n shift) 6
  unfolding letter
  six_bits-letter = letter_bits (low_bits (shr n shift) 6) (omega arith)

  letter-ne-pad : (letter n shift == pad) ≡ false
  unfolding letter
  letter-ne-pad = letter_not_pad (low_bits (shr n shift) 6) (omega arith)

decode_three :
    (w x y z : ℕ) (rest : Text) (a b c : ℕ)
    → (y == pad) ≡ false
    → (z == pad) ≡ false
    → six_bits w * 4 + six_bits x / 16 ≡ a
    → six_bits x % 16 * 16 + six_bits y / 4 ≡ b
    → six_bits y % 4 * 64 + six_bits z ≡ c
    → decode (w ∷ x ∷ y ∷ z ∷ rest) ≡ a ∷ b ∷ c ∷ decode rest
unfolding decode
decode_three w x y z rest a b c p q e g h = rw (p, q, e, g, h) refl

decode_one :
    (w x : ℕ) (a : ℕ)
    → six_bits w * 4 + six_bits x / 16 ≡ a
    → decode (w ∷ x ∷ pad ∷ pad ∷ []) ≡ a ∷ []
unfolding decode
decode_one w x a e = ap (λ (t : ℕ). t ∷ []) e

decode_two :
    (w x y : ℕ) (a b : ℕ)
    → (y == pad) ≡ false
    → six_bits w * 4 + six_bits x / 16 ≡ a
    → six_bits x % 16 * 16 + six_bits y / 4 ≡ b
    → decode (w ∷ x ∷ y ∷ pad ∷ []) ≡ a ∷ b ∷ []
unfolding decode
decode_two w x y a b p e g = rw (p, e, g) refl

-- Bytes are read back from their base64.
pub decode-base64 : (raw : Text) → All IsByte raw → decode (base64 raw) ≡ raw
unfolding base64
decode-base64 [] h = unfold decode in refl
decode-base64 (a ∷ []) h =
    let n : ℕ = chunk_bits a 0 0 in
    decode_one (letter n 18) (letter n 12) a
      (omega (arith, six_bits-letter n 18, six_bits-letter n 12))
decode-base64 (a ∷ b ∷ []) h =
    let n : ℕ = chunk_bits a b 0 in
    decode_two (letter n 18) (letter n 12) (letter n 6) a b (letter-ne-pad n 6)
      (omega (arith, six_bits-letter n 18, six_bits-letter n 12))
      (omega (arith, six_bits-letter n 12, six_bits-letter n 6))
decode-base64 (a ∷ b ∷ c ∷ raw) h =
    let n : ℕ = chunk_bits a b c in
    decode_three (letter n 18) (letter n 12) (letter n 6) (letter n 0) (base64 raw) a b c
      (letter-ne-pad n 6) (letter-ne-pad n 0)
      (omega (arith, six_bits-letter n 18, six_bits-letter n 12))
      (omega (arith, six_bits-letter n 12, six_bits-letter n 6))
      (omega (arith, six_bits-letter n 6, six_bits-letter n 0))
    ∙ ap (λ (t : Text). a ∷ b ∷ c ∷ t) (decode-base64 raw h.1.1.1)
