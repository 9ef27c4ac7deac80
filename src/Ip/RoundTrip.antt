-- ===== src/Ip/RoundTrip.antt =====
-- Numbers in decimal and IPv4 addresses are read back, so that an address and its text name each
-- other.
use docsis_monitor.Base.{
  ltb, leb, if◌then◌else◌, tests, Bool-cases, Text, decimal, ℕ, zero, suc, ◌+◌, ◌-◌, ◌*◌, ◌/◌, ◌%◌,
  ◌^◌, ◌<◌, ◌≡◌, refl, ap, ◌∙◌, inl, inr, ◌&&◌, [], ◌∷◌, ◌++◌, arith, drop, sym, List,
}
use docsis_monitor.Base.Strings.{digits_fuel}
use mathlib.Core.List.{append-nil, foldl}
use docsis_monitor.Ip.{dotted}

-- The number that some digits say, and what follows them.
abbrev pub scan : ℕ → Text → ℕ × Text
scan n [] = (n, [])
scan n (c ∷ s) = if leb b'0' c && leb c b'9' then scan (n * 10 + (c - b'0')) s else (n, c ∷ s)

digits_fuel-append :
    (f n : ℕ) (acc rest : Text) → digits_fuel f n acc ++ rest ≡ digits_fuel f n (acc ++ rest)
unfolding digits_fuel
digits_fuel-append zero n acc rest = refl
digits_fuel-append (suc f) n acc rest =
    ground (arith, digits_fuel-append f (n / 10) ((n % 10 + b'0') ∷ acc) rest)

scan_digit : (n d : ℕ) (s : Text) → d < 10 → scan n ((d + b'0') ∷ s) ≡ scan (n * 10 + d) s
scan_digit n d s h = ground arith

scan_same : (n m : ℕ) (s : Text) → n ≡ m → scan n s ≡ scan m s
scan_same n m s e = ap (λ (k : ℕ). scan k s) e

scan-digits_fuel : (f n : ℕ) (out : Text) → n < 10 ^ f → scan 0 (digits_fuel f n out) ≡ scan n out
unfolding digits_fuel
scan-digits_fuel zero n out h = scan_same 0 n out (omega arith)
scan-digits_fuel (suc f) n out h = elim (Bool-cases (ltb n 10)) [
  | inl last_one ↦
      rw last_one
        (scan_digit 0 n out (omega (tests, last_one)) ∙ scan_same (0 * 10 + n) n out (omega arith))
  | inr more ↦ rw more (
      scan-digits_fuel f (n / 10) ((n % 10 + b'0') ∷ out) (omega arith)
      ∙ scan_digit (n / 10) (n % 10) out (omega arith)
      ∙ scan_same (n / 10 * 10 + n % 10) n out (omega arith))
]

-- A number of up to twenty digits is read back, up to what follows it.
pub scan-decimal : (n : ℕ) (rest : Text) → n < 10 ^ 20 → scan 0 (decimal n ++ rest) ≡ scan n rest
unfolding decimal
scan-decimal n rest h = ap (scan 0) (digits_fuel-append 20 n [] rest) ∙ scan-digits_fuel 20 n rest h

scan-decimal_dot :
    (n : ℕ) (rest : Text) → n < 256 → scan 0 (decimal n ++ b'.' ∷ rest) ≡ (n, b'.' ∷ rest)
scan-decimal_dot n rest h = scan-decimal n (b'.' ∷ rest) (omega arith)

scan-decimal_end : (n : ℕ) → n < 256 → scan 0 (decimal n) ≡ (n, [])
scan-decimal_end n h = ap (scan 0) (sym (append-nil (decimal n))) ∙ scan-decimal n [] (omega arith)

-- The numbers between the dots, and the address that four of them make.
abbrev pub read_dots : ℕ → Text → List ℕ
read_dots zero s = []
read_dots (suc n) s = (scan 0 s).0 ∷ read_dots n (drop 1 (scan 0 s).1)

abbrev pub from_dots : List ℕ → ℕ
from_dots = foldl (λ (a b : ℕ). a * 256 + b) 0

abbrev pub read_dotted : Text → ℕ
read_dotted s = from_dots (read_dots 4 s)

read_dots-dot :
    (m n : ℕ) (rest : Text)
    → n < 256
    → read_dots (suc m) (decimal n ++ b'.' ∷ rest) ≡ n ∷ read_dots m rest
read_dots-dot m n rest h =
    ap (λ (p : ℕ × Text). p.0 ∷ read_dots m (drop 1 p.1)) (scan-decimal_dot n rest h)

read_dots-end : (n : ℕ) → n < 256 → read_dots 1 (decimal n) ≡ n ∷ []
read_dots-end n h = ap (λ (p : ℕ × Text). p.0 ∷ []) (scan-decimal_end n h)

read_dots-dotted :
    (a : ℕ)
    → read_dots 4 (dotted a)
      ≡ (a / 2 ^ 24 % 256) ∷ (a / 2 ^ 16 % 256) ∷ (a / 2 ^ 8 % 256) ∷ (a % 256) ∷ []
unfolding dotted
read_dots-dotted a =
    read_dots-dot 3 (a / 2 ^ 24 % 256) _ (omega arith)
    ∙ ap (◌∷◌ (a / 2 ^ 24 % 256)) (
        read_dots-dot 2 (a / 2 ^ 16 % 256) _ (omega arith)
        ∙ ap (◌∷◌ (a / 2 ^ 16 % 256)) (
            read_dots-dot 1 (a / 2 ^ 8 % 256) _ (omega arith)
            ∙ ap (◌∷◌ (a / 2 ^ 8 % 256)) (read_dots-end (a % 256) (omega arith))))

-- The text of an IPv4 address is read back as the address.
pub read_dotted-dotted : (a : ℕ) → a < 2 ^ 32 → read_dotted (dotted a) ≡ a
read_dotted-dotted a h = ap from_dots (read_dots-dotted a) ∙ (omega arith)

pub dotted_injective : (a b : ℕ) → a < 2 ^ 32 → b < 2 ^ 32 → dotted a ≡ dotted b → a ≡ b
dotted_injective a b h k e =
    sym (read_dotted-dotted a h) ∙ ap read_dotted e ∙ read_dotted-dotted b k
