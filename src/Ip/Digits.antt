-- ===== src/Ip/Digits.antt =====
-- The digits of a number in decimal, one by one.
use docsis_monitor.Base.Strings.{digits_fuel}
use docsis_monitor.Ip.RoundTrip.{scan, scan-decimal}
use docsis_monitor.Base.{
  ltb, leb, tests, Bool-cases, All, Text, decimal, ℕ, zero, suc, ◌+◌, ◌-◌, ◌*◌, ◌/◌, ◌%◌, ◌^◌, ◌<◌,
  ◌≡◌, refl, sym, ap, ◌∙◌, inl, inr, Bool, true, ◌&&◌, [], ◌∷◌, ◌++◌, arith,
}

abbrev pub is_digit : ℕ → Bool
is_digit c = leb b'0' c && leb c b'9'

abbrev pub IsDigit : ℕ → Type 0
IsDigit c = is_digit c ≡ true

pub digit_plus : (d : ℕ) → d < 10 → is_digit (d + b'0') ≡ true
digit_plus d h = ground (arith, h)

digits_fuel-AreDigits : (f n : ℕ) (acc : Text) → All IsDigit acc → All IsDigit (digits_fuel f n acc)
unfolding digits_fuel
digits_fuel-AreDigits zero n acc digits = digits
digits_fuel-AreDigits (suc f) n acc digits = elim (Bool-cases (ltb n 10)) [
  | inl last_one ↦ rw last_one (digit_plus n (omega (tests, last_one)), digits)
  | inr more ↦ rw more (
      digits_fuel-AreDigits f (n / 10) ((n % 10 + b'0') ∷ acc)
        (digit_plus (n % 10) (omega arith), digits))
]

-- The value of some digits.
abbrev pub value : ℕ → Text → ℕ
value n [] = n
value n (c ∷ s) = value (n * 10 + (c - b'0')) s

scan_digits :
    (n : ℕ) (s rest : Text) → All IsDigit s → scan n (s ++ b' ' ∷ rest) ≡ (value n s, b' ' ∷ rest)
scan_digits n [] rest digits = refl
scan_digits n (c ∷ s) rest digits = rw digits.0 (scan_digits (n * 10 + (c - b'0')) s rest digits.1)

-- There is at least one digit.
digits_fuel-cons :
    (f n d : ℕ) (ds : Text) → (e : ℕ) × (es : Text) × (digits_fuel f n (d ∷ ds) ≡ e ∷ es)
unfolding digits_fuel
digits_fuel-cons zero n d ds = (d, ds, refl)
digits_fuel-cons (suc f) n d ds = elim (Bool-cases (ltb n 10)) [
  | inl last_one ↦ rw last_one (n + b'0', d ∷ ds, refl)
  | inr more ↦ rw more (digits_fuel-cons f (n / 10) (n % 10 + b'0') (d ∷ ds))
]

pub decimal-cons : (n : ℕ) → (d : ℕ) × (ds : Text) × (decimal n ≡ d ∷ ds)
unfolding decimal digits_fuel
decimal-cons n = elim (Bool-cases (ltb n 10)) [
  | inl last_one ↦ rw last_one (n + b'0', [], refl)
  | inr more ↦ rw more (digits_fuel-cons 19 (n / 10) (n % 10 + b'0') [])
]

pub decimal-AreDigits : (n : ℕ) → All IsDigit (decimal n)
unfolding decimal
decimal-AreDigits n = digits_fuel-AreDigits 20 n [] tt

pub value-decimal : (n : ℕ) → n < 10 ^ 20 → value 0 (decimal n) ≡ n
value-decimal n h =
    ap (λ (p : ℕ × Text). p.0)
      (sym (scan_digits 0 (decimal n) [] (decimal-AreDigits n)) ∙ scan-decimal n (b' ' ∷ []) h)
