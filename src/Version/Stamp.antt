-- ===== src/Version/Stamp.antt =====
-- The line of version.rs, as who reads it or pins it takes it.
use docsis_monitor.Version.{
  ℤ, pos, negsuc, Civil, signed, format, parse_digits, parse_upto, negated, parse_i64, build_epoch,
  build_stamp, get_or, stamp_line,
}
use mathlib.Core.Option.{some-injective}
use docsis_monitor.Base.{
  if◌then◌else◌, le→leb, All, Text, decimal, ◌==◌, ℕ, suc, ◌+◌, ◌-◌, ◌*◌, ◌^◌, ◌≤◌, ◌<◌, ◌≡◌, refl,
  ap, ◌∙◌, Option, some, [], ◌∷◌, arith, ◌>>=◌, true, false, leb, Bool-cases, trim, zero, inl, inr,
  none, ltb, tests, concat,
}
use docsis_monitor.Ip.Digits.{
  IsDigit, decimal-cons, value, decimal-AreDigits, value-decimal, is_digit,
}
use mathlib.Core.Path.{subst}
use docsis_monitor.Version.Visible.{
  IsVisible, first_word, digits-AreVisible, first_word-append, trim-visible,
}

abbrev pub IsI64 : ℤ → Type 0
IsI64 (pos n) = n < 2 ^ 63
IsI64 (negsuc n) = n < 2 ^ 63

signed-AreVisible : (z : ℤ) → All IsVisible (signed z)
unfolding signed
signed-AreVisible (pos n) = digits-AreVisible (decimal n) (decimal-AreDigits n)
signed-AreVisible (negsuc n) =
    ((omega arith, omega arith), digits-AreVisible (decimal (suc n)) (decimal-AreDigits (suc n)))

parse_digits-value : (n : ℕ) (s : Text) → All IsDigit s → parse_digits n s ≡ some (value n s)
unfolding parse_digits
parse_digits-value n [] digits = refl
parse_digits-value n (c ∷ s) digits =
    rw digits.0 (parse_digits-value (n * 10 + (c - b'0')) s digits.1)

parse_upto-value :
    (most : ℕ) (s : Text)
    → (d : ℕ) × (ds : Text) × (s ≡ d ∷ ds)
    → All IsDigit s
    → value 0 s ≤ most
    → parse_upto most s ≡ some (value 0 s)
unfolding parse_upto
parse_upto-value most [] (d, ds, e) digits small = absurd (cc e)
parse_upto-value most (c ∷ s) some_digit digits small =
    rw (parse_digits-value 0 (c ∷ s) digits, le→leb _ _ small) refl

parse_upto-decimal : (most n : ℕ) → n < 10 ^ 20 → n ≤ most → parse_upto most (decimal n) ≡ some n
parse_upto-decimal most n word small =
    parse_upto-value most (decimal n) (decimal-cons n) (decimal-AreDigits n)
      (omega (arith, value-decimal n word))
    ∙ ap some (value-decimal n word)

digit_ne_sign : (c : ℕ) → is_digit c ≡ true → ((c == b'-') ≡ false) × ((c == b'+') ≡ false)
digit_ne_sign c h = (ground (arith, h), ground (arith, h))

-- Digits are no sign.
parse_i64-digits :
    (s : Text)
    → (d : ℕ) × (ds : Text) × (s ≡ d ∷ ds)
    → All IsDigit s
    → parse_i64 s ≡ (parse_upto (2 ^ 63 - 1) s >>= λ n. some (pos n))
unfolding parse_i64
parse_i64-digits [] (d, ds, e) digits = absurd (cc e)
parse_i64-digits (c ∷ s) some_digit digits =
    let (no_minus, no_plus) = digit_ne_sign c digits.0 in rw (no_minus, no_plus) refl

parse_i64-signed : (z : ℤ) → IsI64 z → parse_i64 (signed z) ≡ some z
unfolding signed
parse_i64-signed (pos n) word =
    parse_i64-digits (decimal n) (decimal-cons n) (decimal-AreDigits n)
    ∙ ap (λ (o : Option ℕ). o >>= λ n. some (pos n))
        (parse_upto-decimal (2 ^ 63 - 1) n (omega arith) (omega arith))
parse_i64-signed (negsuc n) word =
    unfold parse_i64 in
    ap (λ (o : Option ℕ). o >>= λ n. some (negated n))
      (parse_upto-decimal (2 ^ 63) (suc n) (omega arith) (omega arith))

-- What is read is an i64.
parse_upto-le : (most n : ℕ) (s : Text) → parse_upto most s ≡ some n → n ≤ most
unfolding parse_upto
parse_upto-le most n [] h = absurd (cc h)
parse_upto-le most n (c ∷ s) h = upto (parse_digits 0 (c ∷ s)) h
  where
    upto : (o : Option ℕ) → (o >>= λ k. if leb k most then some k else none) ≡ some n → n ≤ most
    upto none e = absurd (cc e)
    upto (some k) e = ground (arith, e)

pos-IsI64 :
    (o : Option ℕ) (z : ℤ)
    → ((n : ℕ) → o ≡ some n → n ≤ 2 ^ 63 - 1)
    → (o >>= λ n. some (pos n)) ≡ some z
    → IsI64 z
pos-IsI64 none z bound h = absurd (cc h)
pos-IsI64 (some n) (pos m) bound h = ground (arith, bound n refl, h)
pos-IsI64 (some n) (negsuc m) bound h = absurd (cc h)

negated-IsI64 : (n : ℕ) → n ≤ 2 ^ 63 → IsI64 (negated n)
negated-IsI64 zero h = omega arith
negated-IsI64 (suc n) h = omega arith

neg-IsI64 :
    (o : Option ℕ) (z : ℤ)
    → ((n : ℕ) → o ≡ some n → n ≤ 2 ^ 63)
    → (o >>= λ n. some (negated n)) ≡ some z
    → IsI64 z
neg-IsI64 none z bound h = absurd (cc h)
neg-IsI64 (some n) z bound h =
    subst IsI64 (some-injective (negated n) z h) (negated-IsI64 n (bound n refl))

parse_i64-IsI64 : (s : Text) (z : ℤ) → parse_i64 s ≡ some z → IsI64 z
unfolding parse_i64
parse_i64-IsI64 [] z h = absurd (cc h)
parse_i64-IsI64 (c ∷ s) z h = elim (Bool-cases (c == b'-')) [
  | inl minus ↦
      neg-IsI64 (parse_upto (2 ^ 63) s) z (λ n e. parse_upto-le (2 ^ 63) n s e) (rw minus at h)
  | inr other ↦ elim (Bool-cases (c == b'+')) [
    | inl plus ↦
        pos-IsI64 (parse_upto (2 ^ 63 - 1) s) z (λ n e. parse_upto-le (2 ^ 63 - 1) n s e)
          (rw (other, plus) at h)
    | inr digit ↦
        pos-IsI64 (parse_upto (2 ^ 63 - 1) (c ∷ s)) z
          (λ n e. parse_upto-le (2 ^ 63 - 1) n (c ∷ s) e) (rw (other, digit) at h)
  ]
]

build_epoch-IsI64 :
    (pinned : Option Text) (modified : Option ℕ) → IsI64 (build_epoch pinned modified)
unfolding build_epoch
build_epoch-IsI64 pinned modified = first (pinned >>= λ s. parse_i64 (trim s)) (read_or pinned)
  where
    read_or : (p : Option Text) (z : ℤ) → (p >>= λ s. parse_i64 (trim s)) ≡ some z → IsI64 z
    read_or none z e = absurd (cc e)
    read_or (some s) z e = parse_i64-IsI64 (trim s) z e

    file :
        (m : Option ℕ)
        → IsI64 (get_or (m >>= λ n. if ltb n (2 ^ 63) then some (pos n) else none) (pos 0))
    file none = omega arith
    file (some n) = elim (Bool-cases (ltb n (2 ^ 63))) [
      | inl small ↦ rw small (omega (tests, small))
      | inr large ↦ rw large (omega arith)
    ]

    first :
        (o : Option ℤ)
        → ((z : ℤ) → o ≡ some z → IsI64 z)
        → IsI64 (
            get_or o
              (get_or (modified >>= λ n. if ltb n (2 ^ 63) then some (pos n) else none) (pos 0)))
    first none h = file modified
    first (some z) h = h z refl

first_word-stamp_line :
    (epoch : ℤ) (date : Option Civil) → first_word (stamp_line epoch date) ≡ signed epoch
unfolding stamp_line concat
first_word-stamp_line epoch none = first_word-append (signed epoch) _ (signed-AreVisible epoch)
first_word-stamp_line epoch (some z) = first_word-append (signed epoch) _ (signed-AreVisible epoch)

-- The first word of the line that `--version` prints is the time of the build as an exact number:
-- a build that is pinned to it says the same time, whatever the time of its own file, and whether
-- or not the calendar has a date for it.
pub build_epoch-build_stamp :
    (zoned : ℤ → Option Civil) (pinned : Option Text) (modified other : Option ℕ)
    → build_epoch (some (first_word (build_stamp zoned pinned modified))) other
      ≡ build_epoch pinned modified
unfolding build_stamp format
build_epoch-build_stamp zoned pinned modified other =
    let e = build_epoch pinned modified in
    ap (λ (s : Text). build_epoch (some s) other) (first_word-stamp_line e (zoned e))
    ∙ unfold build_epoch in
      ap
        (λ (o : Option ℤ).
          get_or o (get_or (other >>= λ n. if ltb n (2 ^ 63) then some (pos n) else none) (pos 0)))
        (ap parse_i64 (trim-visible (signed e) (signed-AreVisible e))
          ∙ parse_i64-signed e (build_epoch-IsI64 pinned modified))
