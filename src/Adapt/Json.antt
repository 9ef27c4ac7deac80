-- ===== src/Adapt/Json.antt =====
-- A reader of JSON, for the block of adapt.rs: the tokens of a text, and an object of thresholds.
use docsis_monitor.Base.{
  if◌then◌else◌, All, Text, ◌==◌, ℕ, ◌+◌, ◌-◌, ◌*◌, ◌≡◌, refl, false, List, [], ◌∷◌, ◌++◌, decimal,
  ◌^◌, ◌<◌, sym, ap, ◌∙◌, arith,
}
use mathlib.Core.List.{append-nil, append_assoc}
use docsis_monitor.Ip.Digits.{
  is_digit, IsDigit, decimal-cons, value, decimal-AreDigits, value-decimal,
}

pub data Token : Type 0 where
  brace end_brace colon comma : Token
  word : Text → Token
  number : ℕ → Token

-- Between tokens, in a text of which some bytes were read, or in a number.
pub data Lexing : Type 0 where
  between : Lexing
  in_word : Text → Lexing
  in_number : ℕ → Lexing

abbrev pub start_token : ℕ → Lexing × List Token
start_token c =
    if c == b'"'
    then (in_word [], [])
    else if is_digit c
    then (in_number (c - b'0'), [])
    else if c == b'{'
    then (between, brace ∷ [])
    else if c == b'}'
    then (between, end_brace ∷ [])
    else if c == b':'
    then (between, colon ∷ [])
    else if c == b','
    then (between, comma ∷ [])
    else (between, [])

abbrev pub next : Lexing → ℕ → Lexing × List Token
next between c = start_token c
next (in_word s) c = if c == b'"' then (between, word s ∷ []) else (in_word (s ++ c ∷ []), [])
next (in_number n) c =
    if is_digit c
    then (in_number (n * 10 + (c - b'0')), [])
    else let (l, ts) = start_token c in (l, number n ∷ ts)

abbrev pub lex : Lexing → Text → List Token
lex l [] = []
lex l (c ∷ s) = let (m, ts) = next l c in ts ++ lex m s

abbrev pub IsPlain : ℕ → Type 0
IsPlain c = (c == b'"') ≡ false

-- A text without quotes is one token.
pub lex-word :
    (read s rest : Text)
    → All IsPlain s
    → lex (in_word read) (s ++ b'"' ∷ rest) ≡ word (read ++ s) ∷ lex between rest
lex-word read [] rest plain = ap (λ (t : Text). word t ∷ lex between rest) (sym (append-nil read))
lex-word read (c ∷ s) rest plain = rw plain.0 (
    lex-word (read ++ c ∷ []) s rest plain.1
    ∙ ap (λ (t : Text). word t ∷ lex between rest) (append_assoc read (c ∷ []) s))

lex_digits :
    (n : ℕ) (s rest : Text)
    → All IsDigit s
    → lex (in_number n) (s ++ b' ' ∷ rest) ≡ number (value n s) ∷ lex between rest
lex_digits n [] rest digits = refl
lex_digits n (c ∷ s) rest digits = rw digits.0 (lex_digits (n * 10 + (c - b'0')) s rest digits.1)

start_digit : (d : ℕ) → IsDigit d → start_token d ≡ (in_number (d - b'0'), [])
start_digit d digit = ground (arith, digit)

lex_first : (d : ℕ) (s : Text) → IsDigit d → lex between (d ∷ s) ≡ lex (in_number 0) (d ∷ s)
lex_first d s digit =
    rw (start_digit d digit, digit) (ap (λ (k : ℕ). lex (in_number k) s) (omega arith))

lex_number :
    (s rest : Text)
    → (d : ℕ) × (ds : Text) × (s ≡ d ∷ ds)
    → All IsDigit s
    → lex between (s ++ b' ' ∷ rest) ≡ number (value 0 s) ∷ lex between rest
lex_number [] rest (d, ds, e) digits = absurd (cc e)
lex_number (c ∷ s) rest some_digit digits =
    lex_first c (s ++ b' ' ∷ rest) digits.0 ∙ lex_digits 0 (c ∷ s) rest digits

-- A number in decimal is one token.
pub lex-decimal :
    (n : ℕ) (rest : Text)
    → n < 10 ^ 20
    → lex between (decimal n ++ b' ' ∷ rest) ≡ number n ∷ lex between rest
lex-decimal n rest h =
    lex_number (decimal n) rest (decimal-cons n) (decimal-AreDigits n)
    ∙ ap (λ (k : ℕ). number k ∷ lex between rest) (value-decimal n h)
