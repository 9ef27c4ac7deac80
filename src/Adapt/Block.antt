-- ===== src/Adapt/Block.antt =====
-- The block that adapt.rs writes to be pasted, against what a reader of JSON finds in it.
use mathlib.Core.Option
use docsis_monitor.Adapt.Json.{
  Token, brace, end_brace, colon, comma, word, number, lex, Lexing, lex-word, lex-decimal, IsPlain,
}
use docsis_monitor.Ip.Digits.{is_digit, IsDigit, decimal-AreDigits}
use docsis_monitor.Base.{
  ◌>>◌, guard, Text, codes, text_eq, ℕ, ◌≡◌, refl, ap, Option, none, some, List, [], ◌∷◌, map,
  u64_mod, All, retain, decimal, ◌/◌, ◌%◌, ◌^◌, ◌<◌, ◌∙◌, true, ◌++◌, arith,
}
use docsis_monitor.Adapt.Suggest.{Suggestion, floor, newline, config_lines, as_config, is_some}
use mathlib.Core.Option.{get_or}
use docsis_monitor.Ip.{dotted}
use mathlib.Core.List.{append_assoc}

-- The entries of an object of thresholds.
unfoldable pub read_entries : List Token → Option (List (Text × ℕ))
unfolding text_eq
read_entries (word k ∷ colon ∷ brace ∷ word f ∷ colon ∷ number n ∷ end_brace ∷ comma ∷ rest) =
    guard (text_eq f (codes "idle_seconds")) >> Option.map (λ es. (k, n) ∷ es) (read_entries rest)
read_entries (word k ∷ colon ∷ brace ∷ word f ∷ colon ∷ number n ∷ end_brace ∷ end_brace ∷ []) =
    guard (text_eq f (codes "idle_seconds")) >> some ((k, n) ∷ [])
read_entries _ = none

-- The member `per_relay` of a configuration.
unfoldable pub read_member : List Token → Option (List (Text × ℕ))
unfolding read_entries text_eq
read_member (word p ∷ colon ∷ brace ∷ rest) =
    guard (text_eq p (codes "per_relay")) >> read_entries rest
read_member _ = none

unfoldable pub read_block : Text → Option (List (Text × ℕ))
unfolding read_member
read_block s = read_member (lex Lexing.between s)

abbrev seconds_of : Suggestion → ℕ
seconds_of s = get_or s.idle_seconds floor

abbrev pub entry_of : Suggestion → Text × ℕ
entry_of s = (dotted s.gi, seconds_of s)

-- The tokens of the lines and of what closes the block.
abbrev line_tokens : Suggestion → List Token → List Token
line_tokens s rest =
    word (dotted s.gi)
    ∷ colon
    ∷ brace
    ∷ word (codes "idle_seconds")
    ∷ colon
    ∷ number (seconds_of s)
    ∷ end_brace
    ∷ rest

abbrev all_tokens : Suggestion → List Suggestion → List Token
all_tokens s [] = line_tokens s (end_brace ∷ [])
all_tokens s (t ∷ rest) = line_tokens s (comma ∷ all_tokens t rest)

read_entries-all_tokens :
    (s : Suggestion) (rest : List Suggestion)
    → read_entries (all_tokens s rest) ≡ some (map entry_of (s ∷ rest))
unfolding read_entries
read_entries-all_tokens s [] = refl
read_entries-all_tokens s (t ∷ rest) =
    ap (Option.map (λ (es : List (Text × ℕ)). entry_of s ∷ es)) (read_entries-all_tokens t rest)

-- What is plain, part by part.
All-append-IsPlain : (s t : Text) → All IsPlain s → All IsPlain t → All IsPlain (s ++ t)
All-append-IsPlain [] t h k = k
All-append-IsPlain (c ∷ s) t h k = (h.0, All-append-IsPlain s t h.1 k)

digit-IsPlain : (c : ℕ) → is_digit c ≡ true → IsPlain c
digit-IsPlain c h = ground (arith, h)

digits-ArePlain : (s : Text) → All IsDigit s → All IsPlain s
digits-ArePlain [] h = tt
digits-ArePlain (c ∷ s) h = (digit-IsPlain c h.0, digits-ArePlain s h.1)

dotted-ArePlain : (a : ℕ) → All IsPlain (dotted a)
unfolding dotted
dotted-ArePlain a =
    let part = λ (n : ℕ). digits-ArePlain (decimal n) (decimal-AreDigits n) in
    All-append-IsPlain (decimal (a / 2 ^ 24 % 256)) _ (part (a / 2 ^ 24 % 256)) (
      refl,
      All-append-IsPlain (decimal (a / 2 ^ 16 % 256)) _ (part (a / 2 ^ 16 % 256)) (
        refl,
        All-append-IsPlain (decimal (a / 2 ^ 8 % 256)) _ (part (a / 2 ^ 8 % 256))
            (refl, part (a % 256)),
      ),
    )

-- One line, up to its comma.
lex_line :
    (key : Text) (n : ℕ) (rest : Text)
    → All IsPlain key
    → n < 10 ^ 20
    → lex Lexing.between (
        codes "    \""
        ++ (key ++ (codes "\": { \"idle_seconds\": " ++ (decimal n ++ (codes " }" ++ rest)))))
      ≡ word key
        ∷ colon
        ∷ brace
        ∷ word (codes "idle_seconds")
        ∷ colon
        ∷ number n
        ∷ end_brace
        ∷ lex Lexing.between rest
lex_line key n rest plain h =
    lex-word [] key (codes ": { \"idle_seconds\": " ++ (decimal n ++ (codes " }" ++ rest))) plain
    ∙ ap (λ (ts : List Token). word key ∷ colon ∷ brace ∷ word (codes "idle_seconds") ∷ colon ∷ ts)
        (lex-decimal n (codes "}" ++ rest) h)

append_last :
    (a b c d e r t : Text)
    → (a ++ (b ++ (c ++ (d ++ (e ++ r))))) ++ t ≡ a ++ (b ++ (c ++ (d ++ (e ++ (r ++ t)))))
append_last a b c d e r t = simp append_assoc

-- No suggestion is above what a u64 holds.
abbrev pub IsWord : Suggestion → Type 0
IsWord s = seconds_of s < u64_mod

abbrev after_line : List Suggestion → Text
after_line rest = (elim rest [ [] ↦ [] | _ ∷ _ ↦ codes "," ]) ++ (newline ++ config_lines rest)

config_lines-line :
    (s : Suggestion) (rest : List Suggestion) (tail : Text)
    → IsWord s
    → lex Lexing.between (config_lines (s ∷ rest) ++ tail)
      ≡ line_tokens s (lex Lexing.between (after_line rest ++ tail))
unfolding config_lines
config_lines-line s rest tail h =
    ap (lex Lexing.between) (
      append_last (codes "    \"") (dotted s.gi) (codes "\": { \"idle_seconds\": ")
        (decimal (seconds_of s)) (codes " }") (after_line rest) tail)
    ∙ lex_line (dotted s.gi) (seconds_of s) (after_line rest ++ tail) (dotted-ArePlain s.gi)
        (omega (arith, h))

lex-config_lines :
    (s : Suggestion) (rest : List Suggestion)
    → All IsWord (s ∷ rest)
    → lex Lexing.between (config_lines (s ∷ rest) ++ codes "  }") ≡ all_tokens s rest
lex-config_lines s [] words =
    config_lines-line s [] (codes "  }") words.0 ∙ unfold config_lines in refl
lex-config_lines s (t ∷ rest) words =
    config_lines-line s (t ∷ rest) (codes "  }") words.0
    ∙ ap (λ (ts : List Token). line_tokens s (comma ∷ ts)) (lex-config_lines t rest words.1)

-- The `match` of `as_config`.
abbrev pub block_of : List Suggestion → Text
block_of [] = codes "  (nothing to suggest: no interface relayed enough to measure)"
block_of (s ∷ rest) =
    codes "  \"per_relay\": {" ++ (newline ++ (config_lines (s ∷ rest) ++ codes "  }"))

-- The block that is printed for some suggestions, at least one of them with a threshold and none
-- above what a u64 holds, is read by a reader of JSON as the member `per_relay`, an object that has
-- for each with a threshold, in their order, the address in dotted form and the threshold.
pub read_block-as_config :
    (all : List Suggestion) (s : Suggestion) (rest : List Suggestion)
    → retain (λ (s : Suggestion). is_some s.idle_seconds) all ≡ s ∷ rest
    → All IsWord (s ∷ rest)
    → read_block (as_config all) ≡ some (map entry_of (s ∷ rest))
unfolding as_config read_block
read_block-as_config all s rest e words =
    ap (λ (l : List Suggestion). read_block (block_of l)) e
    ∙ (ap (λ (ts : List Token). read_entries ts) (lex-config_lines s rest words)
        ∙ read_entries-all_tokens s rest)
