-- ===== src/Base/Strings.antt =====
-- Text as the list of its UTF-8 bytes. The literals of the program are ASCII but for the dashes.
use Prim.Native.Nat.{ℕ, zero, suc, ◌+◌, ◌/◌, ◌%◌}
use Prim.Native.String.{String}
use Prim.Native.Char.{code}
use mathlib.Core.List.{List, [], ◌∷◌, ◌++◌}
use docsis_monitor.Base.Tests.{ltb, if◌then◌else◌}

abbrev pub Text : Type 0
Text = List ℕ

-- The bytes of an ASCII literal.
abbrev pub codes : String → Text
codes String.[] = []
codes (String.◌∷◌ c s) = code c ∷ codes s

-- U+2014, in UTF-8.
abbrev pub em_dash : Text
em_dash = 0xe2 ∷ 0x80 ∷ 0x94 ∷ []

-- The decimal digits of a number, highest first: `to_string` of an unsigned integer. Each round
-- takes one digit, and a u64 has at most 20.
unfoldable pub digits_fuel : ℕ → ℕ → Text → Text
digits_fuel zero n acc = acc
digits_fuel (suc f) n acc =
    let rest = digits_fuel f (n / 10) ((n % 10 + b'0') ∷ acc) in
    if ltb n 10 then (n + b'0') ∷ acc else rest

unfoldable pub decimal : ℕ → Text
unfolding digits_fuel
decimal n = digits_fuel 20 n []

-- `names.join(sep)`.
unfoldable pub join : Text → List Text → Text
join sep [] = []
join sep (t ∷ []) = t
join sep (t ∷ u ∷ ts) = t ++ (sep ++ join sep (u ∷ ts))

-- The parts of a format, one after the other.
unfoldable pub concat : List Text → Text
concat [] = []
concat (t ∷ ts) = t ++ concat ts
