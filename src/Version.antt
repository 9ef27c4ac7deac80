-- ===== src/Version.antt =====
-- version.rs: the line that says when the binary was built. The calendar of the zone is a parameter.
pub mod Visible
pub mod Stamp
mod Tests
use docsis_monitor.Base.{
  ltb, leb, if◌then◌else◌, length, replicate, Text, codes, decimal, concat, text_eq, trim, ◌==◌, ℕ,
  zero, suc, ◌+◌, ◌-◌, ◌*◌, ◌^◌, Bool, false, not, ◌&&◌, ◌||◌, Option, none, some, List, [], ◌∷◌,
  ◌++◌, ◌>>=◌,
}
use mathlib.Core.Option.{get_or}

-- An i64, by sign.
pub data ℤ : Type 0 where
  pos : ℕ → ℤ
  negsuc : ℕ → ℤ

unfoldable pub signed : ℤ → Text
unfolding decimal
signed (pos n) = decimal n
signed (negsuc n) = codes "-" ++ decimal (suc n)

-- `{:02}`.
unfoldable pub two : ℕ → Text
unfolding decimal
two n = replicate (2 - length (decimal n)) b'0' ++ decimal n

-- The date and the time of day of a moment in the host's zone.
pub record Civil : Type 0 where
  pub year : ℤ
  pub month : ℕ
  pub day : ℕ
  pub hour : ℕ
  pub minute : ℕ
  pub second : ℕ

-- The line of `format`, for the date of the epoch, if the calendar has one.
unfoldable pub stamp_line : ℤ → Option Civil → Text
unfolding signed decimal two concat
stamp_line epoch none = signed epoch ++ codes " (not a representable date)"
stamp_line epoch (some z) = concat (
    signed epoch
    ∷ codes " "
    ∷ signed z.year
    ∷ codes "-"
    ∷ decimal z.month
    ∷ codes "-"
    ∷ decimal z.day
    ∷ codes " "
    ∷ decimal z.hour
    ∷ codes ":"
    ∷ two z.minute
    ∷ codes ":"
    ∷ two z.second
    ∷ [])

-- `format`.
unfoldable pub format : (ℤ → Option Civil) → ℤ → Text
unfolding stamp_line
format zoned epoch = stamp_line epoch (zoned epoch)

-- The digits of `parse::<i64>`, after a value.
unfoldable pub parse_digits : ℕ → Text → Option ℕ
parse_digits n [] = some n
parse_digits n (c ∷ s) =
    let rest = parse_digits (n * 10 + (c - b'0')) s in
    if leb b'0' c && leb c b'9' then rest else none

-- A number of at least one digit that is at most `most`.
unfoldable pub parse_upto : ℕ → Text → Option ℕ
unfolding parse_digits
parse_upto most [] = none
parse_upto most (c ∷ s) = parse_digits 0 (c ∷ s) >>= λ n. if leb n most then some n else none

abbrev pub negated : ℕ → ℤ
negated zero = pos 0
negated (suc n) = negsuc n

-- `parse::<i64>`: a sign, if there is one, and digits.
unfoldable pub parse_i64 : Text → Option ℤ
unfolding parse_upto
parse_i64 [] = none
parse_i64 (c ∷ s) =
    if c == b'-'
    then (parse_upto (2 ^ 63) s >>= λ n. some (negated n))
    else if c == b'+'
    then (parse_upto (2 ^ 63 - 1) s >>= λ n. some (pos n))
    else (parse_upto (2 ^ 63 - 1) (c ∷ s) >>= λ n. some (pos n))

-- `build_epoch`, with the pinned time, if there is one, and the seconds of the binary's time of
-- modification, if they can be had.
unfoldable pub build_epoch : Option Text → Option ℕ → ℤ
unfolding parse_i64 trim
build_epoch pinned modified =
    get_or (pinned >>= λ s. parse_i64 (trim s))
      (get_or (modified >>= λ n. if ltb n (2 ^ 63) then some (pos n) else none) (pos 0))

-- `build_stamp`.
unfoldable pub build_stamp : (ℤ → Option Civil) → Option Text → Option ℕ → Text
unfolding format build_epoch
build_stamp zoned pinned modified = format zoned (build_epoch pinned modified)

-- `print_and_exit_if_requested`: whether one of the arguments asks for the version.
unfoldable pub is_requested : List Text → Bool
unfolding text_eq
is_requested [] = false
is_requested (a ∷ args) =
    text_eq a (codes "--version") || text_eq a (codes "-V") || is_requested args
