-- ===== src/Base/Trim.antt =====
-- `str` of Rust's library on UTF-8 bytes: equality, `trim`, `trim_start`, `trim_end`,
-- `starts_with` and `lines`.
use Prim.Native.Nat.{ℕ, zero, suc}
use mathlib.Core.Path.{◌≡◌, refl}
use mathlib.Core.Bool.{Bool, true, false, ◌&&◌, ◌||◌}
use mathlib.Core.List.{List, [], ◌∷◌, reverse}
use native.Mathlib.Omega.{arith}
use docsis_monitor.Base.Tests.{leb, ◌==◌, if◌then◌else◌}
use docsis_monitor.Base.Strings.{Text}

unfoldable pub text_eq : Text → Text → Bool
text_eq [] [] = true
text_eq [] (_ ∷ _) = false
text_eq (_ ∷ _) [] = false
text_eq (a ∷ s) (b ∷ t) = a == b && text_eq s t

-- How many bytes the character of White_Space at the start of some bytes has; 0 if there is none.
unfoldable pub space_width : Text → ℕ
space_width [] = 0
space_width (a ∷ []) = if a == 0x20 || (leb 9 a && leb a 13) then 1 else 0
space_width (a ∷ b ∷ []) =
    if a == 0x20 || (leb 9 a && leb a 13)
    then 1
    else if a == 0xc2 && (b == 0x85 || b == 0xa0)
    then 2
    else 0
space_width (a ∷ b ∷ c ∷ _) =
    if a == 0x20 || (leb 9 a && leb a 13)
    then 1
    else if a == 0xc2 && (b == 0x85 || b == 0xa0)
    then 2
    else if (a == 0xe1 && b == 0x9a && c == 0x80)
        || (a == 0xe2
            && ((b == 0x80 && ((leb 0x80 c && leb c 0x8a) || c == 0xa8 || c == 0xa9 || c == 0xaf))
                || (b == 0x81 && c == 0x9f)))
        || (a == 0xe3 && b == 0x80 && c == 0x80)
    then 3
    else 0

-- The same at the end of a text whose bytes are given last first.
unfoldable pub space_width_back : Text → ℕ
unfolding space_width
space_width_back [] = 0
space_width_back (a ∷ []) = space_width (a ∷ [])
space_width_back (a ∷ b ∷ []) =
    if space_width (a ∷ []) == 1 then 1 else if space_width (b ∷ a ∷ []) == 2 then 2 else 0
space_width_back (a ∷ b ∷ c ∷ _) =
    if space_width (a ∷ []) == 1
    then 1
    else if space_width (b ∷ a ∷ []) == 2
    then 2
    else if space_width (c ∷ b ∷ a ∷ []) == 3
    then 3
    else 0

-- Drops the characters that `width` measures; `left` bytes of the present one are still to go.
unfoldable pub drop_spaces : (Text → ℕ) → ℕ → Text → Text
drop_spaces width left [] = []
drop_spaces width (suc left) (a ∷ s) = drop_spaces width left s
drop_spaces width zero (a ∷ s) = elim (width (a ∷ s)) [
  | zero ↦ a ∷ s
  | suc left ↦ drop_spaces width left s
]

unfoldable pub trim_start : Text → Text
unfolding drop_spaces space_width
trim_start t = drop_spaces space_width 0 t

unfoldable pub trim_end : Text → Text
unfolding drop_spaces space_width_back
trim_end t = reverse (drop_spaces space_width_back 0 (reverse t))

unfoldable pub trim : Text → Text
unfolding trim_start trim_end
trim t = trim_start (trim_end t)

abbrev pub is_empty {ℓ} : {A : Type ℓ} → List A → Bool
is_empty [] = true
is_empty (_ ∷ _) = false

unfoldable pub starts_with : Text → Text → Bool
starts_with [] t = true
starts_with (_ ∷ _) [] = false
starts_with (a ∷ p) (b ∷ t) = a == b && starts_with p t

pub text_eq-eq : (s t : Text) → text_eq s t ≡ true → s ≡ t
unfolding text_eq
text_eq-eq [] [] h = refl
text_eq-eq [] (b ∷ t) h = ground arith
text_eq-eq (a ∷ s) [] h = ground arith
text_eq-eq (a ∷ s) (b ∷ t) h = ground (arith, text_eq-eq s t)

pub text_eq_self : (t : Text) → text_eq t t ≡ true
unfolding text_eq
text_eq_self [] = refl
text_eq_self (a ∷ t) = ground (arith, text_eq_self t)
