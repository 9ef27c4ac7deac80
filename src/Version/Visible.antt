-- ===== src/Version/Visible.antt =====
-- Visible characters, of which nothing is trimmed, and the word before a space.
use docsis_monitor.Base.Trim.{space_width, space_width_back, drop_spaces}
use docsis_monitor.Base.{
  if◌then◌else◌, All, Text, ◌==◌, ℕ, suc, ◌<◌, ◌≡◌, refl, ap, ◌∙◌, [], ◌∷◌, arith, true, false,
  ◌++◌, trim_start, trim_end, trim, zero, sym,
}
use docsis_monitor.Ip.Digits.{IsDigit, is_digit}
use mathlib.Core.List.{reverse, reverse-cons, reverse-reverse}
use mathlib.Core.Path.{subst}

-- What stands before the first space.
abbrev pub first_word : Text → Text
first_word [] = []
first_word (c ∷ s) = let rest = first_word s in if c == b' ' then [] else c ∷ rest

-- A visible ASCII character.
abbrev pub IsVisible : ℕ → Type 0
IsVisible c = (32 < c) × (c < 127)

visible_ne_space : (c : ℕ) → IsVisible c → (c == b' ') ≡ false
visible_ne_space c v = ground (arith, v)

-- The word before a space.
pub first_word-append : (s rest : Text) → All IsVisible s → first_word (s ++ b' ' ∷ rest) ≡ s
first_word-append [] rest seen = refl
first_word-append (c ∷ s) rest seen =
    rw (visible_ne_space c seen.0) (ap (◌∷◌ c) (first_word-append s rest seen.1))

digit-IsVisible : (c : ℕ) → is_digit c ≡ true → IsVisible c
digit-IsVisible c h = (ground (arith, h), ground (arith, h))

pub digits-AreVisible : (s : Text) → All IsDigit s → All IsVisible s
digits-AreVisible [] h = tt
digits-AreVisible (c ∷ s) h = (digit-IsVisible c h.0, digits-AreVisible s h.1)

-- Nothing is trimmed off visible characters.
space_width-visible : (s : Text) (a : ℕ) → IsVisible a → space_width (a ∷ s) ≡ 0
unfolding space_width
space_width-visible [] a v = ground (arith, v)
space_width-visible (b ∷ []) a v = ground (arith, v)
space_width-visible (b ∷ c ∷ s) a v = ground (arith, v)

space_width_back-visible : (s : Text) (a : ℕ) → All IsVisible (a ∷ s) → space_width_back (a ∷ s) ≡ 0
unfolding space_width_back
space_width_back-visible [] a v = space_width-visible [] a v.0
space_width_back-visible (b ∷ []) a v =
    rw (space_width-visible [] a v.0, space_width-visible (a ∷ []) b v.1.0) refl
space_width_back-visible (b ∷ c ∷ s) a v =
    rw
      (
        space_width-visible [] a v.0,
        space_width-visible (a ∷ []) b v.1.0,
        space_width-visible (b ∷ a ∷ []) c v.1.1.0,
      )
      refl

drop_spaces-visible :
    (width : Text → ℕ) (s : Text)
    → ((a : ℕ) (t : Text) → s ≡ a ∷ t → width (a ∷ t) ≡ 0)
    → drop_spaces width 0 s ≡ s
unfolding drop_spaces
drop_spaces-visible width [] h = refl
drop_spaces-visible width (a ∷ s) h =
    ap (λ (w : ℕ). elim w as (λ _. Text) [ zero ↦ a ∷ s | suc left ↦ drop_spaces width left s ])
      (h a s refl)

append-AreVisible : (s t : Text) → All IsVisible s → All IsVisible t → All IsVisible (s ++ t)
append-AreVisible [] t h k = k
append-AreVisible (c ∷ s) t h k = (h.0, append-AreVisible s t h.1 k)

reverse-AreVisible : (s : Text) → All IsVisible s → All IsVisible (reverse s)
reverse-AreVisible [] h = tt
reverse-AreVisible (c ∷ s) h =
    subst (All IsVisible) (sym (reverse-cons c s))
      (append-AreVisible (reverse s) (c ∷ []) (reverse-AreVisible s h.1) (h.0, tt))

pub trim-visible : (s : Text) → All IsVisible s → trim s ≡ s
unfolding trim trim_start trim_end
trim-visible s h =
    let back =
      drop_spaces-visible space_width_back (reverse s) (λ a t e.
        space_width_back-visible t a (subst (All IsVisible) e (reverse-AreVisible s h))) in
    ap (λ (t : Text). drop_spaces space_width 0 (reverse t)) back
    ∙ (ap (drop_spaces space_width 0) (reverse-reverse s)
        ∙ drop_spaces-visible space_width s
            (λ a t e. space_width-visible t a (subst (All IsVisible) e h).0))
