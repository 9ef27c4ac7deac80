-- ===== src/Email/Lines.antt =====
-- Texts without the end of a line, and the lines that `str::lines` finds in email.rs.
use docsis_monitor.Email.Data.{lines, lines_from, strip_cr}
use docsis_monitor.Email.Received.{IsLine}
use docsis_monitor.Base.{
  All, Text, decimal, ℕ, ◌≡◌, refl, sym, ap, ◌∙◌, ◌≢◌, true, List, [], ◌∷◌, ◌++◌, arith,
}
use docsis_monitor.Ip.Digits.{is_digit, IsDigit, decimal-AreDigits}
use mathlib.Core.List.{append-nil, append_assoc}

abbrev pub IsClean : Text → Type 0
IsClean t = All (λ (c : ℕ). (c ≢ 0x0a) × (c ≢ 0x0d)) t

pub clean-IsLine : (t : Text) → IsClean t → IsLine t
clean-IsLine [] h = tt
clean-IsLine (c ∷ s) h = (h.0.0, clean-IsLine s h.1)

pub append-IsClean : (s t : Text) → IsClean s → IsClean t → IsClean (s ++ t)
append-IsClean [] t h k = k
append-IsClean (c ∷ s) t h k = (h.0, append-IsClean s t h.1 k)

digit-IsClean : (c : ℕ) → is_digit c ≡ true → (c ≢ 0x0a) × (c ≢ 0x0d)
digit-IsClean c h = (λ e. ground (arith, h, e), λ e. ground (arith, h, e))

digits-AreClean : (s : Text) → All IsDigit s → IsClean s
digits-AreClean [] h = tt
digits-AreClean (c ∷ s) h = (digit-IsClean c h.0, digits-AreClean s h.1)

pub decimal-IsClean : (n : ℕ) → IsClean (decimal n)
decimal-IsClean n = digits-AreClean (decimal n) (decimal-AreDigits n)

strip_cr-clean : (t : Text) → IsClean t → strip_cr t ≡ t
unfolding strip_cr
strip_cr-clean [] h = refl
strip_cr-clean (c ∷ []) h = ground (arith, h.0.1)
strip_cr-clean (c ∷ d ∷ s) h = ap (◌∷◌ c) (strip_cr-clean (d ∷ s) h.1)

lines_from-line :
    (line s rest : Text)
    → IsLine s
    → lines_from line (s ++ 0x0a ∷ rest) ≡ strip_cr (line ++ s) ∷ lines_from [] rest
unfolding lines_from
lines_from-line line [] rest h =
    ap (λ (t : Text). strip_cr t ∷ lines_from [] rest) (sym (append-nil line))
lines_from-line line (c ∷ s) rest h =
    ground (arith, h.0, append_assoc line (c ∷ []) s, lines_from-line (line ++ c ∷ []) s rest h.1)

-- Some lines, each with its end.
abbrev pub unlined : List Text → Text
unlined [] = []
unlined (l ∷ ls) = l ++ 0x0a ∷ unlined ls

pub lines-unlined : (ls : List Text) → All IsClean ls → lines (unlined ls) ≡ ls
unfolding lines
lines-unlined [] h = unfold lines_from in refl
lines-unlined (l ∷ ls) h =
    lines_from-line [] l (unlined ls) (clean-IsLine l h.0)
    ∙ (λ i. strip_cr-clean l h.0 i ∷ lines-unlined ls h.1 i)
