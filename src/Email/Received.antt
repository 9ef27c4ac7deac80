-- ===== src/Email/Received.antt =====
-- What a mail server makes of the data of email.rs, by the rules of SMTP: lines end in CRLF, a lone
-- dot ends the message, and a dot in front of a line that starts with one is taken away.
use mathlib.Core.Option
use docsis_monitor.Base.{
  if◌then◌else◌, All, Text, ◌==◌, ℕ, ◌≡◌, refl, sym, ap, ◌∙◌, ◌≢◌, Bool, true, false, ◌&&◌, Option,
  none, some, List, [], ◌∷◌, ◌++◌, map, arith, Bool-cases, codes, join, ==_iff, inl, inr,
}
use mathlib.Core.List.{append-nil, append_assoc}
use docsis_monitor.Email.Data.{
  stuffed, body_bytes, header_bytes, crlf, strip_cr, lines_from, headers, data_text, lines,
}
use docsis_monitor.Config.Settings.{Smtp}
use docsis_monitor.Email.Compose.{Message}

-- The lines of some bytes; what stands behind the last CRLF is no line.
unfoldable pub crlf_lines : Text → Text → List Text
crlf_lines line [] = []
crlf_lines line (c ∷ []) = []
crlf_lines line (c ∷ d ∷ s) = elim (c == 0x0d && d == 0x0a) [
  | true ↦ line ∷ crlf_lines [] s
  | false ↦ crlf_lines (line ++ c ∷ []) (d ∷ s)
]

abbrev pub unstuffed : Text → Text
unstuffed [] = []
unstuffed (c ∷ s) = if c == b'.' then s else c ∷ s

abbrev pub is_dot : Text → Bool
is_dot (c ∷ []) = c == b'.'
is_dot _ = false

-- The lines up to the lone dot, and the lines behind it.
unfoldable pub until_dot : List Text → Option (List Text × List Text)
until_dot [] = none
until_dot (l ∷ ls) =
    if is_dot l
    then some ([], ls)
    else Option.map (λ (r : List Text × List Text). (unstuffed l ∷ r.0, r.1)) (until_dot ls)

unfoldable pub receive : Text → Option (List Text × List Text)
receive t = until_dot (crlf_lines [] t)

-- A text within one line.
abbrev pub IsLine : Text → Type 0
IsLine t = All (λ (c : ℕ). c ≢ 0x0a) t

crlf_lines-line :
    (line l rest : Text)
    → IsLine l
    → crlf_lines line (l ++ 0x0d ∷ 0x0a ∷ rest) ≡ (line ++ l) ∷ crlf_lines [] rest
unfolding crlf_lines
crlf_lines-line line [] rest h = ap (λ (t : Text). t ∷ crlf_lines [] rest) (sym (append-nil line))
crlf_lines-line line (c ∷ []) rest h = ground (arith, crlf_lines-line (line ++ c ∷ []) [] rest tt)
crlf_lines-line line (c ∷ d ∷ l) rest h = ground (
  arith,
  h.1.0,
  append_assoc line (c ∷ []) (d ∷ l),
  crlf_lines-line (line ++ c ∷ []) (d ∷ l) rest h.1,
)

stuffed-IsLine : (l : Text) → IsLine l → IsLine (stuffed l)
unfolding stuffed
stuffed-IsLine [] h = tt
stuffed-IsLine (c ∷ s) h = ground arith

crlf_lines-body_bytes :
    (ls : List Text) (rest : Text)
    → All IsLine ls
    → crlf_lines [] (body_bytes ls ++ rest) ≡ map stuffed ls ++ crlf_lines [] rest
unfolding body_bytes
crlf_lines-body_bytes [] rest h = refl
crlf_lines-body_bytes (l ∷ ls) rest h =
    ap (crlf_lines []) (append_assoc (stuffed l) (crlf ++ body_bytes ls) rest)
    ∙ crlf_lines-line [] (stuffed l) (body_bytes ls ++ rest) (stuffed-IsLine l h.0)
    ∙ ap (◌∷◌ (stuffed l)) (crlf_lines-body_bytes ls rest h.1)

crlf_lines-header_bytes :
    (hs : List Text) (rest : Text)
    → All IsLine hs
    → crlf_lines [] (header_bytes hs ++ rest) ≡ hs ++ crlf_lines [] rest
unfolding header_bytes
crlf_lines-header_bytes [] rest h = refl
crlf_lines-header_bytes (l ∷ hs) rest h =
    ap (crlf_lines []) (append_assoc l (crlf ++ header_bytes hs) rest)
    ∙ crlf_lines-line [] l (header_bytes hs ++ rest) h.0
    ∙ ap (◌∷◌ l) (crlf_lines-header_bytes hs rest h.1)

until_dot-stuffed :
    (l : Text) (ls : List Text) {m r : List Text}
    → until_dot ls ≡ some (m, r)
    → until_dot (stuffed l ∷ ls) ≡ some (l ∷ m, r)
unfolding until_dot stuffed
until_dot-stuffed [] ls e = ground arith
until_dot-stuffed (c ∷ []) ls e = ground arith
until_dot-stuffed (c ∷ d ∷ s) ls e = ground arith

until_dot-body : (ls : List Text) → until_dot (map stuffed ls ++ (b'.' ∷ []) ∷ []) ≡ some (ls, [])
until_dot-body [] = unfold until_dot in refl
until_dot-body (l ∷ ls) = until_dot-stuffed l _ (until_dot-body ls)

-- A header: a line that does not start with a dot.
abbrev pub IsPlain : Text → Type 0
IsPlain [] = Unit {0}
IsPlain (c ∷ s) = c ≢ b'.'

until_dot-plain :
    (hs ls : List Text) {m r : List Text}
    → All IsPlain hs
    → until_dot ls ≡ some (m, r)
    → until_dot (hs ++ ls) ≡ some (hs ++ m, r)
unfolding until_dot
until_dot-plain [] ls p e = e
until_dot-plain ([] ∷ hs) ls p e = ground (arith, until_dot-plain hs ls p.1 e)
until_dot-plain ((c ∷ []) ∷ hs) ls p e = ground (arith, p.0, until_dot-plain hs ls p.1 e)
until_dot-plain ((c ∷ d ∷ s) ∷ hs) ls p e = ground (arith, p.0, until_dot-plain hs ls p.1 e)

IsLine-append : (s t : Text) → IsLine s → IsLine t → IsLine (s ++ t)
IsLine-append [] t h k = k
IsLine-append (c ∷ s) t h k = (h.0, IsLine-append s t h.1 k)

strip_cr-IsLine : (l : Text) → IsLine l → IsLine (strip_cr l)
unfolding strip_cr
strip_cr-IsLine [] h = tt
strip_cr-IsLine (c ∷ []) h = ground arith
strip_cr-IsLine (c ∷ d ∷ s) h = (h.0, strip_cr-IsLine (d ∷ s) h.1)

lines_from-IsLine : (line s : Text) → IsLine line → All IsLine (lines_from line s)
unfolding lines_from
lines_from-IsLine [] [] h = tt
lines_from-IsLine (c ∷ line) [] h = (h, tt)
lines_from-IsLine line (c ∷ s) h = elim (Bool-cases (c == 0x0a)) [
  | inl ends ↦ rw (ends, All) (strip_cr-IsLine line h, lines_from-IsLine [] s tt)
  | inr goes_on ↦
      rw (goes_on, All)
        (lines_from-IsLine (line ++ c ∷ []) s
          (IsLine-append line (c ∷ []) h (λ e. cc (goes_on, (==_iff c 0x0a).1 e), tt)))
]

join-IsLine : (sep : Text) (ts : List Text) → IsLine sep → All IsLine ts → IsLine (join sep ts)
unfolding join
join-IsLine sep [] h k = tt
join-IsLine sep (t ∷ []) h k = k.0
join-IsLine sep (t ∷ u ∷ ts) h k =
    IsLine-append t (sep ++ join sep (u ∷ ts)) k.0
      (IsLine-append sep (join sep (u ∷ ts)) h (join-IsLine sep (u ∷ ts) h k.1))

headers-IsLine :
    (cfg : Smtp) (m : Message)
    → IsLine cfg.from
    → All IsLine cfg.to
    → IsLine m.subject
    → All IsLine (headers cfg m)
unfolding headers
headers-IsLine cfg m from to subject = (
  IsLine-append (codes "From: ") cfg.from (ground arith) from,
  (
    IsLine-append (codes "To: ") (join (codes ", ") cfg.to) (ground arith)
        (join-IsLine (codes ", ") cfg.to (ground arith) to),
    (IsLine-append (codes "Subject: ") m.subject (ground arith) subject, (ground arith, (tt, tt))),
  ),
)

headers-IsPlain : (cfg : Smtp) (m : Message) → All IsPlain (headers cfg m)
unfolding headers
headers-IsPlain cfg m = ground arith

end_line : crlf_lines [] (b'.' ∷ crlf) ≡ (b'.' ∷ []) ∷ []
unfolding crlf_lines
end_line = refl

-- Where the addresses and the subject hold no line feed, the server reads exactly the headers, an
-- empty line and the lines of the body, whatever the body holds, and nothing is left behind the
-- message.
pub receive-data_text :
    (cfg : Smtp) (m : Message)
    → IsLine cfg.from
    → All IsLine cfg.to
    → IsLine m.subject
    → receive (data_text cfg m) ≡ some (headers cfg m ++ lines m.body, [])
unfolding receive data_text lines
receive-data_text cfg m from to subject =
    let ls = lines_from [] m.body in
    ap until_dot (
      crlf_lines-header_bytes (headers cfg m) (body_bytes ls ++ b'.' ∷ crlf)
        (headers-IsLine cfg m from to subject)
      ∙ ap (◌++◌ (headers cfg m)) (
          crlf_lines-body_bytes ls (b'.' ∷ crlf) (lines_from-IsLine [] m.body tt)
          ∙ ap (◌++◌ (map stuffed ls)) end_line))
    ∙ until_dot-plain (headers cfg m) (map stuffed ls ++ (b'.' ∷ []) ∷ []) (headers-IsPlain cfg m)
        (until_dot-body ls)
