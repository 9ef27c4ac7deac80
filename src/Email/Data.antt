-- ===== src/Email/Data.antt =====
-- email.rs: the message on the wire, headers and all.
use docsis_monitor.Base.{
  if◌then◌else◌, Text, codes, join, is_empty, ◌==◌, true, false, List, [], ◌∷◌, ◌++◌,
}
use docsis_monitor.Config.Settings.{Smtp}
use docsis_monitor.Email.Compose.{Message}

abbrev pub crlf : Text
crlf = 0x0d ∷ 0x0a ∷ []

-- A line without the carriage return that it may end with.
unfoldable pub strip_cr : Text → Text
strip_cr [] = []
strip_cr (c ∷ []) = if c == 0x0d then [] else c ∷ []
strip_cr (c ∷ d ∷ s) = c ∷ strip_cr (d ∷ s)

-- `str::lines`, from a line of which `line` has been read.
unfoldable pub lines_from : Text → Text → List Text
unfolding strip_cr
lines_from line [] = if is_empty line then [] else line ∷ []
lines_from line (c ∷ s) = elim (c == 0x0a) [
  | true ↦ strip_cr line ∷ lines_from [] s
  | false ↦ lines_from (line ++ c ∷ []) s
]

unfoldable pub lines : Text → List Text
unfolding lines_from
lines t = lines_from [] t

-- One round of the loop of `data`: a dot more in front of a dot.
unfoldable pub stuffed : Text → Text
stuffed [] = []
stuffed (c ∷ s) = if c == b'.' then b'.' ∷ c ∷ s else c ∷ s

-- The loop of `data`.
unfoldable pub body_bytes : List Text → Text
unfolding stuffed
body_bytes [] = []
body_bytes (l ∷ ls) = stuffed l ++ (crlf ++ body_bytes ls)

-- The headers of `data`, and the empty line after them.
unfoldable pub headers : Smtp → Message → List Text
unfolding join
headers cfg m =
    (codes "From: " ++ cfg.from)
    ∷ (codes "To: " ++ join (codes ", ") cfg.to)
    ∷ (codes "Subject: " ++ m.subject)
    ∷ codes "Content-Type: text/plain; charset=utf-8"
    ∷ []
    ∷ []

-- Lines with their ends.
unfoldable pub header_bytes : List Text → Text
header_bytes [] = []
header_bytes (h ∷ hs) = h ++ (crlf ++ header_bytes hs)

-- `data`.
unfoldable pub data_text : Smtp → Message → Text
unfolding headers header_bytes body_bytes lines
data_text cfg m = header_bytes (headers cfg m) ++ (body_bytes (lines m.body) ++ b'.' ∷ crlf)
