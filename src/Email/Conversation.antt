-- ===== src/Email/Conversation.antt =====
-- email.rs: the connection to the mail server, `say` and `expect`. What the server will send is a
-- list that the conversation consumes, and the connection takes a number of writes before it
-- breaks.
use docsis_monitor.Result.{Result, ok, err, bail}
use docsis_monitor.Base.{
  if◌then◌else◌, get_elem?, Text, codes, trim_end, is_empty, ◌==◌, ℕ, zero, suc, not, List, [], ◌∷◌,
  ◌++◌,
}
use mathlib.Core.Option.{get_or}

-- What `read_line` meets: a line, or an error such as a timeout. The end of the list is the end of
-- the stream.
pub data Incoming : Type 0 where
  line : Text → Incoming
  broken : Text → Incoming

pub record Socket : Type 0 where
  pub incoming : List Incoming
  pub writes_left : ℕ
  pub write_error : Text
  pub sent : List Text

-- A step of the conversation: its outcome, and the connection after it.
abbrev pub Talk : Type 0
Talk = Socket → Result (Unit {0}) × Socket

-- What `?` does between two steps.
abbrev pub after_step : Result (Unit {0}) × Socket → Talk → Result (Unit {0}) × Socket
after_step (ok u, s) next = next s
after_step (err why, s) next = (err why, s)

infixr 5 ◌>>◌
abbrev pub ◌>>◌ : Talk → Talk → Talk
◌>>◌ m next s = after_step (m s) next

-- `say`.
unfoldable pub say : Text → Talk
say what s = elim s.writes_left [
  | zero ↦ (err (s.write_error ∷ []), s)
  | suc n ↦ (ok tt, record s { writes_left = n; sent = s.sent ++ what ∷ [] })
]

-- The loop of `expect`, with what it leaves of the lines to come.
unfoldable pub expect_in : ℕ → List Incoming → Result (Unit {0}) × List Incoming
unfolding trim_end
expect_in want [] = (bail (codes "the mail server hung up"), [])
expect_in want (broken why ∷ rest) = (bail why, rest)
expect_in want (line l ∷ rest) =
    let more = expect_in want rest in
    if is_empty l
    then (bail (codes "the mail server hung up"), rest)
    else if not (get_or (get_elem? l 0) 0 == want)
    then (bail (codes "the mail server said: " ++ trim_end l), rest)
    else if get_or (get_elem? l 3) 0 == b'-'
    then more
    else (ok tt, rest)

-- `expect`.
unfoldable pub expect : ℕ → Talk
unfolding expect_in
expect want s = let (r, rest) = expect_in want s.incoming in (r, record s { incoming = rest })
