-- ===== src/Email/Alert.antt =====
-- The mail of an alert: what `compose` of email.rs writes, as the server reads it.
use docsis_monitor.Alarm.Judge.{State, word}
use docsis_monitor.Email.Lines.{
  IsClean, append-IsClean, decimal-IsClean, clean-IsLine, unlined, lines-unlined,
}
use docsis_monitor.Email.Received.{IsLine, receive, receive-data_text}
use docsis_monitor.Email.Compose.{compose, headline}
use docsis_monitor.Email.Data.{data_text, headers, lines}
use docsis_monitor.Base.{
  Bool-cases, Text, codes, decimal, concat, text_eq, ℕ, ◌≡◌, ap, ◌∙◌, inl, inr, List, [], ◌∷◌, ◌++◌,
  arith, All, em_dash, some, refl,
}
use mathlib.Core.List.{append_assoc}
use docsis_monitor.Float.{Floats}
use docsis_monitor.Counters.Window.{Window, answered}
use docsis_monitor.Config.Settings.{Smtp}

headline-IsClean : (state host : Text) → IsClean host → IsClean (headline state host)
unfolding headline
headline-IsClean state host h = elim (Bool-cases (text_eq state (codes "quiet"))) [
  | inl quiet ↦ rw quiet (append-IsClean (codes "no DHCP arriving on ") host (ground arith) h)
  | inr other ↦ elim (Bool-cases (text_eq state (codes "unanswered"))) [
    | inl bad ↦
        rw (other, bad) (append-IsClean (codes "DHCP not being answered on ") host (ground arith) h)
    | inr fine ↦
        rw (other, fine) (append-IsClean (codes "DHCP back to normal on ") host (ground arith) h)
  ]
]

word-IsClean : (s : State) → IsClean (word s)
unfolding word
word-IsClean State.working = ground arith
word-IsClean State.quiet = ground arith
word-IsClean State.unanswered = ground arith

-- What has happened, in words.
abbrev pub in_words : State → Text
in_words State.quiet = codes "no DHCP arriving on "
in_words State.unanswered = codes "DHCP not being answered on "
in_words State.working = codes "DHCP back to normal on "

headline-word : (s : State) (host : Text) → headline (word s) host ≡ in_words s ++ host
unfolding headline word
headline-word State.quiet host = refl
headline-word State.unanswered host = refl
headline-word State.working host = refl

module _ (f : Floats) where
  open f use {F, of_u64, mul, format_whole}

  -- The body of an alert, line by line.
  abbrev lines_under : Text → Text → Text → Text → Window → ℕ → Text → List Text
  lines_under top host interface state w secs busiest =
      top
      ∷ []
      ∷ (codes "host        " ++ host)
      ∷ (codes "interface   " ++ interface)
      ∷ (codes "state       " ++ state)
      ∷ (codes "window      " ++ (decimal secs ++ codes " seconds"))
      ∷ []
      ∷ (codes "requests    " ++ decimal w.requests)
      ∷ (codes "replies     " ++ decimal w.replies)
      ∷ (codes "answered    " ++ (format_whole (mul (answered f w) (of_u64 100)) ++ codes "%"))
      ∷ (codes "tftp reads  " ++ decimal w.tftp_reads)
      ∷ (codes "busiest     " ++ busiest)
      ∷ []
      ∷ codes "Counted on the wire by docsis_monitor. Requests are what reached this"
      ∷ codes "interface; a relay that has stopped relaying leaves nothing in the"
      ∷ codes "provisioning server's own logs, because nothing reached it to be logged."
      ∷ []

  abbrev pub alert_lines : Text → Text → State → Window → ℕ → Text → List Text
  alert_lines host interface s w secs busiest =
      lines_under (in_words s ++ host) host interface (word s) w secs busiest

  body-unlined :
      (prefix host interface state : Text) (w : Window) (secs : ℕ) (busiest : Text)
      → (compose f prefix host interface state w secs busiest).body
        ≡ unlined (lines_under (headline state host) host interface state w secs busiest)
  unfolding compose concat
  body-unlined prefix host interface state w secs busiest = simp (append_assoc)

  subject-IsClean :
      (prefix host interface state : Text) (w : Window) (secs : ℕ) (busiest : Text)
      → IsClean prefix
      → IsClean host
      → IsClean (compose f prefix host interface state w secs busiest).subject
  unfolding compose concat
  subject-IsClean prefix host interface state w secs busiest p h = append-IsClean prefix _ p (
      append-IsClean (codes " ") _ (ground arith) (
        append-IsClean (headline state host) _ (headline-IsClean state host h) (
          append-IsClean (codes " " ++ (em_dash ++ codes " ")) _ (ground arith) (
            append-IsClean (decimal w.requests) _ (decimal-IsClean w.requests) (
              append-IsClean (codes " requests, ") _ (ground arith) (
                append-IsClean (decimal w.replies) _ (decimal-IsClean w.replies) (
                  append-IsClean (codes " replies in ") _ (ground arith)
                    (append-IsClean (decimal secs) _ (decimal-IsClean secs) (ground arith)))))))))

  lines_under-AreClean :
      (host interface state : Text) (w : Window) (secs : ℕ) (busiest : Text)
      → IsClean host
      → IsClean interface
      → IsClean state
      → IsClean busiest
      → ((x : F) → IsClean (format_whole x))
      → All IsClean (lines_under (headline state host) host interface state w secs busiest)
  lines_under-AreClean host interface state w secs busiest h i s b number = (
    headline-IsClean state host h,
    (
      tt,
      (
        append-IsClean (codes "host        ") host (ground arith) h,
        (
          append-IsClean (codes "interface   ") interface (ground arith) i,
          (
            append-IsClean (codes "state       ") state (ground arith) s,
            (
              append-IsClean (codes "window      ") _ (ground arith) (
                  append-IsClean (decimal secs) (codes " seconds") (decimal-IsClean secs)
                    (ground arith)),
              (
                tt,
                (
                  append-IsClean (codes "requests    ") _ (ground arith)
                      (decimal-IsClean w.requests),
                  (
                    append-IsClean (codes "replies     ") _ (ground arith)
                        (decimal-IsClean w.replies),
                    (
                      append-IsClean (codes "answered    ") _ (ground arith) (
                          append-IsClean _ (codes "%") (number (mul (answered f w) (of_u64 100)))
                            (ground arith)),
                      (
                        append-IsClean (codes "tftp reads  ") _ (ground arith)
                            (decimal-IsClean w.tftp_reads),
                        (
                          append-IsClean (codes "busiest     ") busiest (ground arith) b,
                          (tt, (ground arith, (ground arith, (ground arith, tt)))),
                        ),
                      ),
                    ),
                  ),
                ),
              ),
            ),
          ),
        ),
      ),
    ),
  )

  -- The mail server reads from the alert for any state and window exactly the headers, an empty line
  -- and the sixteen lines of the alert, and nothing is left behind it; where the addresses hold no
  -- line feed, the prefix, the names of the host and of the interface and the busiest flow hold no
  -- line feed and no carriage return, and neither does a number that is printed.
  pub receive-compose :
      (cfg : Smtp) (host interface : Text) (s : State) (w : Window) (secs : ℕ) (busiest : Text)
      → IsLine cfg.from
      → All IsLine cfg.to
      → IsClean cfg.subject_prefix
      → IsClean host
      → IsClean interface
      → IsClean busiest
      → ((x : F) → IsClean (format_whole x))
      → let m = compose f cfg.subject_prefix host interface (word s) w secs busiest in
        receive (data_text cfg m)
        ≡ some (headers cfg m ++ alert_lines host interface s w secs busiest, [])
  receive-compose cfg host interface s w secs busiest from to prefix h i b number =
      let m = compose f cfg.subject_prefix host interface (word s) w secs busiest in
      let all = λ (top : Text). lines_under top host interface (word s) w secs busiest in
      receive-data_text cfg m from to (
        clean-IsLine m.subject
          (subject-IsClean cfg.subject_prefix host interface (word s) w secs busiest prefix h))
      ∙ ap (λ (ls : List Text). some (headers cfg m ++ ls, []))
          (ap lines (body-unlined cfg.subject_prefix host interface (word s) w secs busiest)
            ∙ (lines-unlined (all (headline (word s) host)) (
                  lines_under-AreClean host interface (word s) w secs busiest h i (word-IsClean s) b
                    number)
                ∙ ap all (headline-word s host)))
