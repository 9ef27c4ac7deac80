-- ===== src/Email/Compose.antt =====
-- email.rs: the subject and the body of an alert.
use docsis_monitor.Base.{
  if◌then◌else◌, Text, codes, em_dash, decimal, concat, text_eq, ℕ, [], ◌∷◌, ◌++◌,
}
use docsis_monitor.Float.{Floats}
use docsis_monitor.Counters.Window.{answered}
use docsis_monitor.Counters.Window.{Window}

-- `struct Message`.
pub record Message : Type 0 where
  pub subject : Text
  pub body : Text

-- The headline for the word of a state.
unfoldable pub headline : Text → Text → Text
unfolding text_eq
headline state host =
    if text_eq state (codes "quiet")
    then codes "no DHCP arriving on " ++ host
    else if text_eq state (codes "unanswered")
    then codes "DHCP not being answered on " ++ host
    else codes "DHCP back to normal on " ++ host

abbrev pub newline : Text
newline = 0x0a ∷ []

-- The sentence that every body ends with.
abbrev pub footer : Text
footer =
    codes "Counted on the wire by docsis_monitor. Requests are what reached this\n"
    ++ (codes "interface; a relay that has stopped relaying leaves nothing in the\n"
        ++ codes "provisioning server's own logs, because nothing reached it to be logged.\n")

module _ (f : Floats) where
  open f use {of_u64, mul, format_whole}

  -- `compose`.
  unfoldable pub compose : Text → Text → Text → Text → Window → ℕ → Text → Message
  unfolding headline answered concat decimal
  compose prefix host interface state w window_secs busiest = record {
    subject = concat (
        prefix
        ∷ codes " "
        ∷ headline state host
        ∷ codes " "
        ∷ em_dash
        ∷ codes " "
        ∷ decimal w.requests
        ∷ codes " requests, "
        ∷ decimal w.replies
        ∷ codes " replies in "
        ∷ decimal window_secs
        ∷ codes "s"
        ∷ []);
    body = concat (
        headline state host
        ∷ codes "\n\nhost        "
        ∷ host
        ∷ codes "\ninterface   "
        ∷ interface
        ∷ codes "\nstate       "
        ∷ state
        ∷ codes "\nwindow      "
        ∷ decimal window_secs
        ∷ codes " seconds\n\nrequests    "
        ∷ decimal w.requests
        ∷ codes "\nreplies     "
        ∷ decimal w.replies
        ∷ codes "\nanswered    "
        ∷ format_whole (mul (answered f w) (of_u64 100))
        ∷ codes "%\ntftp reads  "
        ∷ decimal w.tftp_reads
        ∷ codes "\nbusiest     "
        ∷ busiest
        ∷ newline
        ∷ newline
        ∷ footer
        ∷ []);
  }
