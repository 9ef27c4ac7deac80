-- ===== src/Capture/Suggestions.antt =====
-- capture.rs: `write_suggestions`, the lines at the end of an adaptation run.
use docsis_monitor.Base.{
  Text, codes, em_dash, decimal, concat, ℕ, ◌/◌, none, some, List, [], ◌∷◌, ◌++◌, map,
}
use docsis_monitor.Ip.{dotted}
use docsis_monitor.Adapt.Suggest.{as_config, suggest, Suggestion}
use docsis_monitor.Relays.Table.{Relays, Relay}
use docsis_monitor.Capture.Lines.{left}

-- Three box-drawing dashes, in UTF-8.
abbrev pub rule : Text
rule = 0xe2 ∷ 0x94 ∷ 0x80 ∷ 0xe2 ∷ 0x94 ∷ 0x80 ∷ 0xe2 ∷ 0x94 ∷ 0x80 ∷ []

-- The line on one interface.
unfoldable pub suggestion_line : Suggestion → Text
unfolding concat dotted decimal
suggestion_line s = concat (
    codes "  "
    ∷ left 16 (dotted s.gi)
    ∷ (elim s.idle_seconds [
      | some n ↦ concat (codes " idle_seconds " ∷ left 7 (decimal n) ∷ codes " " ∷ [])
      | none ↦ concat (codes " no suggestion " ∷ em_dash ∷ codes " " ∷ [])
    ])
    ∷ s.because
    ∷ [])

-- What is said of a plant where something was relayed.
unfoldable pub suggestion_lines : List Suggestion → Relay → List Text
unfolding suggestion_line concat decimal as_config
suggestion_lines all u =
    map suggestion_line all
    ++ concat (
        codes "  TFTP saw "
        ∷ decimal u.tftp_requests
        ∷ codes " requests and "
        ∷ decimal u.tftp_sends
        ∷ codes " sends. It is not alarmed on and has no"
        ∷ [])
      ∷ codes "  threshold: the equipment behind a modem never touches it, so a plant"
      ∷ codes "  fetches a config when a modem boots and not again."
      ∷ []
      ∷ codes "Paste into the configuration, and read the numbers above first:"
      ∷ as_config all
      ∷ []
      ∷ codes "This watched one window of one day. A plant is busiest in the evening"
      ∷ codes "and quietest at four in the morning; neither is in here unless you"
      ∷ codes "ran it then."
      ∷ []

unfoldable pub write_suggestions : Relays → ℕ → List Text
unfolding suggest suggestion_lines concat decimal
write_suggestions relays watched_for =
    []
    ∷ concat (
        rule
        ∷ codes " what this plant looks like after "
        ∷ decimal (watched_for / 60)
        ∷ codes " "
        ∷ rule
        ∷ [])
    ∷ (elim (suggest relays watched_for) [
      | [] ↦
          codes "  No CMTS relayed anything at all. Either nothing is being"
          ∷ codes "  provisioned, or this is not the interface the relays reach the"
          ∷ codes "  server on."
          ∷ []
      | s ∷ all ↦ suggestion_lines (s ∷ all) relays.unrelayed
    ])
