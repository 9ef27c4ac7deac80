-- ===== src/Capture/Lines.antt =====
-- capture.rs: the lines of a report. A column is padded by characters; what stands in the columns
-- is ASCII, so that a character is a byte.
use docsis_monitor.Base.{
  ltb, if◌then◌else◌, length, take, replicate, Text, codes, em_dash, decimal, concat, ℕ, ◌-◌, ◌^◌,
  Option, none, some, List, [], ◌∷◌, ◌++◌, map,
}
use mathlib.Core.Option.{get_or}
use docsis_monitor.Float.{Floats}
use docsis_monitor.Relays.Table.{answer_ms_mean, Relay, waiting, total, Relays, idle_for, each}
use docsis_monitor.Ip.{ip_text, dotted}
use docsis_monitor.Counters.Sort.{by_flow}
use docsis_monitor.Counters.Window.{window, answered, Counters, Window}
use docsis_monitor.Config.Settings.{Config}
use docsis_monitor.Alarm.Judge.{RelayVerdict, word, State}
use docsis_monitor.Counters.Flow.{Flow, Dest}

-- `{:<n}` and `{:>n}`.
abbrev pub left : ℕ → Text → Text
left width t = t ++ replicate (width - length t) b' '

abbrev pub right : ℕ → Text → Text
right width t = replicate (width - length t) b' ' ++ t

-- `local_stamp`: `zoned` is the calendar of the host's zone, which has no date for a second outside
-- its range.
unfoldable pub local_stamp : (ℕ → Option Text) → ℕ → Text
unfolding decimal
local_stamp zoned at =
    get_or (if ltb at (2 ^ 63) then zoned at else none)
      (decimal at ++ codes " (not a representable date)")

module _ (f : Floats) where
  open f use {of_u64, mul, format_whole}

  unfoldable pub window_line : Config f → Window → State → Text
  unfolding concat decimal answered word
  window_line cfg w state = concat (
      decimal cfg.window
      ∷ codes "s window: "
      ∷ decimal w.requests
      ∷ codes " requests, "
      ∷ decimal w.replies
      ∷ codes " replies ("
      ∷ format_whole (mul (answered f w) (of_u64 100))
      ∷ codes "% answered), "
      ∷ decimal w.tftp_reads
      ∷ codes " tftp requests, "
      ∷ decimal w.tftp_sends
      ∷ codes " tftp sends "
      ∷ em_dash
      ∷ codes " "
      ∷ word state
      ∷ [])

  -- A text that starts with a line feed, and so is printed as three lines.
  unfoldable pub heading : (ℕ → Option Text) → Config f → Window → State → ℕ → Text
  unfolding concat local_stamp window_line
  heading zoned cfg w state at =
      concat (codes "\n" ∷ local_stamp zoned at ∷ codes "\n" ∷ window_line cfg w state ∷ [])

-- One line of `per_relay_lines` for an interface.
unfoldable pub relay_line : ℕ → ℕ × Relay → RelayVerdict → Text
unfolding concat decimal answer_ms_mean dotted idle_for word
relay_line at (gi, r) v = concat (
    codes "    "
    ∷ left 16 (dotted gi)
    ∷ codes " "
    ∷ right 7 (decimal r.requests)
    ∷ codes " req "
    ∷ right 7 (decimal r.replies)
    ∷ codes " rep  "
    ∷ right 6 (decimal r.answered)
    ∷ codes " answered, "
    ∷ (elim (answer_ms_mean r) [
      | some mean ↦
          concat
            (decimal mean ∷ codes "ms mean, " ∷ decimal r.answer_ms_worst ∷ codes "ms worst" ∷ [])
      | none ↦ codes "nothing answered"
    ])
    ∷ codes "  idle "
    ∷ (elim (idle_for r at) [ none ↦ codes "never" | some s ↦ decimal s ++ codes "s" ])
    ∷ codes " of "
    ∷ decimal v.idle_allowed
    ∷ codes "s "
    ∷ em_dash
    ∷ codes " "
    ∷ word v.state
    ∷ [])

-- The loop of `per_relay_lines` over the interfaces and their verdicts, as far as both go.
unfoldable pub relay_lines : ℕ → List (ℕ × Relay) → List RelayVerdict → List Text
unfolding relay_line
relay_lines at [] vs = []
relay_lines at (e ∷ es) [] = []
relay_lines at (e ∷ es) (v ∷ vs) = relay_line at e v ∷ relay_lines at es vs

-- The line on the requests that wait, if there is one.
unfoldable pub waiting_lines : Relays → List Text
unfolding waiting decimal
waiting_lines relays =
    if ltb 0 (waiting relays)
    then (codes "    "
        ++ (decimal (waiting relays) ++ codes " request(s) still waiting for an answer"))
      ∷ []
    else []

-- The line on what has no gi-address, if there is one.
unfoldable pub unrelayed_lines : Relays → List Text
unfolding total concat decimal
unrelayed_lines relays =
    let u = relays.unrelayed in
    if ltb 0 (total u)
    then concat (
        codes "    "
        ∷ left 16 (codes "(no gi-address)")
        ∷ codes " "
        ∷ right 7 (decimal u.requests)
        ∷ codes " req "
        ∷ right 7 (decimal u.replies)
        ∷ codes " rep  "
        ∷ decimal u.tftp_requests
        ∷ codes " tftp requests, "
        ∷ decimal u.tftp_sends
        ∷ codes " tftp sends"
        ∷ [])
      ∷ []
    else []

unfoldable pub per_relay_lines : Relays → List RelayVerdict → ℕ → List Text
unfolding relay_lines waiting_lines unrelayed_lines
per_relay_lines relays verdicts at =
    relay_lines at (each relays) verdicts ++ (waiting_lines relays ++ unrelayed_lines relays)

abbrev pub shown_flows : ℕ
shown_flows = 12

-- One line of `flow_lines`.
unfoldable pub flow_line : Flow × Dest → Text
unfolding concat decimal ip_text dotted
flow_line (fl, d) = concat (
    codes "    "
    ∷ right 15 (ip_text fl.src)
    ∷ codes " -> "
    ∷ left 15 (ip_text fl.dst)
    ∷ left 18 (elim fl.gi [ none ↦ [] | some g ↦ codes " gi " ++ dotted g ])
    ∷ codes " "
    ∷ right 6 (decimal d.counts.c0)
    ∷ codes " req "
    ∷ right 6 (decimal d.counts.c1)
    ∷ codes " rep "
    ∷ right 6 (decimal d.counts.c2)
    ∷ codes " tftp-req "
    ∷ right 6 (decimal d.counts.c3)
    ∷ codes " tftp-send"
    ∷ [])

-- `flow_lines`, with the counters that it leaves.
unfoldable pub flow_lines : ℕ → Counters → Counters × List Text
unfolding by_flow flow_line decimal
flow_lines at counts =
    let (c, flows) = by_flow at counts in
    (
      c,
      map flow_line (take shown_flows flows)
          ++ (if ltb shown_flows (length flows)
              then (codes "    ... and " ++ (decimal (length flows - shown_flows) ++ codes " more"))
                ∷ []
              else []),
    )

-- `progress`, with the counters that it leaves.
unfoldable pub progress : ℕ → Counters → Counters × Text
unfolding window concat decimal
progress at counts =
    let (c, w) = window at counts in
    (
      c,
      concat (
          codes "  still watching: "
          ∷ decimal w.requests
          ∷ codes " requests, "
          ∷ decimal w.replies
          ∷ codes " replies, "
          ∷ decimal w.tftp_reads
          ∷ codes " tftp requests in the last window"
          ∷ []),
    )
