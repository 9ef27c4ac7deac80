-- ===== src/Capture/Heard.antt =====
-- What a report of capture.rs says, against the frames that were read.
use docsis_monitor.Counters.Counted.{window_spec, window-IsCounted, replay-IsCounted, IsCounted}
use docsis_monitor.Counters.History.{Packet}
use docsis_monitor.Counters.Window.{window, Counters, Window, answered}
use docsis_monitor.Relays.Events
use docsis_monitor.Relays.Table.{default, Relays}
use docsis_monitor.Capture.Counted.{loop-IsCounted, packets, AreForward, last_clock}
use docsis_monitor.Capture.Report.{report, World, tell}
use docsis_monitor.Capture.Decide.{should_tell, judge_each, busiest}
use docsis_monitor.Capture.Watch.{loop, start, Watch, Tick}
use docsis_monitor.Base.{
  codes, decimal, em_dash, concat, ap, u64_mod, length, Text, ℕ, ◌-◌, ◌≤◌, ◌<◌, max, ◌≡◌, refl, ◌∙◌,
  Option, List, [], ◌∷◌, arith, if◌then◌else◌, Bool, true, false, ◌++◌,
}
use mathlib.Core.List.{append-nil}
use docsis_monitor.Float.{Floats}
use docsis_monitor.Config.Settings.{Config}
use docsis_monitor.Capture.Events.{used, events, loop-events}
use docsis_monitor.Alarm.Repeats.{Repeats}
use docsis_monitor.Capture.Lines.{heading, window_line, local_stamp, flow_lines, per_relay_lines}
use docsis_monitor.Alarm.Judge.{worst, State, word}
use docsis_monitor.Capture.Alert.{word_of}

module _ (f : Floats) where
  open f use {of_u64, mul, format_whole}

  -- How a report starts: a line feed, the time, and on a line of its own the seconds of the window,
  -- the requests, the replies, how many in a hundred that is, the TFTP requests, the TFTP sends, and
  -- the word for the state.
  abbrev pub first_lines : Text → ℕ → Window → State → Text
  first_lines time seconds w s =
      codes "\n"
      ++ (time
          ++ (codes "\n"
              ++ (decimal seconds
                  ++ (codes "s window: "
                      ++ (decimal w.requests
                          ++ (codes " requests, "
                              ++ (decimal w.replies
                                  ++ (codes " replies ("
                                      ++ (format_whole (mul (answered f w) (of_u64 100))
                                          ++ (codes "% answered), "
                                              ++ (decimal w.tftp_reads
                                                  ++ (codes " tftp requests, "
                                                      ++ (decimal w.tftp_sends
                                                          ++ (codes " tftp sends "
                                                            ++ (em_dash
                                                            ++ (codes " "
                                                            ++ word_of s))))))))))))))))

  line-first_lines :
      (cfg : Config f) (w : Window) (s : State) (time : Text)
      → codes "\n" ++ (time ++ (codes "\n" ++ window_line f cfg w s))
        ≡ first_lines time cfg.window w s
  unfolding window_line concat word
  line-first_lines cfg w State.working time = refl
  line-first_lines cfg w State.quiet time = refl
  line-first_lines cfg w State.unanswered time = refl

  heading-first_lines :
      (zoned : ℕ → Option Text) (cfg : Config f) (w : Window) (s : State) (at : ℕ)
      → heading f zoned cfg w s at ≡ first_lines (local_stamp zoned at) cfg.window w s
  unfolding heading concat
  heading-first_lines zoned cfg w s at =
      ap (λ (l : Text). codes "\n" ++ (local_stamp zoned at ++ (codes "\n" ++ l)))
        (append-nil (window_line f cfg w s))
      ∙ line-first_lines cfg w s (local_stamp zoned at)

longer :
    (b : Bool) (h : Text) (xs ys : List Text)
    → (rest : List Text) × ((if b then (h ∷ xs) ++ ys else (h ∷ xs)) ≡ h ∷ rest)
longer true h xs ys = (xs ++ ys, refl)
longer false h xs ys = (xs, refl)

module _ (f : Floats) (cfg : Config f) (adaptation : Option ℕ) (began : ℕ) where
  -- The first line of a report holds the window of the counters and the verdict on the tables.
  report-heading :
      (world : World) (relays : Relays) (at : ℕ) (c : Counters) (r : Repeats)
      → (rest : List Text) × ((report f world cfg relays at began c r).lines
          ≡ heading f world.zoned cfg (window at c).1 (worst (judge_each f relays cfg at)) at
            ∷ rest)
  unfolding report
  report-heading world relays at c r =
      let verdicts = judge_each f relays cfg at in
      let (c1, w) = window at c in
      let (c2, shown) = flow_lines at c1 in
      longer (should_tell f cfg r (worst verdicts) at).1
        (heading f world.zoned cfg w (worst verdicts) at)
        (per_relay_lines relays verdicts at ++ shown)
        (tell f world cfg (worst verdicts) w at began (busiest at c2).1)

  start-IsCounted : IsCounted cfg.window began [] (start f cfg adaptation began).counts
  unfolding start docsis_monitor.Counters.History.replay
  start-IsCounted = replay-IsCounted cfg.window began [] tt (omega arith)

  tables :
      (limit : Option ℕ) (ts : List Tick)
      → (loop f cfg adaptation began limit ts (start f cfg adaptation began)).0.relays
        ≡ docsis_monitor.Relays.Events.run default (events (used limit began ts))
  unfolding start
  tables limit ts = loop-events f cfg adaptation began limit ts (start f cfg adaptation began)

  -- When the clock does not go back and fewer than 2^64 packets came, a report at any time after
  -- the loop starts with the time and the line that gives, in this order, the seconds of the window,
  -- the requests, the replies, how many in a hundred that is, the TFTP requests, the TFTP sends and
  -- the word for the state: exactly the packets of each kind that the frames of the last window
  -- held, and the worst verdict on the interfaces as all frames left them.
  pub loop-report :
      (limit : Option ℕ) (ts : List Tick) (world : World) (at : ℕ)
      → AreForward began (used limit began ts)
      → length (packets (used limit began ts) []) < u64_mod
      → last_clock began (used limit began ts) ≤ at
      → let v : Watch = (loop f cfg adaptation began limit ts (start f cfg adaptation began)).0 in
        let tables : Relays =
          docsis_monitor.Relays.Events.run default (events (used limit began ts)) in
        (rest : List Text) × ((report f world cfg v.relays at began v.counts v.repeats).lines
          ≡ first_lines f
              (local_stamp world.zoned at)
              cfg.window
              (window_spec (at - max cfg.window 1) (packets (used limit began ts) []))
              (worst (judge_each f tables cfg at))
            ∷ rest)
  loop-report limit ts world at forward room later =
      let v = (loop f cfg adaptation began limit ts (start f cfg adaptation began)).0 in
      let (rest, said) = report-heading world v.relays at v.counts v.repeats in
      let counted =
        window-IsCounted cfg.window (last_clock began (used limit began ts)) at
          (packets (used limit began ts) []) v.counts later room
          (loop-IsCounted f cfg adaptation began limit cfg.window began ts []
            (start f cfg adaptation began) forward room start-IsCounted) in
      let packets_then = window_spec (at - max cfg.window 1) (packets (used limit began ts) []) in
      let state = worst (
        judge_each f (docsis_monitor.Relays.Events.run default (events (used limit began ts))) cfg
          at) in
      (
        rest,
        said
            ∙ cc (counted, tables limit ts)
            ∙ ap (λ (l : Text). l ∷ rest)
                (heading-first_lines f world.zoned cfg packets_then state at),
      )
