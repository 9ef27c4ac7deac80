-- ===== src/Capture/Watch.antt =====
-- capture.rs: `run`. What the loop meets in one round, a tick, is a parameter: the clock where it is
-- read, and what reading the interface answers.
use docsis_monitor.Packet.Read.{Seen, read}
use docsis_monitor.Packet.Classify.{Kind}
use docsis_monitor.Config.Settings.{Config, Smtp, mail, named, Target}
use docsis_monitor.Capture.Report.{World, report}
use docsis_monitor.Capture.Lines.{progress}
use docsis_monitor.Relays.Table.{Relays, request, reply, tftp_request, tftp_send, default}
use docsis_monitor.Counters.Window.{Counters, add, total}
use docsis_monitor.Counters.Flow.{Flow}
use docsis_monitor.Base.{
  add64, mul64, leb, if◌then◌else◌, length, Text, codes, decimal, join, concat, ℕ, ◌-◌, max, Bool,
  true, false, Option, none, some, List, [], ◌∷◌, ◌++◌,
}
use docsis_monitor.Alarm.Repeats.{Repeats}
use docsis_monitor.Float.{Floats}
use docsis_monitor.Capture.Suggestions.{write_suggestions}

-- What `rx.next()` answers: a frame, with the two readings of the clock that follow it, the error
-- of a timeout, or another error.
pub data Reading : Type 0 where
  frame : List ℕ → ℕ → ℕ → Reading
  timed_out : Reading
  failed : Text → Reading

-- The clock at the test of the deadline, the host, the reading, and the clock after it.
pub record Tick : Type 0 where
  pub top : ℕ
  pub world : World
  pub reading : Reading
  pub after : ℕ

-- The variables of the loop.
pub record Watch : Type 0 where
  pub counts : Counters
  pub relays : Relays
  pub repeats : Repeats
  pub next_report : ℕ

-- The match of the loop on the kind of packet.
unfoldable pub note_relays : Seen → ℕ → ℕ → Relays → Relays
unfolding request reply tftp_request tftp_send
note_relays seen at at_ms relays = elim seen.kind [
  | Kind.client_request ↦ request seen.gi seen.xid at at_ms relays
  | Kind.server_reply ↦ reply seen.gi seen.xid at at_ms relays
  | Kind.tftp_request ↦ tftp_request at relays
  | Kind.tftp_reply ↦ tftp_send at relays
]

abbrev pub flow_of : Seen → Flow
flow_of seen = record { src = seen.src; dst = seen.dst; gi = seen.gi }

-- What the loop does with what a frame turned out to be.
unfoldable pub note_seen : ℕ → ℕ → Option Seen → Watch → Watch
unfolding add note_relays
note_seen at at_ms none w = w
note_seen at at_ms (some seen) w = record w {
  counts = add seen.kind (flow_of seen) at w.counts;
  relays = note_relays seen at at_ms w.relays;
}

-- The match of the loop on the reading, with the line that it prints, if any.
unfoldable pub take_reading : Reading → Watch → Watch × List Text
unfolding read note_seen
take_reading (frame bytes at at_ms) w = (note_seen at at_ms (read bytes) w, [])
take_reading timed_out w = (w, [])
take_reading (failed why) w = (w, (codes "capture read failed: " ++ why) ∷ [])

-- The test of the deadline at the top of the loop.
unfoldable pub is_over : Option ℕ → ℕ → ℕ → Bool
is_over none began now = false
is_over (some secs) began now = leb secs (now - began)

-- `report_every.max(1)` after a second.
unfoldable pub report_after : ℕ → ℕ → ℕ
report_after every at = add64 at (max every 1)

module _ (f : Floats) (cfg : Config f) (adaptation : Option ℕ) (began : ℕ) where
  -- What is done when a report is due.
  unfoldable pub say_something : World → ℕ → Watch → Watch × List Text
  unfolding progress report
  say_something world at w = elim adaptation [
    | some _ ↦ let (c, line) = progress at w.counts in (record w { counts = c }, line ∷ [])
    | none ↦
        let r = report f world cfg w.relays at began w.counts w.repeats in
        (record w { counts = r.counts; repeats = r.repeats }, r.lines)
  ]

  -- The end of a round: whether a report is due.
  unfoldable pub finish : World → ℕ → Watch → Watch × List Text
  unfolding report_after say_something
  finish world at w =
      if leb w.next_report at
      then say_something world at (record w { next_report = report_after cfg.report_every at })
      else (w, [])

  -- One round of the loop, after the test of the deadline.
  unfoldable pub round : Tick → Watch → Watch × List Text
  unfolding take_reading finish
  round t w =
      let (w1, said) = take_reading t.reading w in
      let (w2, more) = finish t.world t.after w1 in (w2, said ++ more)

  -- The loop over the ticks to come: where it leaves the variables, what it printed, and, when the
  -- deadline ended it, the ticks that it did not use.
  unfoldable pub loop : Option ℕ → List Tick → Watch → Watch × List Text × Option (List Tick)
  unfolding is_over round
  loop deadline [] w = (w, [], none)
  loop deadline (t ∷ ts) w =
      let (w1, said) = round t w in
      let (w2, more, left) = loop deadline ts w1 in
      if is_over deadline began t.top then (w, [], some (t ∷ ts)) else (w2, said ++ more, left)

  -- The variables before the loop.
  unfoldable pub start : Watch
  unfolding docsis_monitor.Counters.Window.new docsis_monitor.Alarm.Repeats.new report_after
  start = record {
    counts = docsis_monitor.Counters.Window.new cfg.window;
    relays = default;
    repeats = docsis_monitor.Alarm.Repeats.new cfg.thresholds.resend_after;
    next_report = report_after cfg.report_every began;
  }

-- `adaptation.map_or(run_for, …)`.
unfoldable pub deadline : Option ℕ → Option ℕ → Option ℕ
deadline none run_for = run_for
deadline (some mins) run_for = some (mul64 mins 60)

-- Where the alerts go, in the line that a run starts with.
unfoldable pub receivers : List Target → Option Smtp → Text
unfolding decimal join concat
receivers [] none = codes "no trap targets and no mail relay: the log only"
receivers [] (some m) = codes "mail to " ++ join (codes ", ") m.to
receivers (t ∷ ts) none = decimal (length (t ∷ ts)) ++ codes " trap target(s)"
receivers (t ∷ ts) (some m) =
    concat (
      decimal (length (t ∷ ts))
      ∷ codes " trap target(s) and mail to "
      ∷ join (codes ", ") m.to
      ∷ [])

module _ (f : Floats) where
  -- The lines before the loop.
  unfoldable pub banner : Config f → Option ℕ → List Text
  unfolding concat decimal join receivers mail named
  banner cfg (some mins) =
      concat (
        codes "ADAPTATION: watching "
        ∷ cfg.interface
        ∷ codes " for "
        ∷ decimal mins
        ∷ codes
            " minute(s) to work out what idle means on each CMTS interface. No alarms will be raised."
        ∷ [])
      ∷ []
  banner cfg none =
      concat (
        codes "watching "
        ∷ cfg.interface
        ∷ codes ": judging on the last "
        ∷ decimal cfg.window
        ∷ codes "s, reporting every "
        ∷ decimal (max cfg.report_every 1)
        ∷ codes "s, "
        ∷ receivers cfg.snmp.targets (mail f cfg)
        ∷ [])
      ∷ (elim (named cfg.per_relay) [
        | [] ↦ []
        | n ∷ ns ↦ (codes "  per-interface thresholds for: " ++ join (codes ", ") (n ∷ ns)) ∷ []
      ])

-- The lines after the loop.
unfoldable pub closing : Option ℕ → Watch → List Text
unfolding write_suggestions total concat decimal
closing (some mins) w = write_suggestions w.relays (mul64 mins 60)
closing none w =
    concat (
      codes "stopping: "
      ∷ decimal (total w.counts).requests
      ∷ codes " requests, "
      ∷ decimal (total w.counts).replies
      ∷ codes " replies, "
      ∷ decimal (total w.counts).tftp_reads
      ∷ codes " tftp requests seen in all"
      ∷ [])
    ∷ []

module _ (f : Floats) where
  -- What is done after the loop: all that is printed, and whether `run` has returned.
  unfoldable pub after_loop :
      Config f → Option ℕ → Watch × List Text × Option (List Tick) → List Text × Bool
  unfolding banner closing
  after_loop cfg adaptation (w, said, none) = (banner f cfg adaptation ++ said, false)
  after_loop cfg adaptation (w, said, some _) =
      (banner f cfg adaptation ++ (said ++ closing adaptation w), true)

  -- `run`, from what it finds at its start on.
  unfoldable pub run : Config f → Option ℕ → Option ℕ → ℕ → List Tick → List Text × Bool
  unfolding deadline start loop after_loop
  run cfg run_for adaptation began ticks = after_loop cfg adaptation (
      loop f cfg adaptation began (deadline adaptation run_for) ticks
        (start f cfg adaptation began))
