-- ===== src/Capture/Report.antt =====
-- capture.rs: `report`, the lines of one report and the alerts that go with it.
use docsis_monitor.Result.{Result, ok, err}
use docsis_monitor.Email.Conversation.{Socket}
use docsis_monitor.Email.Compose.{Message, compose}
use docsis_monitor.Config.Settings.{Config, Smtp, Target, mail}
use docsis_monitor.Snmp.Send.{Net}
use docsis_monitor.Base.{
  if◌then◌else◌, Text, codes, em_dash, decimal, join, concat, is_empty, ℕ, Option, none, some, List,
  [], ◌∷◌, ◌++◌, map,
}
use docsis_monitor.Alarm.Judge.{word, State, worst}
use docsis_monitor.Counters.Window.{Counters, window, Window}
use docsis_monitor.Float.{Floats}
use docsis_monitor.Snmp.Trap.{Trap}
use docsis_monitor.Alarm.Repeats.{Repeats}
use docsis_monitor.Capture.Decide.{host_name, build, judge_each, should_tell, busiest}
use docsis_monitor.Capture.Lines.{heading, per_relay_lines, flow_lines}
use docsis_monitor.Relays.Table.{Relays}

-- The host, as a report meets it: its name, the calendar of its zone, its sockets, and what
-- connecting to the mail server answers.
pub record World : Type 0 where
  pub host : Option Text
  pub zoned : ℕ → Option Text
  pub net : Net
  pub connect : Text → ℕ → Result Socket

-- `{e}` of an error: its outermost context.
unfoldable pub shown_error : List Text → Text
shown_error [] = []
shown_error (why ∷ _) = why

-- The line on one trap, after what sending it answered.
unfoldable pub trap_line : State → Target → Result (Unit {0}) → Text
unfolding concat decimal word shown_error
trap_line state target (ok _) = concat (
    codes "    trap sent to "
    ∷ target.host
    ∷ codes ":"
    ∷ decimal target.port
    ∷ codes " "
    ∷ em_dash
    ∷ codes " "
    ∷ word state
    ∷ [])
trap_line state target (err why) = concat (
    codes "    trap to "
    ∷ target.host
    ∷ codes ":"
    ∷ decimal target.port
    ∷ codes " failed: "
    ∷ shown_error why
    ∷ [])

-- The line on the mail. The subject is in it when the mail could not be sent.
unfoldable pub mail_line : Smtp → Message → Result (Unit {0}) → Text
unfolding concat join shown_error
mail_line m msg (ok _) =
    concat (codes "    mailed " ∷ join (codes ", ") m.to ∷ codes " via " ∷ m.server ∷ [])
mail_line m msg (err why) = concat (
    codes "    mail via "
    ∷ m.server
    ∷ codes " failed: "
    ∷ shown_error why
    ∷ codes " "
    ∷ em_dash
    ∷ codes " "
    ∷ msg.subject
    ∷ [])

-- The loop of `report` over the targets.
unfoldable pub trap_lines : World → State → Trap → List Target → List Text
unfolding docsis_monitor.Snmp.Send.send trap_line
trap_lines world state t targets =
    map
      (λ (target : Target).
        trap_line state target (docsis_monitor.Snmp.Send.send world.net target t))
      targets

-- What a report leaves behind: the counters, what has been said, and the lines.
pub record Reported : Type 0 where
  pub counts : Counters
  pub repeats : Repeats
  pub lines : List Text

module _ (f : Floats) where
  -- The last part of `report`, on the mail.
  unfoldable pub mail_lines : World → Config f → State → Window → Text → Option Smtp → List Text
  unfolding compose host_name word mail_line docsis_monitor.Email.Send.send
  mail_lines world cfg state w busiest_flow none = []
  mail_lines world cfg state w busiest_flow (some m) =
      let msg =
        compose f m.subject_prefix (host_name world.host cfg.snmp) cfg.interface (word state) w
          cfg.window busiest_flow in
      mail_line m msg
        (docsis_monitor.Email.Send.send world.host (world.connect m.server m.port) m msg)
      ∷ []

  -- What `report` does once somebody is to be told.
  unfoldable pub tell : World → Config f → State → Window → ℕ → ℕ → Text → List Text
  unfolding build trap_lines mail mail_lines
  tell world cfg state w at began busiest_flow =
      (if is_empty cfg.snmp.targets
        then []
        else trap_lines world state (build f world.host cfg state w at began busiest_flow)
            cfg.snmp.targets)
      ++ mail_lines world cfg state w busiest_flow (mail f cfg)

  -- `report`.
  unfoldable pub report : World → Config f → Relays → ℕ → ℕ → Counters → Repeats → Reported
  unfolding window judge_each worst heading per_relay_lines flow_lines should_tell busiest tell
  report world cfg relays at began counts repeats =
      let (c1, w) = window at counts in
      let verdicts = judge_each f relays cfg at in
      let state = worst verdicts in
      let (c2, shown) = flow_lines at c1 in
      let (said, telling) = should_tell f cfg repeats state at in
      let (c3, busiest_flow) = busiest at c2 in
      let lines =
        heading f world.zoned cfg w state at ∷ (per_relay_lines relays verdicts at ++ shown) in
      record {
        counts = if telling then c3 else c2;
        repeats = said;
        lines = if telling then lines ++ tell world cfg state w at began busiest_flow else lines;
      }
