-- ===== src/Capture/Decide.antt =====
-- capture.rs: the verdicts of a report, whether anybody is told, and what the trap says.
use docsis_monitor.Base.{
  mul64, if◌then◌else◌, Text, codes, is_empty, ℕ, ◌-◌, Bool, true, false, not, ◌||◌, Option, none,
  some, List, [], ◌∷◌, ◌++◌, map,
}
use docsis_monitor.Config.Settings.{Snmp, mail, Config, idle_seconds}
use docsis_monitor.Ip.{ip_text, dotted}
use docsis_monitor.Counters.Sort.{by_flow}
use docsis_monitor.Alarm.Judge.{State, judge_relay, word, RelayVerdict}
use docsis_monitor.Float.{Floats}
use mathlib.Core.Option.{get_or}
use docsis_monitor.Counters.Window.{Counters, Window}
use docsis_monitor.Relays.Table.{Relays, idle_for, Relay, each}
use docsis_monitor.Alarm.Repeats.{should_send, Repeats}
use docsis_monitor.Counters.Flow.{Flow}
use docsis_monitor.Snmp.Trap.{field, Trap, Value}

-- `host_name`, with what the host answers when it is asked for its name.
unfoldable pub host_name : Option Text → Snmp → Text
host_name host snmp = get_or snmp.sysname (get_or host (codes "unknown"))

-- The text of `busiest` for the first flow.
unfoldable pub flow_name : Flow → Text
unfolding ip_text dotted
flow_name f = elim f.gi [
  | some g ↦ ip_text f.src ++ (codes " via " ++ dotted g)
  | none ↦ ip_text f.src ++ (codes " -> " ++ ip_text f.dst)
]

-- `busiest`, with the counters that it leaves.
unfoldable pub busiest : ℕ → Counters → Counters × Text
unfolding by_flow flow_name
busiest at counts =
    let (c, flows) = by_flow at counts in
    (c, elim flows [ [] ↦ codes "none" | e ∷ _ ↦ flow_name e.0 ])

-- The number of a state's trap.
unfoldable pub which_trap : State → ℕ
which_trap State.working = 3
which_trap State.quiet = 1
which_trap State.unanswered = 2

module _ (f : Floats) where
  -- One round of `judge_each`.
  unfoldable pub judge_one : Config f → ℕ → ℕ × Relay → RelayVerdict
  unfolding judge_relay idle_for idle_seconds
  judge_one cfg at (gi, r) =
      judge_relay f r.requests r.replies (idle_for r at)
        (idle_seconds cfg.per_relay gi cfg.thresholds.idle_seconds) cfg.thresholds.min_answered

  unfoldable pub judge_each : Relays → Config f → ℕ → List RelayVerdict
  unfolding judge_one
  judge_each relays cfg at = map (judge_one cfg at) (each relays)

  -- Whether there is anywhere to send an alert.
  unfoldable pub has_receiver : Config f → Bool
  unfolding mail
  has_receiver cfg =
      not (is_empty cfg.snmp.targets) || elim (mail f cfg) [ none ↦ false | some _ ↦ true ]

  unfoldable pub should_tell : Config f → Repeats → State → ℕ → Repeats × Bool
  unfolding has_receiver should_send
  should_tell cfg repeats state at =
      if not (has_receiver cfg) then (repeats, false) else should_send repeats state at

  -- `build`.
  unfoldable pub build : Option Text → Config f → State → Window → ℕ → ℕ → Text → Trap
  unfolding host_name word which_trap field
  build host cfg state w at began busiest_flow = record {
    uptime_ticks = mul64 (at - began) 100;
    which = which_trap state;
    bindings =
        (field 1, Value.str (host_name host cfg.snmp))
        ∷ (field 2, Value.str cfg.interface)
        ∷ (field 3, Value.str (word state))
        ∷ (field 4, Value.count w.requests)
        ∷ (field 5, Value.count w.replies)
        ∷ (field 6, Value.count w.tftp_reads)
        ∷ (field 7, Value.count cfg.window)
        ∷ (field 8, Value.str busiest_flow)
        ∷ [];
  }
