-- ===== src/Capture/Tests.antt =====
-- capture.rs on the run of Sample.antt.
use docsis_monitor.Float.{exact}
use docsis_monitor.Config.Settings.{Config, default_thresholds, Target}
use docsis_monitor.Capture.Watch.{
  Tick, Reading, frame, timed_out, failed, loop, start, run, banner, closing, deadline, Watch,
  report_after,
}
use docsis_monitor.Capture.Report.{World, report}
use docsis_monitor.Capture.Events.{used, events, loop-IsTallied, reading_events}
use docsis_monitor.Capture.Due.{IsEvery, due, due_next, IsAhead}
use docsis_monitor.Capture.Rounds.{report_times, loop-due}
use docsis_monitor.Capture.Returns.{run-returns}
use docsis_monitor.Result.{ok}
use docsis_monitor.Base.{
  ap, ◌∙◌, length, codes, ℕ, ◌≡◌, refl, true, false, none, some, List, [], ◌∷◌, ◌++◌, arith, Text,
  ◌≤◌, ◌-◌, ◌<◌, ◌⊎◌, ◌*◌, map,
}
use docsis_monitor.Relays.Tally.{requests_in, replies_in, IsTallied}
use docsis_monitor.Capture.Counted.{packets}
use docsis_monitor.Relays.Table.{default}
use docsis_monitor.Alarm.Said.{Observation, observe, IsInformed}
use docsis_monitor.Capture.Quiet.{elsewhere, loop-quiet}
use docsis_monitor.Snmp.Reader.{read_message}
use docsis_monitor.Packet.Headers.{IpAddr}
use docsis_monitor.Capture.Lines.{local_stamp}
use docsis_monitor.Alarm.Repeats.{Repeats}
use docsis_monitor.Capture.Decide.{build, judge_each}
use docsis_monitor.Relays.Valid.{IsValid}
use docsis_monitor.Counters.Counted.{window_spec}
use docsis_monitor.Capture.Handed.{IsTold, LastIsTold}
use docsis_monitor.Capture.Judged.{judged}
use docsis_monitor.Capture.Alert.{send-build, alert_of}
use docsis_monitor.Alarm.Judge.{State, worst}
use docsis_monitor.Capture.Heard.{first_lines, loop-report}
use docsis_monitor.Snmp.Send.{Net}
use docsis_monitor.Capture.Outage.{worst-loop}
use docsis_monitor.Capture.Sample.{
  plant, host, ticks, late, watched, one_request, no_reply, one_packet, clock_ticks, forward_ticks,
}
use docsis_monitor.Snmp.Trap.{Trap, encode}
use docsis_monitor.Capture.Adapted.{adapted, worst-suggest}
use docsis_monitor.Capture.Announced.{last_said, so_far, printed, round-quiet, round-IsInformed}
use docsis_monitor.Alarm.Severity.{severity}
use docsis_monitor.Capture.Verdicts.{verdict_on, plant_state, worst-verdict_on}
use docsis_monitor.Relays.Waiting.{few-HasRoom}

loop-IsTallied_example :
    (watched.relays ≡ docsis_monitor.Relays.Events.run default (events (used none 1_000 ticks)))
    × IsTallied
        (requests_in (events (used none 1_000 ticks)))
        (replies_in (events (used none 1_000 ticks)))
        watched.relays
    × IsValid watched.relays
loop-IsTallied_example =
    loop-IsTallied exact plant none 1_000 none ticks (omega (arith, one_request))
      (omega (arith, no_reply))

loop-report_example :
    (rest : List Text) × ((report exact host plant watched.relays 1_100 1_000 watched.counts
        watched.repeats).lines
      ≡ first_lines exact
          (local_stamp host.zoned 1_100)
          plant.window
          (window_spec 800 (packets (used none 1_000 ticks) []))
          (worst (
            judge_each exact
              (docsis_monitor.Relays.Events.run default (events (used none 1_000 ticks)))
              plant
              1_100))
        ∷ rest)
loop-report_example =
    loop-report exact plant none 1_000 none ticks host 1_100 forward_ticks
      (omega (arith, one_packet)) (omega (arith, clock_ticks))

abbrev alerts : List Observation × Repeats
alerts =
    let r =
      observe (docsis_monitor.Alarm.Repeats.new 900) []
        (judged exact plant default (report_after 60 1_000) (used none 1_000 ticks)) in
    (r.1, r.0)

-- Another host, where everything that is sent arrives.
abbrev reached : World → World
reached w = record w {
  net = record w.net { resolve = λ name port. ok (IpAddr.v4 0x0a000009 ∷ []) };
}

loop-quiet_example :
    ((loop exact plant (some 5) 1_000 none (elsewhere reached ticks) watched).0
      ≡ (loop exact plant (some 5) 1_000 none ticks watched).0)
    × ((loop exact plant (some 5) 1_000 none (elsewhere reached ticks) watched).1
        ≡ (loop exact plant (some 5) 1_000 none ticks watched).1)
    × ((loop exact plant (some 5) 1_000 none ticks watched).0.repeats ≡ watched.repeats)
loop-quiet_example =
    loop-quiet exact plant 1_000 reached (λ w. refl) (some 5) none ticks watched refl

abbrev quiet_trap : Trap
quiet_trap =
    build exact none plant State.quiet
      (record { requests = 1; replies = 0; tftp_reads = 0; tftp_sends = 0 }) 1_065 1_000
      (codes "none")

length-quiet_trap : length (encode (codes "public") quiet_trap) ≤ 1_000
unfolding encode build
length-quiet_trap = omega arith

abbrev receiver : Target
receiver = record { host = codes "nms"; port = 162; community = codes "public" }

abbrev answered_net : Net
answered_net = (reached host).net

sent-quiet_trap : docsis_monitor.Snmp.Send.send answered_net receiver quiet_trap ≡ ok tt
unfolding docsis_monitor.Snmp.Send.send
sent-quiet_trap = refl

send-build_example :
    (to : IpAddr) × (others : List IpAddr) × (datagram : List ℕ) × (answered_net.resolve
        (codes "nms")
        162
      ≡ ok (to ∷ others))
    × (answered_net.send_to to 162 datagram ≡ ok tt)
    × (read_message datagram
        ≡ some (
            alert_of
              (codes "public")
              (codes "head-end")
              plant.interface
              State.quiet
              1
              0
              0
              plant.window
              (codes "none")
              6_500))
send-build_example =
    send-build exact answered_net receiver none plant State.quiet
      (record { requests = 1; replies = 0; tftp_reads = 0; tftp_sends = 0 }) 1_065 1_000
      (codes "none") sent-quiet_trap (omega (arith, length-quiet_trap))

loop-due_example :
    (report_times exact plant none 1_000 (used none 1_000 ticks) (start exact plant none 1_000)
      ≡ due 60 1_060 (used none 1_000 ticks))
    × IsEvery 60 1_060
        (report_times exact plant none 1_000 (used none 1_000 ticks) (start exact plant none 1_000))
    × ((loop exact plant none 1_000 none ticks (start exact plant none 1_000)).0.next_report
        ≡ due_next 60 1_060 (
            report_times exact plant none 1_000
              (used none 1_000 ticks)
              (start exact plant none 1_000)))
    × IsAhead
        (used none 1_000 ticks)
        (loop exact plant none 1_000 none ticks (start exact plant none 1_000)).0.next_report
unfolding docsis_monitor.Capture.Watch.is_over
loop-due_example = loop-due exact plant none 1_000 none ticks (omega arith) (ground arith)

run-returns_example :
    (run exact plant (some 100) none 1_000 ticks ≡ (
      banner exact plant none
          ++ (loop exact plant none 1_000 (some 100) ticks (start exact plant none 1_000)).1,
      false,
    ))
    × (run exact plant (some 100) none 1_000 (ticks ++ late ∷ []) ≡ (
      banner exact plant none
          ++ ((loop exact plant none 1_000 (some 100) ticks (start exact plant none 1_000)).1
              ++ closing none
                  (loop exact plant none 1_000 (some 100) ticks (start exact plant none 1_000)).0),
      true,
    ))
unfolding deadline
run-returns_example =
    run-returns exact plant (some 100) none 1_000 100 ticks late [] refl (ground arith)
      (omega arith)

-- The one relay was heard of at 1001, and may be silent for an hour.
worst-loop_example :
    worst (
      judge_each exact
        (loop exact plant none 1_000 none ticks (start exact plant none 1_000)).0.relays
        plant
        4_700)
    ≡ State.quiet
unfolding docsis_monitor.Packet.Read.read docsis_monitor.Packet.Headers.ethernet
    docsis_monitor.Packet.Headers.ipv4 docsis_monitor.Packet.Headers.udp
    docsis_monitor.Packet.Classify.classify docsis_monitor.Capture.Watch.is_over
    docsis_monitor.Config.Settings.idle_seconds docsis_monitor.Packet.Classify.giaddr
    docsis_monitor.OrdMap.lookup
worst-loop_example =
    (worst-loop exact plant 4_700 none 1_000 none ticks).1 (0x0a010001, 1_001, refl, omega arith)

-- An adaptation saw relay 10.1.0.1 silent for 400 seconds, which allows it 1200.
abbrev seen_twice : List docsis_monitor.Relays.Events.Event
seen_twice =
    docsis_monitor.Relays.Events.request_seen (some 0x0a010001) none 100 100_000
    ∷ docsis_monitor.Relays.Events.request_seen (some 0x0a010001) none 500 500_000
    ∷ []

worst-suggest_example :
    worst (
      judge_each exact
        (docsis_monitor.Relays.Events.run default seen_twice)
        (adapted exact plant 1_701 seen_twice 3_600)
        1_701)
    ≡ State.quiet
worst-suggest_example =
    (worst-suggest exact plant 1_701 3_600 501 seen_twice seen_twice
        ((omega arith, omega arith), ((omega arith, omega arith), tt)) (omega arith)
        ((omega arith, omega arith), ((omega arith, omega arith), tt))).1
      (0x0a010001, 500, refl, omega arith)

-- A round long after the last frame.
abbrev long_after : Tick
long_after = record { top = 4_999; world = host; reading = timed_out; after = 5_000 }

next_report-ticks :
    (loop exact plant none 1_000 none ticks (start exact plant none 1_000)).0.next_report ≤ 5_000
unfolding docsis_monitor.Capture.Watch.is_over report_after
next_report-ticks =
    let d = loop-due exact plant none 1_000 none ticks (omega arith) (ground arith) in
    omega (arith, d.2 ∙ ap (due_next 60 1_060) d.0)

round-quiet_example :
    (when : ℕ) × (last_said exact plant 1_000 none ticks long_after ≡ some (State.quiet, when))
    × ((when ≡ 5_000) ⊎ (5_000 - when < 900))
    × IsTold exact plant 1_000
        (so_far exact plant 1_000 none ticks long_after)
        (printed exact plant 1_000 none ticks long_after)
        (State.quiet, when)
unfolding docsis_monitor.Packet.Read.read docsis_monitor.Packet.Headers.ethernet
    docsis_monitor.Packet.Headers.ipv4 docsis_monitor.Packet.Headers.udp
    docsis_monitor.Packet.Classify.classify docsis_monitor.Capture.Watch.is_over
    docsis_monitor.Config.Settings.idle_seconds docsis_monitor.Packet.Classify.giaddr
    docsis_monitor.OrdMap.lookup docsis_monitor.Capture.Decide.has_receiver
round-quiet_example =
    (round-quiet exact plant 1_000 none ticks long_after refl next_report-ticks).0
      (0x0a010001, 1_001, refl, omega arith)

-- Six requests of one relay in ten minutes, none of them answered.
abbrev unanswered_six : List docsis_monitor.Relays.Events.Event
unanswered_six =
    map
      (λ (t : ℕ).
        docsis_monitor.Relays.Events.request_seen (some 0x0a010001) (some t) t (t * 1_000))
      (100 ∷ 200 ∷ 300 ∷ 400 ∷ 500 ∷ 600 ∷ [])

worst-verdict_on_example :
    ((g : ℕ)
      → severity (verdict_on exact plant 700 unanswered_six g)
        ≤ severity (plant_state exact plant 700 unanswered_six))
    × ((plant_state exact plant 700 unanswered_six ≡ State.working)
        ⊎ ((g : ℕ) × (verdict_on exact plant 700 unanswered_six g
              ≡ plant_state exact plant 700 unanswered_six)))
worst-verdict_on_example =
    worst-verdict_on exact plant 700 unanswered_six (ground arith)
      (few-HasRoom unanswered_six default (omega arith)) tt (omega arith) (omega arith)

verdict_on-six : verdict_on exact plant 700 unanswered_six 0x0a010001 ≡ State.unanswered
unfolding docsis_monitor.Config.Settings.idle_seconds docsis_monitor.OrdMap.lookup
verdict_on-six = refl

round-IsInformed_example :
    (IsInformed plant.thresholds.resend_after
      (worst (
        judge_each exact
          (docsis_monitor.Relays.Events.run default
            (events (used none 1_000 ticks) ++ reading_events long_after.reading))
          plant
          5_000))
      5_000
      (last_said exact plant 1_000 none ticks long_after))
    × LastIsTold exact plant 1_000
        (so_far exact plant 1_000 none ticks long_after)
        (printed exact plant 1_000 none ticks long_after)
        (last_said exact plant 1_000 none ticks long_after)
unfolding docsis_monitor.Capture.Decide.has_receiver
round-IsInformed_example =
    round-IsInformed exact plant 1_000 refl none ticks long_after next_report-ticks
