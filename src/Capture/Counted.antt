-- ===== src/Capture/Counted.antt =====
-- The loop of capture.rs against the counters of counters.rs: whatever is reported in between, they
-- hold the packets of the frames that were read.
use mathlib.Core.Path.{subst}
use docsis_monitor.Packet.Read.{Seen, read}
use docsis_monitor.Counters.History.{Packet}
use docsis_monitor.Counters.Counted.{IsCounted, expire-IsCounted, add-IsCounted, later-IsCounted}
use docsis_monitor.Counters.Window.{Counters, expire, window}
use docsis_monitor.Counters.Sort.{by_flow}
use docsis_monitor.Capture.Decide.{busiest, judge_each, should_tell}
use docsis_monitor.Capture.Lines.{flow_lines, progress}
use docsis_monitor.Capture.Report.{World, report}
use docsis_monitor.Capture.Watch.{
  Tick, Reading, frame, timed_out, failed, flow_of, note_seen, take_reading, Watch, say_something,
  finish, round, loop, report_after, is_over,
}
use docsis_monitor.Base.{
  u64_mod, length, ℕ, ◌≤◌, ◌<◌, Option, none, some, List, [], ◌∷◌, arith, leb, Bool-cases, inl, inr,
  sym,
}
use docsis_monitor.Float.{Floats}
use docsis_monitor.Config.Settings.{Config}
use docsis_monitor.Relays.Table.{Relays}
use docsis_monitor.Alarm.Repeats.{Repeats}
use docsis_monitor.Capture.Events.{used, loop-used}
use docsis_monitor.Alarm.Judge.{worst}

abbrev pub seen_packets : ℕ → Option Seen → List Packet → List Packet
seen_packets at none h = h
seen_packets at (some seen) h = record { kind = seen.kind; flow = flow_of seen; at = at } ∷ h

-- The packets after a reading, and after the ticks of a loop, latest first.
abbrev pub reading_packets : Reading → List Packet → List Packet
reading_packets (frame bytes at at_ms) h = seen_packets at (read bytes) h
reading_packets timed_out h = h
reading_packets (failed why) h = h

abbrev pub packets : List Tick → List Packet → List Packet
packets [] h = h
packets (t ∷ ts) h = packets ts (reading_packets t.reading h)

-- The clock does not go back, from `now` on and within a tick.
abbrev pub IsForward : ℕ → Reading → ℕ → Type 0
IsForward now (frame bytes at at_ms) after = (now ≤ at) × (at ≤ after)
IsForward now timed_out after = now ≤ after
IsForward now (failed why) after = now ≤ after

abbrev pub AreForward : ℕ → List Tick → Type 0
AreForward now [] = Unit {0}
AreForward now (t ∷ ts) = IsForward now t.reading t.after × AreForward t.after ts

-- The clock after the ticks.
abbrev pub last_clock : ℕ → List Tick → ℕ
last_clock now [] = now
last_clock now (t ∷ ts) = last_clock t.after ts

seen-IsCounted :
    (w now at at_ms : ℕ) (s : Option Seen) (h : List Packet) (v : Watch)
    → now ≤ at
    → length (seen_packets at s h) < u64_mod
    → IsCounted w now h v.counts
    → IsCounted w at (seen_packets at s h) (note_seen at at_ms s v).counts
unfolding note_seen
seen-IsCounted w now at at_ms none h v later room t = later-IsCounted w now at h v.counts later t
seen-IsCounted w now at at_ms (some seen) h v later room t =
    add-IsCounted w (record { kind = seen.kind; flow = flow_of seen; at = at }) h v.counts
      (omega arith) (later-IsCounted w now at h v.counts later t)

take_reading-IsCounted :
    (w now after : ℕ) (rd : Reading) (h : List Packet) (v : Watch)
    → IsForward now rd after
    → length (reading_packets rd h) < u64_mod
    → IsCounted w now h v.counts
    → IsCounted w after (reading_packets rd h) (take_reading rd v).0.counts
unfolding take_reading
take_reading-IsCounted w now after (frame bytes at at_ms) h v fw room t =
    later-IsCounted w at after _ _ fw.1 (seen-IsCounted w now at at_ms (read bytes) h v fw.0 room t)
take_reading-IsCounted w now after timed_out h v fw room t =
    later-IsCounted w now after h v.counts fw t
take_reading-IsCounted w now after (failed why) h v fw room t =
    later-IsCounted w now after h v.counts fw t

length-seen-le :
    (at : ℕ) (s : Option Seen) (h : List Packet) → length h ≤ length (seen_packets at s h)
length-seen-le at none h = omega arith
length-seen-le at (some seen) h = omega arith

length-reading-le : (rd : Reading) (h : List Packet) → length h ≤ length (reading_packets rd h)
length-reading-le (frame bytes at at_ms) h = length-seen-le at (read bytes) h
length-reading-le timed_out h = omega arith
length-reading-le (failed why) h = omega arith

length-packets-le : (ts : List Tick) (h : List Packet) → length h ≤ length (packets ts h)
length-packets-le [] h = omega arith
length-packets-le (t ∷ ts) h =
    omega (arith, length-reading-le t.reading h, length-packets-le ts (reading_packets t.reading h))

module _ (f : Floats) (cfg : Config f) (adaptation : Option ℕ) (began : ℕ) where
  -- A report expires the counters, and does no more to them.
  report-IsCounted :
      (world : World) (relays : Relays) (w at : ℕ) (h : List Packet) (c : Counters) (r : Repeats)
      → IsCounted w at h c
      → IsCounted w at h (report f world cfg relays at began c r).counts
  unfolding report window flow_lines busiest by_flow
  report-IsCounted world relays w at h c r t =
      let again = λ (c' : Counters) (t' : IsCounted w at h c').
        expire-IsCounted w at at h c' (omega arith) t' in
      let t2 = again (expire at c) (again c t) in
      let state = worst (judge_each f relays cfg at) in
      elim (Bool-cases (should_tell f cfg r state at).1) [
        | inl telling ↦ rw telling (again (expire at (expire at c)) t2)
        | inr silent ↦ rw silent t2
      ]

  say_something-IsCounted :
      (world : World) (w at : ℕ) (h : List Packet) (v : Watch)
      → IsCounted w at h v.counts
      → IsCounted w at h (say_something f cfg adaptation began world at v).0.counts
  unfolding say_something progress window
  say_something-IsCounted world w at h v t =
      elim adaptation as (λ a. IsCounted w at h (say_something f cfg a began world at v).0.counts) [
        | none ↦ report-IsCounted world v.relays w at h v.counts v.repeats t
        | some _ ↦ expire-IsCounted w at at h v.counts (omega arith) t
      ]

  finish-IsCounted :
      (world : World) (w at : ℕ) (h : List Packet) (v : Watch)
      → IsCounted w at h v.counts
      → IsCounted w at h (finish f cfg adaptation began world at v).0.counts
  unfolding finish
  finish-IsCounted world w at h v t = elim (Bool-cases (leb v.next_report at)) [
    | inl due ↦ rw due (
        say_something-IsCounted world w at h
          (record v { next_report = report_after cfg.report_every at }) t)
    | inr later ↦ rw later t
  ]

  round-IsCounted :
      (w now : ℕ) (t : Tick) (h : List Packet) (v : Watch)
      → IsForward now t.reading t.after
      → length (reading_packets t.reading h) < u64_mod
      → IsCounted w now h v.counts
      → IsCounted w t.after
          (reading_packets t.reading h)
          (round f cfg adaptation began t v).0.counts
  unfolding round
  round-IsCounted w now t h v fw room c =
      finish-IsCounted t.world w t.after (reading_packets t.reading h) (take_reading t.reading v).0
        (take_reading-IsCounted w now t.after t.reading h v fw room c)

  all-IsCounted :
      (w now : ℕ) (ts : List Tick) (h : List Packet) (v : Watch)
      → AreForward now ts
      → length (packets ts h) < u64_mod
      → IsCounted w now h v.counts
      → IsCounted w
          (last_clock now ts)
          (packets ts h)
          (loop f cfg adaptation began none ts v).0.counts
  unfolding loop is_over
  all-IsCounted w now [] h v fw room c = c
  all-IsCounted w now (t ∷ ts) h v fw room c =
      let h1 = reading_packets t.reading h in
      all-IsCounted w t.after ts h1 (round f cfg adaptation began t v).0 fw.1 room
        (round-IsCounted w now t h v fw.0 (omega (arith, room, length-packets-le ts h1)) c)

  pub loop-IsCounted :
      (limit : Option ℕ) (w now : ℕ) (ts : List Tick) (h : List Packet) (v : Watch)
      → AreForward now (used limit began ts)
      → length (packets (used limit began ts) h) < u64_mod
      → IsCounted w now h v.counts
      → IsCounted w
          (last_clock now (used limit began ts))
          (packets (used limit began ts) h)
          (loop f cfg adaptation began limit ts v).0.counts
  loop-IsCounted limit w now ts h v fw room c =
      subst
        (λ (u : Watch).
          IsCounted w (last_clock now (used limit began ts)) (packets (used limit began ts) h)
            u.counts)
        (sym (loop-used f cfg adaptation began limit ts v))
        (all-IsCounted w now (used limit began ts) h v fw room c)
