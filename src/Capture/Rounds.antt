-- ===== src/Capture/Rounds.antt =====
-- What the rounds of capture.rs print, and when they report.
use docsis_monitor.Capture.Due.{
  due, IsEvery, AreEarly, report_after_early, due-IsEvery, take_reading-kept, round-next_report,
  due_next, all-due, IsAhead, due-IsAhead,
}
use docsis_monitor.Capture.Report.{report, tell}
use docsis_monitor.Capture.Lines.{heading, per_relay_lines, flow_lines}
use docsis_monitor.Capture.Decide.{busiest}
use docsis_monitor.Counters.Window.{window}
use mathlib.Core.Path.{subst}
use docsis_monitor.Capture.Watch.{take_reading, start}
use docsis_monitor.Capture.Watch.{Tick, Watch, report_after, loop, round, finish, say_something}
use docsis_monitor.Base.{
  Text, ◌++◌, ltb, length, true, Bool, u64_mod, leb, if◌then◌else◌, Bool-cases, ℕ, ◌+◌, ◌<◌, max,
  ◌≡◌, refl, inl, inr, none, List, [], ◌∷◌, sym, ap, ◌∙◌, Option, some, arith, false,
}
use docsis_monitor.Base.Lists.{length-append}
use docsis_monitor.Alarm.Judge.{worst}
use docsis_monitor.Capture.Decide.{judge_each, should_tell}
use docsis_monitor.Relays.Table.{Relays}
use docsis_monitor.Counters.Window.{Counters}
use docsis_monitor.Alarm.Repeats.{Repeats}
use docsis_monitor.Float.{Floats}
use docsis_monitor.Config.Settings.{Config}
use docsis_monitor.Capture.Events.{used, loop-used}
use docsis_monitor.Capture.Report.{World}

module _ (f : Floats) where
  -- The lines of a report that it prints whether somebody is told or not.
  abbrev pub plain_lines : World → Config f → Relays → ℕ → Counters → List Text
  plain_lines world cfg relays at c =
      let (c1, w) = window at c in
      let verdicts = judge_each f relays cfg at in
      heading f world.zoned cfg w (worst verdicts) at
      ∷ (per_relay_lines relays verdicts at ++ (flow_lines at c1).1)

  -- What an alert at the end of a report would call the busiest flow.
  abbrev pub busiest_then : ℕ → Counters → Text
  busiest_then at c = (busiest at (flow_lines at (window at c).0).0).1

  pub report-lines :
      (world : World) (cfg : Config f) (relays : Relays) (at began : ℕ) (c : Counters) (r : Repeats)
      → (report f world cfg relays at began c r).lines ≡ (
          if (should_tell f cfg r (worst (judge_each f relays cfg at)) at).1
          then plain_lines world cfg relays at c
            ++ tell f world cfg
                (worst (judge_each f relays cfg at))
                (window at c).1
                at
                began
                (busiest_then at c)
          else plain_lines world cfg relays at c)
  unfolding report
  report-lines world cfg relays at began c r = refl

either-prints :
    (b : Bool) (x : Text) (l m : List Text)
    → ltb 0 (length (if b then (x ∷ l) ++ m else x ∷ l)) ≡ true
either-prints true x l m = ground arith
either-prints false x l m = ground arith

ltb-length-append : (a b : List Text) → ltb (length a) (length (a ++ b)) ≡ ltb 0 (length b)
ltb-length-append a b = rw (length-append a b) (elim (Bool-cases (ltb 0 (length b))) [
  | inl h ↦ rw h (ground (arith, h))
  | inr h ↦ rw h (ground (arith, h))
])

module _ (f : Floats) (cfg : Config f) (adaptation : Option ℕ) (began : ℕ) where
  -- Whether a round prints more than its reading does.
  abbrev pub prints : Tick → Watch → Bool
  prints t w =
      ltb (length (take_reading t.reading w).1) (length (round f cfg adaptation began t w).1)

  -- The times of the rounds that report: those that print more than their reading does.
  abbrev pub report_times : List Tick → Watch → List ℕ
  report_times [] w = []
  report_times (t ∷ ts) w =
      let later = report_times ts (round f cfg adaptation began t w).0 in
      if prints t w then t.after ∷ later else later

  report-prints :
      (world : World) (relays : Relays) (at : ℕ) (c : Counters) (r : Repeats)
      → ltb 0 (length (report f world cfg relays at began c r).lines) ≡ true
  report-prints world relays at c r =
      ap (λ (l : List Text). ltb 0 (length l)) (report-lines f world cfg relays at began c r)
      ∙ either-prints (should_tell f cfg r (worst (judge_each f relays cfg at)) at).1
          (heading f world.zoned cfg (window at c).1 (worst (judge_each f relays cfg at)) at)
          (per_relay_lines relays (judge_each f relays cfg at) at
            ++ (flow_lines at (window at c).0).1)
          (tell f world cfg (worst (judge_each f relays cfg at)) (window at c).1 at began
            (busiest_then f at c))

  say_something-prints :
      (world : World) (at : ℕ) (w : Watch)
      → ltb 0 (length (say_something f cfg adaptation began world at w).1) ≡ true
  unfolding say_something
  say_something-prints world at w =
      elim adaptation as (λ a. ltb 0 (length (say_something f cfg a began world at w).1) ≡ true) [
        | none ↦ report-prints world w.relays at w.counts w.repeats
        | some _ ↦ refl
      ]

  finish-prints :
      (world : World) (at : ℕ) (w : Watch)
      → ltb 0 (length (finish f cfg adaptation began world at w).1) ≡ leb w.next_report at
  unfolding finish
  finish-prints world at w = elim (Bool-cases (leb w.next_report at)) [
    | inl h ↦ rw h (
        say_something-prints world at (record w { next_report = report_after cfg.report_every at }))
    | inr h ↦ rw h refl
  ]

  prints-due : (t : Tick) (w : Watch) → prints t w ≡ leb w.next_report t.after
  unfolding round
  prints-due t w =
      ltb-length-append (take_reading t.reading w).1
        (finish f cfg adaptation began t.world t.after (take_reading t.reading w).0).1
      ∙ finish-prints t.world t.after (take_reading t.reading w).0
      ∙ ap (λ (n : ℕ). leb n t.after) (take_reading-kept t.reading w).0

  -- The rounds that report are those in which a report is due.
  report_times-due :
      (ts : List Tick) (w : Watch) → report_times ts w ≡ due cfg.report_every w.next_report ts
  report_times-due [] w = refl
  report_times-due (t ∷ ts) w =
      let later = report_times-due ts (round f cfg adaptation began t w).0 in
      elim (Bool-cases (leb w.next_report t.after)) [
        | inl h ↦
            rw (prints-due t w, h)
              (ap (λ (l : List ℕ). t.after ∷ l)
                (later
                  ∙ ap (λ (n : ℕ). due cfg.report_every n ts)
                      (round-next_report f cfg adaptation began t w
                        ∙ ap
                            (λ (b : Bool).
                              if b then report_after cfg.report_every t.after else w.next_report)
                            h)))
        | inr h ↦
            rw (prints-due t w, h)
              (later
                ∙ ap (λ (n : ℕ). due cfg.report_every n ts)
                    (round-next_report f cfg adaptation began t w
                      ∙ ap
                          (λ (b : Bool).
                            if b then report_after cfg.report_every t.after else w.next_report)
                          h))
      ]

module _ (f : Floats) (cfg : Config f) (adaptation : Option ℕ) (began : ℕ) where
  -- For clocks that stay so far below 2^64 that no sum overflows: the rounds that report, which are
  -- those that print more than their reading does, are never less than `report_every` seconds apart
  -- (one second, if that is 0), the first of them counted from the start; they are the first rounds
  -- at which the clock has come that far; the next is due that long after the latest; and after a
  -- round the clock has not reached it, so that a report that is due is never put off.
  pub loop-due :
      (limit : Option ℕ) (ts : List Tick)
      → began + max cfg.report_every 1 < u64_mod
      → AreEarly cfg.report_every (used limit began ts)
      → let first = began + max cfg.report_every 1 in
        let times =
          report_times f cfg adaptation began
            (used limit began ts)
            (start f cfg adaptation began) in
        let next =
          (loop f cfg adaptation began limit ts (start f cfg adaptation began)).0.next_report in
        (times ≡ due cfg.report_every first (used limit began ts))
        × IsEvery (max cfg.report_every 1) first times
        × (next ≡ due_next (max cfg.report_every 1) first times)
        × IsAhead (used limit began ts) next
  unfolding start
  loop-due limit ts room early =
      let us = used limit began ts in
      let first = began + max cfg.report_every 1 in
      let every = max cfg.report_every 1 in
      let w = start f cfg adaptation began in
      let opens = report_after_early cfg.report_every began room in
      let times : report_times f cfg adaptation began us w ≡ due cfg.report_every first us =
        report_times-due f cfg adaptation began us w
        ∙ ap (λ (n : ℕ). due cfg.report_every n us) opens in
      let next =
        ap (λ (v : Watch). v.next_report) (loop-used f cfg adaptation began limit ts w)
        ∙ all-due f cfg adaptation began us w early
        ∙ ap (λ (n : ℕ). due_next every n (due cfg.report_every n us)) opens in
      (
        times,
        subst (IsEvery every first) (sym times) (due-IsEvery cfg.report_every first us early),
        next ∙ ap (due_next every first) (sym times),
        subst (IsAhead us) (sym next) (due-IsAhead cfg.report_every first us early),
      )
