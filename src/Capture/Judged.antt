-- ===== src/Capture/Judged.antt =====
-- What the loop of capture.rs judges, and what it remembers of it.
use docsis_monitor.Capture.Due.{take_reading-kept, round-next_report}
use docsis_monitor.Relays.Events
use docsis_monitor.Capture.Watch.{take_reading}
use docsis_monitor.Alarm.Said.{observe, Observation}
use docsis_monitor.Alarm.Repeats.{Repeats, should_send}
use docsis_monitor.Capture.Decide.{has_receiver, should_tell, judge_each}
use docsis_monitor.Capture.Watch.{
  Tick, Watch, report_after, loop, is_over, round, finish, say_something,
}
use docsis_monitor.Base.{
  leb, if◌then◌else◌, Bool-cases, ℕ, ◌≡◌, refl, inl, inr, true, none, List, [], ◌∷◌, ap, ◌∙◌, Bool,
  false,
}
use docsis_monitor.Relays.Events.{run as run_events}
use docsis_monitor.Float.{Floats}
use docsis_monitor.Config.Settings.{Config}
use docsis_monitor.Relays.Table.{Relays}
use docsis_monitor.Alarm.Judge.{worst}
use docsis_monitor.Capture.Events.{reading_events, take_reading-relays, round-relays}
use docsis_monitor.Capture.Report.{report, World}
use docsis_monitor.Counters.Window.{Counters}

-- What the reports judge: the worst verdict at each of these times, on the tables as the frames so
-- far left them.
abbrev pub judged : (f : Floats) → Config f → Relays → ℕ → List Tick → List Observation
judged f cfg relays next [] = []
judged f cfg relays next (t ∷ ts) =
    let r = docsis_monitor.Relays.Events.run relays (reading_events t.reading) in
    if leb next t.after
    then (worst (judge_each f r cfg t.after), t.after)
      ∷ judged f cfg r (report_after cfg.report_every t.after) ts
    else judged f cfg r next ts

-- What is said before some observations does not change the memory after them.
observe-sent :
    (r : Repeats) (sent sent' obs : List Observation)
    → (observe r sent obs).0 ≡ (observe r sent' obs).0
unfolding observe
observe-sent r sent sent' [] = refl
observe-sent r sent sent' ((state, now) ∷ obs) = observe-sent (should_send r state now).0 _ _ obs

module _ (f : Floats) (cfg : Config f) (began : ℕ) (receiver : has_receiver f cfg ≡ true) where
  report-repeats :
      (world : World) (relays : Relays) (at : ℕ) (c : Counters) (r : Repeats)
      → (report f world cfg relays at began c r).repeats
        ≡ (should_send r (worst (judge_each f relays cfg at)) at).0
  unfolding report should_tell
  report-repeats world relays at c r = rw receiver refl

  finish-repeats :
      (world : World) (at : ℕ) (w : Watch)
      → (finish f cfg none began world at w).0.repeats ≡ (
          if leb w.next_report at
          then (should_send w.repeats (worst (judge_each f w.relays cfg at)) at).0
          else w.repeats)
  unfolding finish say_something
  finish-repeats world at w = elim (Bool-cases (leb w.next_report at)) [
    | inl h ↦ rw h (report-repeats world w.relays at w.counts w.repeats)
    | inr h ↦ rw h refl
  ]

  pub round-repeats :
      (t : Tick) (w : Watch)
      → (round f cfg none began t w).0.repeats ≡ (
          if leb w.next_report t.after
          then (should_send w.repeats
              (worst (
                judge_each f
                  (docsis_monitor.Relays.Events.run w.relays (reading_events t.reading))
                  cfg
                  t.after))
              t.after).0
          else w.repeats)
  unfolding round
  round-repeats t w = cc (
    finish-repeats t.world t.after (take_reading t.reading w).0,
    take_reading-relays t.reading w,
    (take_reading-kept t.reading w).0,
    (take_reading-kept t.reading w).1,
  )

  pub all-observe :
      (ts : List Tick) (w : Watch)
      → (loop f cfg none began none ts w).0.repeats
        ≡ (observe w.repeats [] (judged f cfg w.relays w.next_report ts)).0
  unfolding loop is_over observe
  all-observe [] w = refl
  all-observe (t ∷ ts) w =
      let v = (round f cfg none began t w).0 in
      let r = docsis_monitor.Relays.Events.run w.relays (reading_events t.reading) in
      let state = worst (judge_each f r cfg t.after) in
      let next = report_after cfg.report_every t.after in
      let told = (should_send w.repeats state t.after).0 in
      let rest = λ (tables : Relays) (n : ℕ) (said : Repeats).
        (observe said [] (judged f cfg tables n ts)).0 in
      let tables = round-relays f cfg none began t w in
      let moved = λ (b : Bool) (h : leb w.next_report t.after ≡ b). all-observe ts v ∙ λ i.
      rest (tables i)
        ((round-next_report f cfg none began t w
            ∙ ap (λ (x : Bool). if x then next else w.next_report) h)
          i)
        ((round-repeats t w ∙ ap (λ (x : Bool). if x then told else w.repeats) h) i) in
      elim (Bool-cases (leb w.next_report t.after)) [
        | inl h ↦ rw h (moved true h ∙ observe-sent told [] _ (judged f cfg r next ts))
        | inr h ↦ rw h (moved false h)
      ]
