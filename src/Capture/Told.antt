-- ===== src/Capture/Told.antt =====
-- What the loop of capture.rs has said.
use docsis_monitor.Capture.Judged.{judged, round-repeats, all-observe}
use docsis_monitor.Capture.Due.{round-next_report}
use docsis_monitor.Alarm.Repeats.{new}
use docsis_monitor.Capture.Watch.{start}
use docsis_monitor.Alarm.Said.{
  observe, Observation, head_said, AllSpaced, observe-head_said, observe-AllSpaced,
}
use docsis_monitor.Alarm.Repeats.{Repeats, should_send}
use docsis_monitor.Capture.Decide.{has_receiver, judge_each}
use docsis_monitor.Capture.Watch.{Tick, Watch, report_after, loop, is_over, round}
use docsis_monitor.Base.{
  All, Text, ◌++◌, some, sym, leb, if◌then◌else◌, Bool-cases, ℕ, ◌≡◌, refl, inl, inr, true, none,
  List, [], ◌∷◌, ap, ◌∙◌, Option, Bool, false,
}
use docsis_monitor.Capture.Handed.{rounds, IsTold, LastIsTold-mono, round-IsTold}
use docsis_monitor.Relays.Events.{run as run_events}
use mathlib.Core.Path.{subst}
use mathlib.Core.List.{Mem, mem-cons_of_mem, mem-append_left, mem-append_right}
use docsis_monitor.Float.{Floats}
use docsis_monitor.Config.Settings.{Config}
use docsis_monitor.Relays.Table.{default}
use docsis_monitor.Alarm.Judge.{worst}
use docsis_monitor.Capture.Events.{reading_events, round-relays, used, loop-used}

module _ (f : Floats) (cfg : Config f) (began : ℕ) (receiver : has_receiver f cfg ≡ true)
    (whole : List (Tick × Watch)) (said : List Text) where
  -- What is sent after one more judgement was told, if the judgement is told when it is sent.
  sent-IsTold :
      (due : Bool) (o : Observation) (sent : List Observation)
      → (due ≡ true → IsTold f cfg began whole said o)
      → All (IsTold f cfg began whole said) sent
      → All (IsTold f cfg began whole said) (if due then o ∷ sent else sent)
  sent-IsTold true o sent now before = (now refl, before)
  sent-IsTold false o sent now before = before

  all-IsTold :
      (ts : List Tick) (w : Watch) (sent : List Observation)
      → ((r : Tick × Watch) → Mem r (rounds f cfg began ts w) → Mem r whole)
      → ((x : Text) → Mem x (loop f cfg none began none ts w).1 → Mem x said)
      → All (IsTold f cfg began whole said) sent
      → All
          (IsTold f cfg began whole said)
          (observe w.repeats sent (judged f cfg w.relays w.next_report ts)).1
  unfolding loop is_over observe
  all-IsTold [] w sent ticks lines before = before
  all-IsTold (t ∷ ts) w sent ticks lines before =
      let v = (round f cfg none began t w).0 in
      let printed = (round f cfg none began t w).1 in
      let r = run_events w.relays (reading_events t.reading) in
      let state = worst (judge_each f r cfg t.after) in
      let next = report_after cfg.report_every t.after in
      let step = should_send w.repeats state t.after in
      let tables = round-relays f cfg none began t w in
      let later = λ (sent' : List Observation) (b : All (IsTold f cfg began whole said) sent').
        all-IsTold ts v sent' (λ x m. ticks x (mem-cons_of_mem (t, w) m))
          (λ x m. lines x (mem-append_right printed m)) b in
      elim (Bool-cases (leb w.next_report t.after)) [
        | inl over ↦ rw over (
            subst (All (IsTold f cfg began whole said))
              (λ i.
                (observe
                  ((round-repeats f cfg began receiver t w
                      ∙ ap (λ (b : Bool). if b then step.0 else w.repeats) over)
                    i)
                  (if step.1 then (state, t.after) ∷ sent else sent)
                  (judged f cfg (tables i)
                    ((round-next_report f cfg none began t w
                        ∙ ap (λ (b : Bool). if b then next else w.next_report) over)
                      i)
                    ts)).1)
              (later _ (
                sent-IsTold step.1 (state, t.after) sent
                  (λ due.
                    LastIsTold-mono f cfg began (some (state, t.after))
                      (λ x m. ticks x (mem-append_left (rounds f cfg began ts v) m))
                      (λ x m. lines x (mem-append_left (loop f cfg none began none ts v).1 m))
                      (round-IsTold f cfg began t w receiver over due))
                  before)))
        | inr early ↦ rw early (
            subst (All (IsTold f cfg began whole said))
              (λ i.
                (observe
                  ((round-repeats f cfg began receiver t w
                      ∙ ap (λ (b : Bool). if b then step.0 else w.repeats) early)
                    i)
                  sent
                  (judged f cfg (tables i)
                    ((round-next_report f cfg none began t w
                        ∙ ap (λ (b : Bool). if b then next else w.next_report) early)
                      i)
                    ts)).1)
              (later sent before))
      ]

module _ (f : Floats) (cfg : Config f) (began : ℕ) where
  -- A deadline does no more than end what is printed, too.
  loop-used_lines :
      (limit : Option ℕ) (ts : List Tick) (w : Watch)
      → (loop f cfg none began limit ts w).1
        ≡ (loop f cfg none began none (used limit began ts) w).1
  unfolding loop is_over
  loop-used_lines limit [] w = refl
  loop-used_lines limit (t ∷ ts) w = elim (Bool-cases (is_over limit began t.top)) [
    | inl over ↦ rw over refl
    | inr going ↦ rw going (
        ap (λ (l : List Text). (round f cfg none began t w).1 ++ l)
          (loop-used_lines limit ts (round f cfg none began t w).0))
  ]

  pub loop-observe :
      (limit : Option ℕ) (ts : List Tick)
      → has_receiver f cfg ≡ true
      → let us = used limit began ts in
        let obs = judged f cfg default (report_after cfg.report_every began) us in
        let heard = observe (new cfg.thresholds.resend_after) [] obs in
        let end = loop f cfg none began limit ts (start f cfg none began) in
        (end.0.repeats ≡ heard.0)
        × (end.0.repeats.last ≡ head_said heard.1)
        × AllSpaced cfg.thresholds.resend_after heard.1
        × All (IsTold f cfg began (rounds f cfg began us (start f cfg none began)) end.1) heard.1
  unfolding start
  loop-observe limit ts receiver =
      let us = used limit began ts in
      let w = start f cfg none began in
      let obs = judged f cfg default (report_after cfg.report_every began) us in
      let same =
        ap (λ (v : Watch). v.repeats) (loop-used f cfg none began limit ts w)
        ∙ all-observe f cfg began receiver us w in
      (
        same,
        ap (λ (r : Repeats). r.last) same ∙ observe-head_said cfg.thresholds.resend_after obs,
        observe-AllSpaced cfg.thresholds.resend_after obs,
        subst
            (λ (lines : List Text).
              All (IsTold f cfg began (rounds f cfg began us w) lines)
                (observe (new cfg.thresholds.resend_after) [] obs).1)
            (sym (loop-used_lines limit ts w))
            (all-IsTold f cfg began receiver (rounds f cfg began us w)
              (loop f cfg none began none us w).1 us w [] (λ x m. m) (λ x m. m) tt),
      )
