-- ===== src/Capture/Remembered.antt =====
-- What the loop of capture.rs remembers to have said, it said.
use docsis_monitor.Capture.Judged.{round-repeats}
use docsis_monitor.Capture.Told.{loop-observe}
use docsis_monitor.Capture.Watch.{start, Watch}
use docsis_monitor.Alarm.Said.{Observation, head_said}
use docsis_monitor.Alarm.Repeats.{Repeats, should_send}
use docsis_monitor.Capture.Decide.{has_receiver, judge_each}
use docsis_monitor.Capture.Watch.{Tick, loop, round}
use docsis_monitor.Base.{
  All, Text, ◌++◌, some, sym, leb, if◌then◌else◌, ℕ, ◌≡◌, refl, true, none, List, [], ◌∷◌, ap, ◌∙◌,
  Option, Bool, false, arith,
}
use docsis_monitor.Capture.Handed.{rounds, IsTold, LastIsTold, LastIsTold-mono, round-IsTold}
use docsis_monitor.Relays.Events.{run as run_events}
use mathlib.Core.Path.{subst}
use mathlib.Core.List.{mem-append_left, mem-append_right}
use docsis_monitor.Float.{Floats}
use docsis_monitor.Config.Settings.{Config}
use docsis_monitor.Alarm.Judge.{worst, State}
use docsis_monitor.Capture.Events.{reading_events, used}

last-if : (b : Bool) (r s : Repeats) → (if b then r else s).last ≡ (if b then r.last else s.last)
last-if true r s = refl
last-if false r s = refl

should_send-last :
    (r : Repeats) (state : State) (now : ℕ)
    → (should_send r state now).0.last
      ≡ (if (should_send r state now).1 then some (state, now) else r.last)
unfolding should_send
should_send-last r state now = ground arith

module _ (f : Floats) (cfg : Config f) (began : ℕ) where
  head_told :
      (rs : List (Tick × Watch)) (lines : List Text) (sent : List Observation)
      → All (IsTold f cfg began rs lines) sent
      → LastIsTold f cfg began rs lines (head_said sent)
  head_told rs lines [] all = tt
  head_told rs lines (o ∷ sent) all = all.0

  last_told :
      (rs : List (Tick × Watch)) (lines : List Text) (over due : Bool) (o : Observation)
      (last : Option Observation)
      → (over ≡ true → due ≡ true → IsTold f cfg began rs lines o)
      → LastIsTold f cfg began rs lines last
      → LastIsTold f cfg began rs lines (if over then (if due then some o else last) else last)
  last_told rs lines true true o last now before = now refl refl
  last_told rs lines true false o last now before = before
  last_told rs lines false due o last now before = before

  -- What is remembered after the ticks and one more round was told in one of these rounds.
  pub round-LastIsTold :
      (limit : Option ℕ) (ts : List Tick) (t : Tick)
      → has_receiver f cfg ≡ true
      → let end = loop f cfg none began limit ts (start f cfg none began) in
        LastIsTold f cfg began
          (rounds f cfg began (used limit began ts) (start f cfg none began) ++ (t, end.0) ∷ [])
          (end.1 ++ (round f cfg none began t end.0).1)
          (round f cfg none began t end.0).0.repeats.last
  round-LastIsTold limit ts t receiver =
      let end = loop f cfg none began limit ts (start f cfg none began) in
      let us = rounds f cfg began (used limit began ts) (start f cfg none began) in
      let w = end.0 in
      let printed = (round f cfg none began t w).1 in
      let state =
        worst (judge_each f (run_events w.relays (reading_events t.reading)) cfg t.after) in
      let step = should_send w.repeats state t.after in
      let all = loop-observe f cfg began limit ts receiver in
      let before : LastIsTold f cfg began us end.1 w.repeats.last =
        subst (LastIsTold f cfg began us end.1) (sym all.1) (head_told us end.1 _ all.3) in
      let same : (round f cfg none began t w).0.repeats.last ≡ (
          if leb w.next_report t.after
          then (if step.1 then some (state, t.after) else w.repeats.last)
          else w.repeats.last) =
        ap (λ (r : Repeats). r.last) (round-repeats f cfg began receiver t w)
        ∙ last-if (leb w.next_report t.after) step.0 w.repeats
        ∙ ap (λ (o : Option Observation). if leb w.next_report t.after then o else w.repeats.last)
            (should_send-last w.repeats state t.after) in
      subst (LastIsTold f cfg began (us ++ (t, w) ∷ []) (end.1 ++ printed)) (sym same) (
        last_told (us ++ (t, w) ∷ []) (end.1 ++ printed) (leb w.next_report t.after) step.1
          (state, t.after) w.repeats.last
          (λ over due.
            LastIsTold-mono f cfg began (some (state, t.after)) (λ x m. mem-append_right us m)
              (λ x m. mem-append_right end.1 m) (round-IsTold f cfg began t w receiver over due))
          (LastIsTold-mono f cfg began w.repeats.last (λ x m. mem-append_left ((t, w) ∷ []) m)
            (λ x m. mem-append_left printed m) before))
