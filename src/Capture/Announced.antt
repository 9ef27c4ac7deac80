-- ===== src/Capture/Announced.antt =====
-- That capture.rs says so when an interface has gone quiet.
use docsis_monitor.Relays.Events.{run as run_events}
use docsis_monitor.Order.{nat_order, list_order}
use mathlib.Core.Option.{some-injective}
use docsis_monitor.Capture.Watch.{start, loop, round, Tick, Watch}
use docsis_monitor.Base.{
  Text, ◌∷◌, [], ℕ, ◌-◌, ◌≤◌, ◌<◌, ◌≡◌, ◌⊎◌, inl, inr, true, Option, none, some, List, ◌++◌,
  if◌then◌else◌, le→leb, sym, ap, ◌∙◌, Bool,
}
use docsis_monitor.Alarm.Judge.{is_trouble, State, worst}
use docsis_monitor.Float.{Floats}
use docsis_monitor.Alarm.Said.{Observation, IsInformed, observe-after, should_send-IsInformed}
use docsis_monitor.Config.Settings.{Config, idle_seconds}
use docsis_monitor.Capture.Decide.{has_receiver, judge_each}
use docsis_monitor.Capture.Events.{events, used, reading_events, loop-events, run-append}
use docsis_monitor.Relays.Table.{default, Relays}
use docsis_monitor.Alarm.Repeats.{should_send, Repeats}
use docsis_monitor.Relays.Silence.{latest_of}
use docsis_monitor.Relays.Rows.{times_in}
use docsis_monitor.Capture.Judged.{round-repeats}
use docsis_monitor.Capture.Told.{loop-observe}
use docsis_monitor.Capture.Handed.{rounds, IsTold, LastIsTold}
use docsis_monitor.Capture.Remembered.{round-LastIsTold}
use mathlib.Core.Path.{subst}
use docsis_monitor.Capture.Outage.{worst-run}

-- The only way to be informed of a quiet plant.
informed_quiet :
    (after now : ℕ) (said : Option Observation)
    → IsInformed after State.quiet now said
    → (when : ℕ) × (said ≡ some (State.quiet, when)) × ((when ≡ now) ⊎ (now - when < after))
unfolding is_trouble
informed_quiet after now said (inl (nothing, working)) = absurd (cc working)
informed_quiet after now said (inr (when, e, inl fine)) = absurd (cc fine)
informed_quiet after now said (inr (when, e, inr recent)) = (when, e, recent)

module _ (f : Floats) (cfg : Config f) (began : ℕ) (limit : Option ℕ) (ts : List Tick)
    (t : Tick) where
  -- What was last said once the ticks and one more round are over, these rounds, and all that
  -- was printed.
  abbrev pub last_said : Option Observation
  last_said =
      (round f cfg none began t
        (loop f cfg none began limit ts (start f cfg none began)).0).0.repeats.last

  abbrev pub so_far : List (Tick × Watch)
  so_far =
      rounds f cfg began (used limit began ts) (start f cfg none began)
      ++ (t, (loop f cfg none began limit ts (start f cfg none began)).0) ∷ []

  abbrev pub printed : List Text
  printed =
      let end = loop f cfg none began limit ts (start f cfg none began) in
      end.1 ++ (round f cfg none began t end.0).1

module _ (f : Floats) (cfg : Config f) (began : ℕ) (receiver : has_receiver f cfg ≡ true) where
  memory-IsInformed :
      (limit : Option ℕ) (ts : List Tick) (t : Tick)
      → let w = (loop f cfg none began limit ts (start f cfg none began)).0 in
        let es = events (used limit began ts) ++ reading_events t.reading in
        w.next_report ≤ t.after
        → IsInformed cfg.thresholds.resend_after
            (worst (judge_each f (run_events default es) cfg t.after))
            t.after
            (round f cfg none began t w).0.repeats.last
  unfolding start
  memory-IsInformed limit ts t over =
      let w = (loop f cfg none began limit ts (start f cfg none began)).0 in
      let seen = reading_events t.reading in
      let tables = run_events w.relays seen in
      let state = worst (judge_each f tables cfg t.after) in
      let after = cfg.thresholds.resend_after in
      let told : (round f cfg none began t w).0.repeats ≡ (should_send w.repeats state t.after).0 =
        round-repeats f cfg began receiver t w
        ∙ ap (λ (b : Bool). if b then (should_send w.repeats state t.after).0 else w.repeats)
            (le→leb w.next_report t.after over) in
      let gap : w.repeats.after ≡ after =
        ap (λ (r : Repeats). r.after) (loop-observe f cfg began limit ts receiver).0
        ∙ observe-after after _ in
      let same : tables ≡ run_events default (events (used limit began ts) ++ seen) =
        ap (λ (r : Relays). run_events r seen)
          (loop-events f cfg none began limit ts (start f cfg none began))
        ∙ sym (run-append default (events (used limit began ts)) seen) in
      subst
        (λ (r : Relays).
          IsInformed after (worst (judge_each f r cfg t.after)) t.after
            (round f cfg none began t w).0.repeats.last)
        same
        (subst (λ (r : Repeats). IsInformed after state t.after r.last) (sym told)
          (subst
            (λ (n : ℕ). IsInformed n state t.after (should_send w.repeats state t.after).0.last) gap
            (should_send-IsInformed w.repeats state t.after)))

  -- After the round of a report, where there is somebody to tell, who reads the alerts knows the
  -- worst verdict on the tables as all frames until then left them: nothing was ever said and the
  -- plant is working; or the last thing said names exactly this state, and a trouble was said in
  -- this round or less than `resend_after` seconds before. And the last thing said was told in the
  -- round of its time: for every target the line was printed on what sending it the trap of that
  -- state and time answered, and for the mail section the line on what the mail server answered,
  -- both on the window and the busiest flow of that round.
  -- What failed to be sent counts as said.
  pub round-IsInformed :
      (limit : Option ℕ) (ts : List Tick) (t : Tick)
      → let w = (loop f cfg none began limit ts (start f cfg none began)).0 in
        let es = events (used limit began ts) ++ reading_events t.reading in
        w.next_report ≤ t.after
        → IsInformed cfg.thresholds.resend_after
            (worst (judge_each f (run_events default es) cfg t.after))
            t.after
            (last_said f cfg began limit ts t)
          × LastIsTold f cfg began
              (so_far f cfg began limit ts t)
              (printed f cfg began limit ts t)
              (last_said f cfg began limit ts t)
  round-IsInformed limit ts t over =
      (memory-IsInformed limit ts t over, round-LastIsTold f cfg began limit ts t receiver)

-- Who is told that the plant is quiet is told the truth.
told_quiet :
    (after now when : ℕ) (state : State) (said : Option Observation)
    → IsInformed after state now said
    → said ≡ some (State.quiet, when)
    → state ≡ State.quiet
told_quiet after now when state said (inl (nothing, working)) e = absurd (cc (nothing, e))
told_quiet after now when state said (inr (at, same, recent)) e =
    ap (λ (o : Observation). o.0) (some-injective _ _ (sym same ∙ e))

module _ (f : Floats) (cfg : Config f) (began : ℕ) (limit : Option ℕ) (ts : List Tick)
    (t : Tick) where
  -- Some interface has been silent for longer than it may be, at the end of that round.
  abbrev pub SomeSilent : Type 0
  SomeSilent =
      (g : ℕ) × (last : ℕ) × (latest_of
          (times_in g (events (used limit began ts) ++ reading_events t.reading))
        ≡ some last)
      × (idle_seconds cfg.per_relay g cfg.thresholds.idle_seconds < t.after - last)

  -- After the round of a report, where there is somebody to tell, the last thing said is that the
  -- plant is quiet exactly when some interface has been silent for longer than it may be, by all
  -- frames until then; and then it was said in this round or less than `resend_after` seconds
  -- before, and told in the round of its time: for every target the line was printed on what
  -- sending it the trap on a quiet plant answered, and for the mail section the line on what the
  -- mail server answered to the mail on it, both on the window and the busiest flow of that round.
  -- What failed to be sent counts as said.
  pub round-quiet :
      has_receiver f cfg ≡ true
      → (loop f cfg none began limit ts (start f cfg none began)).0.next_report ≤ t.after
      → (SomeSilent
          → (when : ℕ) × (last_said f cfg began limit ts t ≡ some (State.quiet, when))
            × ((when ≡ t.after) ⊎ (t.after - when < cfg.thresholds.resend_after))
            × IsTold f cfg began
                (so_far f cfg began limit ts t)
                (printed f cfg began limit ts t)
                (State.quiet, when))
        × ((when : ℕ) → last_said f cfg began limit ts t ≡ some (State.quiet, when) → SomeSilent)
  round-quiet receiver over =
      let said = last_said f cfg began limit ts t in
      let after = cfg.thresholds.resend_after in
      let (informed, told) = round-IsInformed f cfg began receiver limit ts t over in
      let both =
        worst-run f cfg t.after (events (used limit began ts) ++ reading_events t.reading) in
      (
        λ silent.
            let (when, e, recent) =
              informed_quiet after t.after said
                (subst (λ (s : State). IsInformed after s t.after said) (both.1 silent) informed) in
            (
              when,
              e,
              recent,
              subst
                  (LastIsTold f cfg began (so_far f cfg began limit ts t)
                    (printed f cfg began limit ts t))
                  e told,
            ),
        λ when e. both.0 (told_quiet after t.after when _ said informed e),
      )
