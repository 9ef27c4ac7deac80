-- ===== src/Capture/Outage.antt =====
-- When the verdicts of capture.rs find the plant quiet, against the requests that were seen.
use docsis_monitor.Relays.Events.{run as run_events, Event}
use docsis_monitor.Order.{nat_order}
use mathlib.Core.Option
use docsis_monitor.Base.{
  ℕ, ◌-◌, ◌<◌, max, ◌≡◌, refl, ap, some, [], ◌∷◌, map, ◌↔◌, Option, none, List, arith, sym, ◌∙◌,
}
use docsis_monitor.Float.{Floats}
use docsis_monitor.Config.Settings.{Config, idle_seconds}
use docsis_monitor.Relays.Table.{Relay, idle_for, default}
use docsis_monitor.OrdMap.{OrdMap, lookup}
use docsis_monitor.Capture.Decide.{judge_one, judge_each}
use docsis_monitor.Alarm.Severity.{
  severity, max_severity, severity-worst, worst-iff-quiet, severity-injective,
}
use docsis_monitor.Alarm.Judge.{judge_relay, judged_state, State, worst}
use docsis_monitor.OrdMap.Entries.{largest, largest_found, lookup-largest}
use docsis_monitor.Relays.Silence.{latest_of, last_request-run, row_heard}
use docsis_monitor.Relays.Rows.{times_in, heard}
use docsis_monitor.OrdMap.Sorted.{IsSorted}
use docsis_monitor.Relays.Valid.{run-default-IsValid}
use docsis_monitor.Capture.Watch.{start}
use docsis_monitor.Capture.Watch.{Tick, loop}
use docsis_monitor.Capture.Events.{events, used, loop-events}

-- The silence that `judge_relay` calls quiet: from a last request, and longer than allowed.
judged_state-quiet :
    (f : Floats) (requests replies limit at : ℕ) (last : Option ℕ) (m : f.F)
    → judged_state f requests replies (Option.map (λ t. at - t) last) limit m ≡ State.quiet
    → (t : ℕ) × (last ≡ some t) × (limit < at - t)
unfolding judged_state
judged_state-quiet f requests replies limit at none m h = absurd (ground (arith, h))
judged_state-quiet f requests replies limit at (some t) m h = (t, refl, ground (arith, h))

judged_state-late :
    (f : Floats) (requests replies limit at t : ℕ) (m : f.F)
    → limit < at - t
    → judged_state f requests replies (some (at - t)) limit m ≡ State.quiet
unfolding judged_state
judged_state-late f requests replies limit at t m late = ground (arith, late)

module _ (f : Floats) (cfg : Config f) (at : ℕ) where
  abbrev allowed : ℕ → ℕ
  allowed g = idle_seconds cfg.per_relay g cfg.thresholds.idle_seconds

  abbrev pub row_level : ℕ → Relay → ℕ
  row_level g r = severity (judge_one f cfg at (g, r)).state

  pub max_severity-judge_each :
      (m : OrdMap ℕ Relay) → max_severity (map (judge_one f cfg at) m) ≡ largest row_level m
  max_severity-judge_each [] = refl
  max_severity-judge_each (e ∷ m) = ap (max (row_level e.0 e.1)) (max_severity-judge_each m)

  judge_one-iff-late :
      (g : ℕ) (r : Relay)
      → (judge_one f cfg at (g, r)).state ≡ State.quiet
        ↔ (t : ℕ) × (r.last_request ≡ some t) × (allowed g < at - t)
  unfolding judge_one judge_relay idle_for
  judge_one-iff-late g r = (
    judged_state-quiet f r.requests r.replies (allowed g) at r.last_request
        cfg.thresholds.min_answered,
    λ (t, last, late). rw last (
        judged_state-late f r.requests r.replies (allowed g) at t cfg.thresholds.min_answered late),
  )

  -- Some row is judged quiet, where the worst verdict is.
  worst-found :
      (m : OrdMap ℕ Relay)
      → IsSorted m
      → worst (map (judge_one f cfg at) m) ≡ State.quiet
      → (g : ℕ) × (r : Relay) × (lookup g m ≡ some r)
        × ((judge_one f cfg at (g, r)).state ≡ State.quiet)
  worst-found m s h =
      let vs = map (judge_one f cfg at) m in
      let top : largest row_level m ≡ 2 =
        omega (arith, severity-worst vs, ap severity h, max_severity-judge_each m) in
      let (g, r, found, e) = largest_found row_level 1 m s top in
      (g, r, found, severity-injective _ State.quiet e)

  worst-of_row :
      (m : OrdMap ℕ Relay) (g : ℕ) (r : Relay)
      → lookup g m ≡ some r
      → (judge_one f cfg at (g, r)).state ≡ State.quiet
      → worst (map (judge_one f cfg at) m) ≡ State.quiet
  worst-of_row m g r found h = (worst-iff-quiet (map (judge_one f cfg at) m)).1 (
      omega (arith, lookup-largest row_level g m r found, ap severity h, max_severity-judge_each m))

  -- The plant is judged quiet exactly when some interface sent requests, the latest of them longer
  -- ago than that interface may be silent.
  pub worst-run :
      (es : List Event)
      → worst (judge_each f (run_events default es) cfg at) ≡ State.quiet
        ↔ (g : ℕ) × (t : ℕ) × (latest_of (times_in g es) ≡ some t)
          × (idle_seconds cfg.per_relay g cfg.thresholds.idle_seconds < at - t)
  unfolding judge_each
  worst-run es = (
    λ h.
        let (g, r, found, quiet_row) =
          worst-found (run_events default es).by_gi (run-default-IsValid es).rows_sorted h in
        let (t, last, late) = (judge_one-iff-late g r).0 quiet_row in
        (
          g,
          t,
          sym (last_request-run g es)
              ∙ (ap (λ (o : Option Relay). (heard o).last_request) found ∙ last),
          late,
        ),
    λ (g, t, last, late).
        let (r, found, e) = row_heard _ t (last_request-run g es ∙ last) in
        worst-of_row (run_events default es).by_gi g r found
          ((judge_one-iff-late g r).1 (t, e, late)),
  )

  -- Whatever frames came, a report after the loop judges the plant quiet exactly when some interface
  -- sent requests in the frames that were read before the deadline, the latest of them longer ago
  -- than that interface may be silent: its own threshold, or the one for all.
  pub worst-loop :
      (adaptation : Option ℕ) (began : ℕ) (limit : Option ℕ) (ts : List Tick)
      → worst (
            judge_each f
              (loop f cfg adaptation began limit ts (start f cfg adaptation began)).0.relays
              cfg
              at)
          ≡ State.quiet
        ↔ (g : ℕ) × (t : ℕ) × (latest_of (times_in g (events (used limit began ts))) ≡ some t)
          × (idle_seconds cfg.per_relay g cfg.thresholds.idle_seconds < at - t)
  unfolding start
  worst-loop adaptation began limit ts =
      rw (loop-events f cfg adaptation began limit ts (start f cfg adaptation began))
        (worst-run (events (used limit began ts)))
