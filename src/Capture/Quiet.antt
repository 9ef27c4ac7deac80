-- ===== src/Capture/Quiet.antt =====
-- Runs of capture.rs that tell nobody.
use docsis_monitor.Capture.Decide.{has_receiver, should_tell}
use docsis_monitor.Capture.Report.{World, report}
use docsis_monitor.Capture.Due.{take_reading-kept}
use docsis_monitor.Capture.Watch.{
  Tick, Watch, say_something, finish, round, loop, is_over, report_after, take_reading,
}
use docsis_monitor.Base.{
  leb, Bool-cases, ℕ, ◌≡◌, refl, ◌∙◌, inl, inr, Bool, true, false, not, Option, none, some, List,
  [], ◌∷◌, ◌++◌, map, arith, Text, ap,
}
use docsis_monitor.Float.{Floats}
use docsis_monitor.Config.Settings.{Config}
use docsis_monitor.Relays.Table.{Relays}
use docsis_monitor.Counters.Window.{Counters}
use docsis_monitor.Alarm.Repeats.{Repeats}

-- An adaptation, or a configuration with nobody to tell.
abbrev pub is_quiet : (f : Floats) → Config f → Option ℕ → Bool
is_quiet f cfg none = not (has_receiver f cfg)
is_quiet f cfg (some _) = true

-- The same ticks on other hosts.
abbrev pub elsewhere : (World → World) → List Tick → List Tick
elsewhere g ts = map (λ (t : Tick). record t { world = g t.world }) ts

module _ (f : Floats) (cfg : Config f) (began : ℕ) (g : World → World)
    (same : (world : World) → (g world).zoned ≡ world.zoned) where
  report-quiet :
      (world : World) (relays : Relays) (at : ℕ) (c : Counters) (r : Repeats)
      → has_receiver f cfg ≡ false
      → (report f (g world) cfg relays at began c r ≡ report f world cfg relays at began c r)
        × ((report f world cfg relays at began c r).repeats ≡ r)
  unfolding report should_tell
  report-quiet world relays at c r nobody = (rw (nobody, same world) refl, rw nobody refl)

  say_something-quiet :
      (adaptation : Option ℕ) (world : World) (at : ℕ) (w : Watch)
      → is_quiet f cfg adaptation ≡ true
      → (say_something f cfg adaptation began (g world) at w
          ≡ say_something f cfg adaptation began world at w)
        × ((say_something f cfg adaptation began world at w).0.repeats ≡ w.repeats)
  unfolding say_something
  say_something-quiet none world at w quiet =
      let (same_report, kept) =
        report-quiet world w.relays at w.counts w.repeats (ground (arith, quiet)) in
      (
        λ i. (
          record w { counts = (same_report i).counts; repeats = (same_report i).repeats },
          (same_report i).lines,
        ),
        kept,
      )
  say_something-quiet (some mins) world at w quiet = (refl, refl)

  finish-quiet :
      (adaptation : Option ℕ) (world : World) (at : ℕ) (w : Watch)
      → is_quiet f cfg adaptation ≡ true
      → (finish f cfg adaptation began (g world) at w ≡ finish f cfg adaptation began world at w)
        × ((finish f cfg adaptation began world at w).0.repeats ≡ w.repeats)
  unfolding finish
  finish-quiet adaptation world at w quiet = elim (Bool-cases (leb w.next_report at)) [
    | inl h ↦ rw h (
        say_something-quiet adaptation world at
          (record w { next_report = report_after cfg.report_every at }) quiet)
    | inr h ↦ rw h (refl, refl)
  ]

  round-quiet :
      (adaptation : Option ℕ) (t : Tick) (w : Watch)
      → is_quiet f cfg adaptation ≡ true
      → (round f cfg adaptation began (record t { world = g t.world }) w
          ≡ round f cfg adaptation began t w)
        × ((round f cfg adaptation began t w).0.repeats ≡ w.repeats)
  unfolding round
  round-quiet adaptation t w quiet =
      let read = take_reading t.reading w in
      let (again, kept) = finish-quiet adaptation t.world t.after read.0 quiet in
      (λ i. ((again i).0, read.1 ++ (again i).1), kept ∙ (take_reading-kept t.reading w).1)

  -- In an adaptation, and where there is nobody to tell: what the loop prints, counts and remembers
  -- is the same whatever the sockets and the mail server of the host would answer, for hosts with
  -- the same calendar, and the memory of what has been said is not used up.
  pub loop-quiet :
      (adaptation limit : Option ℕ) (ts : List Tick) (w : Watch)
      → is_quiet f cfg adaptation ≡ true
      → let here = loop f cfg adaptation began limit ts w in
        let there = loop f cfg adaptation began limit (elsewhere g ts) w in
        (there.0 ≡ here.0) × (there.1 ≡ here.1) × (here.0.repeats ≡ w.repeats)
  unfolding loop
  loop-quiet adaptation limit [] w quiet = (refl, refl, refl)
  loop-quiet adaptation limit (t ∷ ts) w quiet =
      let (again, kept) = round-quiet adaptation t w quiet in
      let here = round f cfg adaptation began t w in
      let (state, said, memory) = loop-quiet adaptation limit ts here.0 quiet in
      let rest = λ (v : Watch). loop f cfg adaptation began limit (elsewhere g ts) v in
      elim (Bool-cases (is_over limit began t.top)) [
        | inl over ↦ rw over (refl, refl, refl)
        | inr going ↦ rw going (
          (λ i. (rest (again i).0).0) ∙ state,
          (λ i. (again i).1 ++ (rest (again i).0).1) ∙ ap (λ (l : List Text). here.1 ++ l) said,
          memory ∙ kept,
        )
      ]
