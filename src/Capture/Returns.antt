-- ===== src/Capture/Returns.antt =====
-- When the loop of capture.rs ends.
use docsis_monitor.Capture.Watch.{
  Tick, Watch, loop, is_over, round, run, deadline, start, banner, closing, after_loop,
}
use docsis_monitor.Base.{
  All, ℕ, ◌-◌, ◌≤◌, ◌<◌, ◌≡◌, refl, Option, none, some, List, [], ◌∷◌, ◌++◌, arith, true, false,
  Text, ap, ◌∙◌,
}
use docsis_monitor.Float.{Floats}
use docsis_monitor.Config.Settings.{Config}

-- No tick begins so late that the deadline has passed.
abbrev pub AreBefore : ℕ → ℕ → List Tick → Type 0
AreBefore secs began ts = All (λ (t : Tick). t.top - began < secs) ts

is_over-late : (secs began now : ℕ) → secs ≤ now - began → is_over (some secs) began now ≡ true
unfolding is_over
is_over-late secs began now late = ground (arith, late)

is_over-early : (secs began now : ℕ) → now - began < secs → is_over (some secs) began now ≡ false
unfolding is_over
is_over-early secs began now early = ground (arith, early)

module _ (f : Floats) (cfg : Config f) (adaptation : Option ℕ) (began : ℕ) where
  loop-left :
      (secs : ℕ) (before : List Tick) (t : Tick) (rest : List Tick) (w : Watch)
      → AreBefore secs began before
      → secs ≤ t.top - began
      → loop f cfg adaptation began (some secs) (before ++ t ∷ rest) w ≡ (
        (loop f cfg adaptation began (some secs) before w).0,
        (loop f cfg adaptation began (some secs) before w).1,
        some (t ∷ rest),
      )
  unfolding loop
  loop-left secs [] t rest w early late = rw (is_over-late secs began t.top late) refl
  loop-left secs (u ∷ us) t rest w early late =
      let v = (round f cfg adaptation began u w).0 in
      let said = (round f cfg adaptation began u w).1 in
      rw (is_over-early secs began u.top early.0) (
        ap (λ (l : Watch × List Text × Option (List Tick)). (l.0, said ++ l.1, l.2))
          (loop-left secs us t rest v early.1 late))

  loop-goes_on :
      (secs : ℕ) (before : List Tick) (w : Watch)
      → AreBefore secs began before
      → (loop f cfg adaptation began (some secs) before w).2 ≡ none
  unfolding loop
  loop-goes_on secs [] w early = refl
  loop-goes_on secs (u ∷ us) w early =
      rw (is_over-early secs began u.top early.0)
        (loop-goes_on secs us (round f cfg adaptation began u w).0 early.1)

module _ (f : Floats) (cfg : Config f) (run_for adaptation : Option ℕ) (began : ℕ) where
  -- A run with a deadline has not returned while every round began before it, and returns in the
  -- first round that does not, whatever would come after: it uses no more of the frames, and the
  -- last that it prints are the closing lines for what it had seen until then.
  pub run-returns :
      (secs : ℕ) (before : List Tick) (t : Tick) (rest : List Tick)
      → deadline adaptation run_for ≡ some secs
      → AreBefore secs began before
      → secs ≤ t.top - began
      → let l = loop f cfg adaptation began (some secs) before (start f cfg adaptation began) in
        (run f cfg run_for adaptation began before ≡ (banner f cfg adaptation ++ l.1, false))
        × (run f cfg run_for adaptation began (before ++ t ∷ rest)
            ≡ (banner f cfg adaptation ++ (l.1 ++ closing adaptation l.0), true))
  unfolding run after_loop
  run-returns secs before t rest limit early late =
      let w = start f cfg adaptation began in
      let l = loop f cfg adaptation began (some secs) before w in
      let after =
        λ (ts : List Tick) (end : Watch × List Text × Option (List Tick))
            (h : loop f cfg adaptation began (some secs) ts w ≡ end).
          ap (λ (d : Option ℕ). after_loop f cfg adaptation (loop f cfg adaptation began d ts w))
            limit
          ∙ ap (after_loop f cfg adaptation) h in
      (
        after before (l.0, l.1, none)
            (λ i. (l.0, l.1, loop-goes_on f cfg adaptation began secs before w early i)),
        after (before ++ t ∷ rest) (l.0, l.1, some (t ∷ rest))
            (loop-left f cfg adaptation began secs before t rest w early late),
      )
