-- ===== src/Capture/Due.antt =====
-- When the loop of capture.rs reports.
use mathlib.Core.Path.{subst}
use docsis_monitor.Packet.Read.{Seen, read}
use docsis_monitor.Capture.Watch.{frame, timed_out, failed, take_reading, note_seen, Reading}
use docsis_monitor.Capture.Watch.{
  Tick, Watch, report_after, loop, is_over, round, finish, say_something,
}
use docsis_monitor.Base.{
  u64_mod, leb, if◌then◌else◌, tests, Bool-cases, All, ℕ, ◌+◌, ◌≤◌, ◌<◌, max, ◌≡◌, refl, inl, inr,
  none, List, [], ◌∷◌, sym, ap, ◌∙◌, Option, some, arith,
}
use docsis_monitor.Float.{Floats}
use docsis_monitor.Config.Settings.{Config}
use docsis_monitor.Capture.Report.{World}
use docsis_monitor.Capture.Counted.{last_clock}

-- The times of the reports, by the clock alone: `next` is when the first is due.
abbrev pub due : ℕ → ℕ → List Tick → List ℕ
due every next [] = []
due every next (t ∷ ts) =
    if leb next t.after
    then t.after ∷ due every (report_after every t.after) ts
    else due every next ts

-- Each time is no less than `every` seconds after the one before it, and the first not before
-- `next`.
abbrev pub IsEvery : ℕ → ℕ → List ℕ → Type 0
IsEvery every next [] = Unit {0}
IsEvery every next (t ∷ ts) = (next ≤ t) × IsEvery every (t + every) ts

-- No clock is so late that the next report would be due after 2^64.
abbrev pub AreEarly : ℕ → List Tick → Type 0
AreEarly every ts = All (λ (t : Tick). t.after + max every 1 < u64_mod) ts

pub report_after_early :
    (every at : ℕ) → at + max every 1 < u64_mod → report_after every at ≡ at + max every 1
unfolding report_after
report_after_early every at early = omega (arith, early)

-- Two reports are never less than `every` seconds apart.
pub due-IsEvery :
    (every next : ℕ) (ts : List Tick)
    → AreEarly every ts
    → IsEvery (max every 1) next (due every next ts)
unfolding report_after
due-IsEvery every next [] early = tt
due-IsEvery every next (t ∷ ts) early = elim (Bool-cases (leb next t.after)) [
  | inl h ↦ rw h (
    omega (tests, h),
    subst (λ n. IsEvery (max every 1) (t.after + max every 1) (due every n ts))
        (sym (report_after_early every t.after early.0))
        (due-IsEvery every (t.after + max every 1) ts early.1),
  )
  | inr h ↦ rw h (due-IsEvery every next ts early.1)
]

pub take_reading-kept :
    (rd : Reading) (w : Watch)
    → ((take_reading rd w).0.next_report ≡ w.next_report)
      × ((take_reading rd w).0.repeats ≡ w.repeats)
unfolding take_reading note_seen
take_reading-kept (frame bytes at at_ms) w = kept (read bytes)
  where
    kept :
        (s : Option Seen)
        → ((note_seen at at_ms s w).next_report ≡ w.next_report)
          × ((note_seen at at_ms s w).repeats ≡ w.repeats)
    kept none = (refl, refl)
    kept (some seen) = (refl, refl)
take_reading-kept timed_out w = (refl, refl)
take_reading-kept (failed why) w = (refl, refl)

module _ (f : Floats) (cfg : Config f) (adaptation : Option ℕ) (began : ℕ) where
  say_something-next_report :
      (world : World) (at : ℕ) (w : Watch)
      → (say_something f cfg adaptation began world at w).0.next_report ≡ w.next_report
  unfolding say_something
  say_something-next_report world at w =
      elim adaptation
        as (λ a. (say_something f cfg a began world at w).0.next_report ≡ w.next_report) [
          | none ↦ refl
          | some _ ↦ refl
        ]

  finish-next_report :
      (world : World) (at : ℕ) (w : Watch)
      → (finish f cfg adaptation began world at w).0.next_report
        ≡ (if leb w.next_report at then report_after cfg.report_every at else w.next_report)
  unfolding finish
  finish-next_report world at w = elim (Bool-cases (leb w.next_report at)) [
    | inl h ↦ rw h (
        say_something-next_report world at
          (record w { next_report = report_after cfg.report_every at }))
    | inr h ↦ rw h refl
  ]

  pub round-next_report :
      (t : Tick) (w : Watch)
      → (round f cfg adaptation began t w).0.next_report ≡ (
          if leb w.next_report t.after
          then report_after cfg.report_every t.after
          else w.next_report)
  unfolding round
  round-next_report t w =
      finish-next_report t.world t.after (take_reading t.reading w).0
      ∙ ap (λ (n : ℕ). if leb n t.after then report_after cfg.report_every t.after else n)
          (take_reading-kept t.reading w).0

-- When the next report is due after reports at some times.
abbrev pub due_next : ℕ → ℕ → List ℕ → ℕ
due_next every next [] = next
due_next every next (t ∷ ts) = due_next every (t + every) ts

module _ (f : Floats) (cfg : Config f) (adaptation : Option ℕ) (began : ℕ) where
  pub all-due :
      (ts : List Tick) (w : Watch)
      → AreEarly cfg.report_every ts
      → (loop f cfg adaptation began none ts w).0.next_report
        ≡ due_next (max cfg.report_every 1) w.next_report (due cfg.report_every w.next_report ts)
  unfolding loop is_over
  all-due [] w early = refl
  all-due (t ∷ ts) w early =
      let later = all-due ts (round f cfg adaptation began t w).0 early.1 in
      elim (Bool-cases (leb w.next_report t.after)) [
        | inl h ↦ cc (
          later,
          round-next_report f cfg adaptation began t w,
          h,
          report_after_early cfg.report_every t.after early.0,
        )
        | inr h ↦ cc (later, round-next_report f cfg adaptation began t w, h)
      ]

-- The clock has not reached the next report after the last of some ticks.
abbrev pub IsAhead : List Tick → ℕ → Type 0
IsAhead [] next = Unit {0}
IsAhead (t ∷ ts) next = last_clock t.after ts < next

ahead_from :
    (every next : ℕ) (t : Tick) (ts : List Tick)
    → AreEarly every (t ∷ ts)
    → last_clock t.after ts < due_next (max every 1) next (due every next (t ∷ ts))
ahead_from every next t [] early = elim (Bool-cases (leb next t.after)) [
  | inl h ↦ rw h (omega arith)
  | inr h ↦ rw h (ground (arith, h))
]
ahead_from every next t (t' ∷ ts) early = elim (Bool-cases (leb next t.after)) [
  | inl h ↦
      rw (h, report_after_early every t.after early.0)
        (ahead_from every (t.after + max every 1) t' ts early.1)
  | inr h ↦ rw h (ahead_from every next t' ts early.1)
]

pub due-IsAhead :
    (every next : ℕ) (ts : List Tick)
    → AreEarly every ts
    → IsAhead ts (due_next (max every 1) next (due every next ts))
due-IsAhead every next [] early = tt
due-IsAhead every next (t ∷ ts) early = ahead_from every next t ts early
