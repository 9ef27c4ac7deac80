-- ===== src/Capture/Verdicts.antt =====
-- The verdicts of capture.rs, against the requests and the replies of each interface.
use docsis_monitor.Relays.Events.{run as run_events, Event}
use docsis_monitor.Order.{nat_order, list_order}
use docsis_monitor.Base.{
  ltb, leb, if◌then◌else◌, length, ℕ, ◌-◌, ◌≡◌, refl, ◌∙◌, ◌&&◌, Option, none, some, List, [], ◌∷◌,
  arith, u64_mod, ◌==◌, suc, ◌<◌, ap, false, Option-cases, ◌≤◌, sym, inl, inr, zero, ◌⊎◌,
}
use docsis_monitor.Float.{Floats}
use docsis_monitor.Config.Settings.{Config, idle_seconds}
use docsis_monitor.Alarm.Judge.{State, judged_state, judge_relay, worst}
use docsis_monitor.Relays.Table.{Relay, idle_for, default}
use docsis_monitor.Capture.Decide.{judge_one, judge_each}
use docsis_monitor.Relays.Silence.{
  latest_of, heard_at, lookup-run-default, length-times_in, last_request-run,
}
use docsis_monitor.Relays.Rows.{heard, times_in, Heard}
use docsis_monitor.Relays.Gaps.{latest}
use docsis_monitor.Relays.Answers.{replies-run}
use docsis_monitor.Relays.Replies.{replies_of, replies_to, AreTimely}
use docsis_monitor.Relays.Fresh.{IsForward}
use docsis_monitor.Relays.Waiting.{HasRoom}
use docsis_monitor.Relays.Tally.{requests_in, replies_in}
use docsis_monitor.OrdMap.{lookup}
use docsis_monitor.Alarm.Severity.{severity, severity-worst, severity-injective}
use docsis_monitor.OrdMap.Entries.{largest, lookup-largest, largest_found}
use docsis_monitor.Capture.Outage.{max_severity-judge_each, row_level}
use docsis_monitor.Relays.Valid.{run-default-IsValid}
use mathlib.Core.Option

suc_ne_zero : (n : ℕ) → (suc n == 0) ≡ false
suc_ne_zero n = ground arith

requests-heard_at : (ts : List ℕ) → (heard_at ts).requests ≡ length ts
requests-heard_at [] = refl
requests-heard_at (t ∷ ts) = refl

module _ (f : Floats) (cfg : Config f) (at : ℕ) where
  open f use {of_u64, div, lt}

  -- The verdict on an interface from the times of its requests and the number of its replies.
  abbrev pub verdict : ℕ → List ℕ → ℕ → State
  verdict g [] replies = State.working
  verdict g (t ∷ ts) replies =
      if ltb (idle_seconds cfg.per_relay g cfg.thresholds.idle_seconds) (at - latest t ts)
      then State.quiet
      else if leb 5 (length (t ∷ ts))
          && lt (div (of_u64 replies) (of_u64 (length (t ∷ ts)))) cfg.thresholds.min_answered
      then State.unanswered
      else State.working

  -- The verdict on a row, if there is one.
  abbrev on_row : ℕ → Option Relay → State
  on_row g none = State.working
  on_row g (some r) = (judge_one f cfg at (g, r)).state

  answered_some :
      (n replies : ℕ)
      → docsis_monitor.Alarm.Judge.answered f (suc n) replies
        ≡ div (of_u64 replies) (of_u64 (suc n))
  unfolding docsis_monitor.Alarm.Judge.answered
  answered_some n replies = rw (suc_ne_zero n) refl

  judged_state-verdict :
      (g replies : ℕ) (ts : List ℕ)
      → judged_state f
          (length ts)
          replies
          (Option.map (λ t. at - t) (latest_of ts))
          (idle_seconds cfg.per_relay g cfg.thresholds.idle_seconds)
          cfg.thresholds.min_answered
        ≡ verdict g ts replies
  unfolding judged_state
  judged_state-verdict g replies [] = refl
  judged_state-verdict g replies (t ∷ ts) = rw (answered_some (length ts) replies) refl

  on_row-verdict :
      (g replies : ℕ) (o : Option Relay) (ts : List ℕ)
      → (heard o).requests ≡ length ts
      → (heard o).last_request ≡ latest_of ts
      → replies_of o ≡ replies
      → on_row g o ≡ verdict g ts replies
  unfolding judge_one judge_relay idle_for
  on_row-verdict g replies none [] asked last answered = refl
  on_row-verdict g replies none (t ∷ ts) asked last answered = absurd (omega (arith, asked))
  on_row-verdict g replies (some r) ts asked last answered =
      (λ i.
        judged_state f (asked i) (answered i) (Option.map (λ t. at - t) (last i))
          (idle_seconds cfg.per_relay g cfg.thresholds.idle_seconds) cfg.thresholds.min_answered)
      ∙ judged_state-verdict g replies ts

  -- What the packets alone say of an interface.
  abbrev pub verdict_on : List Event → ℕ → State
  verdict_on es g = verdict g (times_in g es) (replies_to g (λ _. none) es)

  -- What is judged on the tables as the packets left them.
  abbrev pub plant_state : List Event → State
  plant_state es = worst (judge_each f (run_events default es) cfg at)

  module _ (es : List Event) (forward : IsForward 0 es) (space : HasRoom default es)
      (timely : AreTimely 0 (λ _. none) es) (asked : requests_in es < u64_mod)
      (answered : replies_in es < u64_mod) where
    on_row-run : (g : ℕ) → on_row g (lookup g (run_events default es).by_gi) ≡ verdict_on es g
    on_row-run g =
        on_row-verdict g (replies_to g (λ _. none) es) _ (times_in g es)
          (ap (λ (h : Heard). h.requests)
              (lookup-run-default g es (omega (arith, asked, length-times_in g es)))
            ∙ requests-heard_at (times_in g es))
          (last_request-run g es) (replies-run g es forward space timely answered)

    top : severity (plant_state es) ≡ largest (row_level f cfg at) (run_events default es).by_gi
    unfolding judge_each
    top = severity-worst _ ∙ max_severity-judge_each f cfg at (run_events default es).by_gi

    -- No interface is judged worse than the plant.
    no_worse : (g : ℕ) → severity (verdict_on es g) ≤ severity (plant_state es)
    no_worse g =
        let m = (run_events default es).by_gi in
        elim (Option-cases (lookup g m)) [
          | inl absent ↦ omega (arith, ap severity (sym (on_row-run g) ∙ ap (on_row g) absent))
          | inr (r, found) ↦ omega (
            arith,
            top,
            lookup-largest (row_level f cfg at) g m r found,
            ap severity (sym (on_row-run g) ∙ ap (on_row g) found),
          )
        ]

    -- Where the plant is in trouble, some interface is judged the same.
    some_as_bad : (plant_state es ≡ State.working) ⊎ ((g : ℕ) × (verdict_on es g ≡ plant_state es))
    some_as_bad = let m = (run_events default es).by_gi in go (severity (plant_state es)) refl
      where
        go :
            (n : ℕ)
            → severity (plant_state es) ≡ n
            → (plant_state es ≡ State.working) ⊎ ((g : ℕ) × (verdict_on es g ≡ plant_state es))
        go zero e = inl (severity-injective _ State.working e)
        go (suc n) e =
            let (g, r, found, level) =
              largest_found (row_level f cfg at) n (run_events default es).by_gi
                (run-default-IsValid es).rows_sorted (sym top ∙ e) in
            inr (
              g,
              sym (on_row-run g) ∙ (ap (on_row g) found ∙ severity-injective _ _ (level ∙ sym e)),
            )

    -- The state that is judged on the tables is the worst verdict on any interface, each on the
    -- times of its own requests and the number of its own replies alone: no interface is worse, and
    -- some interface is as bad, or the plant is working; as long as the table of requests was never
    -- full, when the clock of the requests is past its start and does not go back, every reply came
    -- less than thirty seconds after the request that it answers, and fewer than 2^64 of each came.
    pub worst-verdict_on :
        ((g : ℕ) → severity (verdict_on es g) ≤ severity (plant_state es))
        × ((plant_state es ≡ State.working) ⊎ ((g : ℕ) × (verdict_on es g ≡ plant_state es)))
    worst-verdict_on = (no_worse, some_as_bad)
