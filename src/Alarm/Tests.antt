-- ===== src/Alarm/Tests.antt =====
-- alarm.rs on concrete verdicts and judgements.
use docsis_monitor.Alarm.Repeats.{new}
use docsis_monitor.Alarm.Judge.{worst}
use mathlib.Core.List.Perm
use docsis_monitor.Base.{ℕ, ◌≤◌, ◌≡◌, some, List, [], ◌∷◌, ◌++◌, arith}
use docsis_monitor.Alarm.Judge.{State, RelayVerdict, judge_relay}
use docsis_monitor.Alarm.Severity.{
  severity, max_severity, worst-perm, severity-worst, judge_relay_mono,
}
use mathlib.Core.List.{Perm}
use docsis_monitor.Alarm.Said.{
  AllSpaced, IsInformed, observe, head_said, observe-AllSpaced, observe-IsInformed,
}
use docsis_monitor.Float.{exact, exact-IsMonotone}

abbrev verdict : State → RelayVerdict
verdict s = record { state = s; idle_for = some 10; idle_allowed = 900 }

worst_of_several :
    severity (worst (verdict State.working ∷ verdict State.quiet ∷ []))
    ≡ max_severity (verdict State.working ∷ verdict State.quiet ∷ [])
worst_of_several = severity-worst (verdict State.working ∷ verdict State.quiet ∷ [])

two_swapped :
    Perm
      (verdict State.working ∷ verdict State.quiet ∷ [])
      (verdict State.quiet ∷ verdict State.working ∷ [])
two_swapped = Perm.swap (verdict State.quiet) (verdict State.working) []

any_order :
    worst (verdict State.working ∷ verdict State.quiet ∷ [])
    ≡ worst (verdict State.quiet ∷ verdict State.working ∷ [])
any_order = worst-perm two_swapped

longer_silence :
    severity (judge_relay exact 10 9 (some 30) 900 (1, 2)).state
    ≤ severity (judge_relay exact 10 4 (some 40) 600 (1, 2)).state
longer_silence =
    judge_relay_mono exact exact-IsMonotone 10 9 4 30 40 900 600 (1, 2) (omega arith) (omega arith)
      (omega arith)

-- Trouble that lasts, then none.
abbrev outage : List (State × ℕ)
outage = (State.working, 0) ∷ (State.quiet, 60) ∷ (State.quiet, 120) ∷ (State.quiet, 3_700) ∷ []

observe-AllSpaced_example : AllSpaced 3_600 (observe (new 3_600) [] outage).1
observe-AllSpaced_example = observe-AllSpaced 3_600 outage

observe-IsInformed_example :
    IsInformed 3_600 State.working 4_000
      (head_said (observe (new 3_600) [] (outage ++ (State.working, 4_000) ∷ [])).1)
observe-IsInformed_example = observe-IsInformed 3_600 outage State.working 4_000
