-- ===== src/Alarm/Severity.antt =====
-- The order of the states, and what `judge_relay` and `worst` of alarm.rs do to it.
use docsis_monitor.Alarm.Judge.{
  State, RelayVerdict, judge_relay, answered, worse, worst_from, worst,
}
use mathlib.Core.List.{Perm, Permᴰ}
use mathlib.Core.Logic.{∥∥₁_elim}
use docsis_monitor.Float.{Floats, IsMonotone}
use docsis_monitor.Base.{ℕ, ◌≤◌, max, ◌≡◌, refl, none, some, List, [], ◌∷◌, arith, ◌∙◌, ap, ◌↔◌}

-- Working, then unanswered, then quiet.
abbrev pub severity : State → ℕ
severity State.working = 0
severity State.unanswered = 1
severity State.quiet = 2

abbrev level : RelayVerdict → ℕ
level v = severity v.state

-- The largest severity of some verdicts, written without the loop.
abbrev pub max_severity : List RelayVerdict → ℕ
max_severity [] = 0
max_severity (v ∷ vs) = max (level v) (max_severity vs)

severity-worse : (s t : State) → severity (worse s t) ≡ max (severity s) (severity t)
unfolding worse
severity-worse State.working State.working = refl
severity-worse State.working State.quiet = refl
severity-worse State.working State.unanswered = refl
severity-worse State.quiet State.working = refl
severity-worse State.quiet State.quiet = refl
severity-worse State.quiet State.unanswered = refl
severity-worse State.unanswered State.working = refl
severity-worse State.unanswered State.quiet = refl
severity-worse State.unanswered State.unanswered = refl

severity-worst_from :
    (out : State) (vs : List RelayVerdict)
    → severity (worst_from out vs) ≡ max (severity out) (max_severity vs)
unfolding worst_from
severity-worst_from out [] = ground arith
severity-worst_from out (v ∷ vs) =
    omega (arith, severity-worst_from (worse out v.state) vs, severity-worse out v.state)

-- The plant's state is exactly as bad as its worst interface: no better, no worse, in whatever
-- order the interfaces are listed.
pub severity-worst : (vs : List RelayVerdict) → severity (worst vs) ≡ max_severity vs
unfolding worst
severity-worst vs = omega (arith, severity-worst_from State.working vs)

pub severity-injective : (s t : State) → severity s ≡ severity t → s ≡ t
severity-injective s t h = ground arith

severity_bound : (s : State) → severity s ≤ 2
severity_bound s = ground arith

-- Nothing is worse than quiet.
pub worst-iff-quiet : (vs : List RelayVerdict) → worst vs ≡ State.quiet ↔ 2 ≤ max_severity vs
worst-iff-quiet vs = (
  λ h. omega (arith, severity-worst vs, ap severity h),
  λ h.
      severity-injective (worst vs) State.quiet
        (omega (arith, h, severity-worst vs, severity_bound (worst vs))),
)

State-set : IsSet State
State-set = hlevel

max_severity-perm : {us vs : List RelayVerdict} → Permᴰ us vs → max_severity us ≡ max_severity vs
max_severity-perm Permᴰ.nil = refl
max_severity-perm (Permᴰ.cons e p) = omega (arith, ap level e, max_severity-perm p)
max_severity-perm (Permᴰ.swap e f) = omega (arith, ap level e, ap level f)
max_severity-perm (Permᴰ.trans p q) = max_severity-perm p ∙ max_severity-perm q

-- The plant's state does not depend on the order in which the interfaces are listed.
pub worst-perm : {us vs : List RelayVerdict} → Perm us vs → worst us ≡ worst vs
worst-perm {us} {vs} p = ∥∥₁_elim p (State-set (worst us) (worst vs)) λ q.
    severity-injective _ _
      (omega (arith, severity-worst us, severity-worst vs, max_severity-perm q))

module _ (f : Floats) (mono : IsMonotone f) where
  open f use {F, of_u64, div, lt}

  -- An interface is judged no better after a longer silence, with fewer replies to the same
  -- requests, or against a shorter allowance.
  pub judge_relay_mono :
      (requests replies replies' idle idle' allowed allowed' : ℕ) (min_answered : F)
      → replies' ≤ replies
      → idle ≤ idle'
      → allowed' ≤ allowed
      → severity (judge_relay f requests replies (some idle) allowed min_answered).state
        ≤ severity (judge_relay f requests replies' (some idle') allowed' min_answered).state
  unfolding judge_relay answered
  judge_relay_mono requests replies replies' idle idle' allowed allowed' m hr hi ha =
      ground (arith, mono.dividend replies' replies requests m hr)

  -- An interface that has never sent a request is never trouble.
  pub judge_relay_silent :
      (requests replies allowed : ℕ) (min_answered : F)
      → severity (judge_relay f requests replies none allowed min_answered).state ≡ 0
  unfolding judge_relay
  judge_relay_silent requests replies allowed min_answered = refl
