-- ===== src/Alarm/Said.antt =====
-- What the sequence of alerts of alarm.rs tells whoever receives it.
use docsis_monitor.Alarm.Judge.{State, is_trouble, same_state}
use docsis_monitor.Alarm.Repeats.{Repeats, should_send, new, is_due}
use docsis_monitor.Base.{
  if◌then◌else◌, ℕ, ◌-◌, ◌≤◌, ◌≡◌, ◌≢◌, ◌⊎◌, true, false, Option, none, some, List, [], ◌∷◌, arith,
  Bool-cases, ◌<◌, refl, inl, inr, ◌++◌,
}
use mathlib.Core.Path.{subst}

abbrev pub Observation : Type 0
Observation = State × ℕ

-- The memory after some observations, and what was sent, latest first.
unfoldable pub observe : Repeats → List Observation → List Observation → Repeats × List Observation
unfolding should_send
observe r sent [] = (r, sent)
observe r sent ((state, now) ∷ obs) =
    let step = should_send r state now in
    observe step.0 (if step.1 then (state, now) ∷ sent else sent) obs

-- Two alerts in a row: either the state changed, or the same trouble was repeated, and then not
-- before `after` seconds.
abbrev pub IsSpaced : ℕ → Observation → Observation → Type 0
IsSpaced after (s, t) (s', t') = (s ≢ s') ⊎ ((is_trouble s' ≡ true) × (after ≤ t' - t))

abbrev pub AllSpaced : ℕ → List Observation → Type 0
AllSpaced after [] = Unit {0}
AllSpaced after ((s, t) ∷ []) = (is_trouble s ≡ true) × Unit {0}
AllSpaced after (later ∷ earlier ∷ rest) =
    IsSpaced after earlier later × AllSpaced after (earlier ∷ rest)

-- The memory is the latest alert.
abbrev pub head_said : List Observation → Option Observation
head_said [] = none
head_said (o ∷ _) = some o

record IsKept (after : ℕ) (r : Repeats) (sent : List Observation) : Type 0 where
  same_after : r.after ≡ after
  remembered : r.last ≡ head_said sent
  spaced : AllSpaced after sent

same_state_ne : (s t : State) → same_state s t ≡ false → s ≢ t
unfolding same_state
same_state_ne s t h = ground arith

step-IsKept :
    (after : ℕ) (r : Repeats) (sent : List Observation) (state : State) (now : ℕ)
    → IsKept after r sent
    → IsKept after
        (should_send r state now).0
        (if (should_send r state now).1 then (state, now) ∷ sent else sent)
unfolding should_send
step-IsKept after r [] state now k = ground arith
step-IsKept after r ((s, t) ∷ rest) state now k = ground (arith, same_state_ne s state)

observe-IsKept :
    (after : ℕ) (r : Repeats) (sent : List Observation) (obs : List Observation)
    → IsKept after r sent
    → IsKept after (observe r sent obs).0 (observe r sent obs).1
unfolding observe
observe-IsKept after r sent [] k = k
observe-IsKept after r sent ((state, now) ∷ obs) k =
    observe-IsKept after (should_send r state now).0
      (if (should_send r state now).1 then (state, now) ∷ sent else sent) obs
      (step-IsKept after r sent state now k)

-- Over any run of judgements the alerts are spaced: the first reports trouble, and each later one
-- either reports another state than the one before it, or repeats the same trouble after no less
-- than `after` seconds.
pub observe-AllSpaced :
    (after : ℕ) (obs : List Observation) → AllSpaced after (observe (new after) [] obs).1
unfolding new
observe-AllSpaced after obs =
    (observe-IsKept after (new after) [] obs
      (record { same_after = refl; remembered = refl; spaced = tt })).spaced

-- What is remembered is the latest alert.
pub observe-head_said :
    (after : ℕ) (obs : List Observation)
    → (observe (new after) [] obs).0.last ≡ head_said (observe (new after) [] obs).1
unfolding new
observe-head_said after obs =
    (observe-IsKept after (new after) [] obs
      (record { same_after = refl; remembered = refl; spaced = tt })).remembered

-- The gap that is kept between two alerts does not change.
pub observe-after :
    (after : ℕ) (obs : List Observation) → (observe (new after) [] obs).0.after ≡ after
unfolding new
observe-after after obs =
    (observe-IsKept after (new after) [] obs
      (record { same_after = refl; remembered = refl; spaced = tt })).same_after

-- What somebody who reads the alerts knows of a plant that is in `state` at `now`: nothing was
-- said and it is working; or the latest alert names this state, and for a trouble it was sent
-- just now or less than `after` seconds ago.
abbrev pub IsInformed : ℕ → State → ℕ → Option Observation → Type 0
IsInformed after state now said =
    ((said ≡ none) × (state ≡ State.working))
    ⊎ ((when : ℕ) × (said ≡ some (state, when))
        × ((is_trouble state ≡ false) ⊎ ((when ≡ now) ⊎ (now - when < after))))

same_state_eq : (s t : State) → same_state s t ≡ true → s ≡ t
unfolding same_state
same_state_eq s t h = ground arith

not_due_first :
    (after : ℕ) (state : State) (now : ℕ)
    → is_due after none state now ≡ false
    → state ≡ State.working
unfolding is_due
not_due_first after state now h = ground arith

not_due_again :
    (after : ℕ) (was state : State) (when now : ℕ)
    → is_due after (some (was, when)) state now ≡ false
    → (was ≡ state) × ((is_trouble state ≡ false) ⊎ ((when ≡ now) ⊎ (now - when < after)))
unfolding is_due
not_due_again after was state when now h = (
  ground (arith, same_state_eq was state),
  elim (Bool-cases (is_trouble state)) [ inl bad ↦ inr (inr (ground arith)) | inr fine ↦ inl fine ],
)

-- One judgement leaves the memory informed, whatever it was before.
pub IsInformed-is_due :
    (after : ℕ) (last : Option Observation) (state : State) (now : ℕ)
    → IsInformed after state now (if is_due after last state now then some (state, now) else last)
IsInformed-is_due after none state now = elim (Bool-cases (is_due after none state now)) [
  | inl due ↦ inr (now, rw due, inr (inl refl))
  | inr quiet ↦ inl (rw quiet, not_due_first after state now quiet)
]
IsInformed-is_due after (some (was, when)) state now =
    elim (Bool-cases (is_due after (some (was, when)) state now)) [
      | inl due ↦ inr (now, rw due, inr (inl refl))
      | inr quiet ↦
          let (same, recent) = not_due_again after was state when now quiet in
          inr (when, rw (quiet, same), recent)
    ]

observe-append :
    (r : Repeats) (sent obs later : List Observation)
    → observe r sent (obs ++ later) ≡ observe (observe r sent obs).0 (observe r sent obs).1 later
unfolding observe
observe-append r sent [] later = refl
observe-append r sent ((state, now) ∷ obs) later =
    observe-append (should_send r state now).0
      (if (should_send r state now).1 then (state, now) ∷ sent else sent) obs later

last_step :
    (after : ℕ) (r : Repeats) (sent : List Observation) (state : State) (now : ℕ)
    → IsKept after r sent
    → IsInformed after state now (head_said (observe r sent ((state, now) ∷ [])).1)
unfolding observe
last_step after r sent state now k =
    subst (IsInformed after state now) said (IsInformed-is_due after (head_said sent) state now)
  where
    said :
        (if is_due after (head_said sent) state now then some (state, now) else head_said sent)
        ≡ head_said (observe r sent ((state, now) ∷ [])).1
    said = ground (arith, k.remembered, k.same_after)

-- After any run of judgements somebody who reads the alerts is informed: a plant that is working
-- is never believed to be in trouble, nor the other way round, and a lasting trouble is repeated.
pub observe-IsInformed :
    (after : ℕ) (obs : List Observation) (state : State) (now : ℕ)
    → IsInformed after state now (head_said (observe (new after) [] (obs ++ (state, now) ∷ [])).1)
unfolding new
observe-IsInformed after obs state now =
    rw (observe-append (new after) [] obs ((state, now) ∷ [])) (
      last_step after _ _ state now (
        observe-IsKept after (new after) [] obs
          (record { same_after = refl; remembered = refl; spaced = tt })))

-- One judgement, on a memory that keeps this gap.
pub should_send-IsInformed :
    (r : Repeats) (state : State) (now : ℕ)
    → IsInformed r.after state now (should_send r state now).0.last
unfolding should_send
should_send-IsInformed r state now =
    subst (IsInformed r.after state now) kept (IsInformed-is_due r.after r.last state now)
  where
    kept :
        (if is_due r.after r.last state now then some (state, now) else r.last)
        ≡ (should_send r state now).0.last
    kept = ground arith
