-- ===== src/Alarm/Judge.antt =====
-- alarm.rs: the verdict on one interface, and the worst of several.
use docsis_monitor.Float.{Floats}
use docsis_monitor.Base.{
  ltb, leb, if◌then◌else◌, Text, codes, ◌==◌, ℕ, Bool, true, false, ◌&&◌, Option, none, some, List,
  [], ◌∷◌,
}

-- `enum State`.
pub data State : Type 0 where
  working quiet unanswered : State

-- `struct RelayVerdict`.
pub record RelayVerdict : Type 0 where
  pub state : State
  pub idle_for : Option ℕ
  pub idle_allowed : ℕ

unfoldable pub word : State → Text
word working = codes "working"
word quiet = codes "quiet"
word unanswered = codes "unanswered"

unfoldable pub is_trouble : State → Bool
is_trouble working = false
is_trouble _ = true

-- `was != state` of the derived `PartialEq`.
unfoldable pub same_state : State → State → Bool
same_state working working = true
same_state quiet quiet = true
same_state unanswered unanswered = true
same_state _ _ = false

module _ (f : Floats) where
  open f use {F, of_u64, div, lt}

  unfoldable pub answered : ℕ → ℕ → F
  answered requests replies =
      if requests == 0 then of_u64 1 else div (of_u64 replies) (of_u64 requests)

  -- The match of `judge_relay` on the silence.
  unfoldable pub judged_state : ℕ → ℕ → Option ℕ → ℕ → F → State
  unfolding answered
  judged_state requests replies none idle_allowed min_answered = working
  judged_state requests replies (some idle) idle_allowed min_answered =
      if ltb idle_allowed idle
      then quiet
      else if leb 5 requests && lt (answered requests replies) min_answered
      then unanswered
      else working

  unfoldable pub judge_relay : ℕ → ℕ → Option ℕ → ℕ → F → RelayVerdict
  unfolding judged_state
  judge_relay requests replies idle_for idle_allowed min_answered = record {
    state = judged_state requests replies idle_for idle_allowed min_answered;
    idle_for = idle_for;
    idle_allowed = idle_allowed;
  }

-- One round of the loop of `worst`.
unfoldable pub worse : State → State → State
worse quiet _ = quiet
worse _ quiet = quiet
worse unanswered _ = unanswered
worse _ unanswered = unanswered
worse working working = working

-- The loop of `worst`, from the state reached so far.
unfoldable pub worst_from : State → List RelayVerdict → State
unfolding worse
worst_from out [] = out
worst_from out (v ∷ vs) = worst_from (worse out v.state) vs

unfoldable pub worst : List RelayVerdict → State
unfolding worst_from
worst verdicts = worst_from working verdicts
