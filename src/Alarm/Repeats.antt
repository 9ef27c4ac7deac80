-- ===== src/Alarm/Repeats.antt =====
-- alarm.rs: what has been said, so that an outage is one alert and not fifty.
use docsis_monitor.Alarm.Judge.{State, is_trouble, same_state}
use docsis_monitor.Base.{leb, if◌then◌else◌, ℕ, ◌-◌, Bool, true, not, ◌&&◌, Option, none, some}

-- `struct Repeats`.
pub record Repeats : Type 0 where
  pub after : ℕ
  pub last : Option (State × ℕ)

unfoldable pub new : ℕ → Repeats
new after = record { after = after; last = none }

-- The match of `should_send` on what was said last.
unfoldable pub is_due : ℕ → Option (State × ℕ) → State → ℕ → Bool
unfolding is_trouble same_state
is_due after none state now = is_trouble state
is_due after (some (was, when)) state now =
    if not (same_state was state) then true else is_trouble state && leb after (now - when)

-- The new memory and the answer.
unfoldable pub should_send : Repeats → State → ℕ → Repeats × Bool
unfolding is_due
should_send r state now =
    let send = is_due r.after r.last state now in
    (if send then record r { last = some (state, now) } else r, send)
