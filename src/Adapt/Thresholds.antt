-- ===== src/Adapt/Thresholds.antt =====
-- The thresholds of adapt.rs, against their definition without the loops and the machine words,
-- and against the judgement of alarm.rs that will use them.
use docsis_monitor.Base.{
  ltb, if◌then◌else◌, All, ℕ, ◌*◌, ◌^◌, ◌≤◌, ◌<◌, min, max, ◌≡◌, refl, ◌≢◌, Option, none, some,
  List, [], ◌∷◌, map, arith,
}
use docsis_monitor.Relays.Table.{Relay, Relays, each}
use docsis_monitor.Adapt.Suggest.{judge, Suggestion, suggestion, suggest, span_of}
use mathlib.Core.Path.{ap₂}
use docsis_monitor.Alarm.Judge.{judge_relay, State}
use docsis_monitor.Float.{Floats}

-- The threshold for an interface: three times its longest silence, within five minutes and a day,
-- once there was a silence to measure.
abbrev pub threshold : Relay → Option ℕ
threshold r = if ltb r.requests 2 then none else some (min 86_400 (max 300 (3 * r.longest_gap)))

-- No silence is so long that three times it leaves a u64.
abbrev pub HasSmallGap : ℕ × Relay → Type 0
HasSmallGap e = e.1.longest_gap < 2 ^ 62

pub judge-idle :
    (requests span gap watched_for : ℕ)
    → gap < 2 ^ 62
    → (judge requests span gap watched_for).0
      ≡ (if ltb requests 2 then none else some (min 86_400 (max 300 (3 * gap))))
unfolding judge
judge-idle requests span gap watched_for h = ground arith

-- What the log and the configuration take from a suggestion.
abbrev pub taken : Suggestion → ℕ × ℕ × ℕ × Option ℕ
taken s = (s.gi, s.requests, s.longest_gap, s.idle_seconds)

abbrev pub taken_from : ℕ × Relay → ℕ × ℕ × ℕ × Option ℕ
taken_from (gi, r) = (gi, r.requests, r.longest_gap, threshold r)

taken-suggestion :
    (watched_for : ℕ) (e : ℕ × Relay)
    → HasSmallGap e
    → taken (suggestion watched_for e) ≡ taken_from e
unfolding suggestion
taken-suggestion watched_for (gi, r) h = λ i.
    (gi, r.requests, r.longest_gap, judge-idle r.requests (span_of r) r.longest_gap watched_for h i)

taken-map :
    (watched_for : ℕ) (es : List (ℕ × Relay))
    → All HasSmallGap es
    → map taken (map (suggestion watched_for) es) ≡ map taken_from es
taken-map watched_for [] h = refl
taken-map watched_for (e ∷ es) h =
    ap₂ ◌∷◌ (taken-suggestion watched_for e h.0) (taken-map watched_for es h.1)

-- There is one suggestion per relay, in address order, with its requests, its longest silence and
-- its threshold, where no longest silence reaches 2^62 seconds.
pub suggest-threshold :
    (relays : Relays) (watched_for : ℕ)
    → All HasSmallGap relays.by_gi
    → map taken (suggest relays watched_for) ≡ map taken_from (each relays)
unfolding suggest
suggest-threshold relays watched_for h = taken-map watched_for relays.by_gi h

-- Where the longest silence is below 2^62 seconds, an interface that is judged by the threshold
-- suggested for it is not called quiet by a silence of up to three times the longest one seen and
-- no more than a day.
pub suggestion-judge_relay :
    (f : Floats) (min_answered : f.F) (gi : ℕ) (r : Relay) (watched_for allowed idle : ℕ)
    → r.longest_gap < 2 ^ 62
    → (suggestion watched_for (gi, r)).idle_seconds ≡ some allowed
    → idle ≤ 3 * r.longest_gap
    → idle ≤ 86_400
    → (judge_relay f r.requests r.replies (some idle) allowed min_answered).state ≢ State.quiet
unfolding suggestion judge_relay
suggestion-judge_relay f min_answered gi r watched_for allowed idle h e i d =
    ground (arith, judge-idle r.requests (span_of r) r.longest_gap watched_for h)
