-- ===== src/Capture/Adapted.antt =====
-- What capture.rs judges once the suggestions of an earlier adaptation are in its configuration.
use docsis_monitor.Relays.Events.{run as run_events, Event}
use docsis_monitor.Order.{nat_order, list_order}
use docsis_monitor.Base.{
  u64_mod, All, ℕ, ◌-◌, ◌*◌, ◌^◌, ◌<◌, min, max, ◌≡◌, refl, ap, ◌∙◌, ◌↔◌, Option, none, some, List,
  [], ◌∷◌, arith, map,
}
use docsis_monitor.Relays.Gaps.{longest_difference}
use docsis_monitor.Adapt.Pasted.{
  threshold_for, idle_seconds-pasted, per_relay_of, AreRows, read_block-pasted, suggestion-AreWords,
}
use docsis_monitor.Adapt.Suggest.{suggest, as_config, suggestion}
use docsis_monitor.Float.{Floats}
use docsis_monitor.Relays.Silence.{heard_at, latest_of, lookup-run-default, length-times_in}
use docsis_monitor.Relays.Rows.{times_in}
use docsis_monitor.Relays.Fits.{IsWithin, run-default-Fits, times_in-IsAddress}
use docsis_monitor.Config.Settings.{Config, idle_seconds, PerRelay}
use docsis_monitor.Relays.Tally.{requests_in}
use docsis_monitor.Relays.Table.{default}
use docsis_monitor.Alarm.Judge.{worst, State}
use mathlib.Core.Option.{get_or}
use docsis_monitor.Capture.Decide.{judge_each}
use docsis_monitor.Relays.Valid.{run-default-IsValid}
use docsis_monitor.Capture.Outage.{worst-run}
use docsis_monitor.Adapt.Block.{read_block}

-- The threshold for a relay of which requests were seen at some times: none for fewer than two.
abbrev pub threshold_at : List ℕ → Option ℕ
threshold_at [] = none
threshold_at (t ∷ []) = none
threshold_at (t ∷ u ∷ ts) = some (min 86_400 (max 300 (3 * longest_difference t (u ∷ ts))))

threshold_for-heard_at : (ts : List ℕ) → threshold_for (heard_at ts) ≡ threshold_at ts
threshold_for-heard_at [] = refl
threshold_for-heard_at (t ∷ []) = refl
threshold_for-heard_at (t ∷ u ∷ ts) = ground arith

-- What an interface is allowed after an adaptation that saw these events.
pub idle_seconds-run :
    (watched_for g fallback : ℕ) (es : List Event)
    → g < 2 ^ 32
    → All (IsWithin (2 ^ 62)) es
    → requests_in es < u64_mod
    → idle_seconds
        (per_relay_of (read_block (as_config (suggest (run_events default es) watched_for))))
        g
        fallback
      ≡ get_or (threshold_at (times_in g es)) fallback
unfolding suggest
idle_seconds-run watched_for g fallback es word within room =
    let rows : AreRows (run_events default es).by_gi =
      (run-default-Fits (2 ^ 62) es (omega arith) within).rows in
    let all = map (suggestion watched_for) (run_events default es).by_gi in
    ap (λ (p : PerRelay). idle_seconds p g fallback)
      (read_block-pasted all (suggestion-AreWords watched_for (run_events default es).by_gi rows))
    ∙ (idle_seconds-pasted watched_for g fallback (run_events default es).by_gi word
          (run-default-IsValid es).rows_sorted rows
        ∙ ap (λ (o : Option ℕ). get_or o fallback)
            (ap threshold_for (lookup-run-default g es (omega (arith, room, length-times_in g es)))
              ∙ threshold_for-heard_at (times_in g es)))

module _ (f : Floats) (cfg : Config f) (at : ℕ) where
  -- The configuration with the printed suggestions pasted in.
  abbrev pub adapted : List Event → ℕ → Config f
  adapted es watched_for = record cfg {
    per_relay = per_relay_of (read_block (as_config (suggest (run_events default es) watched_for)));
  }

  -- A monitor whose `per_relay` is read from the block that an adaptation printed judges the plant
  -- quiet exactly when some interface has been silent for longer than three times the longest
  -- silence that the adaptation saw of it, within five minutes and a day; or than the threshold for
  -- all, where the adaptation saw fewer than two of its requests; if the adaptation saw fewer than
  -- 2^64 requests, all of them before second 2^62, and addresses have 32 bits.
  pub worst-suggest :
      (watched_for bound : ℕ) (es later : List Event)
      → All (IsWithin (2 ^ 62)) es
      → requests_in es < u64_mod
      → All (IsWithin bound) later
      → worst (judge_each f (run_events default later) (adapted es watched_for) at) ≡ State.quiet
        ↔ (g : ℕ) × (t : ℕ) × (latest_of (times_in g later) ≡ some t)
          × (get_or (threshold_at (times_in g es)) cfg.thresholds.idle_seconds < at - t)
  worst-suggest watched_for bound es later within room addresses =
      let both = worst-run f (adapted es watched_for) at later in
      let same = λ (g t : ℕ) (last : latest_of (times_in g later) ≡ some t).
        idle_seconds-run watched_for g cfg.thresholds.idle_seconds es
          (times_in-IsAddress bound g later t addresses last) within room in
      (
        λ h. let (g, t, last, late) = both.0 h in (g, t, last, omega (arith, late, same g t last)),
        λ (g, t, last, late). both.1 (g, t, last, omega (arith, late, same g t last)),
      )
