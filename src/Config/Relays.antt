-- ===== src/Config/Relays.antt =====
-- The thresholds per interface of config.rs: an entry is for its own address and for no other.
use docsis_monitor.Order.{nat_order, list_order}
use docsis_monitor.Base.{
  if◌then◌else◌, Bool-cases, ◌==◌, ==_iff, ℕ, ◌^◌, ◌<◌, ◌≡◌, refl, inl, inr, ap,
}
use docsis_monitor.Config.Settings.{idle_seconds, seconds_or}
use docsis_monitor.Config.Settings.{PerRelay, RelayThreshold}
use docsis_monitor.OrdMap.{insert}
use docsis_monitor.Ip.{dotted}
use docsis_monitor.OrdMap.Laws.{lookup-insert_self, lookup-insert_ne}
use docsis_monitor.Ip.RoundTrip.{dotted_injective}

-- The entry for an interface in `per_relay`, whose keys are texts, sets the threshold of that
-- interface and of no other address.
pub idle_seconds-insert :
    (per_relay : PerRelay) (gi q fallback : ℕ) (t : RelayThreshold)
    → gi < 2 ^ 32
    → q < 2 ^ 32
    → idle_seconds (insert (dotted gi) t per_relay) q fallback
      ≡ (if q == gi then t.idle_seconds else idle_seconds per_relay q fallback)
unfolding idle_seconds
idle_seconds-insert per_relay gi q fallback t h k = elim (Bool-cases (q == gi)) [
  | inl same ↦
      rw ((==_iff q gi).0 same, (==_iff gi gi).1 refl)
        (ap (seconds_or fallback) (lookup-insert_self (dotted gi) t per_relay))
  | inr other ↦ rw other (
      ap (seconds_or fallback) (
        lookup-insert_ne (dotted q) (dotted gi) t per_relay
          (λ e. cc (other, (==_iff q gi).1 (dotted_injective q gi k h e)))))
]
