-- ===== src/Config/Settings.antt =====
-- config.rs: the settings as the program holds them, and the questions that other parts ask.
use docsis_monitor.Order.{nat_order, list_order}
use docsis_monitor.Base.{
  if◌then◌else◌, length, retain, Text, codes, decimal, join, trim_start, trim, is_empty,
  starts_with, ℕ, Bool, not, ◌&&◌, Option, none, some, List, [], ◌∷◌, ◌++◌, map,
}
use docsis_monitor.OrdMap.{OrdMap, lookup}
use docsis_monitor.Float.{Floats}
use docsis_monitor.Ip.{dotted}
use mathlib.Core.Option.{get_or}

-- `struct RelayThreshold`.
pub record RelayThreshold : Type 0 where
  pub idle_seconds : ℕ

-- `struct Target`. A port is below 2^16.
pub record Target : Type 0 where
  pub host : Text
  pub port : ℕ
  pub community : Text

-- `struct Snmp`.
pub record Snmp : Type 0 where
  pub targets : List Target
  pub sysname : Option Text

-- `struct Smtp`.
pub record Smtp : Type 0 where
  pub server : Text
  pub port : ℕ
  pub from : Text
  pub to : List Text
  pub subject_prefix : Text
  pub username : Option Text
  pub password : Option Text
  pub helo_name : Option Text

-- `struct PerRelay`, by the text of the address.
abbrev pub PerRelay : Type 0
PerRelay = OrdMap Text RelayThreshold

-- `struct Thresholds`.
pub record Thresholds (f : Floats) : Type 0 where
  pub min_answered : f.F
  pub idle_seconds : ℕ
  pub resend_after : ℕ

-- `struct Config`. Of the settings that nothing here reads, only the names are used.
pub record Config (f : Floats) : Type 0 where
  pub interface : Text
  pub nofork : Bool
  pub window : ℕ
  pub report_every : ℕ
  pub thresholds : Thresholds f
  pub snmp : Snmp
  pub per_relay : PerRelay
  pub smtp : Option Smtp
  pub extra : List Text

-- The defaults that the file may leave out.
abbrev pub default_window : ℕ
default_window = 300

abbrev pub default_report : ℕ
default_report = 300

abbrev pub default_trap_port : ℕ
default_trap_port = 162

abbrev pub default_community : Text
default_community = codes "public"

abbrev pub default_smtp_port : ℕ
default_smtp_port = 25

abbrev pub default_prefix : Text
default_prefix = codes "[docsis]"

abbrev pub default_thresholds : (f : Floats) → Thresholds f
default_thresholds f = record {
  min_answered = f.three_quarters;
  idle_seconds = 3_600;
  resend_after = 900;
}

-- `map_or(fallback, |t| t.idle_seconds)`.
abbrev pub seconds_or : ℕ → Option RelayThreshold → ℕ
seconds_or fallback none = fallback
seconds_or fallback (some t) = t.idle_seconds

-- `PerRelay::idle_seconds` and `PerRelay::named`.
unfoldable pub idle_seconds : PerRelay → ℕ → ℕ → ℕ
idle_seconds per_relay gi fallback = seconds_or fallback (lookup (dotted gi) per_relay)

unfoldable pub named : PerRelay → List Text
named per_relay = map (λ (e : Text × RelayThreshold). e.0) per_relay

-- `Smtp::usable`.
unfoldable pub usable : Smtp → Bool
unfolding trim
usable m = not (is_empty (trim m.server)) && not (is_empty m.to) && not (is_empty (trim m.from))

-- `Smtp::helo`, with what the host answers when it is asked for its name.
unfoldable pub helo : Option Text → Smtp → Text
helo host m = get_or m.helo_name (get_or host (codes "localhost"))

-- `Option::filter` by `usable`.
unfoldable pub filter_usable : Option Smtp → Option Smtp
unfolding usable
filter_usable none = none
filter_usable (some m) = if usable m then some m else none

module _ (f : Floats) where
  -- `Config::mail`.
  unfoldable pub mail : Config f → Option Smtp
  unfolding filter_usable
  mail cfg = filter_usable cfg.smtp

  -- The filter of `report_unknown`.
  unfoldable pub unknown : Config f → List Text
  unfolding trim_start starts_with retain
  unknown cfg = retain (λ (k : Text). not (starts_with (codes "//") (trim_start k))) cfg.extra

  -- `Config::report_unknown`: the line that it prints, if it prints one.
  unfoldable pub report_unknown : Config f → Option Text
  unfolding unknown decimal join
  report_unknown cfg = elim (unknown cfg) [
    | [] ↦ none
    | k ∷ ks ↦ some (
        codes "ignoring "
        ++ (decimal (length (k ∷ ks))
            ++ (codes " setting(s) this program does not know: " ++ join (codes ", ") (k ∷ ks))))
  ]
