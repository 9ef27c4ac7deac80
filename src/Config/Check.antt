-- ===== src/Config/Check.antt =====
-- config.rs: `check`, and what a configuration that passes it satisfies.
use docsis_monitor.Base.{
  if◌then◌else◌, codes, text_eq, trim, is_empty, ◌==◌, ◌≡◌, ◌≢◌, ◌⊎◌, Bool, true, not, ◌&&◌, Option,
  none, some, [], ◌++◌, Text,
}
use docsis_monitor.Float.{Floats}
use docsis_monitor.Config.Settings.{Config, Smtp, mail}
use docsis_monitor.Result.{◌>>◌, Result, bail, ok}

-- The two guards of `check` on the interface, trimmed.
unfoldable pub check_interface : Text → Result (Unit {0})
unfolding text_eq
check_interface name =
    if is_empty name
    then bail (codes "`interface` must name the interface to watch")
    else if text_eq name (codes "any")
    then bail (
        codes
          "`interface` must name one interface. \"any\" captures every wire at once, and a monitor that cannot say WHICH wire went quiet cannot say anything worth acting on.")
    else ok tt

-- The guards of `check` on the mail section.
unfoldable pub check_smtp : Option Smtp → Result (Unit {0})
unfolding trim
check_smtp none = ok tt
check_smtp (some m) =
    let named = not (is_empty (trim m.server)) in
    if named && is_empty m.to
    then bail (codes "`smtp.server` is set but `smtp.to` names nobody to send to")
    else if named && is_empty (trim m.from)
    then bail
        (codes "`smtp.server` is set but `smtp.from` is empty; a relay rejects mail with no sender")
    else ok tt

-- No server is named, or `mail` answers the section.
abbrev pub MailOrNone : Option Smtp → Option Smtp → Type 0
MailOrNone none mailed = Unit {0}
MailOrNone (some m) mailed = (trim m.server ≡ []) ⊎ (mailed ≡ some m)

module _ (f : Floats) where
  open f use {F, of_u64, le, display}

  -- `(0.0..=1.0).contains`.
  unfoldable pub is_fraction : F → Bool
  is_fraction x = le (of_u64 0) x && le x (of_u64 1)

  -- `Config::check`.
  unfoldable pub check : Config f → Result (Unit {0})
  unfolding trim check_interface check_smtp is_fraction
  check cfg =
      check_interface (trim cfg.interface)
      >> (if cfg.window == 0
          then bail (codes "`window` is how many seconds a judgement is made over; it cannot be 0")
          else ok tt)
      >> check_smtp cfg.smtp
      >> (if not (is_fraction cfg.thresholds.min_answered)
          then bail (
              codes "`min_answered` is a fraction of requests, 0 to 1, not a percentage: "
              ++ (display cfg.thresholds.min_answered ++ codes " was given"))
          else ok tt)

  -- What a configuration must satisfy, without the order of the guards: a named interface that is
  -- not "any", a window, a mail section that is usable or names no server, and a fraction.
  pub record IsSound (cfg : Config f) : Type 0 where
    pub names_interface : trim cfg.interface ≢ []
    pub one_interface : trim cfg.interface ≢ codes "any"
    pub has_window : cfg.window ≢ 0
    pub mail_or_none : MailOrNone cfg.smtp (mail f cfg)
    pub fraction : is_fraction cfg.thresholds.min_answered ≡ true
