-- ===== src/Config/Sound.antt =====
-- What `check` of config.rs lets through: exactly the sound configurations.
use docsis_monitor.Base.{
  Bool-cases, Text, codes, text_eq, ◌≡◌, refl, ◌≢◌, inl, inr, [], ◌∷◌, arith, trim, ◌↔◌, Option,
  none, some,
}
use docsis_monitor.Config.Check.{check_interface, check_smtp, MailOrNone, check, IsSound}
use docsis_monitor.Float.{Floats}
use docsis_monitor.Result.{ok}
use docsis_monitor.Base.Trim.{text_eq_self, text_eq-eq}
use docsis_monitor.Config.Settings.{mail, Config, filter_usable, Smtp}

check_interface-ok :
    (name : Text) → check_interface name ≡ ok tt → (name ≢ []) × (name ≢ codes "any")
unfolding check_interface
check_interface-ok name h = (λ e. ground arith, λ e. ground (arith, text_eq_self (codes "any")))

ok-check_interface : (name : Text) → name ≢ [] → name ≢ codes "any" → check_interface name ≡ ok tt
unfolding check_interface
ok-check_interface [] h k = absurd (h refl)
ok-check_interface (a ∷ s) h k = elim (Bool-cases (text_eq (a ∷ s) (codes "any"))) [
  | inl same ↦ absurd (k (text_eq-eq (a ∷ s) (codes "any") same))
  | inr other ↦ rw other refl
]

check_smtp-ok :
    (smtp : Option Smtp) → check_smtp smtp ≡ ok tt → MailOrNone smtp (filter_usable smtp)
unfolding check_smtp filter_usable
check_smtp-ok none h = tt
check_smtp-ok (some m) h = split (trim m.server) refl
  where
    split : (t : Text) → trim m.server ≡ t → MailOrNone (some m) (filter_usable (some m))
    split [] e = inl e
    split (a ∷ s) e = inr (ground arith)

ok-check_smtp :
    (smtp : Option Smtp) → MailOrNone smtp (filter_usable smtp) → check_smtp smtp ≡ ok tt
unfolding check_smtp filter_usable
ok-check_smtp none h = refl
ok-check_smtp (some m) (inl e) = ground arith
ok-check_smtp (some m) (inr e) = ground arith

module _ (f : Floats) where
  -- `check` passes exactly the sound configurations.
  pub check-iff-IsSound : (cfg : Config f) → (check f cfg ≡ ok tt) ↔ IsSound f cfg
  unfolding check mail
  check-iff-IsSound cfg = (
    λ h. record {
      names_interface = (check_interface-ok (trim cfg.interface) (ground arith)).0;
      one_interface = (check_interface-ok (trim cfg.interface) (ground arith)).1;
      has_window = ground arith;
      mail_or_none = check_smtp-ok cfg.smtp (ground arith);
      fraction = ground arith;
    },
    λ s. ground (
      arith,
      ok-check_interface (trim cfg.interface) s.names_interface s.one_interface,
      ok-check_smtp cfg.smtp s.mail_or_none,
      s.has_window,
      s.fraction,
    ),
  )
