-- ===== src/Program/Forks.antt =====
-- What main.rs has seen to before it leaves the terminal.
use docsis_monitor.Program.{
  drop_guard, has_ended, removed, Cli, Action, printed, detached, watched, Acts, Host, doing,
  followed, when_ok, unknown_lines, main, watch, fork_and_watch, go_to_background, with_capture,
  with_file, with_interface,
}
use docsis_monitor.Float.{Floats}
use docsis_monitor.Config.Settings.{Config, report_unknown}
use docsis_monitor.Config.Load.{load}
use docsis_monitor.Config.Loaded.{load-IsLoaded}
use docsis_monitor.Capture.Open.{Interface, Opened, find, open_capture}
use docsis_monitor.Capture.Watch.{run}
use docsis_monitor.Logs.{dir, when_dir}
use docsis_monitor.Result.{Result, ok, err}
use docsis_monitor.Base.{
  Text, ◌≡◌, refl, Bool, true, false, ◌||◌, some, List, [], ◌∷◌, ◌++◌, map, Bool-cases,
  Option-cases, sym, ◌∙◌, inl, inr, Option, none, codes, if◌then◌else◌, ap,
}
use docsis_monitor.Config.Load.{IsLoaded}

-- Whether the program leaves the terminal.
abbrev pub detaches : List Action → Bool
detaches [] = false
detaches (printed line ∷ acts) = detaches acts
detaches (detached ∷ acts) = true
detaches (watched lines returned ∷ acts) = detaches acts
detaches (removed path ∷ acts) = detaches acts

-- What holds when it does: the command line and the file allow it, the file was loaded and is
-- sound, the interface was found and opened once, and there is a directory for the logs.
pub record MayDetach (f : Floats) (host : Host f) (cli : Cli) : Type 0 where
  pub cfg : Config f
  pub path : Text
  pub loaded : IsLoaded f host.home host.exists host.read host.parse cli.config cfg path
  pub iface : Interface
  pub was_found : find cfg.interface host.interfaces ≡ ok iface
  pub opened : host.probe ≡ Opened.ethernet tt
  pub no_check : cli.check ≡ false
  pub fork_asked : (cli.nofork ≡ false) × (cfg.nofork ≡ false)
  pub logs : Text
  pub has_logs : when_dir host.files.is_dir (dir host.home) ≡ some logs

detaches-append : (as_ bs : List Action) → detaches (as_ ++ bs) ≡ (detaches as_ || detaches bs)
detaches-append [] bs = refl
detaches-append (printed line ∷ acts) bs = detaches-append acts bs
detaches-append (detached ∷ acts) bs = refl
detaches-append (watched lines returned ∷ acts) bs = detaches-append acts bs
detaches-append (removed path ∷ acts) bs = detaches-append acts bs

detaches-printed : (ls : List Text) → detaches (map printed ls) ≡ false
detaches-printed [] = refl
detaches-printed (l ∷ ls) = detaches-printed ls

open_capture-ethernet :
    (iface : Interface) (o : Opened (Unit {0})) {u : Unit {0}}
    → open_capture iface o ≡ ok u
    → o ≡ Opened.ethernet tt
unfolding open_capture
open_capture-ethernet iface (Opened.ethernet tt) h = refl
open_capture-ethernet iface Opened.other h = cc
open_capture-ethernet iface Opened.denied h = cc
open_capture-ethernet iface (Opened.failed why) h = cc

detaches-unknown : (o : Option Text) → detaches (unknown_lines o) ≡ false
detaches-unknown none = refl
detaches-unknown (some line) = refl

-- What follows actions that stay on the terminal.
doing-quiet :
    (before : List Action) (acts : Acts)
    → detaches before ≡ false
    → detaches (doing before acts).0 ≡ detaches acts.0
doing-quiet before acts quiet = detaches-append before acts.0 ∙ rw quiet refl

when_ok-quiet {ℓ} :
    {A : Type ℓ} (r : Result A) (next : A → Acts)
    → ((a : A) → detaches (next a).0 ≡ false)
    → detaches (when_ok r next).0 ≡ false
when_ok-quiet (ok a) next quiet = quiet a
when_ok-quiet (err why) next quiet = refl

when_ok-detaches {ℓ} :
    {A : Type ℓ} (r : Result A) (next : A → Acts)
    → detaches (when_ok r next).0 ≡ true
    → (a : A) × (r ≡ ok a) × (detaches (next a).0 ≡ true)
when_ok-detaches (ok a) next h = (a, refl, h)
when_ok-detaches (err why) next h = cc

or_false : (b : Bool) → (b || false) ≡ b
or_false true = refl
or_false false = refl

followed-detaches :
    (first next : Acts)
    → detaches next.0 ≡ false
    → detaches (followed first next).0 ≡ detaches first.0
followed-detaches (acts, ok u) next quiet =
    detaches-append acts next.0 ∙ rw quiet (or_false (detaches acts))
followed-detaches (acts, err why) next quiet = refl

detaches-drop_guard :
    (guard_ : Option Text) (acts : Acts) → detaches (drop_guard guard_ acts).0 ≡ detaches acts.0
unfolding drop_guard
detaches-drop_guard none acts = refl
detaches-drop_guard (some path) acts =
    detaches-append acts.0 (if has_ended acts.0 then removed path ∷ [] else [])
    ∙ (ap (λ (b : Bool). detaches acts.0 || b) (stays (has_ended acts.0))
        ∙ or_false (detaches acts.0))
  where
    stays : (b : Bool) → detaches (if b then removed path ∷ [] else []) ≡ false
    stays true = refl
    stays false = refl

module _ (f : Floats) (host : Host f) (cli : Cli) where
  detaches-watch :
      (cfg : Config f) (iface : Interface) → detaches (watch f host cli cfg iface).0 ≡ false
  unfolding watch
  detaches-watch cfg iface =
      let (said, started) =
        docsis_monitor.Logs.start host.files (dir host.home) host.stamp host.number in
      let (lines, returned) = run f cfg cli.run_for cli.adaptation host.began host.ticks in
      let watching : Unit {0} → Acts = λ rx. (watched lines returned ∷ [], ok tt) in
      let opening : Option Text → Acts =
        λ guard_. drop_guard guard_ (when_ok (open_capture iface host.channel) watching) in
      doing-quiet (map printed said) (when_ok started opening) (detaches-printed said)
      ∙ when_ok-quiet started opening (λ guard_.
        detaches-drop_guard guard_ (when_ok (open_capture iface host.channel) watching)
        ∙ when_ok-quiet (open_capture iface host.channel) watching (λ rx. refl))

  has_logs :
      detaches (go_to_background f host).0 ≡ true
      → (d : Text) × (when_dir host.files.is_dir (dir host.home) ≡ some d)
  unfolding go_to_background
  has_logs h = elim (Option-cases (when_dir host.files.is_dir (dir host.home))) [
    | inl nothing ↦ absurd (cc (rw (nothing, detaches) at h))
    | inr found ↦ found
  ]

  fork_asked :
      (cfg : Config f) (iface : Interface)
      → detaches (fork_and_watch f host cli cfg iface).0 ≡ true
      → (cli.nofork ≡ false)
        × (cfg.nofork ≡ false)
        × ((d : Text) × (when_dir host.files.is_dir (dir host.home) ≡ some d))
  unfolding fork_and_watch
  fork_asked cfg iface h = elim (Bool-cases cli.nofork) [
    | inl stay ↦ absurd (cc (sym (detaches-watch cfg iface) ∙ rw stay at h))
    | inr go ↦ elim (Bool-cases cfg.nofork) [
      | inl stay ↦ absurd (cc (sym (detaches-watch cfg iface) ∙ rw (go, stay) at h))
      | inr go' ↦ (
        go,
        go',
        has_logs (
            sym (
              followed-detaches (go_to_background f host) (watch f host cli cfg iface)
                (detaches-watch cfg iface))
            ∙ rw (go, go') at h),
      )
    ]
  ]

  not_check :
      (cfg : Config f) (iface : Interface)
      → detaches (with_capture f host cli cfg iface tt).0 ≡ true
      → (cli.check ≡ false) × (detaches (fork_and_watch f host cli cfg iface).0 ≡ true)
  unfolding with_capture
  not_check cfg iface h = elim (Bool-cases cli.check) [
    | inl checks ↦ absurd (cc (rw checks at h))
    | inr go ↦ (go, rw go at h)
  ]

  -- The program leaves the terminal only when nothing can be refused any more that somebody at the
  -- terminal could put right: its file was loaded and is sound, the interface is there and could be
  -- opened, and there is a directory for the logs; and never for a check or where it is told to stay.
  pub main-MayDetach : detaches (main f host cli).0 ≡ true → MayDetach f host cli
  unfolding main with_file with_interface with_capture
  main-MayDetach h =
      let ((cfg, path), loaded, h1) =
        when_ok-detaches (load f host.home host.exists host.read host.parse cli.config)
          (with_file f host cli) h in
      let (iface, was_found, h3) =
        when_ok-detaches (find cfg.interface host.interfaces) (with_interface f host cli cfg) (
          sym (
            doing-quiet
              (printed (codes "configuration from " ++ path) ∷ unknown_lines (report_unknown f cfg))
              (when_ok (find cfg.interface host.interfaces) (with_interface f host cli cfg))
              (detaches-unknown (report_unknown f cfg)))
          ∙ h1) in
      let (u, opened, h4) =
        when_ok-detaches (open_capture iface host.probe) (with_capture f host cli cfg iface) h3 in
      let (no_check, h5) = not_check cfg iface h4 in
      let (stay, stay', (logs, has)) = fork_asked cfg iface h5 in
      record {
        cfg = cfg;
        path = path;
        loaded = load-IsLoaded f host.home host.exists host.read host.parse cli.config loaded;
        iface = iface;
        was_found = was_found;
        opened = open_capture-ethernet iface host.probe opened;
        no_check = no_check;
        fork_asked = (stay, stay');
        logs = logs;
        has_logs = has;
      }
