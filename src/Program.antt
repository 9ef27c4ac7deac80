-- ===== src/Program.antt =====
-- main.rs: what the program does from its command line on, in order. The command line is parsed
-- already, and what the host answers is a parameter.
pub mod Forks
mod Tests
use docsis_monitor.Result.{Result, ok, err, with_context, bail}
use docsis_monitor.Config.Load.{load, path_join}
use docsis_monitor.Config.Settings.{report_unknown, Config}
use docsis_monitor.Capture.Open.{Interface, Opened, find, open_capture}
use docsis_monitor.Capture.Watch.{Tick, run}
use docsis_monitor.Logs.{Files, dir, when_dir, start, log_file}
use docsis_monitor.Base.{
  if◌then◌else◌, Text, codes, join, concat, is_empty, ℕ, Bool, not, ◌&&◌, Option, none, some, List,
  [], ◌∷◌, ◌++◌, map, true,
}
use docsis_monitor.Float.{Floats}
use mathlib.Core.Option.{get_or}
use docsis_monitor.Version.{is_requested}

-- `struct Cli`.
pub record Cli : Type 0 where
  pub config : Option Text
  pub nofork : Bool
  pub check : Bool
  pub run_for : Option ℕ
  pub adaptation : Option ℕ

-- What the program is seen to do: print a line, leave the terminal, watch until it returns or is cut
-- off, and remove its PID file.
pub data Action : Type 0 where
  printed : Text → Action
  detached : Action
  watched : List Text → Bool → Action
  removed : Text → Action

abbrev pub Acts : Type 0
Acts = List Action × Result (Unit {0})

-- An action before others, and `?`.
abbrev pub doing : List Action → Acts → Acts
doing before (acts, answer) = (before ++ acts, answer)

abbrev pub when_ok {ℓ} : {A : Type ℓ} → Result A → (A → Acts) → Acts
when_ok (err why) next = ([], err why)
when_ok (ok a) next = next a

abbrev pub followed : Acts → Acts → Acts
followed (acts, err why) next = (acts, err why)
followed (acts, ok _) next = doing acts next

-- What the host answers, up to the watching, and the ticks that this meets.
pub record Host (f : Floats) : Type 0 where
  pub home : Option Text
  pub exists : Text → Bool
  pub read : Text → Result Text
  pub parse : Text → Result (Config f)
  pub interfaces : List Interface
  -- Opening the capture for the first time, and for the second.
  pub probe : Opened (Unit {0})
  pub channel : Opened (Unit {0})
  pub files : Files
  pub current_dir : Result Text
  pub daemonize : Text → Result (Unit {0})
  pub stamp : Text
  pub number : Text
  pub began : ℕ
  pub ticks : List Tick

-- Whether the watching, if there was any, has returned.
unfoldable pub has_ended : List Action → Bool
has_ended [] = true
has_ended (watched lines returned ∷ acts) = returned && has_ended acts
has_ended (_ ∷ acts) = has_ended acts

-- `Drop` of the guard on the PID file, at the end of what is done while it is held.
unfoldable pub drop_guard : Option Text → Acts → Acts
unfolding has_ended
drop_guard none acts = acts
drop_guard (some path) (acts, answer) =
    (acts ++ (if has_ended acts then removed path ∷ [] else []), answer)

-- The line on the interface.
unfoldable pub watching_line : Interface → Text
unfolding concat join
watching_line iface = concat (
    codes "watching "
    ∷ iface.name
    ∷ codes " ("
    ∷ (if is_empty iface.ips then codes "no address of its own" else join (codes ", ") iface.ips)
    ∷ codes ")"
    ∷ [])

-- The error of `go_to_background` without a directory for the logs.
unfoldable pub no_logs : Option Text → Text
unfolding concat
no_logs d =
    let where_ = get_or d (codes "~/logs") in
    concat (
      codes "there is no "
      ∷ where_
      ∷ codes
          " directory, so a background run would have nowhere to say anything and nothing to write a PID file to. Either `mkdir "
      ∷ where_
      ∷ codes "` or pass --nofork to keep it on this terminal."
      ∷ [])

-- The line on unknown settings, if there is one.
abbrev pub unknown_lines : Option Text → List Action
unknown_lines none = []
unknown_lines (some line) = printed line ∷ []

module _ (f : Floats) (host : Host f) where
  -- `go_to_background`.
  unfoldable pub go_to_background : Acts
  unfolding dir when_dir no_logs path_join
  go_to_background = elim (when_dir host.files.is_dir (dir host.home)) [
    | none ↦ ([], bail (no_logs (dir host.home)))
    | some d ↦
        doing
          (printed (codes "going into the background; logging to " ++ path_join d log_file) ∷ [])
          (when_ok (with_context (codes "finding the current directory") host.current_dir) λ here.
            when_ok (with_context (codes "detaching from the terminal") (host.daemonize here))
              λ _. (detached ∷ [], ok tt))
  ]

  -- `main` after the fork. If the watching has not returned by its last tick, nor has this.
  unfoldable pub watch : Cli → Config f → Interface → Acts
  unfolding docsis_monitor.Logs.start dir open_capture run drop_guard
  watch cli cfg iface =
      let (said, started) =
        docsis_monitor.Logs.start host.files (dir host.home) host.stamp host.number in
      doing (map printed said) (
        when_ok started λ guard_. drop_guard guard_ (
          when_ok (open_capture iface host.channel) λ _.
            let (lines, returned) = run f cfg cli.run_for cli.adaptation host.began host.ticks in
            (watched lines returned ∷ [], ok tt)))

  -- `main` from the fork on.
  unfoldable pub fork_and_watch : Cli → Config f → Interface → Acts
  unfolding go_to_background watch
  fork_and_watch cli cfg iface =
      if not cli.nofork && not cfg.nofork
      then followed go_to_background (watch cli cfg iface)
      else watch cli cfg iface

  -- `main` once the capture could be opened.
  unfoldable pub with_capture : Cli → Config f → Interface → Unit {0} → Acts
  unfolding fork_and_watch
  with_capture cli cfg iface _ =
      if cli.check
      then (printed (codes "capture opened; this host can watch that interface") ∷ [], ok tt)
      else fork_and_watch cli cfg iface

  -- `main` from the interface on.
  unfoldable pub with_interface : Cli → Config f → Interface → Acts
  unfolding watching_line open_capture with_capture
  with_interface cli cfg iface =
      doing (printed (watching_line iface) ∷ [])
        (when_ok (open_capture iface host.probe) (with_capture cli cfg iface))

  -- `main` from the file on.
  unfoldable pub with_file : Cli → Config f × Text → Acts
  unfolding report_unknown find with_interface
  with_file cli (cfg, from) =
      doing (printed (codes "configuration from " ++ from) ∷ unknown_lines (report_unknown f cfg))
        (when_ok (find cfg.interface host.interfaces) (with_interface cli cfg))

  -- `main`.
  unfoldable pub main : Cli → Acts
  unfolding load with_file
  main cli = when_ok (load f host.home host.exists host.read host.parse cli.config) (with_file cli)

  -- `main` from its first statement on, for arguments that parse to `cli`.
  unfoldable pub invoked : List Text → Cli → Acts
  unfolding is_requested main
  invoked args cli = if is_requested args then (printed host.stamp ∷ [], ok tt) else main cli
