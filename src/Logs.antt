-- ===== src/Logs.antt =====
-- logfiles.rs: the log, the PID file and its heartbeat. The calls of the system are parameters.
use docsis_monitor.Result.{Result, ok, err, with_context, ◌>>◌, ◌>>=◌}
use docsis_monitor.Config.Load.{path_join}
use docsis_monitor.Base.{
  if◌then◌else◌, Text, codes, concat, Bool, true, false, not, Option, none, some, List, [], ◌∷◌,
  ◌++◌,
}
pub mod Beats
mod Tests

abbrev pub stem : Text
stem = codes "docsis_monitor"

abbrev pub log_file : Text
log_file = codes "docsis_monitor.log"

-- `dir`, with the home directory.
unfoldable pub dir : Option Text → Option Text
unfolding path_join
dir none = none
dir (some home) = some (path_join home (codes "logs"))

-- `filter(|d| d.is_dir())`.
unfoldable pub when_dir : (Text → Bool) → Option Text → Option Text
when_dir is_dir none = none
when_dir is_dir (some d) = if is_dir d then some d else none

-- What the calls on files answer: opening for appending, the two redirections, creating, and
-- writing the number of the process.
pub record Files : Type 0 where
  pub is_dir : Text → Bool
  pub open_append : Text → Result (Unit {0})
  pub redirect_out : Text → Result (Unit {0})
  pub redirect_err : Text → Result (Unit {0})
  pub create : Text → Result (Unit {0})
  pub write_number : Text → Result (Unit {0})

-- `redirect`.
unfoldable pub redirect : Files → Text → Result (Unit {0})
redirect files log =
    with_context (codes "redirecting stdout to " ++ log) (files.redirect_out log)
    >> with_context (codes "redirecting stderr to " ++ log) (files.redirect_err log)

-- `write_pid`: the path that the guard removes.
unfoldable pub write_pid : Files → Text → Result Text
write_pid files path =
    with_context (codes "creating " ++ path) (files.create path)
    >> with_context (codes "writing " ++ path) (files.write_number path)
    >> ok path

-- What `capture_in` does once the log is open: the PID file and the log.
unfoldable pub take_over : Files → Text → Text → Result (Text × Text)
unfolding redirect write_pid
take_over files log pid = do
  redirected ← redirect files log
  guard_ ← write_pid files pid
  ok (guard_, log)

-- What `capture_in` does in the directory, with the line that it prints.
unfoldable pub capture_at : Files → Text → List Text × Result (Text × Text)
unfolding path_join take_over
capture_at files d =
    let log = path_join d (stem ++ codes ".log") in
    let pid = path_join d (stem ++ codes ".pid") in
    elim (with_context (codes "opening " ++ log) (files.open_append log)) [
      | err why ↦ ([], err why)
      | ok _ ↦ ((codes "logging to " ++ log) ∷ [], take_over files log pid)
    ]

-- `capture_in`.
unfoldable pub capture_in : Files → Option Text → List Text × Result (Option (Text × Text))
unfolding when_dir capture_at
capture_in files d = elim (when_dir files.is_dir d) [
  | none ↦ ([], ok none)
  | some found ↦
      let (said, started) = capture_at files found in (said, started >>= λ g. ok (some g))
]

-- `start`, with the stamp of the build and the number of the process: the lines, the last of them
-- already in the log, and the guard.
unfoldable pub start : Files → Option Text → Text → Text → List Text × Result (Option Text)
unfolding capture_in concat
start files d stamp number =
    let (said, started) = capture_in files d in
    elim started [
      | err why ↦ (said, err why)
      | ok none ↦ (said, ok none)
      | ok (some (guard_, log)) ↦ (
        said
            ++ concat
                (codes "--- docsis_monitor " ∷ stamp ∷ codes " pid " ∷ number ∷ codes " ---" ∷ [])
              ∷ [],
        ok (some guard_),
      )
    ]

-- `touch`, with what the clock and `utimes` answer.
unfoldable pub touch : Text → Result (Unit {0}) → Result (Unit {0}) → Result (Unit {0})
touch path clock utimes = clock >> with_context (codes "stamping " ++ path) utimes

-- What the heartbeat says.
pub data Said : Type 0 where
  dead : List Text → Said
  recovered : Said

-- One round of the loop of `start_heartbeat`, with what stamping the file answered.
unfoldable pub beat : Bool → Result (Unit {0}) → Bool × List Said
beat failing (ok _) = if failing then (false, recovered ∷ []) else (failing, [])
beat failing (err why) = if not failing then (true, dead why ∷ []) else (failing, [])

-- The loop, for what stamping answers in each round.
unfoldable pub beats : Bool → List (Result (Unit {0})) → Bool × List Said
unfolding beat
beats failing [] = (failing, [])
beats failing (r ∷ rs) =
    let (after, said) = beat failing r in let (last, more) = beats after rs in (last, said ++ more)

-- `start_heartbeat`: the lines on a path.
unfoldable pub said_line : Text → Said → Text
unfolding concat
said_line path recovered = codes "pid file heartbeat recovered: " ++ path
said_line path (dead why) = concat (
    codes "could not stamp "
    ∷ path
    ∷ codes " ("
    ∷ (elim why [ [] ↦ [] | w ∷ _ ↦ w ])
    ∷ codes "); a watchdog will read this process as dead"
    ∷ [])
