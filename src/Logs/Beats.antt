-- ===== src/Logs/Beats.antt =====
-- What the heartbeat of logfiles.rs says over any time.
use docsis_monitor.Logs.{Said, dead, recovered, beats}
use docsis_monitor.Result.{Result, ok, err}
use docsis_monitor.Base.{◌≡◌, refl, Bool, true, false, List, [], ◌∷◌}

-- In turn: a failure, its recovery, the next failure; `failing` says which comes first.
abbrev pub InTurn : Bool → List Said → Type 0
InTurn failing [] = Unit {0}
InTurn failing (recovered ∷ rest) = (failing ≡ true) × InTurn false rest
InTurn failing (dead why ∷ rest) = (failing ≡ false) × InTurn true rest

-- Whether the file was stamped last, after `failing` before.
abbrev pub fails_last : Bool → List (Result (Unit {0})) → Bool
fails_last failing [] = failing
fails_last failing (ok _ ∷ rs) = fails_last false rs
fails_last failing (err why ∷ rs) = fails_last true rs

-- What whoever reads the lines believes, after `failing` before.
abbrev pub believed : Bool → List Said → Bool
believed failing [] = failing
believed failing (recovered ∷ rest) = believed false rest
believed failing (dead why ∷ rest) = believed true rest

-- However often the file is stamped or not, a failure is said once until it has recovered, and a
-- recovery once until the next failure; and the last line is true of the last attempt.
pub beats-InTurn :
    (failing : Bool) (rs : List (Result (Unit {0})))
    → InTurn failing (beats failing rs).1
      × (believed failing (beats failing rs).1 ≡ fails_last failing rs)
      × ((beats failing rs).0 ≡ fails_last failing rs)
unfolding beats
beats-InTurn failing [] = (tt, refl, refl)
beats-InTurn true (ok u ∷ rs) =
    let (turn, last, state) = beats-InTurn false rs in ((refl, turn), last, state)
beats-InTurn false (ok u ∷ rs) = beats-InTurn false rs
beats-InTurn true (err why ∷ rs) = beats-InTurn true rs
beats-InTurn false (err why ∷ rs) =
    let (turn, last, state) = beats-InTurn true rs in ((refl, turn), last, state)
