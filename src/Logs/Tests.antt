-- ===== src/Logs/Tests.antt =====
-- logfiles.rs: a file that cannot be stamped twice, and is there again.
use docsis_monitor.Result.{Result, ok, bail}
use docsis_monitor.Logs.{beats}
use docsis_monitor.Logs.Beats.{InTurn, believed, fails_last, beats-InTurn}
use docsis_monitor.Base.{length, codes, ◌≡◌, refl, false, List, [], ◌∷◌}

abbrev outage : List (Result (Unit {0}))
outage = bail (codes "gone") ∷ bail (codes "gone") ∷ ok tt ∷ []

two_lines : length (beats false outage).1 ≡ 2
unfolding beats
two_lines = refl

beats-InTurn_example :
    InTurn false (beats false outage).1
    × (believed false (beats false outage).1 ≡ fails_last false outage)
    × ((beats false outage).0 ≡ fails_last false outage)
beats-InTurn_example = beats-InTurn false outage
