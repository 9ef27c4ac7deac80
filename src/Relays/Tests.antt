-- ===== src/Relays/Tests.antt =====
-- relays.rs on a few packets, and on a table of pending requests that is full.
use docsis_monitor.Base.{
  length, All, ℕ, zero, suc, ◌-◌, ◌≡◌, refl, ◌≢◌, none, some, List, [], ◌∷◌, arith, Option, ◌+◌,
  ◌<◌, ◌≤◌, ◌⊎◌,
}
use docsis_monitor.Order.{nat_order}
use docsis_monitor.Relays.Events.{Event, request_seen, run, tftp_request_seen, reply_seen}
use docsis_monitor.Relays.Pending.{Spares, IsCredited, reply-request}
use docsis_monitor.Relays.Full.{reply-run-full}
use docsis_monitor.OrdMap.Sorted.{IsSorted, IsAbove}
use docsis_monitor.Relays.Valid.{IsValid, run-default-IsValid}
use docsis_monitor.Relays.Tally.{IsTallied, run-default-IsTallied}
use docsis_monitor.Relays.Table.{
  Pending, Relays, request, default, new_relay, reply, idle_for, asked,
}
use docsis_monitor.Relays.Gaps.{noted, longest_difference, latest, noted-longest_gap}
use docsis_monitor.Relays.Silence.{heard_at, lookup-run-default}
use docsis_monitor.Relays.Rows.{heard}
use docsis_monitor.OrdMap.{lookup}
use docsis_monitor.Relays.Fresh.{pending-request}
use docsis_monitor.Relays.Waiting.{asked-run, few-HasRoom}
use docsis_monitor.Relays.Mirrors.{waits}

abbrev asked_twice : List Event
asked_twice =
    request_seen (some 5) (some 7) 100 100_000
    ∷ tftp_request_seen 100
    ∷ request_seen none (some 8) 101 101_000
    ∷ []

-- What follows a request of relay 5 with transaction 7.
abbrev between : List Event
between = request_seen none (some 8) 101 101_000 ∷ reply_seen none (some 9) 101 101_500 ∷ []

eight-ne-seven : ◌≢◌ {A = Option ℕ} (some 8) (some 7)
eight-ne-seven e = ground arith

nine-ne-seven : ◌≢◌ {A = Option ℕ} (some 9) (some 7)
nine-ne-seven e = ground arith

between-Spares : All (Spares 7 (record { at_ms = 100_000; gi = some 5 })) between
between-Spares = ((eight-ne-seven, omega arith), (nine-ne-seven, tt))

default-IsValid : IsValid default
default-IsValid = record { rows_sorted = tt; pending_sorted = tt; pending_bounded = omega arith }

run-default-IsValid_example : IsValid (run default asked_twice)
run-default-IsValid_example = run-default-IsValid asked_twice

run-default-IsTallied_example : IsTallied 2 0 (run default asked_twice)
run-default-IsTallied_example = run-default-IsTallied asked_twice (omega arith) (omega arith)

reply-request_example :
    IsCredited 7 5 102
      (102_000 - 100_000)
      (run (request (some 5) (some 7) 100 100_000 default) between)
      (reply none
        (some 7)
        102
        102_000
        (run (request (some 5) (some 7) 100 100_000 default) between))
reply-request_example =
    reply-request default 5 7 100 100_000 between none 102 102_000 default-IsValid (omega arith)
      between-Spares

-- Requests with the transactions from `x` on.
abbrev upto : ℕ → ℕ → List (ℕ × Pending)
upto x zero = []
upto x (suc n) = (x, record { at_ms = 900; gi = some 5 }) ∷ upto (suc x) n

length-upto : (x n : ℕ) → length (upto x n) ≡ n
length-upto x zero = refl
length-upto x (suc n) = omega (arith, length-upto (suc x) n)

upto-IsAbove : (k x n : ℕ) → k < x → IsAbove k (upto x n)
upto-IsAbove k x zero h = tt
upto-IsAbove k x (suc n) h = (ground (arith, h), upto-IsAbove k (suc x) n (omega (arith, h)))

upto-IsSorted : (x n : ℕ) → IsSorted (upto x n)
upto-IsSorted x zero = tt
upto-IsSorted x (suc n) = (upto-IsAbove x (suc x) n (omega arith), upto-IsSorted (suc x) n)

abbrev full : Relays
full = record { by_gi = []; unrelayed = new_relay 0; pending = upto 0 50_000; swept_ms = 1_000 }

full-IsValid : IsValid full
full-IsValid = record {
  rows_sorted = tt;
  pending_sorted = upto-IsSorted 0 50_000;
  pending_bounded = omega (arith, length-upto 0 50_000);
}

-- A retry of the transaction 0 and a new request, while the table is full.
abbrev crowd : List Event
crowd = request_seen (some 5) (some 0) 2 1_900 ∷ request_seen (some 5) (some 70_000) 2 1_950 ∷ []

reply-run-full_example :
    IsCredited 0 5 3 (2_100 - 900) (run full crowd) (reply none (some 0) 3 2_100 (run full crowd))
unfolding lookup
reply-run-full_example =
    reply-run-full full 5 0 900 crowd none 3 2_100 full-IsValid (length-upto 0 50_000) refl
      (omega arith, (omega arith, tt))

gap_of_three :
    ((noted (10 ∷ 25 ∷ 31 ∷ []) (new_relay 4)).longest_gap ≡ longest_difference 10 (25 ∷ 31 ∷ []))
    × (idle_for (noted (10 ∷ 25 ∷ 31 ∷ []) (new_relay 4)) 40 ≡ some (40 - latest 10 (25 ∷ 31 ∷ [])))
gap_of_three = noted-longest_gap 4 10 (25 ∷ 31 ∷ []) 40

lookup-run-default_example : heard (lookup 5 (run default asked_twice).by_gi) ≡ heard_at (100 ∷ [])
lookup-run-default_example = lookup-run-default 5 asked_twice (omega arith)

-- The requests of `asked_twice` still wait ten seconds later.
pending-request_example :
    All
      (λ (e : ℕ × Pending). 110_000 < e.1.at_ms + 31_000)
      (request none (some 9) 110 110_000 (run default asked_twice)).pending
pending-request_example =
    pending-request asked_twice none 9 110 110_000
      (omega arith, omega arith, (omega arith, omega arith, tt)) (omega arith) (omega arith)

asked-run_example :
    (asked (some 7) (run default asked_twice) ≡ waits (λ _. none) asked_twice 7)
    ⊎ ((asked (some 7) (run default asked_twice) ≡ none)
        × (q : Pending) × (waits (λ _. none) asked_twice 7 ≡ some q)
        × (q.at_ms + 30_000 ≤ 101_000))
asked-run_example =
    asked-run asked_twice 7 (omega arith, omega arith, (omega arith, omega arith, tt))
      (few-HasRoom asked_twice default (omega arith))
