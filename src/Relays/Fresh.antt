-- ===== src/Relays/Fresh.antt =====
-- How old a request of relays.rs can be while it waits.
use docsis_monitor.Order.{nat_order}
use docsis_monitor.OrdMap.Everywhere.{insert-All, remove-All, All-retain}
use docsis_monitor.Base.{
  ltb, tests, Bool-cases, All, ℕ, ◌+◌, ◌-◌, ◌≤◌, ◌<◌, inl, inr, Option, none, some, List, [], ◌∷◌,
  arith, length,
}
use docsis_monitor.Relays.Events.{
  Event, request_seen, reply_seen, tftp_request_seen, tftp_send_seen, run, step,
}
use docsis_monitor.Relays.Table.{
  Pending, Relays, entry, forget, expire_pending, pending_for_ms, Relay, sweep_every_ms,
  note_pending, max_pending, note_request, owner, asked, note_reply, note_tftp_request,
  note_tftp_send, default, request,
}

-- The clock of the requests does not go back, and is past its start.
abbrev pub IsForward : ℕ → List Event → Type 0
IsForward before [] = Unit {0}
IsForward before (request_seen gi xid now now_ms ∷ es) =
    (before ≤ now_ms) × (0 < now_ms) × IsForward now_ms es
IsForward before (reply_seen gi xid now now_ms ∷ es) = IsForward before es
IsForward before (tftp_request_seen now ∷ es) = IsForward before es
IsForward before (tftp_send_seen now ∷ es) = IsForward before es

abbrev pub last_ms : ℕ → List Event → ℕ
last_ms before [] = before
last_ms before (request_seen gi xid now now_ms ∷ es) = last_ms now_ms es
last_ms before (reply_seen gi xid now now_ms ∷ es) = last_ms before es
last_ms before (tftp_request_seen now ∷ es) = last_ms before es
last_ms before (tftp_send_seen now ∷ es) = last_ms before es

-- It was seen less than thirty seconds before the sweep, or after it.
abbrev pub IsFresh : ℕ → ℕ × Pending → Type 0
IsFresh swept e = swept - pending_for_ms < e.1.at_ms

pub record IsSwept (clock : ℕ) (r : Relays) : Type 0 where
  pub swept : r.swept_ms ≤ clock
  pub fresh : All (IsFresh r.swept_ms) r.pending

pub entry-IsSwept :
    (clock : ℕ) (gi : Option ℕ) (now : ℕ) (f : Relay → Relay) (r : Relays)
    → IsSwept clock r
    → IsSwept clock (entry gi now f r)
unfolding entry
entry-IsSwept clock none now f r s = record { swept = s.swept; fresh = s.fresh }
entry-IsSwept clock (some g) now f r s = record { swept = s.swept; fresh = s.fresh }

pub forget-IsSwept :
    (clock : ℕ) (xid : Option ℕ) (r : Relays) → IsSwept clock r → IsSwept clock (forget xid r)
unfolding forget
forget-IsSwept clock none r s = s
forget-IsSwept clock (some x) r s = record {
  swept = s.swept;
  fresh = remove-All (IsFresh r.swept_ms) x r.pending s.fresh;
}

-- A sweep is less than a second ago once a request was seen.
expire_pending-IsSwept :
    (clock now_ms : ℕ) (r : Relays)
    → clock ≤ now_ms
    → IsSwept clock r
    → IsSwept now_ms (expire_pending now_ms r)
      × (now_ms < (expire_pending now_ms r).swept_ms + sweep_every_ms)
unfolding expire_pending
expire_pending-IsSwept clock now_ms r forward s =
    elim (Bool-cases (ltb (now_ms - r.swept_ms) sweep_every_ms)) [
      | inl soon ↦
          rw soon (
            record { swept = omega (arith, s.swept); fresh = s.fresh },
            omega (tests, soon, s.swept),
          )
      | inr over ↦ rw over (
        record {
          swept = omega arith;
          fresh =
              All-retain (IsFresh now_ms) (λ (p : Pending). ltb (now_ms - pending_for_ms) p.at_ms)
                r.pending (λ j p h. omega (tests, h));
        },
        omega arith,
      )
    ]

pub note_pending-IsSwept :
    (clock : ℕ) (gi xid : Option ℕ) (now_ms : ℕ) (r : Relays)
    → clock ≤ now_ms
    → 0 < now_ms
    → IsSwept clock r
    → IsSwept now_ms (note_pending gi xid now_ms r)
unfolding note_pending
note_pending-IsSwept clock gi none now_ms r forward started s = record {
  swept = omega (arith, forward, s.swept);
  fresh = s.fresh;
}
note_pending-IsSwept clock gi (some x) now_ms r forward started s =
    let after = expire_pending now_ms r in
    let (t, late) = expire_pending-IsSwept clock now_ms r forward s in
    elim (Bool-cases (ltb (length after.pending) max_pending)) [
      | inl room ↦ rw room (record {
        swept = t.swept;
        fresh =
            insert-All (IsFresh after.swept_ms) x (record { at_ms = now_ms; gi = gi }) after.pending
              (omega (arith, t.swept, started)) (λ _. omega (arith, t.swept, started)) t.fresh;
      })
      | inr full ↦ rw full t
    ]

run-IsSwept :
    (clock : ℕ) (es : List Event) (r : Relays)
    → IsForward clock es
    → IsSwept clock r
    → IsSwept (last_ms clock es) (run r es)
unfolding run step
run-IsSwept clock [] r forward s = s
run-IsSwept clock (request_seen gi xid now now_ms ∷ es) r forward s =
    run-IsSwept now_ms es _ forward.2 (
      note_pending-IsSwept clock gi xid now_ms _ forward.0 forward.1
        (entry-IsSwept clock gi now (note_request now) r s))
run-IsSwept clock (reply_seen gi xid now now_ms ∷ es) r forward s = run-IsSwept clock es _ forward (
    entry-IsSwept clock (owner (asked xid r) gi) now (note_reply (asked xid r) now now_ms)
      (forget xid r) (forget-IsSwept clock xid r s))
run-IsSwept clock (tftp_request_seen now ∷ es) r forward s =
    run-IsSwept clock es _ forward (entry-IsSwept clock none now note_tftp_request r s)
run-IsSwept clock (tftp_send_seen now ∷ es) r forward s =
    run-IsSwept clock es _ forward (entry-IsSwept clock none now note_tftp_send r s)

All-weaken :
    (P Q : ℕ × Pending → Type 0) (m : List (ℕ × Pending))
    → ((e : ℕ × Pending) → P e → Q e)
    → All P m
    → All Q m
All-weaken P Q [] h all = tt
All-weaken P Q (e ∷ m) h all = (h e all.0, All-weaken P Q m h all.1)

-- A request with a transaction leaves a sweep of less than a second ago.
note_pending-late :
    (clock : ℕ) (gi : Option ℕ) (x now_ms : ℕ) (r : Relays)
    → clock ≤ now_ms
    → IsSwept clock r
    → now_ms < (note_pending gi (some x) now_ms r).swept_ms + sweep_every_ms
unfolding note_pending
note_pending-late clock gi x now_ms r forward s =
    let after = expire_pending now_ms r in
    let late = (expire_pending-IsSwept clock now_ms r forward s).1 in
    elim (Bool-cases (ltb (length after.pending) max_pending)) [
      | inl room ↦ rw room late
      | inr full ↦ rw full late
    ]

-- After a request with a transaction id, every request that waits came less than 31 seconds before
-- it, whatever packets came before, when the clock of the requests is past its start and does not
-- go back.
pub pending-request :
    (es : List Event) (gi : Option ℕ) (x now now_ms : ℕ)
    → IsForward 0 es
    → last_ms 0 es ≤ now_ms
    → 0 < now_ms
    → All
        (λ (e : ℕ × Pending). now_ms < e.1.at_ms + 31_000)
        (request gi (some x) now now_ms (run default es)).pending
unfolding request
pending-request es gi x now now_ms forward later started =
    let before = entry gi now (note_request now) (run default es) in
    let s =
      entry-IsSwept (last_ms 0 es) gi now (note_request now) (run default es)
        (run-IsSwept 0 es default forward (record { swept = omega arith; fresh = tt })) in
    let late = note_pending-late (last_ms 0 es) gi x now_ms before later s in
    let t = note_pending-IsSwept (last_ms 0 es) gi (some x) now_ms before later started s in
    All-weaken (IsFresh (note_pending gi (some x) now_ms before).swept_ms)
      (λ (e : ℕ × Pending). now_ms < e.1.at_ms + 31_000)
      (note_pending gi (some x) now_ms before).pending (λ e fresh. omega (arith, late, fresh))
      t.fresh
