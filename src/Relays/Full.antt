-- ===== src/Relays/Full.antt =====
-- What relays.rs does while the table of pending requests is full.
use docsis_monitor.Order.{nat_order}
use docsis_monitor.OrdMap.{lookup}
use docsis_monitor.OrdMap.Sorted.{IsSorted}
use mathlib.Core.Path.{subst}
use docsis_monitor.Relays.Valid.{IsValid}
use docsis_monitor.Relays.Events.{
  Event, step, run, request_seen, reply_seen, tftp_request_seen, tftp_send_seen,
}
use docsis_monitor.Relays.Pending.{IsCredited, reply-IsCredited, entry-pending}
use docsis_monitor.Relays.Table.{
  entry, expire_pending, Pending, note_pending, forget, Relays, Relay, note_request, sweep_every_ms,
  request, reply, max_pending,
}
use docsis_monitor.Base.{
  All, ℕ, ◌-◌, ◌<◌, ◌≡◌, refl, sym, ap, ◌∙◌, Option, none, some, List, [], ◌∷◌, arith, length,
}

-- The events that neither answer a request nor let a sweep happen that is counted from `swept_ms`.
abbrev pub Crowds : ℕ → Event → Type 0
Crowds swept_ms (request_seen gi xid now now_ms) = now_ms - swept_ms < sweep_every_ms
Crowds swept_ms (reply_seen gi xid now now_ms) = xid ≡ none
Crowds swept_ms (tftp_request_seen now) = Unit {0}
Crowds swept_ms (tftp_send_seen now) = Unit {0}

entry-swept_ms :
    (gi : Option ℕ) (now : ℕ) (f : Relay → Relay) (r : Relays)
    → (entry gi now f r).swept_ms ≡ r.swept_ms
unfolding entry
entry-swept_ms none now f r = refl
entry-swept_ms (some g) now f r = refl

note_pending-full :
    (gi xid : Option ℕ) (now_ms : ℕ) (r : Relays)
    → length r.pending ≡ max_pending
    → now_ms - r.swept_ms < sweep_every_ms
    → note_pending gi xid now_ms r ≡ r
unfolding note_pending expire_pending
note_pending-full gi none now_ms r full soon = refl
note_pending-full gi (some x) now_ms r full soon = ground arith

step-full :
    (r : Relays) (e : Event)
    → length r.pending ≡ max_pending
    → Crowds r.swept_ms e
    → ((step r e).pending ≡ r.pending) × ((step r e).swept_ms ≡ r.swept_ms)
unfolding step request reply forget
step-full r (request_seen gi xid now now_ms) full soon =
    let noted = entry gi now (note_request now) r in
    let kept = entry-pending gi now (note_request now) r in
    let swept = entry-swept_ms gi now (note_request now) r in
    let same : note_pending gi xid now_ms noted ≡ noted =
      note_pending-full gi xid now_ms noted (ap (λ (l : List (ℕ × Pending)). length l) kept ∙ full)
        (omega (arith, soon, swept)) in
    (ap (λ (q : Relays). q.pending) same ∙ kept, ap (λ (q : Relays). q.swept_ms) same ∙ swept)
step-full r (reply_seen gi xid now now_ms) full without =
    rw without (entry-pending _ now _ r, entry-swept_ms _ now _ r)
step-full r (tftp_request_seen now) full h = (refl, refl)
step-full r (tftp_send_seen now) full h = (refl, refl)

run-full :
    (r : Relays) (es : List Event)
    → length r.pending ≡ max_pending
    → All (Crowds r.swept_ms) es
    → (run r es).pending ≡ r.pending
unfolding run
run-full r [] full crowd = refl
run-full r (e ∷ es) full crowd =
    let (kept, swept) = step-full r e full crowd.0 in
    run-full (step r e) es (ap (λ (l : List (ℕ × Pending)). length l) kept ∙ full)
      (subst (λ (n : ℕ). All (Crowds n) es) (sym swept) crowd.1)
    ∙ kept

-- In valid tables with as many pending requests as they may hold, one of them with transaction `x`
-- from the relay `g` at `first_ms`: whatever requests follow, retries of `x` included, and whatever
-- TFTP packets and replies without a transaction, as long as no sweep is due, the reply is timed
-- from the first attempt and credited to `g`, and no other row changes.
pub reply-run-full :
    (r : Relays) (g x first_ms : ℕ) (es : List Event) (gi : Option ℕ) (later later_ms : ℕ)
    → IsValid r
    → length r.pending ≡ max_pending
    → lookup x r.pending ≡ some (record { at_ms = first_ms; gi = some g })
    → All (Crowds r.swept_ms) es
    → IsCredited x g later
        (later_ms - first_ms)
        (run r es)
        (reply gi (some x) later later_ms (run r es))
reply-run-full r g x first_ms es gi later later_ms valid full found crowd =
    let kept = run-full r es full crowd in
    reply-IsCredited gi x g first_ms later later_ms (run r es)
      (subst IsSorted (sym kept) valid.pending_sorted) (ap (lookup x) kept ∙ found)
