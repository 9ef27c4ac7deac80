-- ===== src/Relays/Pending.antt =====
-- How relays.rs matches a reply with the request that it answers.
use docsis_monitor.Order.{nat_order}
use docsis_monitor.OrdMap.{lookup, retain_values}
use docsis_monitor.OrdMap.Sorted.{IsSorted, lookup-retain, lookup-remove_ne, lookup-remove_self}
use docsis_monitor.Relays.Valid.{IsValid, step-IsValid, run-IsValid}
use docsis_monitor.Relays.Events.{
  Event, step, run, request_seen, reply_seen, tftp_request_seen, tftp_send_seen,
}
use docsis_monitor.Base.{
  ltb, All, ℕ, ◌-◌, ◌<◌, ◌≡◌, refl, sym, ap, ◌∙◌, ◌≢◌, Option, none, some, List, [], ◌∷◌, arith,
  add64, Bool-cases, length, ◌≤◌, max, inl, inr,
}
use docsis_monitor.Relays.Table.{
  entry, expire_pending, Pending, note_pending, forget, Relays, Relay, pending_for_ms, note_request,
  sweep_every_ms, request, reply, max_pending, new_relay, note_reply,
}
use docsis_monitor.OrdMap.Laws.{
  lookup-insert_ne, lookup-insert_self, lookup-upsert_self, lookup-upsert_ne,
}
use mathlib.Core.Option.{get_or}
use docsis_monitor.Base.Lists.{length-retain-le}

pub entry-pending :
    (gi : Option ℕ) (now : ℕ) (f : Relay → Relay) (r : Relays)
    → (entry gi now f r).pending ≡ r.pending
unfolding entry
entry-pending none now f r = refl
entry-pending (some g) now f r = refl

-- A sweep keeps what is young enough.
expire-keeps :
    (now_ms x : ℕ) (r : Relays) {p : Pending}
    → IsSorted r.pending
    → now_ms - pending_for_ms < p.at_ms
    → lookup x r.pending ≡ some p
    → lookup x (expire_pending now_ms r).pending ≡ some p
unfolding expire_pending
expire-keeps now_ms x r s young found =
    ground
      (arith, lookup-retain x (λ (p : Pending). ltb (now_ms - pending_for_ms) p.at_ms) r.pending s)

-- The events that leave the request `x`, pending as `p`, alone: those of other transactions, and
-- no request so late that its sweep writes `p` off.
abbrev pub Spares : ℕ → Pending → Event → Type 0
Spares x p (request_seen gi xid now now_ms) = (xid ≢ some x) × (now_ms - pending_for_ms < p.at_ms)
Spares x p (reply_seen gi xid now now_ms) = xid ≢ some x
Spares x p (tftp_request_seen now) = Unit {0}
Spares x p (tftp_send_seen now) = Unit {0}

note_pending-keeps :
    (gi xid : Option ℕ) (now_ms x : ℕ) (r : Relays) {p : Pending}
    → IsSorted r.pending
    → xid ≢ some x
    → now_ms - pending_for_ms < p.at_ms
    → lookup x r.pending ≡ some p
    → lookup x (note_pending gi xid now_ms r).pending ≡ some p
unfolding note_pending
note_pending-keeps gi none now_ms x r s other young found = found
note_pending-keeps gi (some y) now_ms x r s other young found = ground (
  arith,
  expire-keeps now_ms x r s young found,
  lookup-insert_ne x y (record { at_ms = now_ms; gi = gi }) (expire_pending now_ms r).pending,
)

forget-keeps :
    (xid : Option ℕ) (x : ℕ) (r : Relays) {p : Pending}
    → IsSorted r.pending
    → xid ≢ some x
    → lookup x r.pending ≡ some p
    → lookup x (forget xid r).pending ≡ some p
unfolding forget
forget-keeps none x r s other found = found
forget-keeps (some y) x r s other found =
    lookup-remove_ne x y r.pending s (λ e. other (ap some (sym e))) ∙ found

step-keeps :
    (x : ℕ) (r : Relays) (e : Event) {p : Pending}
    → IsValid r
    → Spares x p e
    → lookup x r.pending ≡ some p
    → lookup x (step r e).pending ≡ some p
unfolding step
step-keeps x r (request_seen gi xid now now_ms) v spares found =
    note_pending-keeps gi xid now_ms x (entry gi now (note_request now) r)
      (rw (entry-pending gi now (note_request now) r) v.pending_sorted) spares.0 spares.1
      (rw (entry-pending gi now (note_request now) r) found)
step-keeps x r (reply_seen gi xid now now_ms) v spares found =
    rw entry-pending (forget-keeps xid x r v.pending_sorted spares found)
step-keeps x r (tftp_request_seen now) v spares found = found
step-keeps x r (tftp_send_seen now) v spares found = found

run-keeps :
    (x : ℕ) (r : Relays) (es : List Event) {p : Pending}
    → IsValid r
    → All (Spares x p) es
    → lookup x r.pending ≡ some p
    → lookup x (run r es).pending ≡ some p
unfolding run
run-keeps x r [] v spares found = found
run-keeps x r (e ∷ es) v spares found =
    run-keeps x (step r e) es (step-IsValid r e v) spares.1 (step-keeps x r e v spares.0 found)

pub length-expire-le :
    (now_ms : ℕ) (r : Relays) → length (expire_pending now_ms r).pending ≤ length r.pending
unfolding expire_pending retain_values
length-expire-le now_ms r = elim (Bool-cases (ltb (now_ms - r.swept_ms) sweep_every_ms)) [
  | inl soon ↦ rw soon (omega arith)
  | inr due ↦
      rw due
        (length-retain-le (λ (e : ℕ × Pending). ltb (now_ms - pending_for_ms) e.1.at_ms) r.pending)
]

-- Where there is room, a request waits from its latest attempt, whether it is a retry or not.
request-pending :
    (gi : Option ℕ) (x now now_ms : ℕ) (r : Relays)
    → length r.pending < max_pending
    → lookup x (request gi (some x) now now_ms r).pending
      ≡ some (record { at_ms = now_ms; gi = gi })
unfolding request
request-pending gi x now now_ms r room = ground (
  arith,
  entry-pending gi now (note_request now) r,
  length-expire-le now_ms (entry gi now (note_request now) r),
  lookup-insert_self x (record { at_ms = now_ms; gi = gi })
      (expire_pending now_ms (entry gi now (note_request now) r)).pending,
)

-- The row of a relay, as it is when a packet at `now` looks it up.
abbrev pub row : ℕ → ℕ → Relays → Relay
row g now r = get_or (lookup g r.by_gi) (new_relay now)

-- What a reply to a waiting request of the relay `g` does: that relay is credited, whatever
-- gi-address the reply carries; no other relay changes; and the request waits no more.
pub record IsCredited (x g now took : ℕ) (before after : Relays) : Type 0 where
  pub row_after : Relay
  pub found : lookup g after.by_gi ≡ some row_after
  pub replies : row_after.replies ≡ add64 (row g now before).replies 1
  pub answered : row_after.answered ≡ add64 (row g now before).answered 1
  pub total : row_after.answer_ms_total ≡ add64 (row g now before).answer_ms_total took
  pub worst : row_after.answer_ms_worst ≡ max (row g now before).answer_ms_worst took
  pub requests : row_after.requests ≡ (row g now before).requests
  pub others : (q : ℕ) → q ≢ g → lookup q after.by_gi ≡ lookup q before.by_gi
  pub unrelayed : after.unrelayed ≡ before.unrelayed
  pub forgotten : lookup x after.pending ≡ none

pub reply-IsCredited :
    (gi : Option ℕ) (x g at_ms now now_ms : ℕ) (r : Relays)
    → IsSorted r.pending
    → lookup x r.pending ≡ some (record { at_ms = at_ms; gi = some g })
    → IsCredited x g now (now_ms - at_ms) r (reply gi (some x) now now_ms r)
unfolding reply
reply-IsCredited gi x g at_ms now now_ms r s found =
    let p : Pending = record { at_ms = at_ms; gi = some g } in
    rw (found, reply)
      (record {
        row_after = note_reply (some p) now now_ms (row g now r);
        found = lookup-upsert_self g (new_relay now) (note_reply (some p) now now_ms) r.by_gi;
        replies = refl;
        answered = refl;
        total = refl;
        worst = refl;
        requests = refl;
        others =
            λ q h. lookup-upsert_ne q g (new_relay now) (note_reply (some p) now now_ms) r.by_gi h;
        unrelayed = refl;
        forgotten = lookup-remove_self x r.pending s;
      })

-- In tables that are valid and not full, a reply is timed against the request of the relay `g` that
-- it answers and credited to `g`, whatever gi-address it carries and whatever packets of other
-- transactions came between, if no request among them came so late that its sweep could write this
-- one off; no other row changes, and the request waits no more.
pub reply-request :
    (r : Relays) (g x now now_ms : ℕ) (es : List Event) (gi : Option ℕ) (later later_ms : ℕ)
    → IsValid r
    → length r.pending < max_pending
    → All (Spares x (record { at_ms = now_ms; gi = some g })) es
    → IsCredited x g later
        (later_ms - now_ms)
        (run (request (some g) (some x) now now_ms r) es)
        (reply gi (some x) later later_ms (run (request (some g) (some x) now now_ms r) es))
unfolding step
reply-request r g x now now_ms es gi later later_ms v room spares =
    let e = request_seen (some g) (some x) now now_ms in
    let w = step-IsValid r e v in
    reply-IsCredited gi x g now_ms later later_ms _ (run-IsValid (step r e) es w).pending_sorted
      (run-keeps x (step r e) es w spares (request-pending (some g) x now now_ms r room))
