-- ===== src/Relays/Valid.antt =====
-- The invariant of relays.rs: the tables are maps, and the requests that wait are bounded.
use docsis_monitor.Order.{nat_order}
use docsis_monitor.Relays.Table.{
  Relays, max_pending, entry, expire_pending, note_pending, forget, default, Relay, note_request,
  new_relay, sweep_every_ms, pending_for_ms, owner, asked, Pending, note_reply, note_tftp_request,
  note_tftp_send,
}
use docsis_monitor.Relays.Events.{
  Event, step, run, request_seen, reply_seen, tftp_request_seen, tftp_send_seen,
}
use docsis_monitor.OrdMap.Sorted.{
  IsSorted, upsert-IsSorted, remove-IsSorted, retain-IsSorted, insert-IsSorted,
}
use docsis_monitor.Base.{
  ltb, tests, Bool-cases, length, ℕ, ◌-◌, ◌≤◌, inl, inr, Option, none, some, List, [], ◌∷◌, arith,
}
use docsis_monitor.OrdMap.{retain_values}
use docsis_monitor.OrdMap.Laws.{length-remove-le, length-insert-le}
use docsis_monitor.Base.Lists.{length-retain-le}

pub record IsValid (r : Relays) : Type 0 where
  pub rows_sorted : IsSorted r.by_gi
  pub pending_sorted : IsSorted r.pending
  pub pending_bounded : length r.pending ≤ max_pending

entry-IsValid :
    (gi : Option ℕ) (now : ℕ) (f : Relay → Relay) (r : Relays)
    → IsValid r
    → IsValid (entry gi now f r)
unfolding entry
entry-IsValid none now f r v = record {
  rows_sorted = v.rows_sorted;
  pending_sorted = v.pending_sorted;
  pending_bounded = v.pending_bounded;
}
entry-IsValid (some g) now f r v = record {
  rows_sorted = upsert-IsSorted g (new_relay now) f r.by_gi v.rows_sorted;
  pending_sorted = v.pending_sorted;
  pending_bounded = v.pending_bounded;
}

expire_pending-IsValid : (now_ms : ℕ) (r : Relays) → IsValid r → IsValid (expire_pending now_ms r)
unfolding expire_pending retain_values
expire_pending-IsValid now_ms r v = elim (Bool-cases (ltb (now_ms - r.swept_ms) sweep_every_ms)) [
  | inl soon ↦ rw soon v
  | inr due ↦ rw due (record {
    rows_sorted = v.rows_sorted;
    pending_sorted =
        retain-IsSorted (λ p. ltb (now_ms - pending_for_ms) p.at_ms) r.pending v.pending_sorted;
    pending_bounded = omega (
      arith,
      length-retain-le (λ (e : ℕ × Pending). ltb (now_ms - pending_for_ms) e.1.at_ms) r.pending,
      v.pending_bounded,
    );
  })
]

note_pending-IsValid :
    (gi xid : Option ℕ) (now_ms : ℕ) (r : Relays)
    → IsValid r
    → IsValid (note_pending gi xid now_ms r)
unfolding note_pending
note_pending-IsValid gi none now_ms r v = v
note_pending-IsValid gi (some x) now_ms r v =
    let s = expire_pending now_ms r in
    let p : Pending = record { at_ms = now_ms; gi = gi } in
    let w = expire_pending-IsValid now_ms r v in
    elim (Bool-cases (ltb (length s.pending) max_pending)) [
      | inl room ↦ rw room (record {
        rows_sorted = w.rows_sorted;
        pending_sorted = insert-IsSorted x p s.pending w.pending_sorted;
        pending_bounded = omega (tests, room, length-insert-le x p s.pending);
      })
      | inr full ↦ rw full w
    ]

forget-IsValid : (xid : Option ℕ) (r : Relays) → IsValid r → IsValid (forget xid r)
unfolding forget
forget-IsValid none r v = v
forget-IsValid (some x) r v = record {
  rows_sorted = v.rows_sorted;
  pending_sorted = remove-IsSorted x r.pending v.pending_sorted;
  pending_bounded = omega (arith, length-remove-le x r.pending, v.pending_bounded);
}

pub step-IsValid : (r : Relays) (e : Event) → IsValid r → IsValid (step r e)
unfolding step
step-IsValid r (request_seen gi xid now now_ms) v =
    note_pending-IsValid gi xid now_ms _ (entry-IsValid gi now (note_request now) r v)
step-IsValid r (reply_seen gi xid now now_ms) v =
    entry-IsValid (owner (asked xid r) gi) now (note_reply (asked xid r) now now_ms) (forget xid r)
      (forget-IsValid xid r v)
step-IsValid r (tftp_request_seen now) v = entry-IsValid none now note_tftp_request r v
step-IsValid r (tftp_send_seen now) v = entry-IsValid none now note_tftp_send r v

pub run-IsValid : (r : Relays) (es : List Event) → IsValid r → IsValid (run r es)
unfolding run
run-IsValid r [] v = v
run-IsValid r (e ∷ es) v = run-IsValid (step r e) es (step-IsValid r e v)

-- From the empty tables every sequence of packets keeps the invariant; in particular no more than
-- 50,000 requests ever wait, whatever arrives.
pub run-default-IsValid : (es : List Event) → IsValid (run default es)
run-default-IsValid es =
    run-IsValid default es
      (record { rows_sorted = tt; pending_sorted = tt; pending_bounded = omega arith })
