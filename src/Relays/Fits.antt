-- ===== src/Relays/Fits.antt =====
-- The widths of what relays.rs keeps: an address has 32 bits, and where every request was seen below
-- some second, every longest silence is below it too.
use docsis_monitor.Order.{nat_order}
use docsis_monitor.OrdMap.Everywhere.{upsert-All, insert-All, remove-All, lookup-All, retain-All}
use docsis_monitor.Base.{
  ltb, Bool-cases, length, All, ℕ, ◌-◌, ◌^◌, ◌<◌, ◌≡◌, refl, inl, inr, Option, none, some, List, [],
  ◌∷◌, arith, ◌==◌, ==_iff,
}
use docsis_monitor.Relays.Events.{
  Event, step, run, request_seen, reply_seen, tftp_request_seen, tftp_send_seen,
}
use docsis_monitor.Relays.Table.{
  Relay, Pending, Relays, entry, expire_pending, note_pending, forget, asked, note_request,
  note_reply, new_relay, sweep_every_ms, max_pending, owner, default, pending_for_ms,
  note_tftp_request, note_tftp_send,
}
use docsis_monitor.OrdMap.{lookup}
use docsis_monitor.Relays.Silence.{latest_of}
use docsis_monitor.Relays.Rows.{times_in}

abbrev pub IsAddress : Option ℕ → Type 0
IsAddress none = Unit {0}
IsAddress (some g) = g < 2 ^ 32

module _ (bound : ℕ) where
  -- An event with an address of 32 bits, and for a request a time below the bound.
  abbrev pub IsWithin : Event → Type 0
  IsWithin (request_seen gi xid now now_ms) = IsAddress gi × (now < bound)
  IsWithin (reply_seen gi xid now now_ms) = IsAddress gi
  IsWithin (tftp_request_seen now) = Unit {0}
  IsWithin (tftp_send_seen now) = Unit {0}

  abbrev pub RowFits : ℕ × Relay → Type 0
  RowFits e = (e.0 < 2 ^ 32) × (e.1.longest_gap < bound)

abbrev pub WaitFits : ℕ × Pending → Type 0
WaitFits e = IsAddress e.1.gi

pub record Fits (bound : ℕ) (r : Relays) : Type 0 where
  pub rows : All (RowFits bound) r.by_gi
  pub waits : All WaitFits r.pending

entry-Fits :
    (bound : ℕ) (gi : Option ℕ) (now : ℕ) (f : Relay → Relay) (r : Relays)
    → 0 < bound
    → IsAddress gi
    → ((v : Relay) → v.longest_gap < bound → (f v).longest_gap < bound)
    → Fits bound r
    → Fits bound (entry gi now f r)
unfolding entry
entry-Fits bound none now f r positive address kept fits = record {
  rows = fits.rows;
  waits = fits.waits;
}
entry-Fits bound (some g) now f r positive address kept fits = record {
  rows =
      upsert-All (RowFits bound) g (new_relay now) f r.by_gi
        (address, kept (new_relay now) positive) (λ j v e. (e.0, kept v e.1)) fits.rows;
  waits = fits.waits;
}

expire_pending-Fits :
    (bound now_ms : ℕ) (r : Relays) → Fits bound r → Fits bound (expire_pending now_ms r)
unfolding expire_pending
expire_pending-Fits bound now_ms r fits =
    elim (Bool-cases (ltb (now_ms - r.swept_ms) sweep_every_ms)) [
      | inl soon ↦ rw soon fits
      | inr over ↦ rw over (record {
        rows = fits.rows;
        waits =
            retain-All WaitFits (λ (p : Pending). ltb (now_ms - pending_for_ms) p.at_ms) r.pending
              fits.waits;
      })
    ]

note_pending-Fits :
    (bound : ℕ) (gi xid : Option ℕ) (now_ms : ℕ) (r : Relays)
    → IsAddress gi
    → Fits bound r
    → Fits bound (note_pending gi xid now_ms r)
unfolding note_pending
note_pending-Fits bound gi none now_ms r address fits = fits
note_pending-Fits bound gi (some x) now_ms r address fits =
    let s = expire_pending now_ms r in
    let swept = expire_pending-Fits bound now_ms r fits in
    elim (Bool-cases (ltb (length s.pending) max_pending)) [
      | inl room ↦ rw room (record {
        rows = swept.rows;
        waits =
            insert-All WaitFits x (record { at_ms = now_ms; gi = gi }) s.pending address
              (λ _. address) swept.waits;
      })
      | inr full ↦ rw full swept
    ]

forget-Fits : (bound : ℕ) (xid : Option ℕ) (r : Relays) → Fits bound r → Fits bound (forget xid r)
unfolding forget
forget-Fits bound none r fits = fits
forget-Fits bound (some x) r fits = record {
  rows = fits.rows;
  waits = remove-All WaitFits x r.pending fits.waits;
}

asked-IsAddress :
    (xid gi : Option ℕ) (r : Relays)
    → IsAddress gi
    → All WaitFits r.pending
    → IsAddress (owner (asked xid r) gi)
unfolding asked owner
asked-IsAddress none gi r address waits = address
asked-IsAddress (some x) gi r address waits =
    go (lookup x r.pending) (λ p h. lookup-All WaitFits x r.pending p h waits)
  where
    go :
        (o : Option Pending)
        → ((p : Pending) → o ≡ some p → IsAddress p.gi)
        → IsAddress (owner o gi)
    go none h = address
    go (some p) h = or_own p.gi (h p refl)
      where
        or_own :
            (own : Option ℕ) → IsAddress own → IsAddress (elim own [ none ↦ gi | some g ↦ some g ])
        or_own none k = address
        or_own (some g) k = k

note_request-below :
    (bound now : ℕ) (v : Relay)
    → now < bound
    → v.longest_gap < bound
    → (note_request now v).longest_gap < bound
unfolding note_request
note_request-below bound now v early gap = ground (arith, early, gap)

note_reply-below :
    (bound : ℕ) (p : Option Pending) (now now_ms : ℕ) (v : Relay)
    → v.longest_gap < bound
    → (note_reply p now now_ms v).longest_gap < bound
unfolding note_reply
note_reply-below bound none now now_ms v gap = gap
note_reply-below bound (some p) now now_ms v gap = gap

step-Fits :
    (bound : ℕ) (e : Event) (r : Relays)
    → 0 < bound
    → IsWithin bound e
    → Fits bound r
    → Fits bound (step r e)
unfolding step
step-Fits bound (request_seen gi xid now now_ms) r positive within fits =
    note_pending-Fits bound gi xid now_ms _ within.0 (
      entry-Fits bound gi now (note_request now) r positive within.0
        (λ v gap. note_request-below bound now v within.1 gap) fits)
step-Fits bound (reply_seen gi xid now now_ms) r positive within fits =
    entry-Fits bound (owner (asked xid r) gi) now (note_reply (asked xid r) now now_ms)
      (forget xid r) positive (asked-IsAddress xid gi r within fits.waits)
      (note_reply-below bound (asked xid r) now now_ms) (forget-Fits bound xid r fits)
step-Fits bound (tftp_request_seen now) r positive within fits =
    entry-Fits bound none now note_tftp_request r positive tt
      (λ v gap. unfold note_tftp_request in gap) fits
step-Fits bound (tftp_send_seen now) r positive within fits =
    entry-Fits bound none now note_tftp_send r positive tt (λ v gap. unfold note_tftp_send in gap)
      fits

run-Fits :
    (bound : ℕ) (es : List Event) (r : Relays)
    → 0 < bound
    → All (IsWithin bound) es
    → Fits bound r
    → Fits bound (run r es)
unfolding run
run-Fits bound [] r positive within fits = fits
run-Fits bound (e ∷ es) r positive within fits =
    run-Fits bound es (step r e) positive within.1 (step-Fits bound e r positive within.0 fits)

pub run-default-Fits :
    (bound : ℕ) (es : List Event)
    → 0 < bound
    → All (IsWithin bound) es
    → Fits bound (run default es)
run-default-Fits bound es positive within =
    run-Fits bound es default positive within (record { rows = tt; waits = tt })

-- A relay that was heard of has an address.
pub times_in-IsAddress :
    (bound g : ℕ) (es : List Event) (t : ℕ)
    → All (IsWithin bound) es
    → latest_of (times_in g es) ≡ some t
    → g < 2 ^ 32
times_in-IsAddress bound g [] t within h = absurd (cc h)
times_in-IsAddress bound g (request_seen none xid now now_ms ∷ es) t within h =
    times_in-IsAddress bound g es t within.1 h
times_in-IsAddress bound g (request_seen (some q) xid now now_ms ∷ es) t within h =
    elim (Bool-cases (q == g)) [
      | inl same ↦ omega (arith, (==_iff q g).0 same, within.0.0)
      | inr other ↦ times_in-IsAddress bound g es t within.1 (rw other at h)
    ]
times_in-IsAddress bound g (reply_seen gi xid now now_ms ∷ es) t within h =
    times_in-IsAddress bound g es t within.1 h
times_in-IsAddress bound g (tftp_request_seen now ∷ es) t within h =
    times_in-IsAddress bound g es t within.1 h
times_in-IsAddress bound g (tftp_send_seen now ∷ es) t within h =
    times_in-IsAddress bound g es t within.1 h
