-- ===== src/Relays/Waiting.antt =====
-- What waits in relays.rs after any packets, against the map that knows no sweeps.
use docsis_monitor.Order.{nat_order}
use docsis_monitor.Relays.Mirrors.{
  Waits, wait_step, set, waits, Mirrors, entry-Mirrors, note_pending-Mirrors, forget-Mirrors,
}
use docsis_monitor.Relays.Fresh.{
  IsSwept, entry-IsSwept, forget-IsSwept, note_pending-IsSwept, IsForward, last_ms,
}
use mathlib.Core.Option.{some-injective}
use mathlib.Core.Path.{subst}
use docsis_monitor.Base.{
  Bool-cases, length, ◌==◌, ℕ, ◌+◌, ◌-◌, ◌≤◌, ◌<◌, ◌≡◌, refl, sym, ◌≢◌, ◌⊎◌, inl, inr, Option, none,
  some, List, [], ◌∷◌, arith,
}
use docsis_monitor.Relays.Table.{
  Relays, Pending, asked, default, max_pending, note_request, note_pending, note_reply, owner,
  forget, note_tftp_request, note_tftp_send, tftp_request, entry, tftp_send,
}
use docsis_monitor.Relays.Events.{
  Event, step, run, request_seen, reply_seen, tftp_request_seen, tftp_send_seen,
}
use docsis_monitor.OrdMap.{lookup}
use native.Mathlib.Decide.{dec_lt}
use docsis_monitor.Relays.Pending.{entry-pending}
use docsis_monitor.Relays.Tally.{requests_in}
use docsis_monitor.Relays.Totals.{length-request-le, length-reply-le}

-- The table is not full when a request comes.
abbrev pub HasRoom : Relays → List Event → Type 0
HasRoom r [] = Unit {0}
HasRoom r (request_seen gi xid now now_ms ∷ es) =
    (length r.pending < max_pending) × HasRoom (step r (request_seen gi xid now now_ms)) es
HasRoom r (e ∷ es) = HasRoom (step r e) es

-- For no more requests than the table has room for, it is not full.
pub few-HasRoom :
    (es : List Event) (r : Relays) → length r.pending + requests_in es ≤ max_pending → HasRoom r es
unfolding step
few-HasRoom [] r few = tt
few-HasRoom (request_seen gi xid now now_ms ∷ es) r few = (
  omega (arith, few),
  few-HasRoom es _ (omega (arith, few, length-request-le gi xid now now_ms r)),
)
few-HasRoom (reply_seen gi xid now now_ms ∷ es) r few =
    few-HasRoom es _ (omega (arith, few, length-reply-le gi xid now now_ms r))
few-HasRoom (tftp_request_seen now ∷ es) r few = few-HasRoom es _ (unfold tftp_request entry in few)
few-HasRoom (tftp_send_seen now ∷ es) r few = few-HasRoom es _ (unfold tftp_send entry in few)

-- What holds before some events that follow.
pub record Kept (clock : ℕ) (m : Waits) (es : List Event) (r : Relays) : Type 0 where
  pub forward : IsForward clock es
  pub room : HasRoom r es
  pub swept : IsSwept clock r
  pub mirrors : Mirrors m r

pub step-Kept :
    (clock : ℕ) (e : Event) (es : List Event) (m : Waits) (r : Relays)
    → Kept clock m (e ∷ es) r
    → Kept (last_ms clock (e ∷ [])) (wait_step m e) es (step r e)
unfolding step
step-Kept clock (request_seen gi none now now_ms) es m r k =
    let t = entry-IsSwept clock gi now (note_request now) r k.swept in
    record {
      forward = k.forward.2;
      room = k.room.1;
      swept = note_pending-IsSwept clock gi none now_ms _ k.forward.0 k.forward.1 t;
      mirrors = unfold note_pending in entry-Mirrors m gi now (note_request now) r k.mirrors;
    }
step-Kept clock (request_seen gi (some x) now now_ms) es m r k =
    let t = entry-IsSwept clock gi now (note_request now) r k.swept in
    record {
      forward = k.forward.2;
      room = k.room.1;
      swept = note_pending-IsSwept clock gi (some x) now_ms _ k.forward.0 k.forward.1 t;
      mirrors =
          note_pending-Mirrors m gi x now_ms _ (omega (arith, t.swept, k.forward.0))
            (rw (entry-pending gi now (note_request now) r) k.room.0)
            (entry-Mirrors m gi now (note_request now) r k.mirrors);
    }
step-Kept clock (reply_seen gi none now now_ms) es m r k =
    let change = note_reply (asked none r) now now_ms in
    record {
      forward = k.forward;
      room = k.room;
      swept =
          entry-IsSwept clock (owner (asked none r) gi) now change (forget none r)
            (forget-IsSwept clock none r k.swept);
      mirrors =
          entry-Mirrors m (owner (asked none r) gi) now change (forget none r)
            (unfold forget in k.mirrors);
    }
step-Kept clock (reply_seen gi (some x) now now_ms) es m r k =
    let change = note_reply (asked (some x) r) now now_ms in
    record {
      forward = k.forward;
      room = k.room;
      swept =
          entry-IsSwept clock (owner (asked (some x) r) gi) now change (forget (some x) r)
            (forget-IsSwept clock (some x) r k.swept);
      mirrors =
          entry-Mirrors (set x none m) (owner (asked (some x) r) gi) now change (forget (some x) r)
            (forget-Mirrors m x r k.mirrors);
    }
step-Kept clock (tftp_request_seen now) es m r k = record {
  forward = k.forward;
  room = k.room;
  swept = entry-IsSwept clock none now note_tftp_request r k.swept;
  mirrors = entry-Mirrors m none now note_tftp_request r k.mirrors;
}
step-Kept clock (tftp_send_seen now) es m r k = record {
  forward = k.forward;
  room = k.room;
  swept = entry-IsSwept clock none now note_tftp_send r k.swept;
  mirrors = entry-Mirrors m none now note_tftp_send r k.mirrors;
}

last_ms-cons :
    (clock : ℕ) (e : Event) (es : List Event)
    → last_ms (last_ms clock (e ∷ [])) es ≡ last_ms clock (e ∷ es)
last_ms-cons clock (request_seen gi xid now now_ms) es = refl
last_ms-cons clock (reply_seen gi xid now now_ms) es = refl
last_ms-cons clock (tftp_request_seen now) es = refl
last_ms-cons clock (tftp_send_seen now) es = refl

run-Kept :
    (clock : ℕ) (es : List Event) (m : Waits) (r : Relays)
    → Kept clock m es r
    → Kept (last_ms clock es) (waits m es) [] (run r es)
unfolding run
run-Kept clock [] m r k = k
run-Kept clock (e ∷ es) m r k =
    subst (λ c. Kept c (waits (wait_step m e) es) [] (run (step r e) es)) (last_ms-cons clock e es)
      (run-Kept (last_ms clock (e ∷ [])) es (wait_step m e) (step r e) (step-Kept clock e es m r k))

none_waits : (y : ℕ) (q : Pending) → lookup y default.pending ≢ some q
unfolding lookup
none_waits y q e = cc e

-- Every time in the map is past the start.
AreStarted : Waits → Type 0
AreStarted m = (y : ℕ) (p : Pending) → m y ≡ some p → 0 < p.at_ms

set-AreStarted :
    (x : ℕ) (o : Option Pending) (m : Waits)
    → ((p : Pending) → o ≡ some p → 0 < p.at_ms)
    → AreStarted m
    → AreStarted (set x o m)
unfolding AreStarted
set-AreStarted x o m here others y p e = elim (Bool-cases (y == x)) [
  | inl same ↦ here p (rw same at e)
  | inr other ↦ others y p (rw other at e)
]

waits-AreStarted :
    (clock : ℕ) (es : List Event) (m : Waits)
    → IsForward clock es
    → AreStarted m
    → AreStarted (waits m es)
waits-AreStarted clock [] m forward started = started
waits-AreStarted clock (request_seen gi none now now_ms ∷ es) m forward started =
    waits-AreStarted now_ms es m forward.2 started
waits-AreStarted clock (request_seen gi (some x) now now_ms ∷ es) m forward started =
    waits-AreStarted now_ms es _ forward.2 (
      set-AreStarted x (some (record { at_ms = now_ms; gi = gi })) m (λ p e. at_start p forward.1 e)
        started)
  where
    at_start :
        (p : Pending)
        → 0 < now_ms
        → ◌≡◌ {A = Option Pending} (some (record { at_ms = now_ms; gi = gi })) (some p)
        → 0 < p.at_ms
    at_start p h e = subst (λ (q : Pending). 0 < q.at_ms) (some-injective _ p e) h
waits-AreStarted clock (reply_seen gi none now now_ms ∷ es) m forward started =
    waits-AreStarted clock es m forward started
waits-AreStarted clock (reply_seen gi (some x) now now_ms ∷ es) m forward started =
    waits-AreStarted clock es _ forward (set-AreStarted x none m (λ p e. absurd (cc e)) started)
waits-AreStarted clock (tftp_request_seen now ∷ es) m forward started =
    waits-AreStarted clock es m forward started
waits-AreStarted clock (tftp_send_seen now ∷ es) m forward started =
    waits-AreStarted clock es m forward started

pub default-Kept :
    (es : List Event) → IsForward 0 es → HasRoom default es → Kept 0 (λ _. none) es default
default-Kept es forward room = record {
  forward = forward;
  room = room;
  swept = record { swept = omega arith; fresh = tt };
  mirrors = record {
    sorted = tt;
    sound = λ y q e. absurd (none_waits y q e);
    complete = λ y q e fresh. absurd (cc e);
  };
}

-- Of two options, given that the first is never anything but the second.
agree_or_old :
    (found spec : Option Pending) (clock : ℕ)
    → ((p : Pending) → found ≡ some p → spec ≡ some p)
    → ((p : Pending) → spec ≡ some p → clock - 30_000 < p.at_ms → found ≡ some p)
    → ((p : Pending) → spec ≡ some p → 0 < p.at_ms)
    → (found ≡ spec)
      ⊎ ((found ≡ none) × (q : Pending) × (spec ≡ some q) × (q.at_ms + 30_000 ≤ clock))
agree_or_old (some p) spec clock sound complete started = inl (sym (sound p refl))
agree_or_old none none clock sound complete started = inl refl
agree_or_old none (some q) clock sound complete started = elim (dec_lt (clock - 30_000) q.at_ms) [
  | yes fresh ↦ inl (complete q refl fresh)
  | no old ↦ inr (refl, q, refl, omega (arith, old, started q refl))
]

-- What waits for a reply with the transaction `x` is the latest request with it that no reply has
-- answered; or nothing does, and that request came thirty seconds or more before the last request
-- of all; as long as the table was never full, when the clock of the requests is past its start and
-- does not go back.
pub asked-run :
    (es : List Event) (x : ℕ)
    → IsForward 0 es
    → HasRoom default es
    → (asked (some x) (run default es) ≡ waits (λ _. none) es x)
      ⊎ ((asked (some x) (run default es) ≡ none)
          × (q : Pending) × (waits (λ _. none) es x ≡ some q)
          × (q.at_ms + 30_000 ≤ last_ms 0 es))
unfolding asked AreStarted
asked-run es x forward room =
    let k = run-Kept 0 es (λ _. none) default (default-Kept es forward room) in
    agree_or_old (lookup x (run default es).pending) (waits (λ _. none) es x) (last_ms 0 es)
      (k.mirrors.sound x)
      (λ p e fresh. k.mirrors.complete x p e (omega (arith, fresh, k.swept.swept)))
      (waits-AreStarted 0 es (λ _. none) forward (λ y p e. absurd (cc e)) x)
