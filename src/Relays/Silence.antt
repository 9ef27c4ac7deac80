-- ===== src/Relays/Silence.antt =====
-- The row of each relay in relays.rs, against the times at which its requests were seen.
use docsis_monitor.Order.{nat_order}
use docsis_monitor.OrdMap.{lookup}
use docsis_monitor.Relays.Table.{Relay, default}
use docsis_monitor.Relays.Events.{
  Event, run, request_seen, reply_seen, tftp_request_seen, tftp_send_seen,
}
use docsis_monitor.Relays.Gaps.{longest_difference, latest}
use docsis_monitor.Base.{
  ℕ, ◌-◌, max, ◌≡◌, refl, Option, none, some, List, [], ◌∷◌, ap, ◌∙◌, arith, u64_mod, length, ◌+◌,
  ◌<◌, ◌≤◌,
}
use docsis_monitor.Relays.Tally.{requests_in}
use docsis_monitor.Relays.Rows.{Heard, hear_all, times_in, heard, run-heard, hear, heard_of}

-- What there is to say of requests at some times, written without the loop.
abbrev pub heard_at : List ℕ → Heard
heard_at [] = record { requests = 0; last_request = none; longest_gap = 0 }
heard_at (t ∷ ts) = record {
  requests = length (t ∷ ts);
  last_request = some (latest t ts);
  longest_gap = longest_difference t ts;
}

hear_all_from :
    (n t gap : ℕ) (ts : List ℕ)
    → n + length ts < u64_mod
    → hear_all ts (record { requests = n; last_request = some t; longest_gap = gap }) ≡ record {
      requests = n + length ts;
      last_request = some (latest t ts);
      longest_gap = max gap (longest_difference t ts);
    }
hear_all_from n t gap [] room = ground arith
hear_all_from n t gap (u ∷ ts) room = ground (arith, hear_all_from (n + 1) u (max gap (u - t)) ts)

hear_all-heard_at :
    (ts : List ℕ)
    → length ts < u64_mod
    → hear_all ts (record { requests = 0; last_request = none; longest_gap = 0 }) ≡ heard_at ts
hear_all-heard_at [] room = refl
hear_all-heard_at (t ∷ ts) room = ground (arith, hear_all_from 1 t 0 ts)

-- Whatever else was seen in between, the row of a relay says how many requests of its own there
-- were, fewer than 2^64, when the latest of them was, and the longest time between one and the next;
-- and a relay without requests has no row or one that says nothing of them.
pub lookup-run-default :
    (g : ℕ) (es : List Event)
    → length (times_in g es) < u64_mod
    → heard (lookup g (run default es).by_gi) ≡ heard_at (times_in g es)
lookup-run-default g es room =
    run-heard g es default ∙ (unfold lookup in hear_all-heard_at (times_in g es) room)

-- The last of some times, if there is one.
abbrev pub latest_of : List ℕ → Option ℕ
latest_of [] = none
latest_of (t ∷ ts) = some (latest t ts)

last_request-hear_all :
    (t : ℕ) (ts : List ℕ) (h : Heard) → (hear_all (t ∷ ts) h).last_request ≡ some (latest t ts)
last_request-hear_all t [] h = refl
last_request-hear_all t (u ∷ ts) h = last_request-hear_all u ts (hear t h)

-- When a relay was last heard of, however often.
pub last_request-run :
    (g : ℕ) (es : List Event)
    → (heard (lookup g (run default es).by_gi)).last_request ≡ latest_of (times_in g es)
last_request-run g es =
    ap (λ (h : Heard). h.last_request) (run-heard g es default) ∙ go (times_in g es)
  where
    go : (ts : List ℕ) → (hear_all ts (heard_of g default)).last_request ≡ latest_of ts
    go [] = unfold lookup in refl
    go (t ∷ ts) = last_request-hear_all t ts (heard_of g default)

-- A relay that was heard of has a row, which says so.
pub row_heard :
    (o : Option Relay) (t : ℕ)
    → (heard o).last_request ≡ some t
    → (r : Relay) × (o ≡ some r) × (r.last_request ≡ some t)
row_heard none t h = absurd (cc h)
row_heard (some r) t h = (r, refl, h)

pub length-times_in : (g : ℕ) (es : List Event) → length (times_in g es) ≤ requests_in es
length-times_in g [] = omega arith
length-times_in g (request_seen none xid now now_ms ∷ es) = omega (arith, length-times_in g es)
length-times_in g (request_seen (some q) xid now now_ms ∷ es) = ground (arith, length-times_in g es)
length-times_in g (reply_seen gi xid now now_ms ∷ es) = length-times_in g es
length-times_in g (tftp_request_seen now ∷ es) = length-times_in g es
length-times_in g (tftp_send_seen now ∷ es) = length-times_in g es
