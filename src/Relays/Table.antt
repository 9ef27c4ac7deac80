-- ===== src/Relays/Table.antt =====
-- relays.rs: the rows, the requests that wait for an answer, and the operations on both.
use docsis_monitor.OrdMap.{OrdMap, lookup, upsert, insert, remove, retain_values}
use docsis_monitor.Order.{nat_order}
use mathlib.Core.Option
use mathlib.Core.Option.{get_or}
use docsis_monitor.Base.{
  add64, ltb, if◌then◌else◌, length, ◌==◌, ℕ, ◌-◌, ◌/◌, max, Option, none, some, List, [],
}

abbrev pub pending_for_ms : ℕ
pending_for_ms = 30_000

abbrev pub max_pending : ℕ
max_pending = 50_000

abbrev pub sweep_every_ms : ℕ
sweep_every_ms = 1_000

-- `struct Relay`.
pub record Relay : Type 0 where
  pub requests : ℕ
  pub replies : ℕ
  pub tftp_requests : ℕ
  pub tftp_sends : ℕ
  pub last_request : Option ℕ
  pub last_reply : Option ℕ
  pub first_seen : ℕ
  pub longest_gap : ℕ
  pub answered : ℕ
  pub answer_ms_total : ℕ
  pub answer_ms_worst : ℕ

-- `Relay::default()`, but for when it was first seen.
abbrev pub new_relay : ℕ → Relay
new_relay first_seen = record {
  requests = 0;
  replies = 0;
  tftp_requests = 0;
  tftp_sends = 0;
  last_request = none;
  last_reply = none;
  first_seen = first_seen;
  longest_gap = 0;
  answered = 0;
  answer_ms_total = 0;
  answer_ms_worst = 0;
}

unfoldable pub answer_ms_mean : Relay → Option ℕ
answer_ms_mean r = if ltb 0 r.answered then some (r.answer_ms_total / r.answered) else none

unfoldable pub idle_for : Relay → ℕ → Option ℕ
idle_for r now = Option.map (λ t. now - t) r.last_request

unfoldable pub total : Relay → ℕ
total r = add64 (add64 (add64 r.requests r.replies) r.tftp_requests) r.tftp_sends

-- `struct Pending`.
pub record Pending : Type 0 where
  pub at_ms : ℕ
  pub gi : Option ℕ

-- `struct Relays`. An address is its 32-bit value.
pub record Relays : Type 0 where
  pub by_gi : OrdMap ℕ Relay
  pub unrelayed : Relay
  pub pending : OrdMap ℕ Pending
  pub swept_ms : ℕ

abbrev pub default : Relays
default = record { by_gi = []; unrelayed = new_relay 0; pending = []; swept_ms = 0 }

-- The row for packets with no gi-address, dated when it is first used.
abbrev pub dated : ℕ → Relay → Relay
dated now v = if v.first_seen == 0 then record v { first_seen = now } else v

-- `entry`, with what the caller does to the row that it hands out.
unfoldable pub entry : Option ℕ → ℕ → (Relay → Relay) → Relays → Relays
entry none now f r = record r { unrelayed = f (dated now r.unrelayed) }
entry (some g) now f r = record r { by_gi = upsert g (new_relay now) f r.by_gi }

unfoldable pub expire_pending : ℕ → Relays → Relays
expire_pending now_ms r = if ltb (now_ms - r.swept_ms) sweep_every_ms then r else record r {
  swept_ms = now_ms;
  pending = retain_values (λ p. ltb (now_ms - pending_for_ms) p.at_ms) r.pending;
}

-- What `request` does to its row.
unfoldable pub note_request : ℕ → Relay → Relay
note_request now v = record v {
  requests = add64 v.requests 1;
  longest_gap = elim v.last_request [
    | none ↦ v.longest_gap
    | some last ↦ max v.longest_gap (now - last)
  ];
  last_request = some now;
}

-- What `request` does to the table of pending requests.
unfoldable pub note_pending : Option ℕ → Option ℕ → ℕ → Relays → Relays
unfolding expire_pending
note_pending gi none now_ms r = r
note_pending gi (some x) now_ms r =
    let s = expire_pending now_ms r in
    if ltb (length s.pending) max_pending
    then record s { pending = insert x (record { at_ms = now_ms; gi = gi }) s.pending }
    else s

unfoldable pub request : Option ℕ → Option ℕ → ℕ → ℕ → Relays → Relays
unfolding entry note_request note_pending
request gi xid now now_ms r = note_pending gi xid now_ms (entry gi now (note_request now) r)

-- `self.pending.remove(&x)`: what it answers and what it leaves.
unfoldable pub asked : Option ℕ → Relays → Option Pending
asked none r = none
asked (some x) r = lookup x r.pending

unfoldable pub forget : Option ℕ → Relays → Relays
forget none r = r
forget (some x) r = record r { pending = remove x r.pending }

-- `asked.and_then(|p| p.gi).or(gi)`.
unfoldable pub owner : Option Pending → Option ℕ → Option ℕ
owner none gi = gi
owner (some p) gi = elim p.gi [ none ↦ gi | some g ↦ some g ]

-- What `reply` does to its row.
unfoldable pub note_reply : Option Pending → ℕ → ℕ → Relay → Relay
note_reply none now now_ms v = record v { replies = add64 v.replies 1; last_reply = some now }
note_reply (some p) now now_ms v = record v {
  replies = add64 v.replies 1;
  last_reply = some now;
  answered = add64 v.answered 1;
  answer_ms_total = add64 v.answer_ms_total (now_ms - p.at_ms);
  answer_ms_worst = max v.answer_ms_worst (now_ms - p.at_ms);
}

unfoldable pub reply : Option ℕ → Option ℕ → ℕ → ℕ → Relays → Relays
unfolding entry asked forget owner note_reply
reply gi xid now now_ms r =
    let p = asked xid r in entry (owner p gi) now (note_reply p now now_ms) (forget xid r)

unfoldable pub note_tftp_request : Relay → Relay
note_tftp_request v = record v { tftp_requests = add64 v.tftp_requests 1 }

unfoldable pub tftp_request : ℕ → Relays → Relays
unfolding entry note_tftp_request
tftp_request now r = entry none now note_tftp_request r

unfoldable pub note_tftp_send : Relay → Relay
note_tftp_send v = record v { tftp_sends = add64 v.tftp_sends 1 }

unfoldable pub tftp_send : ℕ → Relays → Relays
unfolding entry note_tftp_send
tftp_send now r = entry none now note_tftp_send r

-- `each`, in address order.
abbrev pub each : Relays → List (ℕ × Relay)
each r = r.by_gi

unfoldable pub waiting : Relays → ℕ
waiting r = length r.pending
