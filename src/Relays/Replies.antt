-- ===== src/Relays/Replies.antt =====
-- The replies of relays.rs: which relay each is for, and the row that counts it.
use docsis_monitor.Order.{nat_order}
use docsis_monitor.Relays.Mirrors.{Waits, wait_step, set}
use docsis_monitor.Base.{
  u64_mod, if◌then◌else◌, ◌==◌, ℕ, ◌+◌, ◌-◌, ◌<◌, ◌≡◌, refl, ◌∙◌, Option, none, some, List, [], ◌∷◌,
  add64, ◌≤◌, ap, Bool, true, false, arith,
}
use docsis_monitor.Relays.Table.{Pending, Relay, Relays, entry, note_reply, new_relay}
use docsis_monitor.Relays.Events.{
  Event, reply_seen, request_seen, tftp_request_seen, tftp_send_seen,
}
use mathlib.Core.Option.{get_or}
use docsis_monitor.OrdMap.{lookup}
use docsis_monitor.Relays.Rows.{view-upsert, if_same}

-- The request that a reply answers.
abbrev pub answers : Waits → Option ℕ → Option Pending
answers m none = none
answers m (some x) = m x

-- The relay that a reply is for: the one that asked, or the one that the reply names.
abbrev pub credited : Waits → Option ℕ → Option ℕ → Option ℕ
credited m gi xid = elim (answers m xid) [
  | none ↦ gi
  | some p ↦ elim p.gi [ none ↦ gi | some g ↦ some g ]
]

abbrev pub is_for : ℕ → Option ℕ → ℕ
is_for g none = 0
is_for g (some q) = if q == g then 1 else 0

pub is_for-le : (g : ℕ) (o : Option ℕ) → is_for g o ≤ 1
is_for-le g none = omega arith
is_for-le g (some q) = ground arith

-- How many replies are for a relay.
abbrev pub replies_to : ℕ → Waits → List Event → ℕ
replies_to g m [] = 0
replies_to g m (reply_seen gi xid now now_ms ∷ es) =
    is_for g (credited m gi xid) + replies_to g (wait_step m (reply_seen gi xid now now_ms)) es
replies_to g m (e ∷ es) = replies_to g (wait_step m e) es

-- A reply comes less than thirty seconds after what it answers, by the clock of the requests.
abbrev pub IsTimely : ℕ → Option Pending → Type 0
IsTimely clock none = Unit {0}
IsTimely clock (some p) = clock - 30_000 < p.at_ms

abbrev pub AreTimely : ℕ → Waits → List Event → Type 0
AreTimely clock m [] = Unit {0}
AreTimely clock m (reply_seen gi none now now_ms ∷ es) = AreTimely clock m es
AreTimely clock m (reply_seen gi (some x) now now_ms ∷ es) =
    IsTimely clock (m x) × AreTimely clock (set x none m) es
AreTimely clock m (request_seen gi xid now now_ms ∷ es) =
    AreTimely now_ms (wait_step m (request_seen gi xid now now_ms)) es
AreTimely clock m (tftp_request_seen now ∷ es) = AreTimely clock m es
AreTimely clock m (tftp_send_seen now ∷ es) = AreTimely clock m es

abbrev pub replies_of : Option Relay → ℕ
replies_of none = 0
replies_of (some v) = v.replies

replies_of-row : (o : Option Relay) (now : ℕ) → (get_or o (new_relay now)).replies ≡ replies_of o
replies_of-row none now = refl
replies_of-row (some v) now = refl

abbrev pub replies_at : ℕ → Relays → ℕ
replies_at g r = replies_of (lookup g r.by_gi)

pub entry-replies :
    (gi : Option ℕ) (now g : ℕ) (f : Relay → Relay) (r : Relays)
    → ((v : Relay) → (f v).replies ≡ v.replies)
    → replies_at g (entry gi now f r) ≡ replies_at g r
unfolding entry
entry-replies none now g f r same = refl
entry-replies (some q) now g f r same =
    view-upsert replies_of q now g f r.by_gi
    ∙ if_same (q == g) _ _
        (same (get_or (lookup g r.by_gi) (new_relay now)) ∙ replies_of-row (lookup g r.by_gi) now)

count_if :
    (b : Bool) (x n : ℕ)
    → x ≡ add64 n 1
    → n + 1 < u64_mod
    → (if b then x else n) ≡ n + (if b then 1 else 0)
count_if true x n e room = omega (arith, e, room)
count_if false x n e room = omega arith

note_reply-adds :
    (p : Option Pending) (now now_ms : ℕ) (v : Relay)
    → (note_reply p now now_ms v).replies ≡ add64 v.replies 1
unfolding note_reply
note_reply-adds none now now_ms v = refl
note_reply-adds (some p) now now_ms v = refl

-- A reply counts for its relay and for no other.
pub reply-adds :
    (p : Option Pending) (o : Option ℕ) (now now_ms g : ℕ) (r : Relays)
    → replies_at g r + 1 < u64_mod
    → replies_at g (entry o now (note_reply p now now_ms) r) ≡ replies_at g r + is_for g o
unfolding entry
reply-adds p none now now_ms g r room = omega arith
reply-adds p (some q) now now_ms g r room =
    let v = get_or (lookup g r.by_gi) (new_relay now) in
    view-upsert replies_of q now g (note_reply p now now_ms) r.by_gi
    ∙ count_if (q == g) (note_reply p now now_ms v).replies (replies_at g r)
        (note_reply-adds p now now_ms v
          ∙ ap (λ (n : ℕ). add64 n 1) (replies_of-row (lookup g r.by_gi) now))
        room
