-- ===== src/Relays/Answers.antt =====
-- The replies in the rows of relays.rs, against the map that knows no sweeps.
use docsis_monitor.Order.{nat_order}
use docsis_monitor.Relays.Waiting.{Kept, step-Kept, default-Kept, HasRoom}
use docsis_monitor.Relays.Mirrors.{Waits, wait_step, Mirrors}
use docsis_monitor.Base.{
  u64_mod, ℕ, ◌+◌, ◌-◌, ◌<◌, ◌≡◌, refl, ◌∙◌, Option, none, some, List, [], ◌∷◌, ◌≤◌, sym, ap, arith,
}
use docsis_monitor.Relays.Table.{
  owner, Pending, Relay, Relays, entry, asked, note_request, tftp_request, tftp_send, forget,
  default,
}
use docsis_monitor.Relays.Events.{
  Event, reply_seen, request_seen, tftp_request_seen, tftp_send_seen, step, run,
}
use docsis_monitor.OrdMap.{lookup, OrdMap}
use docsis_monitor.Relays.Rows.{by_gi-note_pending, by_gi-forget}
use docsis_monitor.Relays.Tally.{replies_in}
use docsis_monitor.Relays.Fresh.{IsForward}
use docsis_monitor.Relays.Replies.{
  IsTimely, replies_at, answers, AreTimely, replies_of, credited, is_for, replies_to, entry-replies,
  reply-adds, is_for-le,
}

-- A timely reply finds exactly what waits for it.
asked_timely :
    (m : Waits) (clock x : ℕ) (r : Relays)
    → Mirrors m r
    → r.swept_ms ≤ clock
    → IsTimely clock (m x)
    → asked (some x) r ≡ m x
unfolding asked
asked_timely m clock x r h swept timely =
    agree (lookup x r.pending) (m x) (h.sound x)
      (λ p e t. h.complete x p e (omega (arith, swept, t))) timely
  where
    agree :
        (found spec : Option Pending)
        → ((p : Pending) → found ≡ some p → spec ≡ some p)
        → ((p : Pending) → spec ≡ some p → clock - 30_000 < p.at_ms → found ≡ some p)
        → IsTimely clock spec
        → found ≡ spec
    agree (some p) spec sound complete t = sym (sound p refl)
    agree none none sound complete t = refl
    agree none (some q) sound complete t = complete q refl t

note_request-replies : (now : ℕ) (v : Relay) → (note_request now v).replies ≡ v.replies
unfolding note_request
note_request-replies now v = refl

request-replies :
    (gi xid : Option ℕ) (now now_ms g : ℕ) (r : Relays)
    → replies_at g (step r (request_seen gi xid now now_ms)) ≡ replies_at g r
unfolding step
request-replies gi xid now now_ms g r =
    ap (λ (m : OrdMap ℕ Relay). replies_of (lookup g m))
      (by_gi-note_pending gi xid now_ms (entry gi now (note_request now) r))
    ∙ entry-replies gi now g (note_request now) r (note_request-replies now)

owner-credited :
    (m : Waits) (gi xid : Option ℕ) (found : Option Pending)
    → found ≡ answers m xid
    → owner found gi ≡ credited m gi xid
unfolding owner
owner-credited m gi xid found e = ap (λ (o : Option Pending). owner o gi) e ∙ go (answers m xid)
  where
    go :
        (o : Option Pending)
        → owner o gi ≡ (elim o [ none ↦ gi | some p ↦ elim p.gi [ none ↦ gi | some g ↦ some g ] ])
    go none = refl
    go (some p) = refl

reply-replies :
    (gi xid : Option ℕ) (now now_ms g : ℕ) (m : Waits) (r : Relays)
    → asked xid r ≡ answers m xid
    → replies_at g r + 1 < u64_mod
    → replies_at g (step r (reply_seen gi xid now now_ms))
      ≡ replies_at g r + is_for g (credited m gi xid)
unfolding step
reply-replies gi xid now now_ms g m r found room =
    let same : replies_at g (forget xid r) ≡ replies_at g r =
      ap (λ (b : OrdMap ℕ Relay). replies_of (lookup g b)) (by_gi-forget xid r) in
    reply-adds (asked xid r) (owner (asked xid r) gi) now now_ms g (forget xid r)
      (omega (arith, same, room))
    ∙ omega (arith, same, ap (is_for g) (owner-credited m gi xid (asked xid r) found))

run-replies :
    (clock g : ℕ) (es : List Event) (m : Waits) (r : Relays)
    → Kept clock m es r
    → AreTimely clock m es
    → replies_at g r + replies_in es < u64_mod
    → replies_at g (run r es) ≡ replies_at g r + replies_to g m es
unfolding run
run-replies clock g [] m r k timely room = omega arith
run-replies clock g (request_seen gi xid now now_ms ∷ es) m r k timely room =
    let e = request_seen gi xid now now_ms in
    let same = request-replies gi xid now now_ms g r in
    omega (
      arith,
      same,
      run-replies now_ms g es (wait_step m e) (step r e) (step-Kept clock e es m r k) timely
          (omega (arith, same, room)),
    )
run-replies clock g (reply_seen gi none now now_ms ∷ es) m r k timely room =
    let e = reply_seen gi none now now_ms in
    let found : asked none r ≡ answers m none = unfold asked in refl in
    let one = is_for-le g (credited m gi none) in
    let adds = reply-replies gi none now now_ms g m r found (omega (arith, room)) in
    omega (
      arith,
      adds,
      run-replies clock g es (wait_step m e) (step r e) (step-Kept clock e es m r k) timely
          (omega (arith, adds, one, room)),
    )
run-replies clock g (reply_seen gi (some x) now now_ms ∷ es) m r k timely room =
    let e = reply_seen gi (some x) now now_ms in
    let found : asked (some x) r ≡ answers m (some x) =
      asked_timely m clock x r k.mirrors k.swept.swept timely.0 in
    let one = is_for-le g (credited m gi (some x)) in
    let adds = reply-replies gi (some x) now now_ms g m r found (omega (arith, room)) in
    omega (
      arith,
      adds,
      run-replies clock g es (wait_step m e) (step r e) (step-Kept clock e es m r k) timely.1
          (omega (arith, adds, one, room)),
    )
run-replies clock g (tftp_request_seen now ∷ es) m r k timely room =
    let e = tftp_request_seen now in
    let same : replies_at g (step r e) ≡ replies_at g r = unfold step tftp_request entry in refl in
    omega (
      arith,
      same,
      run-replies clock g es m (step r e) (step-Kept clock e es m r k) timely
          (omega (arith, same, room)),
    )
run-replies clock g (tftp_send_seen now ∷ es) m r k timely room =
    let e = tftp_send_seen now in
    let same : replies_at g (step r e) ≡ replies_at g r = unfold step tftp_send entry in refl in
    omega (
      arith,
      same,
      run-replies clock g es m (step r e) (step-Kept clock e es m r k) timely
          (omega (arith, same, room)),
    )

-- The row of a relay holds exactly the replies, fewer than 2^64, to its requests, and those to no
-- request, or to one of no relay, that name it; as long as the table was never full, when the clock
-- of the requests is past its start and does not go back, and every reply came less than thirty
-- seconds after the request that it answers.
pub replies-run :
    (g : ℕ) (es : List Event)
    → IsForward 0 es
    → HasRoom default es
    → AreTimely 0 (λ _. none) es
    → replies_in es < u64_mod
    → replies_of (lookup g (run default es).by_gi) ≡ replies_to g (λ _. none) es
replies-run g es forward space timely room =
    run-replies 0 g es (λ _. none) default (default-Kept es forward space) timely
      (unfold lookup in omega (arith, room))
    ∙ (unfold lookup in omega arith)
