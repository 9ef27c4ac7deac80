-- ===== src/Relays/Rows.antt =====
-- The row of each relay in relays.rs, one request after the other.
use docsis_monitor.Order.{nat_order}
use docsis_monitor.OrdMap.{lookup, OrdMap, upsert}
use docsis_monitor.OrdMap.Laws.{lookup-upsert_self, lookup-upsert_ne}
use docsis_monitor.Relays.Table.{
  Relay, Relays, entry, request, reply, tftp_request, tftp_send, new_relay, note_request,
  note_reply, Pending, asked, owner, forget, note_pending,
}
use docsis_monitor.Relays.Events.{
  Event, step, run, request_seen, reply_seen, tftp_request_seen, tftp_send_seen,
}
use docsis_monitor.Base.{
  add64, if◌then◌else◌, Bool-cases, ◌==◌, ℕ, ◌-◌, max, ◌≡◌, refl, inl, inr, Option, none, some,
  List, [], ◌∷◌, ==_iff, sym, ap, ◌∙◌, Bool, true, false, ◌++◌, arith,
}
use mathlib.Core.Option.{get_or}
use mathlib.Core.Path.{subst}

-- The times of the requests of a relay, in their order.
abbrev pub times_in : ℕ → List Event → List ℕ
times_in g [] = []
times_in g (request_seen (some q) xid now now_ms ∷ es) =
    if q == g then now ∷ times_in g es else times_in g es
times_in g (_ ∷ es) = times_in g es

-- What a row says of the requests of its relay, and nothing for a relay that has no row.
pub record Heard : Type 0 where
  pub requests : ℕ
  pub last_request : Option ℕ
  pub longest_gap : ℕ

abbrev pub heard : Option Relay → Heard
heard none = record { requests = 0; last_request = none; longest_gap = 0 }
heard (some v) = record {
  requests = v.requests;
  last_request = v.last_request;
  longest_gap = v.longest_gap;
}

abbrev pub heard_of : ℕ → Relays → Heard
heard_of g r = heard (lookup g r.by_gi)

-- A request more.
abbrev pub hear : ℕ → Heard → Heard
hear now h = record {
  requests = add64 h.requests 1;
  last_request = some now;
  longest_gap = elim h.last_request [
    | none ↦ h.longest_gap
    | some last ↦ max h.longest_gap (now - last)
  ];
}

abbrev pub hear_all : List ℕ → Heard → Heard
hear_all [] h = h
hear_all (t ∷ ts) h = hear_all ts (hear t h)

heard-row : (o : Option Relay) (now : ℕ) → heard (some (get_or o (new_relay now))) ≡ heard o
heard-row none now = refl
heard-row (some v) now = refl

-- What is seen of a relay after a change to the row of `q`.
pub view-upsert {ℓ} :
    {A : Type ℓ} (view : Option Relay → A) (q now g : ℕ) (f : Relay → Relay) (m : OrdMap ℕ Relay)
    → view (lookup g (upsert q (new_relay now) f m)) ≡ (
        if q == g then view (some (f (get_or (lookup g m) (new_relay now)))) else view (lookup g m))
view-upsert view q now g f m = elim (Bool-cases (q == g)) [
  | inl e ↦ rw e (
      subst
        (λ k.
          view (lookup g (upsert k (new_relay now) f m))
          ≡ view (some (f (get_or (lookup g m) (new_relay now)))))
        (sym ((==_iff q g).0 e)) (ap view (lookup-upsert_self g (new_relay now) f m)))
  | inr ne ↦
      rw ne
        (ap view (lookup-upsert_ne g q (new_relay now) f m (λ h. cc (ne, (==_iff q g).1 (sym h)))))
]

pub if_same {ℓ} : {A : Type ℓ} (b : Bool) (x y : A) → x ≡ y → (if b then x else y) ≡ y
if_same true x y e = e
if_same false x y e = refl

-- An entry whose change leaves aside what is heard.
entry-heard :
    (gi : Option ℕ) (now g : ℕ) (f : Relay → Relay) (r : Relays)
    → ((v : Relay) → heard (some (f v)) ≡ heard (some v))
    → heard_of g (entry gi now f r) ≡ heard_of g r
unfolding entry
entry-heard none now g f r same = refl
entry-heard (some q) now g f r same =
    view-upsert heard q now g f r.by_gi
    ∙ if_same (q == g) _ _
        (same (get_or (lookup g r.by_gi) (new_relay now)) ∙ heard-row (lookup g r.by_gi) now)

request-heard :
    (q now g : ℕ) (r : Relays)
    → heard_of g (entry (some q) now (note_request now) r)
      ≡ (if q == g then hear now (heard_of g r) else heard_of g r)
unfolding entry note_request
request-heard q now g r =
    view-upsert heard q now g (note_request now) r.by_gi
    ∙ ap (λ (h : Heard). if q == g then hear now h else heard_of g r)
        (heard-row (lookup g r.by_gi) now)

pub by_gi-note_pending :
    (gi xid : Option ℕ) (now_ms : ℕ) (r : Relays) → (note_pending gi xid now_ms r).by_gi ≡ r.by_gi
unfolding note_pending
by_gi-note_pending gi none now_ms r = refl
by_gi-note_pending gi (some x) now_ms r = ground arith

pub by_gi-forget : (xid : Option ℕ) (r : Relays) → (forget xid r).by_gi ≡ r.by_gi
unfolding forget
by_gi-forget none r = refl
by_gi-forget (some x) r = refl

note_reply-heard :
    (p : Option Pending) (now now_ms : ℕ) (v : Relay)
    → heard (some (note_reply p now now_ms v)) ≡ heard (some v)
unfolding note_reply
note_reply-heard none now now_ms v = refl
note_reply-heard (some p) now now_ms v = refl

if_hear :
    (b : Bool) (now : ℕ) (h : Heard)
    → (if b then hear now h else h) ≡ hear_all (if b then now ∷ [] else []) h
if_hear true now h = refl
if_hear false now h = refl

step-heard :
    (g : ℕ) (e : Event) (r : Relays)
    → heard_of g (step r e) ≡ hear_all (times_in g (e ∷ [])) (heard_of g r)
unfolding step request reply tftp_request tftp_send
step-heard g (request_seen none xid now now_ms) r =
    ap (λ (m : OrdMap ℕ Relay). heard (lookup g m))
      (by_gi-note_pending none xid now_ms (entry none now (note_request now) r))
    ∙ unfold entry in refl
step-heard g (request_seen (some q) xid now now_ms) r =
    ap (λ (m : OrdMap ℕ Relay). heard (lookup g m))
      (by_gi-note_pending (some q) xid now_ms (entry (some q) now (note_request now) r))
    ∙ (request-heard q now g r ∙ if_hear (q == g) now (heard_of g r))
step-heard g (reply_seen gi xid now now_ms) r =
    entry-heard (owner (asked xid r) gi) now g (note_reply (asked xid r) now now_ms) (forget xid r)
      (note_reply-heard (asked xid r) now now_ms)
    ∙ ap (λ (m : OrdMap ℕ Relay). heard (lookup g m)) (by_gi-forget xid r)
step-heard g (tftp_request_seen now) r = unfold entry in refl
step-heard g (tftp_send_seen now) r = unfold entry in refl

hear_all-append : (ts us : List ℕ) (h : Heard) → hear_all (ts ++ us) h ≡ hear_all us (hear_all ts h)
hear_all-append [] us h = refl
hear_all-append (t ∷ ts) us h = hear_all-append ts us (hear t h)

times_in-cons :
    (g : ℕ) (e : Event) (es : List Event)
    → times_in g (e ∷ es) ≡ times_in g (e ∷ []) ++ times_in g es
times_in-cons g (request_seen none xid now now_ms) es = refl
times_in-cons g (request_seen (some q) xid now now_ms) es = if_cons (q == g)
  where
    if_cons :
        (b : Bool)
        → (if b then now ∷ times_in g es else times_in g es)
          ≡ (if b then now ∷ [] else []) ++ times_in g es
    if_cons true = refl
    if_cons false = refl
times_in-cons g (reply_seen gi xid now now_ms) es = refl
times_in-cons g (tftp_request_seen now) es = refl
times_in-cons g (tftp_send_seen now) es = refl

pub run-heard :
    (g : ℕ) (es : List Event) (r : Relays)
    → heard_of g (run r es) ≡ hear_all (times_in g es) (heard_of g r)
unfolding run
run-heard g [] r = refl
run-heard g (e ∷ es) r =
    run-heard g es (step r e)
    ∙ (ap (hear_all (times_in g es)) (step-heard g e r)
        ∙ (sym (hear_all-append (times_in g (e ∷ [])) (times_in g es) (heard_of g r))
            ∙ ap (λ (ts : List ℕ). hear_all ts (heard_of g r)) (sym (times_in-cons g e es))))
