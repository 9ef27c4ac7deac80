-- ===== src/Relays/Mirrors.antt =====
-- The table of pending requests of relays.rs as a view of a map that knows no sweeps: for every
-- transaction the latest request, until its reply.
use docsis_monitor.Order.{nat_order}
use docsis_monitor.OrdMap.Laws.{lookup-insert_self, lookup-insert_ne}
use docsis_monitor.OrdMap.Sorted.{
  lookup-retain, lookup-remove_self, lookup-remove_ne, IsSorted, insert-IsSorted, remove-IsSorted,
  retain-IsSorted,
}
use mathlib.Core.Option.{some-injective}
use docsis_monitor.Base.{
  ltb, if◌then◌else◌, lt→ltb, Bool-cases, length, ◌==◌, ℕ, ◌-◌, ◌≤◌, ◌<◌, ◌≡◌, sym, ◌∙◌, inl, inr,
  Bool, true, Option, none, some, List, [], ◌∷◌, arith, refl, ==_iff, false,
}
use docsis_monitor.Relays.Table.{
  Pending, Relays, entry, expire_pending, Relay, pending_for_ms, sweep_every_ms, note_pending,
  forget, max_pending,
}
use docsis_monitor.Relays.Events.{Event, request_seen, reply_seen}
use docsis_monitor.OrdMap.{lookup, OrdMap, insert, remove}
use docsis_monitor.Relays.Pending.{length-expire-le}

abbrev pub Waits : Type 0
Waits = ℕ → Option Pending

abbrev pub set : ℕ → Option Pending → Waits → Waits
set x o m y = if y == x then o else m y

abbrev pub wait_step : Waits → Event → Waits
wait_step m (request_seen gi (some x) now now_ms) =
    set x (some (record { at_ms = now_ms; gi = gi })) m
wait_step m (reply_seen gi (some x) now now_ms) = set x none m
wait_step m _ = m

abbrev pub waits : Waits → List Event → Waits
waits m [] = m
waits m (e ∷ es) = waits (wait_step m e) es

pub record Mirrors (m : Waits) (r : Relays) : Type 0 where
  pub sorted : IsSorted r.pending
  pub sound : (x : ℕ) (p : Pending) → lookup x r.pending ≡ some p → m x ≡ some p
  pub complete :
      (x : ℕ) (p : Pending)
      → m x ≡ some p
      → r.swept_ms - pending_for_ms < p.at_ms
      → lookup x r.pending ≡ some p

pub entry-Mirrors :
    (m : Waits) (gi : Option ℕ) (now : ℕ) (f : Relay → Relay) (r : Relays)
    → Mirrors m r
    → Mirrors m (entry gi now f r)
unfolding entry
entry-Mirrors m none now f r h = record {
  sorted = h.sorted;
  sound = h.sound;
  complete = h.complete;
}
entry-Mirrors m (some g) now f r h = record {
  sorted = h.sorted;
  sound = h.sound;
  complete = h.complete;
}

-- What a sweep leaves of one entry.
swept_entry :
    (o : Option Pending) (p : Pending) (old : Pending → Bool)
    → (elim o [ none ↦ none | some v ↦ if old v then some v else none ]) ≡ some p
    → o ≡ some p
swept_entry none p old h = absurd (cc h)
swept_entry (some v) p old h = ground (arith, h)

kept_entry :
    (o : Option Pending) (p : Pending) (old : Pending → Bool)
    → o ≡ some p
    → old p ≡ true
    → (elim o [ none ↦ none | some v ↦ if old v then some v else none ]) ≡ some p
kept_entry none p old h k = absurd (cc h)
kept_entry (some v) p old h k = rw (some-injective v p h, k) refl

expire_pending-Mirrors :
    (m : Waits) (now_ms : ℕ) (r : Relays)
    → r.swept_ms ≤ now_ms
    → Mirrors m r
    → Mirrors m (expire_pending now_ms r)
unfolding expire_pending
expire_pending-Mirrors m now_ms r forward h =
    let old = λ (p : Pending). ltb (now_ms - pending_for_ms) p.at_ms in
    elim (Bool-cases (ltb (now_ms - r.swept_ms) sweep_every_ms)) [
      | inl soon ↦ rw soon h
      | inr over ↦ rw over (record {
        sorted = retain-IsSorted old r.pending h.sorted;
        sound = λ x p e. h.sound x p (
            swept_entry (lookup x r.pending) p old
              (sym (lookup-retain x old r.pending h.sorted) ∙ e));
        complete = λ x p e fresh.
            lookup-retain x old r.pending h.sorted
            ∙ kept_entry (lookup x r.pending) p old
                (h.complete x p e (omega (arith, fresh, forward))) (lt→ltb _ _ fresh);
      })
    ]

lookup-insert :
    (y x : ℕ) (p : Pending) (m : OrdMap ℕ Pending)
    → lookup y (insert x p m) ≡ (if y == x then some p else lookup y m)
lookup-insert y x p m = elim (Bool-cases (y == x)) [
  | inl same ↦ rw same (rw ((==_iff y x).0 same) (lookup-insert_self x p m))
  | inr other ↦ rw other (lookup-insert_ne y x p m (λ e. cc (other, (==_iff y x).1 e)))
]

lookup-remove :
    (y x : ℕ) (m : OrdMap ℕ Pending)
    → IsSorted m
    → lookup y (remove x m) ≡ (if y == x then none else lookup y m)
lookup-remove y x m s = elim (Bool-cases (y == x)) [
  | inl same ↦ rw same (rw ((==_iff y x).0 same) (lookup-remove_self x m s))
  | inr other ↦ rw other (lookup-remove_ne y x m s (λ e. cc (other, (==_iff y x).1 e)))
]

-- The same at one key, and what holds at the others.
if_same_else :
    (b : Bool) (here a c : Option Pending) (q : Pending)
    → (a ≡ some q → c ≡ some q)
    → (if b then here else a) ≡ some q
    → (if b then here else c) ≡ some q
if_same_else true here a c q h e = e
if_same_else false here a c q h e = h e

-- A request that finds room is the latest of its transaction.
pub note_pending-Mirrors :
    (m : Waits) (gi : Option ℕ) (x now_ms : ℕ) (r : Relays)
    → r.swept_ms ≤ now_ms
    → length r.pending < max_pending
    → Mirrors m r
    → Mirrors
        (set x (some (record { at_ms = now_ms; gi = gi })) m)
        (note_pending gi (some x) now_ms r)
unfolding note_pending
note_pending-Mirrors m gi x now_ms r forward space h =
    let s = expire_pending now_ms r in
    let p : Pending = record { at_ms = now_ms; gi = gi } in
    let k = expire_pending-Mirrors m now_ms r forward h in
    let room : length s.pending < max_pending = omega (arith, length-expire-le now_ms r, space) in
    rw (lt→ltb _ _ room) (record {
      sorted = insert-IsSorted x p s.pending k.sorted;
      sound = λ y q e.
          if_same_else (y == x) (some p) (lookup y s.pending) (m y) q (k.sound y q)
            (sym (lookup-insert y x p s.pending) ∙ e);
      complete = λ y q e fresh.
          lookup-insert y x p s.pending
          ∙ if_same_else (y == x) (some p) (m y) (lookup y s.pending) q
              (λ d. k.complete y q d fresh) e;
    })

-- A reply ends the wait of its transaction.
pub forget-Mirrors :
    (m : Waits) (x : ℕ) (r : Relays) → Mirrors m r → Mirrors (set x none m) (forget (some x) r)
unfolding forget
forget-Mirrors m x r h = record {
  sorted = remove-IsSorted x r.pending h.sorted;
  sound = λ y q e.
      if_same_else (y == x) none (lookup y r.pending) (m y) q (h.sound y q)
        (sym (lookup-remove y x r.pending h.sorted) ∙ e);
  complete = λ y q e fresh.
      lookup-remove y x r.pending h.sorted
      ∙ if_same_else (y == x) none (m y) (lookup y r.pending) q (λ d. h.complete y q d fresh) e;
}
