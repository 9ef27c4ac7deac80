-- ===== src/Relays/Totals.antt =====
-- The counts of relays.rs over all its rows, and what each operation does to them.
use docsis_monitor.Order.{nat_order}
use docsis_monitor.OrdMap.{lookup}
use docsis_monitor.OrdMap.Laws.{
  sum_values, sum-upsert, length-remove-le, length-remove, length-insert-le,
}
use docsis_monitor.Relays.Table.{
  Relays, Relay, entry, note_request, note_reply, Pending, note_pending, forget, new_relay, dated,
  asked, expire_pending, request, sweep_every_ms, max_pending, reply, owner,
}
use docsis_monitor.Base.{
  u64_mod, Option-cases, length, ℕ, suc, ◌+◌, ◌-◌, ◌≤◌, ◌≡◌, inl, inr, Option, none, some, List,
  arith, ltb, Bool-cases, refl, ap, ◌∙◌,
}
use docsis_monitor.Relays.Pending.{length-expire-le, entry-pending}

-- A count over every row.
abbrev pub total_of : (Relay → ℕ) → Relays → ℕ
total_of f r = sum_values f r.by_gi + f r.unrelayed

pub entry-total :
    (f : Relay → ℕ) (bound c : ℕ) (gi : Option ℕ) (now : ℕ) (g : Relay → Relay) (r : Relays)
    → ((v : Relay) → f v ≤ bound → f (g v) ≡ f v + c)
    → f (new_relay now) ≡ 0
    → f (dated now r.unrelayed) ≡ f r.unrelayed
    → total_of f r ≤ bound
    → total_of f (entry gi now g r) ≡ total_of f r + c
unfolding entry
entry-total f bound c none now g r h z d b =
    omega (arith, h (dated now r.unrelayed) (omega (arith, d)), d)
entry-total f bound c (some q) now g r h z d b =
    omega (arith, sum-upsert f bound c q (new_relay now) g r.by_gi h z (omega arith))

pub dated_lem :
    (f : Relay → ℕ) (now : ℕ) (v : Relay)
    → f (record v { first_seen = now }) ≡ f v
    → f (dated now v) ≡ f v
dated_lem f now v h = ground arith

pub note_request-requests :
    (now : ℕ) (v : Relay)
    → v.requests ≤ u64_mod - 2
    → (note_request now v).requests ≡ v.requests + 1
unfolding note_request
note_request-requests now v h = omega arith

pub note_reply-replies :
    (p : Option Pending) (now now_ms : ℕ) (v : Relay)
    → v.replies ≤ u64_mod - 2
    → (note_reply p now now_ms v).replies ≡ v.replies + 1
unfolding note_reply
note_reply-replies none now now_ms v h = omega arith
note_reply-replies (some p) now now_ms v h = omega arith

-- An answer more, if the reply answers a request.
abbrev pub matched : Option Pending → ℕ
matched none = 0
matched (some _) = 1

pub note_reply-answered :
    (p : Option Pending) (now now_ms : ℕ) (v : Relay)
    → v.answered ≤ u64_mod - 2
    → (note_reply p now now_ms v).answered ≡ v.answered + matched p
unfolding note_reply
note_reply-answered none now now_ms v h = omega arith
note_reply-answered (some p) now now_ms v h = omega arith

pub matched-le : (p : Option Pending) → matched p ≤ 1
matched-le none = omega arith
matched-le (some p) = omega arith

pub length-note_pending-le :
    (gi xid : Option ℕ) (now_ms : ℕ) (r : Relays)
    → length (note_pending gi xid now_ms r).pending ≤ suc (length r.pending)
unfolding note_pending
length-note_pending-le gi none now_ms r = omega arith
length-note_pending-le gi (some x) now_ms r = ground (
  arith,
  length-expire-le now_ms r,
  length-insert-le x (record { at_ms = now_ms; gi = gi }) (expire_pending now_ms r).pending,
)

pub length-forget :
    (xid : Option ℕ) (r : Relays)
    → length (forget xid r).pending + matched (asked xid r) ≤ length r.pending
unfolding forget asked
length-forget none r = omega arith
length-forget (some x) r = elim (Option-cases (lookup x r.pending)) [
  | inl gone ↦ rw gone (omega (arith, length-remove-le x r.pending))
  | inr (p, found) ↦ rw found (omega (arith, length-remove x r.pending found))
]

pub expire-total :
    (f : Relay → ℕ) (now_ms : ℕ) (r : Relays) → total_of f (expire_pending now_ms r) ≡ total_of f r
unfolding expire_pending
expire-total f now_ms r = elim (Bool-cases (ltb (now_ms - r.swept_ms) sweep_every_ms)) [
  | inl soon ↦ rw soon
  | inr due ↦ rw due
]

pub note_pending-total :
    (f : Relay → ℕ) (gi xid : Option ℕ) (now_ms : ℕ) (r : Relays)
    → total_of f (note_pending gi xid now_ms r) ≡ total_of f r
unfolding note_pending
note_pending-total f gi none now_ms r = refl
note_pending-total f gi (some x) now_ms r =
    elim (Bool-cases (ltb (length (expire_pending now_ms r).pending) max_pending)) [
      | inl room ↦ rw room (expire-total f now_ms r)
      | inr full ↦ rw full (expire-total f now_ms r)
    ]

pub forget-total :
    (f : Relay → ℕ) (xid : Option ℕ) (r : Relays) → total_of f (forget xid r) ≡ total_of f r
unfolding forget
forget-total f none r = refl
forget-total f (some x) r = refl

-- One entry more for `f`, or none, with the tables of pending requests left aside.
module _ (gi : Option ℕ) (now : ℕ) (g : Relay → Relay) (r : Relays) where
  pub entry-keeps-total :
      (f : Relay → ℕ)
      → ((v : Relay) → f (g v) ≡ f v)
      → f (new_relay now) ≡ 0
      → f (dated now r.unrelayed) ≡ f r.unrelayed
      → total_of f (entry gi now g r) ≡ total_of f r
  entry-keeps-total f h z d = omega (
    arith,
    entry-total f (total_of f r) 0 gi now g r (λ v _. omega (arith, h v)) z d (omega arith),
  )

-- The totals after each operation.
module _ (gi xid : Option ℕ) (now now_ms : ℕ) (r : Relays) where
  pub request-total :
      (f : Relay → ℕ)
      → ((v : Relay) → f (note_request now v) ≡ f v)
      → f (new_relay now) ≡ 0
      → f (dated now r.unrelayed) ≡ f r.unrelayed
      → total_of f (request gi xid now now_ms r) ≡ total_of f r
  unfolding request
  request-total f h z d =
      note_pending-total f gi xid now_ms (entry gi now (note_request now) r)
      ∙ entry-keeps-total gi now (note_request now) r f h z d

  pub request-total_requests :
      total_of (λ v. v.requests) r ≤ u64_mod - 2
      → total_of (λ v. v.requests) (request gi xid now now_ms r) ≡ total_of (λ v. v.requests) r + 1
  unfolding request
  request-total_requests b =
      note_pending-total (λ v. v.requests) gi xid now_ms (entry gi now (note_request now) r)
      ∙ entry-total (λ v. v.requests) (u64_mod - 2) 1 gi now (note_request now) r
          (note_request-requests now) refl (dated_lem (λ v. v.requests) now r.unrelayed refl) b

  pub length-request-le : length (request gi xid now now_ms r).pending ≤ suc (length r.pending)
  unfolding request
  length-request-le = omega (
    arith,
    length-note_pending-le gi xid now_ms (entry gi now (note_request now) r),
    ap (λ (m : List (ℕ × Pending)). length m) (entry-pending gi now (note_request now) r),
  )

  pub reply-total :
      (f : Relay → ℕ)
      → ((v : Relay) → f (note_reply (asked xid r) now now_ms v) ≡ f v)
      → f (new_relay now) ≡ 0
      → ((v : Relay) → f (dated now v) ≡ f v)
      → total_of f (reply gi xid now now_ms r) ≡ total_of f r
  unfolding reply
  reply-total f h z d =
      entry-keeps-total (owner (asked xid r) gi) now (note_reply (asked xid r) now now_ms)
        (forget xid r) f h z (d (forget xid r).unrelayed)
      ∙ forget-total f xid r

  pub reply-total_more :
      (f : Relay → ℕ) (c : ℕ)
      → ((v : Relay) → f v ≤ u64_mod - 2 → f (note_reply (asked xid r) now now_ms v) ≡ f v + c)
      → f (new_relay now) ≡ 0
      → ((v : Relay) → f (dated now v) ≡ f v)
      → total_of f r ≤ u64_mod - 2
      → total_of f (reply gi xid now now_ms r) ≡ total_of f r + c
  unfolding reply
  reply-total_more f c h z d b = omega (
    arith,
    entry-total f (u64_mod - 2) c (owner (asked xid r) gi) now (note_reply (asked xid r) now now_ms)
        (forget xid r) h z (d (forget xid r).unrelayed) (omega (arith, forget-total f xid r)),
    forget-total f xid r,
  )

  pub length-reply-le :
      length (reply gi xid now now_ms r).pending + matched (asked xid r) ≤ length r.pending
  unfolding reply
  length-reply-le = omega (
    arith,
    length-forget xid r,
    ap (λ (m : List (ℕ × Pending)). length m)
        (entry-pending (owner (asked xid r) gi) now (note_reply (asked xid r) now now_ms)
          (forget xid r)),
  )

pub note_reply-requests :
    (p : Option Pending) (now now_ms : ℕ) (v : Relay)
    → (note_reply p now now_ms v).requests ≡ v.requests
unfolding note_reply
note_reply-requests none now now_ms v = refl
note_reply-requests (some p) now now_ms v = refl
