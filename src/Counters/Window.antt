-- ===== src/Counters/Window.antt =====
-- counters.rs: the sliding window of one-second buckets, and its operations.
use docsis_monitor.Counters.Flow.{Flow, Counts, no_counts, slot, bump, Dest, no_dest, flow_order}
use docsis_monitor.OrdMap.{OrdMap, upsert, retain_values}
use docsis_monitor.Packet.Classify.{Kind}
use docsis_monitor.Float.{Floats}
use docsis_monitor.Base.{add64, ltb, if◌then◌else◌, retain, ◌==◌, ℕ, ◌-◌, max, List, [], ◌∷◌}

-- `struct Bucket`.
pub record Bucket : Type 0 where
  pub at : ℕ
  pub counts : Counts

-- `struct Counters`.
pub record Counters : Type 0 where
  pub window : ℕ
  pub buckets : List Bucket
  pub flows : OrdMap Flow Dest
  pub total : Counts

-- `struct Window`.
pub record Window : Type 0 where
  pub requests : ℕ
  pub replies : ℕ
  pub tftp_reads : ℕ
  pub tftp_sends : ℕ

abbrev pub window_of : Counts → Window
window_of c = record { requests = c.c0; replies = c.c1; tftp_reads = c.c2; tftp_sends = c.c3 }

module _ (f : Floats) where
  open f use {F, of_u64, div}

  unfoldable pub answered : Window → F
  answered w = if w.requests == 0 then of_u64 0 else div (of_u64 w.replies) (of_u64 w.requests)

unfoldable pub new : ℕ → Counters
new window = record { window = max window 1; buckets = []; flows = []; total = no_counts }

unfoldable pub expire : ℕ → Counters → Counters
expire now c = record c {
  buckets = retain (λ (b : Bucket). ltb (now - c.window) b.at) c.buckets;
  flows = retain_values (λ (d : Dest). ltb (now - c.window) d.last) c.flows;
}

-- The match of `add` on `buckets.last_mut()`: the last bucket counts the packet if it is of this
-- second, and a new one is pushed otherwise.
unfoldable pub add_bucket : ℕ → ℕ → List Bucket → List Bucket
add_bucket now i [] = record { at = now; counts = bump i no_counts } ∷ []
add_bucket now i (b ∷ []) =
    if b.at == now
    then record b { counts = bump i b.counts } ∷ []
    else b ∷ record { at = now; counts = bump i no_counts } ∷ []
add_bucket now i (b ∷ b' ∷ bs) = b ∷ add_bucket now i (b' ∷ bs)

-- What `add` does to the entry of the flow.
abbrev pub note_dest : ℕ → ℕ → Dest → Dest
note_dest now i d = record { counts = bump i d.counts; last = now }

unfoldable pub add : Kind → Flow → ℕ → Counters → Counters
unfolding expire add_bucket slot
add kind flow now c =
    let e = expire now c in
    record e {
      buckets = add_bucket now (slot kind) e.buckets;
      flows = upsert flow no_dest (note_dest now (slot kind)) e.flows;
      total = bump (slot kind) e.total;
    }

-- The inner loop of `window`.
abbrev pub add_counts : Counts → Counts → Counts
add_counts a b = record {
  c0 = add64 a.c0 b.c0;
  c1 = add64 a.c1 b.c1;
  c2 = add64 a.c2 b.c2;
  c3 = add64 a.c3 b.c3;
}

-- The outer loop of `window`.
unfoldable pub sum_buckets : Counts → List Bucket → Counts
sum_buckets sum [] = sum
sum_buckets sum (b ∷ bs) = sum_buckets (add_counts sum b.counts) bs

unfoldable pub window : ℕ → Counters → Counters × Window
unfolding expire sum_buckets
window now c = let e = expire now c in (e, window_of (sum_buckets no_counts e.buckets))

unfoldable pub total : Counters → Window
total c = window_of c.total
