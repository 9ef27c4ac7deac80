-- ===== src/Counters/Counted.antt =====
-- The sliding window of counters.rs against the history: `window` answers exactly how many packets
-- of each kind came in the last `window` seconds.
use docsis_monitor.Counters.Flow.{no_counts}
use docsis_monitor.Counters.Window.{
  Bucket, add, sum_buckets, window, Counters, Window, total, expire,
}
use docsis_monitor.Counters.History.{
  Packet, replay, IsOrdered, count_after, count_all-le-length, count_all,
}
use docsis_monitor.Packet.Classify.{Kind}
use docsis_monitor.Base.{
  u64_mod, ltb, retain, ℕ, ◌-◌, ◌≤◌, ◌≡◌, refl, Bool, List, [], ◌∷◌, arith, length, ◌<◌, max, ap,
}
use docsis_monitor.Counters.Buckets.{
  sum_after, sum_all, of_kind, sum_after-retain, sum_all-retain-le, of_kind-sum_buckets,
  sum_after-add_bucket, sum_all-retain, sum_all-add_bucket, of_kind-bump,
}

-- The counters agree with the history on every second that the window can still reach.
pub record IsCounted (w now : ℕ) (h : List Packet) (c : Counters) : Type 0 where
  pub same_window : c.window ≡ max w 1
  sums :
      (k : Kind) (cut : ℕ) → now - max w 1 ≤ cut → sum_after k cut c.buckets ≡ count_after k cut h
  bounded : (k : Kind) → sum_all k c.buckets ≤ count_all k h
  totals : (k : Kind) → of_kind k c.total ≡ count_all k h

pub add-IsCounted :
    (w : ℕ) (p : Packet) (h : List Packet) (c : Counters)
    → length h ≤ u64_mod - 2
    → IsCounted w p.at h c
    → IsCounted w p.at (p ∷ h) (add p.kind p.flow p.at c)
unfolding add
add-IsCounted w p h c room t = record {
  same_window = t.same_window;
  sums = λ k cut reach. omega (
    arith,
    sum_after-add_bucket k p.kind cut p.at kept (small p.kind),
    sum_after-retain k cut (p.at - c.window) c.buckets (omega (arith, t.same_window)),
    t.sums k cut reach,
  );
  bounded = λ k. omega (
    arith,
    sum_all-add_bucket k p.kind p.at kept (small p.kind),
    sum_all-retain-le k recent c.buckets,
    t.bounded k,
  );
  totals = λ k. omega (
    arith,
    of_kind-bump k p.kind c.total (omega (arith, t.totals p.kind, count_all-le-length p.kind h)),
    t.totals k,
  );
}
  where
    recent : Bucket → Bool
    recent b = ltb (p.at - c.window) b.at

    kept : List Bucket
    kept = retain recent c.buckets

    small : (k : Kind) → sum_all k kept ≤ u64_mod - 2
    small k =
        omega (arith, sum_all-retain-le k recent c.buckets, t.bounded k, count_all-le-length k h)

pub later-IsCounted :
    (w now now' : ℕ) (h : List Packet) (c : Counters)
    → now ≤ now'
    → IsCounted w now h c
    → IsCounted w now' h c
later-IsCounted w now now' h c later t = record {
  same_window = t.same_window;
  sums = λ k cut reach. t.sums k cut (omega arith);
  bounded = t.bounded;
  totals = t.totals;
}

pub replay-IsCounted :
    (w now : ℕ) (h : List Packet)
    → IsOrdered now h
    → length h < u64_mod
    → IsCounted w now h (replay w h)
unfolding replay
replay-IsCounted w now [] o room = record {
  same_window = refl;
  sums = λ k cut reach. refl;
  bounded = λ k. omega arith;
  totals = nothing_yet;
}
  where
    nothing_yet : (k : Kind) → of_kind k no_counts ≡ 0
    nothing_yet k = ground arith
replay-IsCounted w now (p ∷ h) o room =
    let t =
      add-IsCounted w p h (replay w h) (omega arith)
        (replay-IsCounted w p.at h o.1 (omega arith)) in
    record {
      same_window = t.same_window;
      sums = λ k cut reach. t.sums k cut (omega arith);
      bounded = t.bounded;
      totals = t.totals;
    }

-- The window of a history, as of `now`.
abbrev pub window_spec : ℕ → List Packet → Window
window_spec cut h = record {
  requests = count_after Kind.client_request cut h;
  replies = count_after Kind.server_reply cut h;
  tftp_reads = count_after Kind.tftp_request cut h;
  tftp_sends = count_after Kind.tftp_reply cut h;
}

abbrev pub total_spec : List Packet → Window
total_spec h = record {
  requests = count_all Kind.client_request h;
  replies = count_all Kind.server_reply h;
  tftp_reads = count_all Kind.tftp_request h;
  tftp_sends = count_all Kind.tftp_reply h;
}

-- What the counters answer, and what is left of them, as of a later time.
pub expire-IsCounted :
    (w now now' : ℕ) (h : List Packet) (c : Counters)
    → now ≤ now'
    → IsCounted w now h c
    → IsCounted w now' h (expire now' c)
unfolding expire
expire-IsCounted w now now' h c later t = record {
  same_window = t.same_window;
  sums = λ k cut reach. omega (
    arith,
    sum_after-retain k cut (now' - c.window) c.buckets (omega (arith, t.same_window)),
    t.sums k cut (omega arith),
  );
  bounded = λ k. omega (
    arith,
    sum_all-retain-le k (λ (b : Bucket). ltb (now' - c.window) b.at) c.buckets,
    t.bounded k,
  );
  totals = t.totals;
}

of_kind-none : (k : Kind) → of_kind k no_counts ≡ 0
of_kind-none k = ground arith

-- The sum of the buckets that are left is the count of the history.
of_kind-window :
    (w now now' : ℕ) (h : List Packet) (c : Counters) (k : Kind)
    → now ≤ now'
    → length h < u64_mod
    → IsCounted w now h c
    → of_kind k (sum_buckets no_counts (expire now' c).buckets) ≡ count_after k (now' - max w 1) h
unfolding expire
of_kind-window w now now' h c k later room t =
    let recent = λ (b : Bucket). ltb (now' - c.window) b.at in
    omega (
      arith,
      of_kind-sum_buckets k no_counts (retain recent c.buckets) (
          omega (
            arith,
            of_kind-none k,
            sum_all-retain-le k recent c.buckets,
            t.bounded k,
            count_all-le-length k h,
          )),
      of_kind-none k,
      sum_all-retain k (now' - c.window) c.buckets,
      t.sums k (now' - c.window) (omega (arith, t.same_window)),
      ap (λ (n : ℕ). count_after k (now' - n) h) t.same_window,
    )

pub window-IsCounted :
    (w now now' : ℕ) (h : List Packet) (c : Counters)
    → now ≤ now'
    → length h < u64_mod
    → IsCounted w now h c
    → (window now' c).1 ≡ window_spec (now' - max w 1) h
unfolding window
window-IsCounted w now now' h c later room t = λ i. record {
  requests = of_kind-window w now now' h c Kind.client_request later room t i;
  replies = of_kind-window w now now' h c Kind.server_reply later room t i;
  tftp_reads = of_kind-window w now now' h c Kind.tftp_request later room t i;
  tftp_sends = of_kind-window w now now' h c Kind.tftp_reply later room t i;
}

pub total-IsCounted :
    (w now : ℕ) (h : List Packet) (c : Counters) → IsCounted w now h c → total c ≡ total_spec h
unfolding total
total-IsCounted w now h c t = λ i. record {
  requests = t.totals Kind.client_request i;
  replies = t.totals Kind.server_reply i;
  tftp_reads = t.totals Kind.tftp_request i;
  tftp_sends = t.totals Kind.tftp_reply i;
}

-- For any packets in the order of time, fewer than 2^64, the window answers exactly how many of
-- each kind came in the last `w` seconds (one second, if `w` is 0) before `now`, also after a
-- silence; and the totals are those of all packets.
pub window-replay :
    (w now : ℕ) (h : List Packet)
    → IsOrdered now h
    → length h < u64_mod
    → ((window now (replay w h)).1 ≡ window_spec (now - max w 1) h)
      × (total (replay w h) ≡ total_spec h)
window-replay w now h o room =
    let t = replay-IsCounted w now h o room in
    (
      window-IsCounted w now now h (replay w h) (omega arith) room t,
      total-IsCounted w now h (replay w h) t,
    )
