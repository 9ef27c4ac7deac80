-- ===== src/Counters/Buckets.antt =====
-- The buckets of counters.rs, kind by kind: what adding a packet, expiring and summing do to them.
use docsis_monitor.Counters.Flow.{Counts, no_counts, slot, bump}
use docsis_monitor.Counters.Window.{Bucket, add_bucket, sum_buckets, add_counts}
use docsis_monitor.Counters.History.{same_kind}
use docsis_monitor.Packet.Classify.{Kind}
use docsis_monitor.Base.{
  u64_mod, ltb, if◌then◌else◌, retain, ℕ, ◌+◌, ◌-◌, ◌≤◌, ◌≡◌, refl, Bool, List, [], ◌∷◌, arith, ◌<◌,
}

-- One kind's count of a bucket, over the buckets after a second, and over all.
abbrev pub of_kind : Kind → Counts → ℕ
of_kind Kind.client_request c = c.c0
of_kind Kind.server_reply c = c.c1
of_kind Kind.tftp_request c = c.c2
of_kind Kind.tftp_reply c = c.c3

abbrev pub sum_after : Kind → ℕ → List Bucket → ℕ
sum_after k cut [] = 0
sum_after k cut (b ∷ bs) = (if ltb cut b.at then of_kind k b.counts else 0) + sum_after k cut bs

abbrev pub sum_all : Kind → List Bucket → ℕ
sum_all k [] = 0
sum_all k (b ∷ bs) = of_kind k b.counts + sum_all k bs

pub of_kind-bump :
    (k k' : Kind) (c : Counts)
    → of_kind k' c ≤ u64_mod - 2
    → of_kind k (bump (slot k') c) ≡ of_kind k c + same_kind k k'
unfolding slot
of_kind-bump Kind.client_request k' c h = ground arith
of_kind-bump Kind.server_reply k' c h = ground arith
of_kind-bump k k' c h = ground arith

pub of_kind-bump_none : (k k' : Kind) → of_kind k (bump (slot k') no_counts) ≡ same_kind k k'
of_kind-bump_none Kind.client_request k' =
    ground (arith, of_kind-bump Kind.client_request k' no_counts)
of_kind-bump_none k k' = ground (arith, of_kind-bump k k' no_counts)

pub sum_after-retain :
    (k : Kind) (cut cut' : ℕ) (bs : List Bucket)
    → cut' ≤ cut
    → sum_after k cut (retain (λ (b : Bucket). ltb cut' b.at) bs) ≡ sum_after k cut bs
unfolding retain
sum_after-retain k cut cut' [] h = refl
sum_after-retain k cut cut' (b ∷ bs) h = ground (arith, sum_after-retain k cut cut' bs h)

pub sum_all-retain-le :
    (k : Kind) (p : Bucket → Bool) (bs : List Bucket) → sum_all k (retain p bs) ≤ sum_all k bs
unfolding retain
sum_all-retain-le k p [] = omega arith
sum_all-retain-le k p (b ∷ bs) = ground (arith, sum_all-retain-le k p bs)

pub sum_after-add_bucket :
    (k k' : Kind) (cut now : ℕ) (bs : List Bucket)
    → sum_all k' bs ≤ u64_mod - 2
    → sum_after k cut (add_bucket now (slot k') bs)
      ≡ sum_after k cut bs + (if ltb cut now then same_kind k k' else 0)
unfolding add_bucket
sum_after-add_bucket k k' cut now [] h = ground (arith, of_kind-bump_none k k')
sum_after-add_bucket k k' cut now (b ∷ []) h =
    ground (arith, of_kind-bump_none k k', of_kind-bump k k' b.counts (omega arith))
sum_after-add_bucket k k' cut now (b ∷ b' ∷ bs) h =
    omega (arith, sum_after-add_bucket k k' cut now (b' ∷ bs) (omega arith))

pub sum_all-add_bucket :
    (k k' : Kind) (now : ℕ) (bs : List Bucket)
    → sum_all k' bs ≤ u64_mod - 2
    → sum_all k (add_bucket now (slot k') bs) ≡ sum_all k bs + same_kind k k'
unfolding add_bucket
sum_all-add_bucket k k' now [] h = ground (arith, of_kind-bump_none k k')
sum_all-add_bucket k k' now (b ∷ []) h =
    ground (arith, of_kind-bump_none k k', of_kind-bump k k' b.counts (omega arith))
sum_all-add_bucket k k' now (b ∷ b' ∷ bs) h =
    omega (arith, sum_all-add_bucket k k' now (b' ∷ bs) (omega arith))

pub of_kind-sum_buckets :
    (k : Kind) (acc : Counts) (bs : List Bucket)
    → of_kind k acc + sum_all k bs < u64_mod
    → of_kind k (sum_buckets acc bs) ≡ of_kind k acc + sum_all k bs
unfolding sum_buckets
of_kind-sum_buckets k acc [] h = omega arith
of_kind-sum_buckets Kind.client_request acc (b ∷ bs) h =
    omega
      (arith, of_kind-sum_buckets Kind.client_request (add_counts acc b.counts) bs (omega arith))
of_kind-sum_buckets Kind.server_reply acc (b ∷ bs) h =
    omega (arith, of_kind-sum_buckets Kind.server_reply (add_counts acc b.counts) bs (omega arith))
of_kind-sum_buckets Kind.tftp_request acc (b ∷ bs) h =
    omega (arith, of_kind-sum_buckets Kind.tftp_request (add_counts acc b.counts) bs (omega arith))
of_kind-sum_buckets Kind.tftp_reply acc (b ∷ bs) h =
    omega (arith, of_kind-sum_buckets Kind.tftp_reply (add_counts acc b.counts) bs (omega arith))

pub sum_all-retain :
    (k : Kind) (cut : ℕ) (bs : List Bucket)
    → sum_all k (retain (λ (b : Bucket). ltb cut b.at) bs) ≡ sum_after k cut bs
unfolding retain
sum_all-retain k cut [] = refl
sum_all-retain k cut (b ∷ bs) = ground (arith, sum_all-retain k cut bs)
