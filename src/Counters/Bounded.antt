-- ===== src/Counters/Bounded.antt =====
-- The memory of counters.rs: one bucket a second, and none older than the window.
use docsis_monitor.Counters.Window.{Bucket, add_bucket, Counters, add, new}
use docsis_monitor.Base.{
  ltb, tests, Bool-cases, length, All, retain, ℕ, ◌-◌, ◌≤◌, ◌<◌, max, inl, inr, Bool, List, [], ◌∷◌,
  arith, ◌≡◌, refl,
}
use docsis_monitor.Counters.History.{Packet, replay, IsOrdered}
use docsis_monitor.Counters.Flow.{slot}

-- Every bucket is later than `low`, and each later than the one before it.
abbrev IsAscending : ℕ → List Bucket → Type 0
IsAscending low [] = Unit {0}
IsAscending low (b ∷ bs) = (low < b.at) × IsAscending b.at bs

abbrev AreUntil : ℕ → List Bucket → Type 0
AreUntil now bs = All (λ (b : Bucket). b.at ≤ now) bs

IsAscending-weaken :
    (low low' : ℕ) (bs : List Bucket) → low' ≤ low → IsAscending low bs → IsAscending low' bs
IsAscending-weaken low low' [] h a = tt
IsAscending-weaken low low' (b ∷ bs) h a = (omega arith, a.1)

-- Ascending seconds between `low` and `now` are no more than there are seconds.
length-ascending-le :
    (low now : ℕ) (bs : List Bucket)
    → IsAscending low bs
    → AreUntil now bs
    → low ≤ now
    → length bs ≤ now - low
length-ascending-le low now [] a u h = omega arith
length-ascending-le low now (b ∷ bs) a u h =
    omega (arith, length-ascending-le b.at now bs a.1 u.1 u.0)

-- What `retain` leaves is ascending from the cut on.
retain-IsAscending :
    (low cut : ℕ) (bs : List Bucket)
    → IsAscending low bs
    → IsAscending (max low cut) (retain (λ (b : Bucket). ltb cut b.at) bs)
unfolding retain
retain-IsAscending low cut [] a = tt
retain-IsAscending low cut (b ∷ bs) a = elim (Bool-cases (ltb cut b.at)) [
  | inl later ↦ rw later (
    omega (tests, later),
    IsAscending-weaken (max b.at cut) b.at _ (omega arith) (retain-IsAscending b.at cut bs a.1),
  )
  | inr old ↦ rw old (
      IsAscending-weaken (max b.at cut) (max low cut) _ (ground arith)
        (retain-IsAscending b.at cut bs a.1))
]

retain-AreUntil :
    (now : ℕ) (p : Bucket → Bool) (bs : List Bucket) → AreUntil now bs → AreUntil now (retain p bs)
unfolding retain
retain-AreUntil now p [] u = tt
retain-AreUntil now p (b ∷ bs) u = ground (arith, retain-AreUntil now p bs)

add_bucket-IsAscending :
    (low now i : ℕ) (bs : List Bucket)
    → low < now
    → IsAscending low bs
    → AreUntil now bs
    → IsAscending low (add_bucket now i bs) × AreUntil now (add_bucket now i bs)
unfolding add_bucket
add_bucket-IsAscending low now i [] h a u = ((h, tt), (omega arith, tt))
add_bucket-IsAscending low now i (b ∷ []) h a u = ground arith
add_bucket-IsAscending low now i (b ∷ b' ∷ bs) h a u =
    let (rest, until) = add_bucket-IsAscending b.at now i (b' ∷ bs) (omega arith) a.1 u.1 in
    ((a.0, rest), (u.0, until))

-- No packet came in the first second of 1970, which is what a clock that cannot be read says.
abbrev pub IsDated : List Packet → Type 0
IsDated h = All (λ (p : Packet). 0 < p.at) h

record IsBounded (w now : ℕ) (c : Counters) : Type 0 where
  same_window : c.window ≡ max w 1
  ascending : IsAscending (now - max w 1) c.buckets
  until : AreUntil now c.buckets

AreUntil-weaken :
    (now now' : ℕ) (bs : List Bucket) → now ≤ now' → AreUntil now bs → AreUntil now' bs
AreUntil-weaken now now' [] h u = tt
AreUntil-weaken now now' (b ∷ bs) h u = (omega arith, AreUntil-weaken now now' bs h u.1)

add-IsBounded :
    (w last : ℕ) (p : Packet) (c : Counters)
    → last ≤ p.at
    → 0 < p.at
    → IsBounded w last c
    → IsBounded w p.at (add p.kind p.flow p.at c)
unfolding add
add-IsBounded w last p c h z t =
    let cut = p.at - c.window in
    let kept = retain (λ (b : Bucket). ltb cut b.at) c.buckets in
    let (a, u) =
      add_bucket-IsAscending (p.at - max w 1) p.at (slot p.kind) kept (omega arith)
        (IsAscending-weaken (max (last - max w 1) cut) (p.at - max w 1) kept
          (omega (arith, t.same_window))
          (retain-IsAscending (last - max w 1) cut c.buckets t.ascending))
        (retain-AreUntil p.at (λ (b : Bucket). ltb cut b.at) c.buckets
          (AreUntil-weaken last p.at c.buckets h t.until)) in
    record { same_window = t.same_window; ascending = a; until = u }

replay-IsBounded :
    (w : ℕ) (h : List Packet) (last : ℕ)
    → IsOrdered last h
    → IsDated h
    → (now : ℕ) × (now ≤ last) × IsBounded w now (replay w h)
unfolding replay new
replay-IsBounded w [] last o d =
    (0, omega arith, record { same_window = refl; ascending = tt; until = tt })
replay-IsBounded w (p ∷ h) last o d =
    let (now, before, t) = replay-IsBounded w h p.at o.1 d.1 in
    (p.at, o.0, add-IsBounded w now p (replay w h) before d.0 t)

-- However many packets come, in the order of time, no more buckets are kept than the window has
-- seconds.
pub length-replay-buckets-le :
    (w now : ℕ) (h : List Packet)
    → IsOrdered now h
    → IsDated h
    → length (replay w h).buckets ≤ max w 1
length-replay-buckets-le w now h o d =
    let (last, _, t) = replay-IsBounded w h now o d in
    omega (
      arith,
      length-ascending-le (last - max w 1) last (replay w h).buckets t.ascending t.until
          (omega arith),
    )
