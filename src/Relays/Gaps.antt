-- ===== src/Relays/Gaps.antt =====
-- The longest silence of relays.rs, against the times of the requests.
use docsis_monitor.Relays.Table.{Relay, new_relay, note_request, idle_for}
use docsis_monitor.Base.{ℕ, ◌-◌, max, ◌≡◌, refl, some, List, [], ◌∷◌, arith}

-- The longest difference between one time and the next.
abbrev pub longest_difference : ℕ → List ℕ → ℕ
longest_difference previous [] = 0
longest_difference previous (t ∷ ts) = max (t - previous) (longest_difference t ts)

abbrev pub latest : ℕ → List ℕ → ℕ
latest t [] = t
latest t (u ∷ ts) = latest u ts

-- The row after requests at some times, in order.
unfoldable pub noted : List ℕ → Relay → Relay
unfolding note_request
noted [] v = v
noted (t ∷ ts) v = noted ts (note_request t v)

noted_from :
    (t : ℕ) (ts : List ℕ) (v : Relay)
    → v.last_request ≡ some t
    → ((noted ts v).longest_gap ≡ max v.longest_gap (longest_difference t ts))
      × ((noted ts v).last_request ≡ some (latest t ts))
unfolding noted
noted_from t [] v h = (omega arith, h)
noted_from t (u ∷ ts) v h = ground (arith, noted_from u ts (note_request u v))

-- A row remembers exactly the longest silence between two requests in a row, and how long it has
-- been silent is measured from the latest of them.
pub noted-longest_gap :
    (first_seen t : ℕ) (ts : List ℕ) (now : ℕ)
    → ((noted (t ∷ ts) (new_relay first_seen)).longest_gap ≡ longest_difference t ts)
      × (idle_for (noted (t ∷ ts) (new_relay first_seen)) now ≡ some (now - latest t ts))
unfolding noted idle_for
noted-longest_gap first_seen t ts now =
    ground (arith, noted_from t ts (note_request t (new_relay first_seen)) refl)
