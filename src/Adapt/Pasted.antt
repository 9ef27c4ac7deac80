-- ===== src/Adapt/Pasted.antt =====
-- The suggestions of adapt.rs as the `per_relay` that they are pasted into.
use docsis_monitor.Order.{nat_order, list_order}
use docsis_monitor.OrdMap.{OrdMap, lookup, insert}
use docsis_monitor.Base.{
  ltb, if◌then◌else◌, All, ℕ, ◌*◌, ◌^◌, ◌<◌, min, max, ◌≡◌, Option, none, some, List, [], ◌∷◌, map,
  refl, ◌==◌, sym, arith, ==_iff, ap, ◌∙◌, Bool, true, false, Option-cases, retain, Text, inl, inr,
  Bool-cases,
}
use docsis_monitor.Adapt.Suggest.{Suggestion, suggestion, span_of, is_some, as_config}
use docsis_monitor.Relays.Rows.{Heard, heard, if_same}
use docsis_monitor.Relays.Table.{Relay}
use docsis_monitor.Config.Settings.{PerRelay, idle_seconds}
use docsis_monitor.OrdMap.Sorted.{IsSorted, IsAbove, IsAbove-trans, lookup_above}
use docsis_monitor.Ip.{dotted}
use docsis_monitor.Adapt.Thresholds.{judge-idle}
use mathlib.Core.Option.{get_or}
use docsis_monitor.Relays.Fits.{RowFits}
use docsis_monitor.Config.Relays.{idle_seconds-insert}
use docsis_monitor.Adapt.Block.{entry_of, IsWord, read_block, block_of, read_block-as_config}

-- One line of the block in `per_relay`.
unfoldable pub paste_one : ℕ → Option ℕ → PerRelay → PerRelay
paste_one gi none m = m
paste_one gi (some n) m = insert (dotted gi) (record { idle_seconds = n }) m

-- `per_relay`, once the block that `as_config` writes is in the configuration.
unfoldable pub pasted : List Suggestion → PerRelay
unfolding paste_one
pasted [] = []
pasted (s ∷ rest) = paste_one s.gi s.idle_seconds (pasted rest)

-- The threshold of a relay of which so much was heard.
abbrev pub threshold_for : Heard → Option ℕ
threshold_for h = if ltb h.requests 2 then none else some (min 86_400 (max 300 (3 * h.longest_gap)))

idle_seconds-suggestion :
    (watched_for g : ℕ) (r : Relay)
    → r.longest_gap < 2 ^ 62
    → (suggestion watched_for (g, r)).idle_seconds ≡ threshold_for (heard (some r))
unfolding suggestion
idle_seconds-suggestion watched_for g r h =
    judge-idle r.requests (span_of r) r.longest_gap watched_for h

first_or_rest :
    (b : Bool) (r : Relay) (l : Option Relay) (rest fallback : ℕ)
    → rest ≡ get_or (threshold_for (heard l)) fallback
    → (b ≡ true → l ≡ none)
    → (if b then get_or (threshold_for (heard (some r))) rest else rest)
      ≡ get_or (threshold_for (heard (if b then some r else l))) fallback
first_or_rest true r l rest fallback e once =
    ap (get_or (threshold_for (heard (some r))))
      (e ∙ ap (λ (o : Option Relay). get_or (threshold_for (heard o)) fallback) (once refl))
first_or_rest false r l rest fallback e once = e

-- A key stands once.
lookup_rest : (g j : ℕ) (m : OrdMap ℕ Relay) → IsAbove j m → (g == j) ≡ true → lookup g m ≡ none
lookup_rest g j m a e = rw ((==_iff g j).0 e) (lookup_above j m a)

abbrev pub AreRows : OrdMap ℕ Relay → Type 0
AreRows m = All (RowFits (2 ^ 62)) m

idle_seconds-paste_one :
    (j g fallback : ℕ) (o : Option ℕ) (m : PerRelay)
    → j < 2 ^ 32
    → g < 2 ^ 32
    → idle_seconds (paste_one j o m) g fallback
      ≡ (if g == j then get_or o (idle_seconds m g fallback) else idle_seconds m g fallback)
unfolding paste_one
idle_seconds-paste_one j g fallback none m h k = sym (if_same (g == j) _ _ refl)
idle_seconds-paste_one j g fallback (some n) m h k =
    idle_seconds-insert m j g fallback (record { idle_seconds = n }) h k

-- The first entry of a sorted map, or the rest; and the first key is not in the rest.
lookup_head :
    (g j : ℕ) (r : Relay) (m : OrdMap ℕ Relay)
    → IsAbove j m
    → lookup g ((j, r) ∷ m) ≡ (if g == j then some r else lookup g m)
unfolding lookup
lookup_head g j r m a = ground (
  arith,
  nat_order.eq_of_order g j,
  nat_order.order_self j,
  IsAbove-trans g j m,
  lookup_above g m,
)

pasted-row :
    (watched_for j : ℕ) (r : Relay) (m : OrdMap ℕ Relay)
    → r.longest_gap < 2 ^ 62
    → pasted (map (suggestion watched_for) ((j, r) ∷ m))
      ≡ paste_one j (threshold_for (heard (some r))) (pasted (map (suggestion watched_for) m))
unfolding pasted suggestion
pasted-row watched_for j r m h = λ i.
    paste_one j (idle_seconds-suggestion watched_for j r h i)
      (pasted (map (suggestion watched_for) m))

-- What an interface is allowed by the pasted block.
pub idle_seconds-pasted :
    (watched_for g fallback : ℕ) (m : OrdMap ℕ Relay)
    → g < 2 ^ 32
    → IsSorted m
    → AreRows m
    → idle_seconds (pasted (map (suggestion watched_for) m)) g fallback
      ≡ get_or (threshold_for (heard (lookup g m))) fallback
idle_seconds-pasted watched_for g fallback [] word s rows =
    unfold pasted idle_seconds lookup in refl
idle_seconds-pasted watched_for g fallback ((j, r) ∷ m) word s rows =
    let ih = idle_seconds-pasted watched_for g fallback m word s.1 rows.1 in
    let later = pasted (map (suggestion watched_for) m) in
    ap (λ (p : PerRelay). idle_seconds p g fallback) (pasted-row watched_for j r m rows.0.1)
    ∙ (idle_seconds-paste_one j g fallback (threshold_for (heard (some r))) later rows.0.0 word
        ∙ (first_or_rest (g == j) r (lookup g m) (idle_seconds later g fallback) fallback ih
              (lookup_rest g j m s.0)
            ∙ ap (λ (o : Option Relay). get_or (threshold_for (heard o)) fallback)
                (sym (lookup_head g j r m s.0))))

-- `per_relay` as it is read from a block, which has no key twice; without a block it is empty.
unfoldable pub inserted : List (Text × ℕ) → PerRelay
inserted [] = []
inserted ((key, n) ∷ rest) = insert key (record { idle_seconds = n }) (inserted rest)

abbrev pub per_relay_of : Option (List (Text × ℕ)) → PerRelay
per_relay_of none = []
per_relay_of (some es) = inserted es

pasted-retain :
    (all : List Suggestion)
    → pasted all ≡ inserted (map entry_of (retain (λ (s : Suggestion). is_some s.idle_seconds) all))
unfolding pasted inserted paste_one retain
pasted-retain [] = refl
pasted-retain (s ∷ rest) = elim (Option-cases s.idle_seconds) [
  | inl nothing ↦ rw nothing (pasted-retain rest)
  | inr (n, e) ↦ rw e (ap (insert (dotted s.gi) (record { idle_seconds = n })) (pasted-retain rest))
]

retain-AreWords :
    (p : Suggestion → Bool) (all : List Suggestion) → All IsWord all → All IsWord (retain p all)
unfolding retain
retain-AreWords p [] words = tt
retain-AreWords p (s ∷ rest) words = elim (Bool-cases (p s)) [
  | inl passes ↦ rw passes (words.0, retain-AreWords p rest words.1)
  | inr fails ↦ rw fails (retain-AreWords p rest words.1)
]

no_block : per_relay_of (read_block (block_of [])) ≡ []
unfolding read_block
no_block = refl

-- What is read from the printed block is `pasted`.
pub read_block-pasted :
    (all : List Suggestion)
    → All IsWord all
    → per_relay_of (read_block (as_config all)) ≡ pasted all
unfolding as_config inserted
read_block-pasted all words =
    let kept = retain (λ (s : Suggestion). is_some s.idle_seconds) all in
    go kept refl (retain-AreWords (λ (s : Suggestion). is_some s.idle_seconds) all words)
    ∙ sym (pasted-retain all)
  where
    go :
        (l : List Suggestion)
        → retain (λ (s : Suggestion). is_some s.idle_seconds) all ≡ l
        → All IsWord l
        → per_relay_of (read_block (as_config all))
          ≡ inserted (map entry_of (retain (λ (s : Suggestion). is_some s.idle_seconds) all))
    go [] e w =
        ap (λ (l : List Suggestion). per_relay_of (read_block (block_of l))) e
        ∙ (no_block ∙ ap (λ (l : List Suggestion). inserted (map entry_of l)) (sym e))
    go (s ∷ rest) e w =
        ap per_relay_of (read_block-as_config all s rest e w)
        ∙ ap (λ (l : List Suggestion). inserted (map entry_of l)) (sym e)

idle_seconds-IsWord :
    (watched_for g : ℕ) (r : Relay)
    → r.longest_gap < 2 ^ 62
    → IsWord (suggestion watched_for (g, r))
idle_seconds-IsWord watched_for g r h =
    rw (idle_seconds-suggestion watched_for g r h) (ground arith)

pub suggestion-AreWords :
    (watched_for : ℕ) (m : OrdMap ℕ Relay) → AreRows m → All IsWord (map (suggestion watched_for) m)
suggestion-AreWords watched_for [] rows = tt
suggestion-AreWords watched_for ((j, r) ∷ m) rows =
    (idle_seconds-IsWord watched_for j r rows.0.1, suggestion-AreWords watched_for m rows.1)
