-- ===== src/Snmp/Groups.antt =====
-- Base-128 groups and object identifiers of snmp.rs are read back.
use docsis_monitor.Base.{
  add64, mul64, shr, low_bits, ltb, Bool-cases, get_elem?, drop, All, ℕ, zero, suc, ◌+◌, ◌-◌, ◌*◌,
  ◌/◌, ◌^◌, ◌≤◌, ◌<◌, min, ◌≡◌, refl, ap, ◌∙◌, ◌⊎◌, inl, inr, List, [], ◌∷◌, ◌++◌, arith,
}
use docsis_monitor.Snmp.Ber.{base128_rounds, base128, arcs_bytes}
use docsis_monitor.Snmp.Reader.{read_groups, read_oid, split_first}
use mathlib.Core.Path.{ap₂}
use mathlib.Core.Option.{get_or}

base128_rounds-append :
    (n v : ℕ) (out rest : List ℕ)
    → base128_rounds n v out ++ rest ≡ base128_rounds n v (out ++ rest)
unfolding base128_rounds
base128_rounds-append zero v out rest = refl
base128_rounds-append (suc n) v out rest =
    ground (arith, base128_rounds-append n (shr v 7) ((low_bits v 7 + 0x80) ∷ out) rest)

group_low : (v : ℕ) → shr v 7 * 128 + low_bits v 7 ≡ v
group_low v = omega arith

read_groups-goes_on :
    (acc g : ℕ) (out : List ℕ)
    → g < 128
    → read_groups acc ((g + 0x80) ∷ out) ≡ read_groups (acc * 128 + g) out
read_groups-goes_on acc g out h = ground arith

same_groups : (a b : ℕ) (out : List ℕ) → a ≡ b → read_groups a out ≡ read_groups b out
same_groups a b out h = ap (λ (k : ℕ). read_groups k out) h

-- Where the rounds are enough, reading the groups brings `v` to what stands behind them.
read_groups-base128_rounds :
    (n v : ℕ) (out : List ℕ)
    → v < 128 ^ n
    → read_groups 0 (base128_rounds n v out) ≡ read_groups v out
unfolding base128_rounds
read_groups-base128_rounds zero v out h = same_groups 0 v out (omega arith)
read_groups-base128_rounds (suc n) v out h = elim (Bool-cases (ltb 0 v)) [
  | inl some_left ↦ rw some_left (
      read_groups-base128_rounds n (shr v 7) ((low_bits v 7 + 0x80) ∷ out) (omega arith)
      ∙ read_groups-goes_on (shr v 7) (low_bits v 7) out (omega arith)
      ∙ ap (λ (k : ℕ). read_groups k out) (group_low v))
  | inr none_left ↦ rw none_left (same_groups 0 v out (ground arith))
]

-- The groups of a number are read back, whatever follows them.
pub read_groups-base128 :
    (v : ℕ) (rest : List ℕ)
    → v < 2 ^ 64
    → read_groups 0 (base128 v ++ rest) ≡ v ∷ read_groups 0 rest
unfolding base128
read_groups-base128 v rest h =
    ap (read_groups 0) (base128_rounds-append 9 (shr v 7) (low_bits v 7 ∷ []) rest)
    ∙ read_groups-base128_rounds 9 (shr v 7) (low_bits v 7 ∷ rest) (omega arith)
    ∙ last_group v rest
  where
    last_group :
        (v : ℕ) (rest : List ℕ)
        → read_groups (shr v 7) (low_bits v 7 ∷ rest) ≡ v ∷ read_groups 0 rest
    last_group v rest = ground (arith, group_low v)

abbrev pub IsArcs : List ℕ → Type 0
IsArcs arcs = All (λ (a : ℕ). a < 2 ^ 64) arcs

read_groups-arcs_bytes : (arcs : List ℕ) → IsArcs arcs → read_groups 0 (arcs_bytes arcs) ≡ arcs
unfolding arcs_bytes
read_groups-arcs_bytes [] h = refl
read_groups-arcs_bytes (a ∷ arcs) h =
    read_groups-base128 a (arcs_bytes arcs) h.0 ∙ ap (◌∷◌ a) (read_groups-arcs_bytes arcs h.1)

-- An object identifier has a first arc up to 2, and below 2 a second arc below 40.
abbrev pub IsOid : List ℕ → Type 0
IsOid [] = ⊥
IsOid (a ∷ []) = ⊥
IsOid (a ∷ b ∷ arcs) = (a ≤ 2) × (((b < 40) ⊎ (a ≡ 2)) × ((b < 2 ^ 64 - 80) × IsArcs arcs))

-- The body of `oid`.
abbrev pub oid_body : List ℕ → List ℕ
oid_body arcs =
    base128 (add64 (mul64 (get_or (get_elem? arcs 0) 0) 40) (get_or (get_elem? arcs 1) 0))
    ++ arcs_bytes (drop 2 arcs)

first_two :
    (a b : ℕ) (arcs : List ℕ) (n : ℕ)
    → a ≤ 2
    → (b < 40) ⊎ (a ≡ 2)
    → n ≡ a * 40 + b
    → ◌≡◌ {A = List ℕ} (min (n / 40) 2 ∷ (n - 40 * min (n / 40) 2) ∷ arcs) (a ∷ b ∷ arcs)
first_two a b arcs n h k e = ap₂ (λ (x y : ℕ). x ∷ y ∷ arcs) (omega arith) (omega arith)

-- An object identifier is read back.
pub read_oid-oid_body : (arcs : List ℕ) → IsOid arcs → read_oid (oid_body arcs) ≡ arcs
read_oid-oid_body [] h = absurd h
read_oid-oid_body (a ∷ []) h = absurd h
read_oid-oid_body (a ∷ b ∷ arcs) h =
    let n = add64 (mul64 a 40) b in
    ap split_first (
      read_groups-base128 n (arcs_bytes arcs) (omega arith)
      ∙ ap (◌∷◌ n) (read_groups-arcs_bytes arcs h.1.1.1))
    ∙ first_two a b arcs n h.0 h.1.0 (omega arith)
