-- ===== src/Result.antt =====
-- `anyhow::Result`: a value, or an error with the contexts that were put around it, outermost first.
use docsis_monitor.Base.{Text, List, [], ◌∷◌, ◌≡◌, refl}

pub data Result {ℓ} (T : Type ℓ) : Type ℓ where
  ok : T → Result T
  err : List Text → Result T

-- `bail!`.
abbrev pub bail {ℓ} : {T : Type ℓ} → Text → Result T
bail why = err (why ∷ [])

-- `with_context`.
abbrev pub with_context {ℓ} : {T : Type ℓ} → Text → Result T → Result T
with_context where_ (ok t) = ok t
with_context where_ (err chain) = err (where_ ∷ chain)

-- `?`, and `?` after a step that answers nothing.
infixl 5 ◌>>=◌
abbrev pub ◌>>=◌ {ℓ κ} : {T : Type ℓ} {U : Type κ} → Result T → (T → Result U) → Result U
err chain >>= next = err chain
ok t >>= next = next t

infixl 5 ◌>>◌
abbrev pub ◌>>◌ {κ} : {U : Type κ} → Result (Unit {0}) → Result U → Result U
err chain >> next = err chain
ok _ >> next = next

-- A chain that answers: the first step answered, and the rest went on from there.
pub chain_lem {ℓ κ} :
    {T : Type ℓ} {U : Type κ} (step : Result T) (next : T → Result U) {answer : U}
    → step >>= next ≡ ok answer
    → (t : T) × (step ≡ ok t) × (next t ≡ ok answer)
chain_lem (err why) next answers = cc
chain_lem (ok t) next answers = (t, refl, answers)

pub with_context-ok {ℓ} :
    {T : Type ℓ} (where_ : Text) (step : Result T) {t : T}
    → with_context where_ step ≡ ok t
    → step ≡ ok t
with_context-ok where_ (err why) answers = cc
with_context-ok where_ (ok t) answers = answers
