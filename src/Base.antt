-- ===== src/Base.antt =====
-- What the modules share: the libraries' names, tests and lists over the native numbers, text,
-- machine words and the monad of `Option`.
pub mod Tests
pub mod Lists
pub mod Strings
pub mod Trim
pub use Tests.{ltb, leb, ◌==◌, if◌then◌else◌, ltb→lt, lt→ltb, leb→le, le→leb, ==_iff, tests}
pub use Tests.{Bool-cases, Option-cases}
pub use Lists.{length, get_elem?, take, drop, replicate, All, get_from, get_range}
unfoldable pub use Lists.{retain}
pub use Strings.{Text, codes, em_dash}
unfoldable pub use Strings.{decimal, join, concat}
pub use Trim.{is_empty}
unfoldable pub use Trim.{text_eq, trim, trim_start, trim_end, starts_with}
pub use Prim.Native.Nat.{ℕ, zero, suc, ◌+◌, ◌-◌, ◌*◌, ◌/◌, ◌%◌, ◌^◌, ◌≤◌, ◌<◌, min, max}
pub use mathlib.Core.Path.{◌≡◌, refl, sym, ap, ◌∙◌}
pub use mathlib.Core.Logic.{◌≢◌, ◌↔◌, ◌⊎◌, inl, inr}
pub use mathlib.Core.Bool.{Bool, true, false, not, ◌&&◌, ◌||◌}
pub use mathlib.Core.Option.{Option, none, some}
pub use mathlib.Core.List.{List, [], ◌∷◌, ◌++◌, map}
pub use native.Mathlib.Omega.{arith}

-- `?` on an `Option`.
infixl 5 ◌>>=◌
abbrev pub ◌>>=◌ {ℓ κ} : {A : Type ℓ} {B : Type κ} → Option A → (A → Option B) → Option B
none >>= f = none
some a >>= f = f a

infixl 5 ◌>>◌
abbrev pub ◌>>◌ {ℓ} : {B : Type ℓ} → Option (Unit {0}) → Option B → Option B
none >> k = none
some _ >> k = k

-- `if !test { return None; }`.
abbrev pub guard : Bool → Option (Unit {0})
guard true = some tt
guard false = none

-- u64 addition and multiplication as a release build does them: they wrap.
abbrev pub u64_mod : ℕ
u64_mod = 2 ^ 64

abbrev pub add64 : ℕ → ℕ → ℕ
add64 a b = (a + b) % u64_mod

abbrev pub mul64 : ℕ → ℕ → ℕ
mul64 a b = (a * b) % u64_mod

-- `x >> k` and `x & (2^k - 1)`.
abbrev pub shr : ℕ → ℕ → ℕ
shr x k = x / 2 ^ k

abbrev pub low_bits : ℕ → ℕ → ℕ
low_bits x k = x % 2 ^ k
