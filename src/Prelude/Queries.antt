-- ===== src/Prelude/Queries.antt =====
-- What an SQL query does with the rows of a table, and the order of BIGINT columns. A `u64` is cast
-- to `i64` to be stored and back when it is loaded: a column holds the 64 bits, and the database
-- compares them as a signed number.
use Prim.Native.Nat.{ℕ, ◌+◌, ◌%◌, ◌^◌, ◌<◌}
use mathlib.Core.Path.{◌≡◌}
use mathlib.Core.Bool.{Bool, false, ◌||◌}
use mathlib.Core.Option.{Option, none, some}
use mathlib.Core.List.{List, [], ◌∷◌}
use native.Mathlib.Omega.{arith}
use fog.Prelude.Tests.{ltb, if◌then◌else◌}

-- The place of the 64 bits in the order of the signed numbers.
abbrev pub bigint : ℕ → ℕ
bigint n = (n + 2 ^ 63) % 2 ^ 64

abbrev pub bigint_lt : ℕ → ℕ → Bool
bigint_lt a b = ltb (bigint a) (bigint b)

abbrev pub bigint_max : ℕ → ℕ → ℕ
bigint_max a b = if bigint_lt a b then b else a

-- Below 2 ^ 63 the signed order is that of the numbers.
pub bigint_lt_small : (a b : ℕ) → a < 2 ^ 63 → b < 2 ^ 63 → bigint_lt a b ≡ ltb a b
bigint_lt_small a b ha hb = ground arith

module _ {ℓ} {A : Type ℓ} where
  unfoldable pub filter : (A → Bool) → List A → List A
  filter p [] = []
  filter p (x ∷ xs) = let rest = filter p xs in if p x then x ∷ rest else rest

  -- Whether a row with that property is in the table.
  unfoldable pub any : (A → Bool) → List A → Bool
  any p [] = false
  any p (x ∷ xs) = p x || any p xs

  -- `UPDATE ... SET ... WHERE`
  unfoldable pub update : (A → Bool) → (A → A) → List A → List A
  update p f [] = []
  update p f (x ∷ xs) = (if p x then f x else x) ∷ update p f xs

  -- `SELECT MAX(...)` of a BIGINT column
  unfoldable pub max_of : (A → ℕ) → List A → Option ℕ
  max_of f [] = none
  max_of f (x ∷ xs) = elim (max_of f xs) [ none ↦ some (f x) | some m ↦ some (bigint_max (f x) m) ]

  -- `ORDER BY` a BIGINT column
  unfoldable pub insert_by : (A → ℕ) → A → List A → List A
  insert_by f x [] = x ∷ []
  insert_by f x (y ∷ ys) =
      let rest = insert_by f x ys in if bigint_lt (f y) (f x) then y ∷ rest else x ∷ y ∷ ys

  unfoldable pub sort_by : (A → ℕ) → List A → List A
  sort_by f [] = []
  sort_by f (x ∷ xs) = insert_by f x (sort_by f xs)
