-- ===== src/Base/External.antt =====
-- What the services take from packages outside the repository.
use Prim.Native.Nat.{ℕ}
use Prim.Native.String.{String}
use mathlib.Core.Path.{◌≡◌}
use mathlib.Core.Option.{Option, some}
use mathlib.Core.Bool.{Bool}
use entra_api.Base.Int.{ℤ}

-- google/uuid. A `uuid.UUID` is its 128 bits as a number, so `uuid.Nil` is 0.
pub record Uuids : Type 0 where
  pub parse : String → Option ℕ
  pub to_string : ℕ → String
  -- `Parse` reads back what `String` writes.
  pub parse-to_string : (u : ℕ) → parse (to_string u) ≡ some u

-- Go's `float64`, as its bit pattern: the arithmetic that the services do on amounts.
-- `to_numeric` prints a value and reads it into a column DECIMAL(15, 2), in hundredths, and
-- `of_numeric` is `Float64Value`.
pub record Floats : Type 0 where
  pub of_int32 : ℤ → ℕ
  pub mul : ℕ → ℕ → ℕ
  pub div : ℕ → ℕ → ℕ
  pub sub : ℕ → ℕ → ℕ
  pub lt : ℕ → ℕ → Bool
  pub le : ℕ → ℕ → Bool
  pub of_nat : ℕ → ℕ
  pub to_numeric : ℕ → ℤ
  pub of_numeric : ℤ → ℕ
