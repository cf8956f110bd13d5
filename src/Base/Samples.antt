-- ===== src/Base/Samples.antt =====
-- Concrete libraries, for examples: a UUID is written in unary, and a `float64` is a whole number.
use Prim.Native.Nat.{ℕ, zero, suc, ◌-◌, ◌*◌, ◌/◌}
use Prim.Native.String.{String}
use mathlib.Core.Path.{◌≡◌, refl, ap}
use mathlib.Core.Option.{Option, none, some}
use native.Mathlib.Omega.{arith}
use text.Mathlib.Text.{◌==◌ as str_eq}
use text.Mathlib.TextEquality.{eq_iff}
use mathlib.Core.Logic.{◌≢◌}
use mathlib.Core.Bool.{false}
use entra_api.Base.Tests.{ltb, leb}
use entra_api.Base.Int.{pos, pos_part}
use entra_api.Base.External.{Uuids, Floats}
use entra_api.Base.Formats.{Formats}

abbrev pub write_unary : ℕ → String
write_unary zero = "u"
write_unary (suc n) = String.◌∷◌ "u" (write_unary n)

abbrev pub count : String → ℕ
count String.[] = 0
count (String.◌∷◌ c s) = suc (count s)

abbrev pub read_unary : String → Option ℕ
read_unary String.[] = none
read_unary (String.◌∷◌ c s) = some (count s)

count-write_unary : (n : ℕ) → count (write_unary n) ≡ suc n
count-write_unary zero = refl
count-write_unary (suc n) = ap suc (count-write_unary n)

pub read-write_unary : (n : ℕ) → read_unary (write_unary n) ≡ some n
read-write_unary zero = refl
read-write_unary (suc n) = ap some (count-write_unary n)

abbrev pub sample_uuids : Uuids
sample_uuids = record {
  parse = read_unary;
  to_string = write_unary;
  parse-to_string = read-write_unary;
}

abbrev pub sample_floats : Floats
sample_floats = record {
  of_int32 = pos_part;
  mul = λ a b. a * b;
  div = λ a b. a / b;
  sub = λ a b. a - b;
  lt = ltb;
  le = leb;
  of_nat = λ n. n;
  to_numeric = λ n. pos (n * 100);
  of_numeric = λ n. pos_part n / 100;
}

-- Dates are written in unary.
abbrev pub sample_formats : Formats
sample_formats = record {
  parse_time = read_unary;
  parse_float = count;
  to_lower = λ s. s;
  short_id = write_unary;
}

pub differs : (a b : String) → str_eq a b ≡ false → a ≢ b
differs a b e h = ground (arith, eq_iff a b, e, h)
