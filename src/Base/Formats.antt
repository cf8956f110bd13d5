-- ===== src/Base/Formats.antt =====
-- What the services take from Go's standard library for the texts of dates, numbers and names.
use Prim.Native.Nat.{ℕ}
use Prim.Native.String.{String}
use mathlib.Core.Option.{Option}

-- `time.Parse(time.RFC3339, s)` in nanoseconds, `strconv.ParseFloat` (0 where it fails),
-- `strings.ToLower`, and the first eight characters of a new UUID.
pub record Formats : Type 0 where
  pub parse_time : String → Option ℕ
  pub parse_float : String → ℕ
  pub to_lower : String → String
  pub short_id : ℕ → String
