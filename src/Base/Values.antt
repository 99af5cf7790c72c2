-- ===== src/Base/Values.antt =====
-- Values of Go and of its libraries that every part handles: bytes, instants, errors, results.
use mathlib.Core.Bool.{Bool, true, false}
use mathlib.Core.Option.{Option}
use mathlib.Core.List.{List}
use Prim.Native.Nat.{ℕ}
use Prim.Native.String.{String}
use real_estate_robot.Base.Int.{ℤ}

-- []byte
abbrev pub Bytes : Type 0
Bytes = List ℕ

-- time.Time, in nanoseconds since its zero value (1 January of year 1, UTC), and time.Duration.
abbrev pub Time : Type 0
Time = ℕ

abbrev pub Duration : Type 0
Duration = ℤ

-- A float64 is its bit pattern; what is computed with it is a parameter.
pub record Float64 : Type 0 where
  pub bits : ℕ

-- The number in a pgtype.Numeric that is not NULL: coefficient * 10 ^ exponent.
pub record Decimal : Type 0 where
  pub coefficient : ℤ
  pub exponent : ℤ

-- pgtype.Text, Timestamptz, Float8 and Numeric carry a value and a flag `Valid`.
abbrev pub Text : Type 0
Text = Option String

abbrev pub Timestamptz : Type 0
Timestamptz = Option Time

-- Go errors as the program builds and tests them. A text stands for the literal part of a format.
pub data Error : Type 0 where
  no_rows : Error  -- pgx.ErrNoRows
  message : String → Error  -- errors.New, and what a library reports
  numbered : String → ℕ → Error  -- fmt.Errorf with %d
  wrap : String → Error → Error  -- fmt.Errorf with %w
  wrap_of : String → String → Error → Error  -- fmt.Errorf with a text and %w

-- errors.Is(err, pgx.ErrNoRows)
abbrev pub is_no_rows : Error → Bool
is_no_rows no_rows = true
is_no_rows (wrap _ e) = is_no_rows e
is_no_rows (wrap_of _ _ e) = is_no_rows e
is_no_rows _ = false

pub data Result {ℓ} (A : Type ℓ) : Type ℓ where
  ok : A → Result A
  err : Error → Result A
