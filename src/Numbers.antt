-- ===== src/Numbers.antt =====
-- The arithmetic types of C++ that VSS data types are converted to. A float and a double are bit
-- patterns; their comparison is a parameter (`Floats`).
use kuksa_val.Prelude.{ℕ, ◌-◌, ◌^◌, Bool}
use kuksa_val.Prelude.Int.{ℤ, pos, negsuc, ◌≤ℤ◌}

pub data IntType : Type 0 where
  uint8 int8 uint16 int16 uint32 int32 uint64 int64 : IntType

-- std::numeric_limits<T>::lowest and max.
abbrev pub lowest : IntType → ℤ
lowest int8 = negsuc (2 ^ 7 - 1)
lowest int16 = negsuc (2 ^ 15 - 1)
lowest int32 = negsuc (2 ^ 31 - 1)
lowest int64 = negsuc (2 ^ 63 - 1)
lowest _ = pos 0

abbrev pub highest : IntType → ℤ
highest uint8 = pos (2 ^ 8 - 1)
highest int8 = pos (2 ^ 7 - 1)
highest uint16 = pos (2 ^ 16 - 1)
highest int16 = pos (2 ^ 15 - 1)
highest uint32 = pos (2 ^ 32 - 1)
highest int32 = pos (2 ^ 31 - 1)
highest uint64 = pos (2 ^ 64 - 1)
highest int64 = pos (2 ^ 63 - 1)

pub record InRange (t : IntType) (n : ℤ) : Type 0 where
  pub above : lowest t ≤ℤ n
  pub below : n ≤ℤ highest t

-- IEEE 754 as the compiler gives it: `<` on float and on double, and the test for ±infinity.
pub record Floats : Type 0 where
  pub float_lt : ℕ → ℕ → Bool
  pub double_lt : ℕ → ℕ → Bool
  pub float_infinite : ℕ → Bool
  pub double_infinite : ℕ → Bool
  -- the double that has the value of a float
  pub widen : ℕ → ℕ
