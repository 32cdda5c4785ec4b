-- ===== src/Grpc/RoundTrip.antt =====
-- Integers on their way through a gRPC value.
use kuksa_val.Exception.{ok}
use kuksa_val.External.{Jsoncons}
use kuksa_val.Grpc.Values.{
  Wire, as_uint32, as_int32, as_uint64, as_int64, ValueCase, value_uint32, value_int32,
  value_uint64, value_int64, wire_of, case_of, json_of,
}
use kuksa_val.Json.{int}
use kuksa_val.Numbers.{
  IntType, uint8, int8, uint16, int16, uint32, int32, uint64, int64, InRange, Floats,
}
use kuksa_val.Prelude.{String, ◌≡◌, refl, arith}
use kuksa_val.Prelude.Int.{ℤ}

-- The names of the integer types of VSS.
abbrev pub name_of : IntType → String
name_of uint8 = "uint8"
name_of int8 = "int8"
name_of uint16 = "uint16"
name_of int16 = "int16"
name_of uint32 = "uint32"
name_of int32 = "int32"
name_of uint64 = "uint64"
name_of int64 = "int64"

module _ ⦃J : Jsoncons⦄ ⦃F : Floats⦄ where
  abbrev IsCarried : Wire → ℤ → Type 0
  IsCarried wire n = (v : ValueCase) × (case_of wire (int n) ≡ ok v) × (json_of wire v ≡ int n)

  uint32-IsCarried : (n : ℤ) → InRange uint32 n → IsCarried as_uint32 n
  unfolding case_of json_of
  uint32-IsCarried n r = (value_uint32 n, rw (J.as_integer-int uint32 n r), refl)

  int32-IsCarried : (n : ℤ) → InRange int32 n → IsCarried as_int32 n
  unfolding case_of json_of
  int32-IsCarried n r = (value_int32 n, rw (J.as_integer-int int32 n r), refl)

  uint64-IsCarried : (n : ℤ) → InRange uint64 n → IsCarried as_uint64 n
  unfolding case_of json_of
  uint64-IsCarried n r = (value_uint64 n, rw (J.as_integer-int uint64 n r), refl)

  int64-IsCarried : (n : ℤ) → InRange int64 n → IsCarried as_int64 n
  unfolding case_of json_of
  int64-IsCarried n r = (value_int64 n, rw (J.as_integer-int int64 n r), refl)

  -- An integer of a VSS type becomes a gRPC value, which a set request for the same type turns
  -- into the same integer.
  pub json_of-case_of :
      (t : IntType) (n : ℤ)
      → InRange t n
      → (v : ValueCase) × (case_of (wire_of (name_of t)) (int n) ≡ ok v)
        × (json_of (wire_of (name_of t)) v ≡ int n)
  unfolding wire_of
  json_of-case_of uint8 n r =
      uint32-IsCarried n (record { above = omega (arith, r.above); below = omega (arith, r.below) })
  json_of-case_of int8 n r =
      int32-IsCarried n (record { above = omega (arith, r.above); below = omega (arith, r.below) })
  json_of-case_of uint16 n r =
      uint32-IsCarried n (record { above = omega (arith, r.above); below = omega (arith, r.below) })
  json_of-case_of int16 n r =
      int32-IsCarried n (record { above = omega (arith, r.above); below = omega (arith, r.below) })
  json_of-case_of uint32 n r = uint32-IsCarried n r
  json_of-case_of int32 n r = int32-IsCarried n r
  json_of-case_of uint64 n r = uint64-IsCarried n r
  json_of-case_of int64 n r = int64-IsCarried n r
