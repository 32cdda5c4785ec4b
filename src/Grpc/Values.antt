-- ===== src/Grpc/Values.antt =====
-- grpcHandler.cpp: grpc_fill_value, and the JSON value of a kuksa::Value in a set request.
use kuksa_val.Exception.{Result, ok, err, ◌>>=◌}
use kuksa_val.External.{Jsoncons}
use kuksa_val.Json.{Json, bool, int, double, str}
use kuksa_val.Numbers.{uint32, int32, uint64, int64, Floats}
use kuksa_val.Prelude.{ℕ, String, Bool, false, ◌||◌, if◌then◌else◌, str_eq}
use kuksa_val.Prelude.Int.{ℤ, pos}
use kuksa_val.Subscription.State.{member_of}

-- The oneof of kuksa::Value.
pub data ValueCase : Type 0 where
  not_set : ValueCase
  value_uint32 value_int32 value_uint64 value_int64 : ℤ → ValueCase
  value_bool : Bool → ValueCase
  value_float value_double : ℕ → ValueCase
  value_string : String → ValueCase

pub record Value : Type 0 where
  pub path : String
  pub content : ValueCase
  pub seconds : ℤ
  pub nanos : ℤ

abbrev pub no_value : Value
no_value = record { path = ""; content = not_set; seconds = pos 0; nanos = pos 0 }

-- The tests on the data type, in their order.
pub data Wire : Type 0 where
  as_uint32 as_int32 as_uint64 as_int64 as_float as_double as_boolean as_text : Wire

unfoldable pub wire_of : String → Wire
wire_of datatype =
    if str_eq datatype "uint8" || str_eq datatype "uint16" || str_eq datatype "uint32"
    then as_uint32
    else if str_eq datatype "int8" || str_eq datatype "int16" || str_eq datatype "int32"
    then as_int32
    else if str_eq datatype "uint64"
    then as_uint64
    else if str_eq datatype "int64"
    then as_int64
    else if str_eq datatype "float"
    then as_float
    else if str_eq datatype "double"
    then as_double
    else if str_eq datatype "boolean"
    then as_boolean
    else as_text

-- The getters of kuksa::Value: the default of the type where another case is set.
abbrev pub uint32_of : ValueCase → ℤ
uint32_of (value_uint32 n) = n
uint32_of _ = pos 0

abbrev pub int32_of : ValueCase → ℤ
int32_of (value_int32 n) = n
int32_of _ = pos 0

abbrev pub uint64_of : ValueCase → ℤ
uint64_of (value_uint64 n) = n
uint64_of _ = pos 0

abbrev pub int64_of : ValueCase → ℤ
int64_of (value_int64 n) = n
int64_of _ = pos 0

abbrev pub float_of : ValueCase → ℕ
float_of (value_float n) = n
float_of _ = 0

abbrev pub double_of : ValueCase → ℕ
double_of (value_double n) = n
double_of _ = 0

abbrev pub bool_of : ValueCase → Bool
bool_of (value_bool b) = b
bool_of _ = false

abbrev pub string_of : ValueCase → String
string_of (value_string s) = s
string_of _ = ""

-- req_json[attr] = val.value…(), by the data type of the path.
unfoldable pub json_of : ⦃F : Floats⦄ → Wire → ValueCase → Json
json_of as_uint32 v = int (uint32_of v)
json_of as_int32 v = int (int32_of v)
json_of as_uint64 v = int (uint64_of v)
json_of as_int64 v = int (int64_of v)
json_of ⦃F = F⦄ as_float v = double (F.widen (float_of v))
json_of as_double v = double (double_of v)
json_of as_boolean v = bool (bool_of v)
json_of as_text v = str (string_of v)

module _ ⦃J : Jsoncons⦄ where
  -- The conversion of one value, by the data type.
  unfoldable pub case_of : Wire → Json → Result ValueCase
  case_of as_uint32 j = do n ← J.as_integer uint32 j; ok (value_uint32 n)
  case_of as_int32 j = do n ← J.as_integer int32 j; ok (value_int32 n)
  case_of as_uint64 j = do n ← J.as_integer uint64 j; ok (value_uint64 n)
  case_of as_int64 j = do n ← J.as_integer int64 j; ok (value_int64 n)
  case_of as_float j = do n ← J.as_float j; ok (value_float n)
  case_of as_double j = do n ← J.as_double j; ok (value_double n)
  case_of as_boolean j = do b ← J.as_bool j; ok (value_bool b)
  case_of as_text j = do s ← J.as_string j; ok (value_string s)

  -- data["data"]["dp"][attr]
  unfoldable pub datapoint_member : String → Json → Result Json
  datapoint_member attr answer = do
    content ← member_of "data" answer
    dp ← member_of "dp" content
    member_of attr dp

  abbrev pub with_path : Value → Result String → Result (Unit {0}) × Value
  with_path v (err e) = (err e, v)
  with_path v (ok path) = (ok tt, record v { path = path })

  abbrev pub with_content : Json → Value → Result ValueCase → Result (Unit {0}) × Value
  with_content answer v (err e) = (err e, v)
  with_content answer v (ok content) =
      with_path (record v { content = content })
        (do
          data_value ← member_of "data" answer
          path ← member_of "path" data_value
          J.as_string path)

  -- grpc_fill_value: the value as it is when the function returns or throws.
  unfoldable pub fill_value : String → Json → String → Value → Result (Unit {0}) × Value
  unfolding wire_of case_of datapoint_member
  fill_value datatype answer attr v =
      with_content answer v (do j ← datapoint_member attr answer; case_of (wire_of datatype) j)
