-- ===== src/Sanitizer/DataTypes.antt =====
-- VSSTypeSanitizer.cpp: the names of data types and the tests on them.
use kuksa_val.Numbers.{IntType, uint8, int8, uint16, int16, uint32, int32, uint64, int64}
use kuksa_val.Prelude.{ℕ, ◌+◌, ◌-◌, ◌%◌, ◌^◌, String, ◌==◌, if◌then◌else◌, str_eq, is_prefix}

-- std::string::npos, size() and rfind of a text (data type names are ASCII).
abbrev pub npos : ℕ
npos = 2 ^ 64 - 1

abbrev pub text_size : String → ℕ
text_size String.[] = 0
text_size (String.◌∷◌ c s) = text_size s + 1

unfoldable pub rfind : String → String → ℕ
rfind search String.[] = if is_prefix search String.[] then 0 else npos
rfind search (String.◌∷◌ c s) =
    let later = rfind search s in
    if later == npos then (if is_prefix search (String.◌∷◌ c s) then 0 else npos) else later + 1

-- s.substr(0, n)
unfoldable pub take_text : ℕ → String → String
take_text n String.[] = String.[]
take_text n (String.◌∷◌ c s) =
    let rest = take_text (n - 1) s in if n == 0 then String.[] else String.◌∷◌ c rest

-- dt.size() - 2, a size_t.
unfoldable pub size_less_two : String → ℕ
size_less_two dt = (text_size dt + 2 ^ 64 - 2) % 2 ^ 64

pub data VssType : Type 0 where
  integer : IntType → VssType
  float double_float boolean text array unsupported : VssType

-- The tests of checkAndSanitizeType on the name of the data type, in their order.
unfoldable pub vss_type : String → VssType
unfolding rfind size_less_two
vss_type dt =
    if str_eq dt "uint8"
    then integer uint8
    else if str_eq dt "int8"
    then integer int8
    else if str_eq dt "uint16"
    then integer uint16
    else if str_eq dt "int16"
    then integer int16
    else if str_eq dt "uint32"
    then integer uint32
    else if str_eq dt "int32"
    then integer int32
    else if str_eq dt "uint64"
    then integer uint64
    else if str_eq dt "int64"
    then integer int64
    else if str_eq dt "float"
    then float
    else if str_eq dt "double"
    then double_float
    else if str_eq dt "boolean"
    then boolean
    else if str_eq dt "string"
    then text
    else if rfind "[]" dt == size_less_two dt
    then array
    else unsupported
