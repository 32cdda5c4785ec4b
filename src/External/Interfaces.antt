-- ===== src/External/Interfaces.antt =====
-- What the server takes from third-party libraries, as interfaces: operations with the documented
-- laws that the server relies on. `External.Sample` has values that meet them.
use kuksa_val.Prelude.{
  ℕ, String, ◌<>◌, ◌≡◌, ◌≢◌, Bool, true, false, List, [], ◌∷◌, All, NoChar, join_slash, is_name,
  is_empty,
}
use kuksa_val.Prelude.Int.{ℤ}
use kuksa_val.Json.{Json, str, int, arr, item, nil}
use kuksa_val.Exception.{Result, ok}
use kuksa_val.Numbers.{IntType, InRange}

-- boost/algorithm/string.hpp, as VSSPath.cpp uses it.
pub record BoostText : Type 0 where
  -- boost::split by is_any_of("/"), without token compression
  pub split_slash : String → List String
  -- erase_all, erase_first, erase_last (text, search) and replace_all (text, search, format)
  pub erase_all : String → String → String
  pub erase_first : String → String → String
  pub erase_last : String → String → String
  pub replace_all : String → String → String → String
  pub join-split : (s : String) → join_slash (split_slash s) ≡ s
  pub split-NoChar : (s : String) → All (NoChar b'/') (split_slash s)

-- std::regex: whether the whole text matches the pattern; a pattern may be refused.
pub record Regex : Type 0 where
  pub regex_match : (pattern text : String) → Result Bool

-- The steps of a JSONPath that selects by names alone.
abbrev pub name_steps : List String → String
name_steps [] = ""
name_steps (name ∷ names) = "['" <> name <> "']" <> name_steps names

-- A member's name without any character that JSONPath reads otherwise. The name "length" is left
-- out, since jsoncons takes it for the size of an array or a text.
abbrev pub IsName : String → Type 0
IsName name = (is_name name ≡ true) × (is_empty name ≡ false) × (name ≢ "length")

-- A path of names in brackets, without wildcards, filters and slices.
pub record IsNamePath (path : String) : Type 0 where
  pub first : String
  pub rest : List String
  pub names : All IsName (first ∷ rest)
  pub spelled : path ≡ "$" <> name_steps (first ∷ rest)

-- jsoncons: text, conversions, JSONPath and patches. An `err` is an exception of the library.
pub record Jsoncons : Type 0 where
  pub parse : String → Result Json
  pub dump_pretty : Json → String
  -- what `stream << value` writes
  pub print : Json → String
  -- value.as<std::string>(), as<bool>(), as<T>() for the integer types, float and double
  pub as_string : Json → Result String
  pub as_bool : Json → Result Bool
  pub as_integer : IntType → Json → Result ℤ
  pub as_float : Json → Result ℕ
  pub as_double : Json → Result ℕ
  -- jsonpath::json_query for values and for paths, and json_replace (root, path, value)
  pub json_query : Json → String → Result Json
  pub json_query_paths : Json → String → Result Json
  pub json_replace : Json → String → Json → Result Json
  -- jsonpatch::from_diff (source, target), apply_patch (target, patch), and merge_or_update
  pub from_diff : Json → Json → Json
  pub apply_patch : Json → Json → Result Json
  pub merge_or_update : Json → Json → Result Json
  pub as_string-str : (s : String) → as_string (str s) ≡ ok s
  -- a converted number fits the type, and a number that fits is converted to itself
  pub as_integer-InRange : (t : IntType) (j : Json) (n : ℤ) → as_integer t j ≡ ok n → InRange t n
  pub as_integer-int : (t : IntType) (n : ℤ) → InRange t n → as_integer t (int n) ≡ ok n
  -- the one value that a path of names selects is, after a replacement, the new value
  pub query-replace :
      (root root' v w : Json) (path : String)
      → IsNamePath path
      → json_query root path ≡ ok (arr (item v nil))
      → json_replace root path w ≡ ok root'
      → json_query root' path ≡ ok (arr (item w nil))

-- The clock and the C library's time functions: the text that getTimeStamp makes of the current
-- time, that time in two numbers, and the text of a given time.
pub record Clock : Type 0 where
  pub time_stamp : String
  pub seconds : ℤ
  pub nanoseconds : ℤ
  pub iso8601 : ℤ → ℤ → String

-- boost::uuids: the text of an identifier, and the identifier that a text denotes.
pub record Uuids : Type 0 where
  pub uuid_text : ℕ → String
  pub uuid_of_text : String → Result ℕ
  pub uuid_of_text-uuid_text : (id : ℕ) → uuid_of_text (uuid_text id) ≡ ok id

-- jwt-cpp: the claims of a token as picojson values, their text and their serialized form, the
-- RS256 algorithm for a public key, and the verification of a token by it.
pub record Jwt : Type 0 where
  pub decode : String → Result (List (String × Json))
  pub to_str : Json → String
  pub serialize : Json → String
  pub rs256 : String → Result (Unit {0})
  pub verify : (key token : String) → Result (Unit {0})
