-- ===== src/External/Sample/Store.antt =====
-- The interface of jsoncons for trees that are one object from paths to nodes, and small values of
-- the other interfaces: what the tests run.
use kuksa_val.Exception.{std_error, Result, ok, err, ok-injective}
use kuksa_val.External.Interfaces.{Jsoncons, IsNamePath, Regex, Clock, Uuids, Jwt}
use kuksa_val.Json.{
  Json, int, str, bool, double, arr, obj, nil, item, end, member, assign, find, lookup-assign,
}
use kuksa_val.Numbers.{IntType, InRange, lowest, highest}
use kuksa_val.Prelude.{
  ℕ, zero, suc, String, ◌≡◌, ◌≢◌, refl, ap, List, [], ◌∷◌, Bool, true, false, Option, none, some,
  ◌||◌, if◌then◌else◌, str_eq, eq_refl, arith,
}
use kuksa_val.Prelude.Int.{ℤ, pos, ltb_ℤ}

-- Numbers as texts of so many digits.
pub unary : ℕ → String
unary zero = String.[]
unary (suc n) = String.◌∷◌ "1" (unary n)

pub from_unary : String → ℕ
from_unary String.[] = 0
from_unary (String.◌∷◌ c s) = suc (from_unary s)

text_value : Json → Result String
text_value (str s) = ok s
text_value (bool true) = ok "true"
text_value (bool false) = ok "false"
text_value _ = err (std_error "Not a string")

bool_value : Json → Result Bool
bool_value (bool b) = ok b
bool_value _ = err (std_error "Not a bool")

fits : IntType → ℤ → Result ℤ
fits t n =
    if ltb_ℤ n (lowest t) || ltb_ℤ (highest t) n then err (std_error "Not an integer") else ok n

pub integer_value : IntType → Json → Result ℤ
unfolding fits from_unary
integer_value t (int n) = fits t n
integer_value t (str s) = fits t (pos (from_unary s))
integer_value t _ = err (std_error "Not an integer")

double_value : Json → Result ℕ
double_value (double n) = ok n
double_value _ = err (std_error "Not a double")

fits-InRange : (t : IntType) (m n : ℤ) → fits t m ≡ ok n → InRange t n
unfolding fits
fits-InRange t m n h = record { above = ground arith; below = ground arith }

pub integer_value-InRange :
    (t : IntType) (j : Json) (n : ℤ) → integer_value t j ≡ ok n → InRange t n
unfolding integer_value
integer_value-InRange t (int m) n h = fits-InRange t m n h
integer_value-InRange t (str s) n h = fits-InRange t (pos (from_unary s)) n h
integer_value-InRange t j n h = ground arith

pub integer_value-int : (t : IntType) (n : ℤ) → InRange t n → integer_value t (int n) ≡ ok n
unfolding integer_value fits
integer_value-int t n r = ground (arith, r.above, r.below)

selected : Option Json → Json
selected none = arr nil
selected (some v) = arr (item v nil)

pub query : Json → String → Result Json
unfolding selected
query root path = ok (selected (find path root))

named : String → Option Json → Json
named path none = arr nil
named path (some v) = arr (item (str path) nil)

query_paths : Json → String → Result Json
unfolding named
query_paths root path = ok (named path (find path root))

pub replace : Json → String → Json → Result Json
replace (obj ms) path w = ok (obj (assign path w ms))
replace _ path w = err (std_error "Not an object")

pub query-replace :
    (root root' v w : Json) (path : String)
    → IsNamePath path
    → query root path ≡ ok (arr (item v nil))
    → replace root path w ≡ ok root'
    → query root' path ≡ ok (arr (item w nil))
unfolding query replace selected
query-replace (obj ms) root' v w path p h e =
    rw (← ok-injective e, lookup-assign path path w ms, eq_refl path)
query-replace root root' v w path p h e = ground arith

-- A patch that replaces the whole tree; it applies to objects and arrays.
whole_patch : Json → Json → Json
whole_patch source target = arr (item (obj (assign "value" target end)) nil)

patched : Option Json → Result Json
patched none = err (std_error "Patch failed")
patched (some v) = ok v

apply : Json → Json → Result Json
unfolding patched
apply (obj ms) (arr (item patch nil)) = patched (find "value" patch)
apply target patch = err (std_error "Patch failed")

-- The text of permissions is here the one path that may be read and written.
granted : String → Result Json
granted text = ok (obj (if str_eq text "{}" then end else member text (str "rw") end))

unfoldable pub jsoncons : Jsoncons
unfolding granted text_value bool_value integer_value fits double_value query query_paths selected
    named replace whole_patch apply patched
jsoncons = record {
  parse = granted;
  dump_pretty = λ j. "{}";
  print = λ j. "value";
  as_string = text_value;
  as_bool = bool_value;
  as_integer = integer_value;
  as_float = double_value;
  as_double = double_value;
  json_query = query;
  json_query_paths = query_paths;
  json_replace = replace;
  from_diff = whole_patch;
  apply_patch = apply;
  merge_or_update = λ node metadata. ok metadata;
  as_string-str = λ s. refl;
  as_integer-InRange = integer_value-InRange;
  as_integer-int = integer_value-int;
  query-replace = query-replace;
}

-- A pattern of a plain text, `.*` and `$` matches everything, any other only itself.
unfoldable pub regex : Regex
regex = record { regex_match = λ pattern text. ok (str_eq pattern text || str_eq pattern ".*") }

unfoldable pub clock : Clock
clock = record {
  time_stamp = "2023-01-01T00:00:00.000000000Z";
  seconds = pos 1672531200;
  nanoseconds = pos 0;
  iso8601 = λ sec nsec. "2023-01-01T00:00:00.000000000Z";
}

pub from_unary-unary : (n : ℕ) → from_unary (unary n) ≡ n
unfolding unary from_unary
from_unary-unary zero = refl
from_unary-unary (suc n) = ap suc (from_unary-unary n)

unfoldable pub uuids : Uuids
unfolding unary from_unary
uuids = record {
  uuid_text = unary;
  uuid_of_text = λ s. ok (from_unary s);
  uuid_of_text-uuid_text = λ id. ap ok (from_unary-unary id);
}

-- The public key is "key". The token "good" carries permissions and an expiry, "undated" only the
-- permissions; no other token is one.
sample_claims : String → Result (List (String × Json))
sample_claims token =
    if str_eq token "good"
    then ok (("kuksa-vss", obj end) ∷ ("exp", obj end) ∷ [])
    else if str_eq token "undated"
    then ok (("kuksa-vss", obj end) ∷ [])
    else err (std_error "Not a token")

sample_verify : String → String → Result (Unit {0})
sample_verify key token = if str_eq key "key" then ok tt else err (std_error "Not verified")

unfoldable pub jwt : Jwt
unfolding sample_claims sample_verify unary
jwt = record {
  decode = sample_claims;
  to_str = λ value. unary 3;
  serialize = λ value. "Vehicle.Speed";
  rs256 = λ key. ok tt;
  verify = sample_verify;
}

-- A key by which no token verifies.
pub jwt-other_key : (token : String) → jwt.verify "other" token ≢ ok tt
unfolding jwt sample_verify
jwt-other_key token h = cc
