-- ===== src/Database/Nodes.antt =====
-- VssDatabase: its state, the tests on nodes and on paths, and the data type of a path.
use kuksa_val.Exception.{
  no_path_found_on_tree, gen_exception, std_error, Result, ok, err, ◌>>=◌, ◌>>◌, throw_if,
}
use kuksa_val.External.{Jsoncons}
use kuksa_val.Json.{Json, arr, str, item, find, size}
use kuksa_val.Path.{VssPath, to_string}
use kuksa_val.Prelude.{
  String, ◌<>◌, Bool, true, false, not, ◌||◌, Option, none, some, ◌==◌, ltb, if◌then◌else◌, str_eq,
}

-- data_tree__ and meta_tree__
pub record Database : Type 0 where
  pub data_tree : Json
  pub meta_tree : Json

-- j[0] of an array, which throws where there is no element.
abbrev pub front : Json → Result Json
front (arr (item v vs)) = ok v
front _ = err (std_error "Invalid array subscript")

abbrev pub is_the_text : String → Option Json → Bool
is_the_text s (some (str t)) = str_eq t s
is_the_text s _ = false

-- element.contains("type") && element["type"] == …
unfoldable pub is_actor : Json → Bool
is_actor element = is_the_text "actuator" (find "type" element)

unfoldable pub is_sensor : Json → Bool
is_sensor element = is_the_text "sensor" (find "type" element)

unfoldable pub is_attribute : Json → Bool
is_attribute element = is_the_text "attribute" (find "type" element)

module _ ⦃J : Jsoncons⦄ where
  open J use {json_query, as_string}

  -- VssDatabase::pathExists
  unfoldable pub path_exists : Database → VssPath → Result Bool
  path_exists db path = do
    res ← json_query db.data_tree path.jsonpath
    ok (if size res == 0 then false else true)

  -- element.contains("type") && element["type"].as<string>() == …, for one of two texts.
  unfoldable pub has_type : String → String → Option Json → Result Bool
  has_type s t none = ok false
  has_type s t (some type) = do text ← as_string type; ok (str_eq text s || str_eq text t)

  unfoldable pub node_is_writable : Json → Result Bool
  unfolding has_type
  node_is_writable res = do element ← front res; has_type "sensor" "actuator" (find "type" element)

  unfoldable pub path_is_writable : Database → VssPath → Result Bool
  unfolding node_is_writable
  path_is_writable db path = do
    res ← json_query db.data_tree path.jsonpath
    if size res == 1 then node_is_writable res else ok false

  -- The two tests on a single node; the second has no `else` before it.
  unfoldable pub target_is_settable : String → Json → Result Bool
  unfolding has_type
  target_is_settable attr res =
      if str_eq attr "targetValue"
      then (do element ← front res; has_type "actuator" "actuator" (find "type" element))
      else ok false

  unfoldable pub node_is_attributable : String → Json → Result Bool
  unfolding target_is_settable
  node_is_attributable attr res = do
    settable ← target_is_settable attr res
    ok (settable || str_eq attr "value")

  unfoldable pub path_is_attributable : Database → VssPath → String → Result Bool
  unfolding node_is_attributable
  path_is_attributable db path attr = do
    res ← json_query db.data_tree path.jsonpath
    if ltb (size res) 1
        then ok false
        else if ltb 1 (size res)
        then ok true
        else node_is_attributable attr res

  unfoldable pub node_is_readable : Json → Result Bool
  unfolding is_sensor is_actor is_attribute
  node_is_readable res = do
    element ← front res
    ok (is_sensor element || is_actor element || is_attribute element)

  unfoldable pub path_is_readable : Database → VssPath → Result Bool
  unfolding node_is_readable
  path_is_readable db path = do
    res ← json_query db.data_tree path.jsonpath
    if size res == 1 then node_is_readable res else ok false

  abbrev pub datatype_or : VssPath → Option Json → Result String
  datatype_or path none = err (gen_exception (to_string path <> " does not contain a datatype."))
  datatype_or path (some datatype) = as_string datatype

  -- VssDatabase::getDatatypeForPath
  unfoldable pub datatype_for_path : Database → VssPath → Result String
  unfolding path_exists path_is_readable
  datatype_for_path db path = do
    exists ← path_exists db path
    throw_if (not exists) (no_path_found_on_tree (to_string path))
    readable ← path_is_readable db path
    throw_if (not readable) (
        gen_exception (
          to_string path
          <> " does not contain a datatype because it is not a sensor/actuator/attribute."))
    res ← json_query db.data_tree path.jsonpath
    element ← front res
    datatype_or path (find "datatype" element)
