-- ===== src/Access.antt =====
-- AccessChecker.cpp: the permissions of a channel against a path.
pub mod Decision
use Prim.Native.String
use kuksa_val.Channel.{KuksaChannel}
use kuksa_val.Exception.{Exception, std_error, key_not_found, Result, ok, err, ◌>>=◌}
use kuksa_val.External.{BoostText, Jsoncons, Regex}
use kuksa_val.Json.{
  Json, null, str, arr, obj, empty, item, Items, items, Members, members, find, size,
}
use kuksa_val.Path.{VssPath, from_json}
use kuksa_val.Prelude.{
  ℕ, code, String, ◌<>◌, Bool, true, false, Option, none, some, List, [], ◌∷◌, ◌==◌, if◌then◌else◌,
  is_empty, has_infix,
}

-- std::regex_replace(text, std::regex("\\*"), ".*")
unfoldable pub expand_stars : String → String
expand_stars String.[] = String.[]
expand_stars (String.◌∷◌ c s) =
    let rest = expand_stars s in if code c == b'*' then ".*" <> rest else String.◌∷◌ c rest

-- json::empty(): of a container or a text without elements.
abbrev pub is_empty_json : Json → Bool
is_empty_json (str s) = is_empty s
is_empty_json (arr vs) = size (arr vs) == 0
is_empty_json (obj ms) = size (obj ms) == 0
is_empty_json _ = false

-- json::object_range() throws for what is no object.
abbrev pub object_range : Json → Result (List (String × Json))
object_range (obj ms) = ok (members ms)
object_range _ = err (std_error "Not an object")

module _ ⦃J : Jsoncons⦄ ⦃R : Regex⦄ where
  open J use {parse, as_string}
  open R use {regex_match}

  abbrev pub text_or_empty : Option Json → Result String
  text_or_empty none = ok ""
  text_or_empty (some value) = as_string value

  -- permissions.get_with_default(path, "")
  unfoldable pub exact_permission : Json → String → Result String
  exact_permission permissions path = text_or_empty (find path permissions)

  -- The loop over the permissions: the last entry whose pattern matches the path decides.
  unfoldable pub matched_permission : String → String → List (String × Json) → Result String
  matched_permission path found [] = ok found
  matched_permission path found ((key, value) ∷ rest) = do
    matches ← regex_match (expand_stars key) path
    found' ← if matches then as_string value else ok found
    matched_permission path found' rest

  -- The permissions that the channel holds as JSON text, or an object without members.
  unfoldable pub channel_permissions : KuksaChannel → Result Json
  channel_permissions channel =
      if is_empty_json channel.permissions
      then parse "{}"
      else do text ← as_string channel.permissions; parse text

  unfoldable pub pattern_permission : Json → String → Result String
  unfolding matched_permission
  pattern_permission permissions path = do
    entries ← object_range permissions
    matched_permission path "" entries

  -- An entry for the very path comes first; without a value there the patterns decide.
  unfoldable pub permission_for : Json → String → Result String
  unfolding exact_permission pattern_permission
  permission_for permissions path = do
    value ← exact_permission permissions path
    if is_empty value then pattern_permission permissions path else ok value

  -- AccessChecker::checkSignalAccess
  unfoldable pub check_signal_access : KuksaChannel → String → String → Result Bool
  unfolding channel_permissions permission_for
  check_signal_access channel path required = do
    permissions ← channel_permissions channel
    value ← permission_for permissions path
    ok (has_infix required value)

  unfoldable pub check_read_access : KuksaChannel → VssPath → Result Bool
  unfolding check_signal_access
  check_read_access channel path = check_signal_access channel path.vssgen1path "r"

  unfoldable pub check_write_access : KuksaChannel → VssPath → Result Bool
  unfolding check_signal_access
  check_write_access channel path = check_signal_access channel path.vssgen1path "w"

  module _ ⦃B : BoostText⦄ where
    -- paths[i]["path"].as<std::string>()
    abbrev pub path_text : Option Json → Result String
    path_text none = err (key_not_found "path")
    path_text (some value) = as_string value

    -- The loop of checkPathWriteAccess over the elements of an array.
    unfoldable pub check_path_write_access : KuksaChannel → List Json → Result Bool
    unfolding check_write_access
    check_path_write_access channel [] = ok true
    check_path_write_access channel (entry ∷ rest) = do
      path ← path_text (find "path" entry)
      allowed ← check_write_access channel (from_json path false)
      if allowed then check_path_write_access channel rest else ok false
