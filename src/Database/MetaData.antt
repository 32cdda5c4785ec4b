-- ===== src/Database/MetaData.antt =====
-- VssDatabase::getMetaData, with the tokens of a JSON path (getVSSTokens). The parents are kept in
-- arrays of 16 elements; a write behind their end is the outcome `undefined`.
pub mod Tokens
pub mod Bound
use Prim.Native.String
use kuksa_val.Database.Nodes.{Database}
use kuksa_val.Exception.{not_an_object, Result, ok, err, ◌>>=◌}
use kuksa_val.External.{Jsoncons}
use kuksa_val.Json.{
  Json, int, str, arr, obj, Members, nil, item, end, member, empty, assign, lookup,
}
use kuksa_val.Path.{VssPath}
use kuksa_val.Prelude.{
  ℕ, zero, suc, code, String, ◌<>◌, Bool, true, false, not, ◌&&◌, ◌||◌, Option, none, some, List,
  [], ◌∷◌, ◌==◌, if◌then◌else◌, str_eq, length,
}
use kuksa_val.Prelude.Int.{pos}

-- The delimiters of the two calls of strtok, "['" and "']".
abbrev pub opens : ℕ → Bool
opens c = (c == b'[') || (c == b'\'')

abbrev pub closes : ℕ → Bool
closes c = (c == b'\'') || (c == b']')

-- strtok: the characters before the next delimiter, and the text behind that delimiter.
unfoldable pub cut : (ℕ → Bool) → String → String × String
cut delimiter String.[] = (String.[], String.[])
cut delimiter (String.◌∷◌ c s) =
    let rest = cut delimiter s in
    if delimiter (code c) then (String.[], s) else (String.◌∷◌ c rest.0, rest.1)

unfoldable pub strtok : (ℕ → Bool) → String → Option (String × String)
unfolding cut
strtok delimiter String.[] = none
strtok delimiter (String.◌∷◌ c s) =
    let rest = strtok delimiter s in
    if delimiter (code c) then rest else some (cut delimiter (String.◌∷◌ c s))

-- The body of the loop of getVSSTokens: every second token counts.
abbrev pub add_token : Bool → String → Option (List String) → Option (List String)
add_token even token none = none
add_token even token (some tokens) = some (if even then token ∷ tokens else tokens)

-- The delimiters of the call that follows a token.
abbrev pub delimiter_after : Bool → ℕ → Bool
delimiter_after true = closes
delimiter_after false = opens

-- The loop, with the token that strtok has found; `none` means that the fuel ran out.
unfoldable pub token_loop : ℕ → Bool → Option (String × String) → Option (List String)
unfolding strtok
token_loop fuel even none = some []
token_loop zero even (some (token, rest)) = none
token_loop (suc fuel) even (some (token, rest)) =
    add_token even token (token_loop fuel (not even) (strtok (delimiter_after even) rest))

abbrev pub text_length : String → ℕ
text_length String.[] = 0
text_length (String.◌∷◌ c s) = suc (text_length s)

-- getVSSTokens; each round but the last takes a character.
unfoldable pub get_vss_tokens : String → Option (List String)
unfolding token_loop
get_vss_tokens path = token_loop (text_length path) false (strtok opens path)

-- What getMetaData comes to.
pub data Outcome : Type 0 where
  out_of_fuel : Outcome
  undefined : Outcome
  answered : Result Json → Outcome

abbrev pub outcome_of : Option (Result Json) → Outcome
outcome_of none = out_of_fuel
outcome_of (some answer) = answered answer

-- `return NULL`, an integer for the constructor of jsoncons::json.
abbrev pub no_metadata : Json
no_metadata = int (pos 0)

abbrev pub is_last : List String → Bool
is_last [] = true
is_last (token ∷ tokens) = false

abbrev pub is_skipped : String → List String → Bool
is_skipped token rest = not (is_last rest) && str_eq token "children"

abbrev pub own_name : String → List String → Json → Json
own_name token rest node =
    if is_last rest && not (str_eq token "children") then obj (member token node end) else node

module _ ⦃J : Jsoncons⦄ where
  open J use {json_query, json_query_paths, as_string}

  -- if (resJson.contains(key)) resJson.insert_or_assign(key, resJson[key].as<string>())
  abbrev pub restated : String → Members → Option Json → Result Json
  restated key ms none = ok (obj ms)
  restated key ms (some value) = do text ← as_string value; ok (obj (assign key (str text) ms))

  unfoldable pub restate : String → Json → Result Json
  unfolding assign lookup
  restate key (obj ms) = restated key ms (lookup key ms)
  restate key other = ok other

  abbrev pub single_node : Json → Result (Option Json)
  single_node (arr (item node nil)) = do
    described ← restate "description" node
    typed ← restate "type" described
    ok (some typed)
  single_node _ = ok none

  -- The node of a token, unless the path does not select one node.
  unfoldable pub node_at : Database → String → Result (Option Json)
  unfolding restate
  node_at db path = do found ← json_query db.meta_tree path; single_node found

  -- The last loop: the parents, the innermost first, each with the result as its children.
  unfoldable pub nest : Json → List (String × Json) → Result Json
  unfolding assign
  nest result [] = ok result
  nest result ((name, obj ms) ∷ parents) =
      nest (obj (member name (obj (assign "children" result ms)) end)) parents
  nest result ((name, element) ∷ parents) = err (not_an_object "")

  abbrev pub nest_above : Json → List (String × Json) → Result Json
  nest_above result [] = ok result
  nest_above result (last ∷ parents) = nest result parents

  -- One token: what its node adds to the parents, with `next` for the tokens after it.
  abbrev pub record_node :
      String
      → List String
      → (List (String × Json) → Json → Outcome)
      → List (String × Json)
      → Result (Option Json)
      → Outcome
  record_node token rest next parents (err e) = answered (err e)
  record_node token rest next parents (ok none) = answered (ok no_metadata)
  record_node token rest next parents (ok (some node)) =
      let named = own_name token rest node in
      if length parents == 16 then undefined else next ((token, named) ∷ parents) named

  unfoldable pub meta_loop : Database → String → List String → List (String × Json) → Json → Outcome
  unfolding node_at nest
  meta_loop db path [] parents result = answered (nest_above result parents)
  meta_loop db path (token ∷ rest) parents result =
      let next = meta_loop db (path <> "." <> token) rest in
      if is_skipped token rest
      then next parents result
      else record_node token rest next parents (node_at db (path <> "." <> token))

  abbrev pub meta_of_tokens : Database → Option (List String) → Outcome
  meta_of_tokens db none = out_of_fuel
  meta_of_tokens db (some tokens) = meta_loop db "$" tokens [] empty

  abbrev pub meta_of_text : Database → Result String → Outcome
  meta_of_text db (err e) = answered (err e)
  meta_of_text db (ok path) = meta_of_tokens db (get_vss_tokens path)

  -- The paths that the query has found; only the first counts.
  abbrev pub meta_of_paths : Database → Result Json → Outcome
  meta_of_paths db (err e) = answered (err e)
  meta_of_paths db (ok (arr (item path paths))) = meta_of_text db (as_string path)
  meta_of_paths db (ok found) = answered (ok no_metadata)

  unfoldable pub get_meta_data : Database → VssPath → Outcome
  unfolding meta_loop get_vss_tokens
  get_meta_data db path = meta_of_paths db (json_query_paths db.meta_tree path.jsonpath)
