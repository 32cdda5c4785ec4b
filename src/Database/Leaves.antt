-- ===== src/Database/Leaves.antt =====
-- VssDatabase::getLeafPaths. Its recursion follows the tree through JSONPath queries, so it takes
-- fuel; `none` means that the fuel ran out.
use Prim.Native.String
use text.Mathlib.Text.{is_lt}
use kuksa_val.Exception.{Exception, jsonpath_error, std_error, Result, ok, err, ◌>>=◌}
use kuksa_val.External.{BoostText, Jsoncons}
use kuksa_val.Json.{Json, arr, find, items, size}
use kuksa_val.Path.{VssPath, from_json}
use kuksa_val.Prelude.{
  ℕ, zero, suc, String, ◌<>◌, Bool, false, Option, none, some, List, [], ◌∷◌, ◌++◌, ◌==◌,
  if◌then◌else◌, str_eq,
}
use kuksa_val.Database.Nodes.{Database, front}

-- operator< of VSSPath, by the Gen2 spelling.
unfoldable pub path_before : VssPath → VssPath → Bool
path_before p q = is_lt (String.compare p.vsspath q.vsspath)

-- std::list::merge: the next element of the second list goes first only if it is less.
unfoldable pub merge_into : VssPath → (List VssPath → List VssPath) → List VssPath → List VssPath
merge_into x others [] = x ∷ others []
merge_into x others (y ∷ ys) =
    let second = y ∷ merge_into x others ys in
    let first = x ∷ others (y ∷ ys) in if path_before y x then second else first

unfoldable pub merge : List VssPath → List VssPath → List VssPath
unfolding merge_into path_before
merge [] ys = ys
merge (x ∷ xs) ys = merge_into x (merge xs) ys

-- A run out of fuel, or an exception.
pub data Leaves : Type 0 where
  found : List VssPath → Leaves
  thrown : Exception → Leaves
  out_of_fuel : Leaves

abbrev pub then_merge : List VssPath → (List VssPath → Leaves) → Leaves → Leaves
then_merge paths next (found more) = next (merge paths more)
then_merge paths next (thrown e) = thrown e
then_merge paths next out_of_fuel = out_of_fuel

-- One path that the query has found: nothing there, a branch, or a leaf.
pub data Found : Type 0 where
  nothing : Found
  branch leaf : String → Found

module _ ⦃J : Jsoncons⦄ ⦃B : BoostText⦄ where
  open J use {json_query, json_query_paths, as_string}

  abbrev is_branch_type : Option Json → Result Bool
  is_branch_type none = ok false
  is_branch_type (some type) = do text ← as_string type; ok (str_eq text "branch")

  -- resArray[0].contains("type") && resArray[0]["type"].as<string>() == "branch"
  unfoldable pub is_branch : Json → Result Bool
  is_branch res = do element ← front res; is_branch_type (find "type" element)

  unfoldable pub classify : String → Json → Result Found
  unfolding is_branch
  classify text res =
      if size res == 0
      then ok nothing
      else (do branching ← is_branch res; ok (if branching then branch text else leaf text))

  unfoldable pub inspect : Database → Json → Result Found
  unfolding classify
  inspect db jpath = do
    text ← as_string jpath
    res ← json_query db.data_tree text
    classify text res

  -- The body of the loop for a path, and the rest of the loop.
  unfoldable pub visit :
      Bool → (VssPath → Leaves) → (List VssPath → Leaves) → List VssPath → Result Found → Leaves
  visit gen1 recurse next paths (err e) = thrown e
  visit gen1 recurse next paths (ok nothing) = next paths
  visit gen1 recurse next paths (ok (branch text)) =
      then_merge paths next (recurse (from_json (text <> "['children'][*]") gen1))
  visit gen1 recurse next paths (ok (leaf text)) = next (paths ++ from_json text gen1 ∷ [])

  unfoldable pub leaf_loop :
      Database → Bool → (VssPath → Leaves) → List Json → List VssPath → Leaves
  unfolding visit inspect
  leaf_loop db gen1 recurse [] paths = found paths
  leaf_loop db gen1 recurse (jpath ∷ rest) paths =
      visit gen1 recurse (leaf_loop db gen1 recurse rest) paths (inspect db jpath)

  -- An invalid path has no leaves; no other exception is caught.
  abbrev pub paths_found : Database → Bool → (VssPath → Leaves) → Result Json → Leaves
  paths_found db gen1 recurse (err (jsonpath_error msg)) = found []
  paths_found db gen1 recurse (err e) = thrown e
  paths_found db gen1 recurse (ok (arr vs)) = leaf_loop db gen1 recurse (items vs) []
  paths_found db gen1 recurse (ok other) = thrown (std_error "Not an array")

  unfoldable pub leaf_paths : ℕ → Database → VssPath → Leaves
  unfolding leaf_loop
  leaf_paths zero db path = out_of_fuel
  leaf_paths (suc fuel) db path =
      paths_found db path.gen1 (leaf_paths fuel db) (json_query_paths db.data_tree path.jsonpath)
