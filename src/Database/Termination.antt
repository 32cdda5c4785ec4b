-- ===== src/Database/Termination.antt =====
-- When getLeafPaths comes to an end.
use kuksa_val.Exception.{jsonpath_error, Result, ok, err}
use kuksa_val.External.{BoostText, Jsoncons}
use kuksa_val.Json.{Json, Items, arr, items}
use kuksa_val.Path.{VssPath, from_json}
use kuksa_val.Prelude.{
  ℕ, zero, suc, ◌<◌, String, ◌<>◌, ◌≡◌, ◌≢◌, refl, Bool, List, [], ◌∷◌, arith, Member, first, later,
}
use kuksa_val.Database.Nodes.{Database}
use kuksa_val.Database.Leaves.{
  Leaves, found, thrown, out_of_fuel, Found, nothing, branch, leaf, inspect, merge, then_merge,
  visit, leaf_loop, paths_found, leaf_paths,
}

module _ ⦃J : Jsoncons⦄ ⦃B : BoostText⦄ (db : Database) where
  open J use {json_query_paths}

  -- Each branch that a path selects lies deeper in the tree: the path to its children has a
  -- smaller height.
  abbrev pub Descends : (VssPath → ℕ) → Type 0
  Descends height =
      (path : VssPath) (vs : Items) (jpath : Json) (text : String)
      → json_query_paths db.data_tree path.jsonpath ≡ ok (arr vs)
      → Member jpath (items vs)
      → inspect db jpath ≡ ok (branch text)
      → height (from_json (text <> "['children'][*]") path.gen1) < height path

  then_merge-ends :
      (paths : List VssPath) (next : List VssPath → Leaves) (l : Leaves)
      → l ≢ out_of_fuel
      → ((more : List VssPath) → next more ≢ out_of_fuel)
      → then_merge paths next l ≢ out_of_fuel
  then_merge-ends paths next (found more) ends ends' = ends' (merge paths more)
  then_merge-ends paths next (thrown e) ends ends' = λ q. cc
  then_merge-ends paths next out_of_fuel ends ends' = absurd (ends refl)

  visit-ends :
      (gen1 : Bool) (recurse : VssPath → Leaves) (next : List VssPath → Leaves)
      (paths : List VssPath) (r : Result Found)
      → ((text : String)
          → r ≡ ok (branch text)
          → recurse (from_json (text <> "['children'][*]") gen1) ≢ out_of_fuel)
      → ((more : List VssPath) → next more ≢ out_of_fuel)
      → visit gen1 recurse next paths r ≢ out_of_fuel
  unfolding visit
  visit-ends gen1 recurse next paths (err e) deeper ends = λ q. cc
  visit-ends gen1 recurse next paths (ok nothing) deeper ends = ends paths
  visit-ends gen1 recurse next paths (ok (branch text)) deeper ends =
      then_merge-ends paths next _ (deeper text refl) ends
  visit-ends gen1 recurse next paths (ok (leaf text)) deeper ends = ends _

  leaf_loop-ends :
      (gen1 : Bool) (recurse : VssPath → Leaves) (jpaths : List Json) (paths : List VssPath)
      → ((jpath : Json) (text : String)
          → Member jpath jpaths
          → inspect db jpath ≡ ok (branch text)
          → recurse (from_json (text <> "['children'][*]") gen1) ≢ out_of_fuel)
      → leaf_loop db gen1 recurse jpaths paths ≢ out_of_fuel
  unfolding leaf_loop
  leaf_loop-ends gen1 recurse [] paths deeper = λ q. cc
  leaf_loop-ends gen1 recurse (jpath ∷ rest) paths deeper =
      visit-ends gen1 recurse (leaf_loop db gen1 recurse rest) paths (inspect db jpath)
        (λ text e. deeper jpath text first e)
        (λ more. leaf_loop-ends gen1 recurse rest more (λ j text m e. deeper j text (later m) e))

  paths_found-ends :
      (gen1 : Bool) (recurse : VssPath → Leaves) (r : Result Json)
      → ((vs : Items) (jpath : Json) (text : String)
          → r ≡ ok (arr vs)
          → Member jpath (items vs)
          → inspect db jpath ≡ ok (branch text)
          → recurse (from_json (text <> "['children'][*]") gen1) ≢ out_of_fuel)
      → paths_found db gen1 recurse r ≢ out_of_fuel
  paths_found-ends gen1 recurse (err (jsonpath_error msg)) deeper = λ q. cc
  paths_found-ends gen1 recurse (err e) deeper = λ q. cc
  paths_found-ends gen1 recurse (ok (arr vs)) deeper =
      leaf_loop-ends gen1 recurse (items vs) [] (λ j text m e. deeper vs j text refl m e)
  paths_found-ends gen1 recurse (ok other) deeper = λ q. cc

  -- If branches lie deeper in the tree by some measure, more fuel than the measure of the path is
  -- enough: getLeafPaths returns a list or throws.
  pub leaf_paths-ends :
      (height : VssPath → ℕ) (fuel : ℕ) (path : VssPath)
      → Descends height
      → height path < fuel
      → leaf_paths fuel db path ≢ out_of_fuel
  unfolding leaf_paths
  leaf_paths-ends height zero path descends enough = absurd (omega arith)
  leaf_paths-ends height (suc fuel) path descends enough =
      paths_found-ends path.gen1 (leaf_paths fuel db) (json_query_paths db.data_tree path.jsonpath)
        (λ vs jpath text q m e.
          leaf_paths-ends height fuel (from_json (text <> "['children'][*]") path.gen1) descends
            (omega (arith, descends path vs jpath text q m e, enough)))
