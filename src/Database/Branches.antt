-- ===== src/Database/Branches.antt =====
-- What getLeafPaths returns.
use kuksa_val.Exception.{jsonpath_error, Result, ok, err, >>=-eq-ok, ok-injective}
use kuksa_val.External.{BoostText, Jsoncons}
use kuksa_val.Json.{Json, arr, items, size}
use kuksa_val.Path.{VssPath, from_json}
use kuksa_val.Prelude.{
  ℕ, zero, suc, String, ◌<>◌, ◌≡◌, refl, subst, Bool, false, inl, inr, List, [], ◌∷◌, ◌++◌, All,
  ◌==◌, Bool-cases,
}
use kuksa_val.Database.Nodes.{Database}
use kuksa_val.Database.Leaves.{
  path_before, merge_into, merge, Leaves, found, thrown, out_of_fuel, Found, nothing, branch, leaf,
  is_branch, classify, inspect, visit, leaf_loop, leaf_paths, paths_found, then_merge,
}

merge_into-All :
    (P : VssPath → Type 0) (x : VssPath) (others : List VssPath → List VssPath) (ys : List VssPath)
    → P x
    → ((zs : List VssPath) → All P zs → All P (others zs))
    → All P ys
    → All P (merge_into x others ys)
unfolding merge_into
merge_into-All P x others [] px keeps h = (px, keeps [] tt)
merge_into-All P x others (y ∷ ys) px keeps h = elim (Bool-cases (path_before y x)) [
  | inl e ↦ rw e (h.0, merge_into-All P x others ys px keeps h.1)
  | inr e ↦ rw e (px, keeps (y ∷ ys) h)
]

merge-All :
    (P : VssPath → Type 0) (xs ys : List VssPath) → All P xs → All P ys → All P (merge xs ys)
unfolding merge
merge-All P [] ys hx hy = hy
merge-All P (x ∷ xs) ys hx hy =
    merge_into-All P x (merge xs) ys hx.0 (λ zs hz. merge-All P xs zs hx.1 hz) hy

All-snoc :
    (P : VssPath → Type 0) (xs : List VssPath) (x : VssPath) → All P xs → P x → All P (xs ++ x ∷ [])
All-snoc P [] x h p = (p, tt)
All-snoc P (y ∷ ys) x h p = (h.0, All-snoc P ys x h.1 p)

module _ ⦃J : Jsoncons⦄ ⦃B : BoostText⦄ (db : Database) (gen1 : Bool) where
  open J use {json_query, json_query_paths, as_string}

  -- The path of a node that is in the tree and is no branch, spelled the way the client asked.
  pub record IsLeaf (p : VssPath) : Type 0 where
    pub text : String
    pub spelled : p ≡ from_json text gen1
    pub node : Json
    pub selected : json_query db.data_tree text ≡ ok node
    pub present : (size node == 0) ≡ false
    pub no_branch : is_branch node ≡ ok false

  abbrev pub AllLeaves : Leaves → Type 0
  AllLeaves (found ps) = All IsLeaf ps
  AllLeaves _ = Unit

  gen1-from_json : (text : String) → (from_json text gen1).gen1 ≡ gen1
  unfolding from_json
  gen1-from_json text = refl

  nothing-ne-leaf : (t : String) → nothing ≡ leaf t → ⊥
  nothing-ne-leaf t h = cc

  branch-ne-leaf : (s t : String) → branch s ≡ leaf t → ⊥
  branch-ne-leaf s t h = cc

  leaf-injective : (s t : String) → leaf s ≡ leaf t → s ≡ t
  leaf-injective s t h = cc

  classify-leaf :
      (text text' : String) (res : Json)
      → classify text res ≡ ok (leaf text')
      → (text ≡ text') × ((size res == 0) ≡ false) × (is_branch res ≡ ok false)
  unfolding classify
  classify-leaf text text' res h = elim (Bool-cases (size res == 0)) [
    | inl empty ↦ absurd (nothing-ne-leaf text' (ok-injective (rw empty at h)))
    | inr full ↦
        let (b, tested, h') = >>=-eq-ok (is_branch res) _ (rw full at h) in
        elim (Bool-cases b) [
          | inl is_one ↦ absurd (branch-ne-leaf text text' (ok-injective (rw is_one at h')))
          | inr is_none ↦ (
            leaf-injective text text' (ok-injective (rw is_none at h')),
            full,
            rw is_none at tested,
          )
        ]
  ]

  inspect-IsLeaf :
      (jpath : Json) (text : String)
      → inspect db jpath ≡ ok (leaf text)
      → IsLeaf (from_json text gen1)
  unfolding inspect
  inspect-IsLeaf jpath text h =
      let (text', _, h₁) = >>=-eq-ok (as_string jpath) _ h in
      let (res, selected, h₂) = >>=-eq-ok (json_query db.data_tree text') _ h₁ in
      let (same, present, no_branch) = classify-leaf text' text res h₂ in
      record {
        text = text;
        spelled = refl;
        node = res;
        selected = subst (λ (t : String). json_query db.data_tree t ≡ ok res) same selected;
        present = present;
        no_branch = no_branch;
      }

  visit-AllLeaves :
      (recurse : VssPath → Leaves) (next : List VssPath → Leaves) (paths : List VssPath)
      (jpath : Json) (r : Result Found)
      → inspect db jpath ≡ r
      → ((text : String) → AllLeaves (recurse (from_json text gen1)))
      → ((more : List VssPath) → All IsLeaf more → AllLeaves (next more))
      → All IsLeaf paths
      → AllLeaves (visit gen1 recurse next paths r)
  unfolding visit
  visit-AllLeaves recurse next paths jpath (err e) q ih continue h = tt
  visit-AllLeaves recurse next paths jpath (ok nothing) q ih continue h = continue paths h
  visit-AllLeaves recurse next paths jpath (ok (branch text)) q ih continue h =
      joined (recurse (from_json (text <> "['children'][*]") gen1)) (ih _)
    where
      joined : (l : Leaves) → AllLeaves l → AllLeaves (then_merge paths next l)
      joined (found more) k = continue _ (merge-All IsLeaf paths more h k)
      joined (thrown e) k = tt
      joined out_of_fuel k = tt
  visit-AllLeaves recurse next paths jpath (ok (leaf text)) q ih continue h =
      continue _ (All-snoc IsLeaf paths _ h (inspect-IsLeaf jpath text q))

  leaf_loop-AllLeaves :
      (recurse : VssPath → Leaves) (jpaths : List Json) (paths : List VssPath)
      → ((text : String) → AllLeaves (recurse (from_json text gen1)))
      → All IsLeaf paths
      → AllLeaves (leaf_loop db gen1 recurse jpaths paths)
  unfolding leaf_loop
  leaf_loop-AllLeaves recurse [] paths ih h = h
  leaf_loop-AllLeaves recurse (jpath ∷ rest) paths ih h =
      visit-AllLeaves recurse (leaf_loop db gen1 recurse rest) paths jpath (inspect db jpath) refl
        ih (λ more k. leaf_loop-AllLeaves recurse rest more ih k) h

  paths_found-AllLeaves :
      (recurse : VssPath → Leaves) (r : Result Json)
      → ((text : String) → AllLeaves (recurse (from_json text gen1)))
      → AllLeaves (paths_found db gen1 recurse r)
  paths_found-AllLeaves recurse (err (jsonpath_error msg)) ih = tt
  paths_found-AllLeaves recurse (err e) ih = tt
  paths_found-AllLeaves recurse (ok (arr vs)) ih = leaf_loop-AllLeaves recurse (items vs) [] ih tt
  paths_found-AllLeaves recurse (ok _) ih = tt

  leaf_paths-AllLeaves :
      (fuel : ℕ) (path : VssPath) → path.gen1 ≡ gen1 → AllLeaves (leaf_paths fuel db path)
  unfolding leaf_paths
  leaf_paths-AllLeaves zero path same = tt
  leaf_paths-AllLeaves (suc fuel) path same = rw same (
      paths_found-AllLeaves (leaf_paths fuel db) (json_query_paths db.data_tree path.jsonpath)
        (λ text. leaf_paths-AllLeaves fuel (from_json text gen1) (gen1-from_json text)))

module _ ⦃J : Jsoncons⦄ ⦃B : BoostText⦄ where
  -- Every path that getLeafPaths returns selects a node that is there and is no branch, and is
  -- spelled in the generation, Gen1 or Gen2, of the path that was asked for.
  pub leaf_paths-IsLeaf :
      (fuel : ℕ) (db : Database) (path : VssPath) (paths : List VssPath)
      → leaf_paths fuel db path ≡ found paths
      → All (IsLeaf db path.gen1) paths
  leaf_paths-IsLeaf fuel db path paths e =
      subst (AllLeaves db path.gen1) e (leaf_paths-AllLeaves db path.gen1 fuel path refl)
