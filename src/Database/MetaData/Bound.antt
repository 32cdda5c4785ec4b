-- ===== src/Database/MetaData/Bound.antt =====
-- When getMetaData comes to an answer: the arrays for the parents hold 16 elements.
use kuksa_val.Database.MetaData.{
  Outcome, answered, is_skipped, own_name, record_node, meta_loop, node_at, get_vss_tokens,
  meta_of_paths, meta_of_text, meta_of_tokens, get_meta_data,
}
use kuksa_val.Database.MetaData.Tokens.{get_vss_tokens-ends}
use kuksa_val.Database.Nodes.{Database}
use kuksa_val.Exception.{Result, ok, err}
use kuksa_val.External.{Jsoncons}
use kuksa_val.Json.{Json, arr, item, empty}
use kuksa_val.Path.{VssPath}
use kuksa_val.Prelude.{
  ℕ, suc, ◌≤◌, ◌+◌, String, ◌<>◌, ◌≡◌, ◌≢◌, refl, false, Option, none, some, List, [], ◌∷◌, ◌==◌,
  if◌then◌else◌, arith, length, Bool-cases, inl, inr,
}

-- How many parents a path makes: one for each token but the words "children" between two others.
abbrev pub parents_of : List String → ℕ
parents_of [] = 0
parents_of (token ∷ rest) = if is_skipped token rest then parents_of rest else suc (parents_of rest)

module _ ⦃J : Jsoncons⦄ (db : Database) where
  open J use {json_query_paths, as_string}

  -- An answer or an exception.
  abbrev pub IsAnswered : Outcome → Type 0
  IsAnswered outcome = (result : Result Json) × (outcome ≡ answered result)

  record_node-IsAnswered :
      (token : String) (rest : List String) (next : List (String × Json) → Json → Outcome)
      (parents : List (String × Json)) (r : Result (Option Json))
      → suc (length parents) ≤ 16
      → ((parent : String × Json) (result : Json) → IsAnswered (next (parent ∷ parents) result))
      → IsAnswered (record_node token rest next parents r)
  record_node-IsAnswered token rest next parents (err e) room ends = (err e, refl)
  record_node-IsAnswered token rest next parents (ok none) room ends = (_, refl)
  record_node-IsAnswered token rest next parents (ok (some node)) room ends =
      elim (Bool-cases (length parents == 16)) [
        | inl full ↦ absurd (ground (arith, full, room))
        | inr free ↦ kept free
      ]
    where
      kept :
          (length parents == 16) ≡ false
          → IsAnswered (record_node token rest next parents (ok (some node)))
      kept free = simp free (ends (token, own_name token rest node) (own_name token rest node))

  meta_loop-IsAnswered :
      (path : String) (tokens : List String) (parents : List (String × Json)) (result : Json)
      → length parents + parents_of tokens ≤ 16
      → IsAnswered (meta_loop db path tokens parents result)
  unfolding meta_loop
  meta_loop-IsAnswered path [] parents result room = (_, refl)
  meta_loop-IsAnswered path (token ∷ rest) parents result room =
      elim (Bool-cases (is_skipped token rest)) [
        | inl skipped ↦ simp skipped (
            meta_loop-IsAnswered (path <> "." <> token) rest parents result
              (ground (arith, skipped, room)))
        | inr kept ↦ simp kept (
            record_node-IsAnswered token rest (meta_loop db (path <> "." <> token) rest) parents
              (node_at db (path <> "." <> token)) (ground (arith, kept, room))
              (λ parent node.
                meta_loop-IsAnswered (path <> "." <> token) rest (parent ∷ parents) node
                  (ground (arith, kept, room))))
      ]

  -- The parents that getMetaData makes for what the query for paths has found.
  abbrev pub parents_of_tokens : Option (List String) → ℕ
  parents_of_tokens none = 0
  parents_of_tokens (some tokens) = parents_of tokens

  abbrev pub parents_of_text : Result String → ℕ
  parents_of_text (err e) = 0
  parents_of_text (ok text) = parents_of_tokens (get_vss_tokens text)

  abbrev pub parents_needed : Result Json → ℕ
  parents_needed (ok (arr (item path paths))) = parents_of_text (as_string path)
  parents_needed found = 0

  tokens-IsAnswered :
      (tokens : Option (List String))
      → tokens ≢ none
      → parents_of_tokens tokens ≤ 16
      → IsAnswered (meta_of_tokens db tokens)
  tokens-IsAnswered none ends fits = absurd (ends refl)
  tokens-IsAnswered (some tokens) ends fits =
      meta_loop-IsAnswered "$" tokens [] empty (omega (arith, fits))

  text-IsAnswered :
      (text : Result String) → parents_of_text text ≤ 16 → IsAnswered (meta_of_text db text)
  text-IsAnswered (err e) fits = (err e, refl)
  text-IsAnswered (ok text) fits =
      tokens-IsAnswered (get_vss_tokens text) (get_vss_tokens-ends text) fits

  paths-IsAnswered :
      (found : Result Json) → parents_needed found ≤ 16 → IsAnswered (meta_of_paths db found)
  paths-IsAnswered (err e) fits = (err e, refl)
  paths-IsAnswered (ok (arr (item path paths))) fits = text-IsAnswered (as_string path) fits
  paths-IsAnswered (ok found) fits = (_, refl)

  -- If the first path that the query finds makes at most 16 parents, getMetaData comes to an
  -- answer or an exception: it writes within its arrays, and the loop over the tokens has ended.
  pub get_meta_data-IsAnswered :
      (path : VssPath)
      → parents_needed (json_query_paths db.meta_tree path.jsonpath) ≤ 16
      → IsAnswered (get_meta_data db path)
  unfolding get_meta_data
  get_meta_data-IsAnswered path fits =
      paths-IsAnswered (json_query_paths db.meta_tree path.jsonpath) fits
