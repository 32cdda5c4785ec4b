-- ===== src/Database/Metadata.antt =====
-- VssDatabase::updateJsonTree (both overloads) and updateMetaData.
use kuksa_val.Channel.{KuksaChannel}
use kuksa_val.Exception.{
  Exception, no_permission, not_valid, gen_exception, what, std_error, Result, ok, err, ◌>>=◌,
  ok-ne-err,
}
use kuksa_val.External.{Jsoncons}
use kuksa_val.Json.{Json, arr, obj, Items, nil, item, assign, find}
use kuksa_val.Path.{VssPath}
use kuksa_val.Prelude.{
  String, ◌≡◌, refl, ap, inl, inr, Bool-cases, ◌<>◌, false, Option, some, if◌then◌else◌,
}
use kuksa_val.Database.Nodes.{Database, is_the_text}
use kuksa_val.Database.Defaults.{apply_default_values}

-- The patches whose operation is not "remove".
unfoldable pub without_removals : Items → Items
without_removals nil = nil
without_removals (item patch rest) =
    let kept = without_removals rest in
    if is_the_text "remove" (find "op" patch) then kept else item patch kept

module _ ⦃J : Jsoncons⦄ where
  open J use {from_diff, apply_patch, json_query, json_replace, merge_or_update}

  abbrev pub patch_items : Json → Result Items
  patch_items (arr patches) = ok patches
  patch_items _ = err (std_error "Not an array")

  abbrev pub as_gen_exception : Result Json → Result Json
  as_gen_exception (ok j) = ok j
  as_gen_exception (err e) = err (gen_exception (what e))

  -- updateJsonTree(sourceTree, jsonTree): the new source tree.
  unfoldable pub update_tree : Json → Json → Result Json
  unfolding without_removals what
  update_tree source tree = do
    patches ← patch_items (from_diff source tree)
    as_gen_exception (apply_patch source (arr (without_removals patches)))

  abbrev pub default_vehicle : Json → Option Json → Result Json
  default_vehicle (obj ms) (some vehicle) = do
    vehicle' ← apply_default_values vehicle
    ok (obj (assign "Vehicle" vehicle' ms))
  default_vehicle tree _ = ok tree

  -- The metadata tree is written before the data tree is tried.
  abbrev pub update_data : Json → Database → Result Json → Result (Unit {0}) × Database
  update_data tree db (err e) = (err e, db)
  update_data tree db (ok data_tree) = (ok tt, record db { data_tree = data_tree })

  abbrev pub update_meta : Json → Database → Result Json → Result (Unit {0}) × Database
  update_meta tree db (err e) = (err e, db)
  update_meta tree db (ok meta_tree) =
      update_data tree (record db { meta_tree = meta_tree }) (update_tree db.data_tree tree)

  abbrev pub update_both : Database → Result Json → Result (Unit {0}) × Database
  update_both db (err e) = (err e, db)
  update_both db (ok tree) = update_meta tree db (update_tree db.meta_tree tree)

  -- updateJsonTree(channel, jsonTree)
  unfoldable pub update_json_tree : KuksaChannel → Json → Database → Result (Unit {0}) × Database
  unfolding update_tree
  update_json_tree channel tree db =
      if channel.modify_tree
      then update_both db (default_vehicle tree (find "Vehicle" tree))
      else (err (no_permission "do not have write access for updating json tree or is invalid"), db)

  abbrev pub single : String → Json → Result Json
  single path (arr (item v nil)) = ok v
  single path (obj ms) = ok (obj ms)
  single path _ = err (not_valid (path <> " is not a valid path"))

  -- The nodes of both trees with the metadata merged in, before anything is written.
  unfoldable pub merged_nodes : Database → String → Json → Result (Json × Json)
  merged_nodes db path metadata = do
    meta_found ← json_query db.meta_tree path
    data_found ← json_query db.data_tree path
    meta_node ← single path meta_found
    data_node ← single path data_found
    meta_merged ← merge_or_update meta_node metadata
    data_merged ← merge_or_update data_node metadata
    ok (meta_merged, data_merged)

  abbrev pub replace_data : Database → Result Json → Result (Unit {0}) × Database
  replace_data db (err e) = (err e, db)
  replace_data db (ok data_tree) = (ok tt, record db { data_tree = data_tree })

  abbrev pub replace_meta : Database → String → Json → Result Json → Result (Unit {0}) × Database
  replace_meta db path data_merged (err e) = (err e, db)
  replace_meta db path data_merged (ok meta_tree) =
      replace_data (record db { meta_tree = meta_tree })
        (json_replace db.data_tree path data_merged)

  abbrev pub replace_both : Database → String → Result (Json × Json) → Result (Unit {0}) × Database
  replace_both db path (err e) = (err e, db)
  replace_both db path (ok (meta_merged, data_merged)) =
      replace_meta db path data_merged (json_replace db.meta_tree path meta_merged)

  unfoldable pub update_meta_data :
      KuksaChannel → VssPath → Json → Database → Result (Unit {0}) × Database
  unfolding merged_nodes
  update_meta_data channel path metadata db =
      if channel.modify_tree
      then replace_both db path.jsonpath (merged_nodes db path.jsonpath metadata)
      else (err (no_permission "do not have write access for updating MetaData or is invalid"), db)

  -- A channel without the right to modify the tree changes neither tree by either operation, and
  -- is told so by a noPermissionException.
  pub updates_need_permission :
      (channel : KuksaChannel) (path : VssPath) (tree metadata : Json) (db : Database)
      → channel.modify_tree ≡ false
      → ((update_json_tree channel tree db).1 ≡ db)
        × ((update_meta_data channel path metadata db).1 ≡ db)
        × ((msg : String) × ((update_json_tree channel tree db).0 ≡ err (no_permission msg)))
        × ((msg : String) × ((update_meta_data channel path metadata db).0
              ≡ err (no_permission msg)))
  unfolding update_json_tree update_meta_data
  updates_need_permission channel path tree metadata db denied = (
    rw denied,
    rw denied,
    ("do not have write access for updating json tree or is invalid", rw denied),
    ("do not have write access for updating MetaData or is invalid", rw denied),
  )

  update_data-kept :
      (tree : Json) (db : Database) (r : Result Json) (e : Exception)
      → (update_data tree db r).0 ≡ err e
      → (update_data tree db r).1 ≡ db
  update_data-kept tree db (err d) e h = refl
  update_data-kept tree db (ok t) e h = absurd (ok-ne-err h)

  update_meta-data_tree :
      (tree : Json) (db : Database) (r : Result Json) (e : Exception)
      → (update_meta tree db r).0 ≡ err e
      → (update_meta tree db r).1.data_tree ≡ db.data_tree
  update_meta-data_tree tree db (err d) e h = refl
  update_meta-data_tree tree db (ok t) e h =
      ap (λ (x : Database). x.data_tree)
        (update_data-kept tree _ (update_tree db.data_tree tree) e h)

  update_both-data_tree :
      (db : Database) (r : Result Json) (e : Exception)
      → (update_both db r).0 ≡ err e
      → (update_both db r).1.data_tree ≡ db.data_tree
  update_both-data_tree db (err d) e h = refl
  update_both-data_tree db (ok tree) e h =
      update_meta-data_tree tree db (update_tree db.meta_tree tree) e h

  -- An update of the tree that throws leaves the data tree as it was.
  pub update_json_tree-err :
      (channel : KuksaChannel) (tree : Json) (db : Database) (e : Exception)
      → (update_json_tree channel tree db).0 ≡ err e
      → (update_json_tree channel tree db).1.data_tree ≡ db.data_tree
  unfolding update_json_tree
  update_json_tree-err channel tree db e h = elim (Bool-cases channel.modify_tree) [
    | inl allowed ↦
        rw allowed (
          update_both-data_tree db (default_vehicle tree (find "Vehicle" tree)) e (rw allowed at h))
    | inr denied ↦ rw denied
  ]
