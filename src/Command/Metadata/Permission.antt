-- ===== src/Command/Metadata/Permission.antt =====
-- What the requests that update the tree change.
use kuksa_val.Channel.{KuksaChannel}
use kuksa_val.Command.{RequestValidator}
use kuksa_val.Command.Metadata.{
  update_answer, tree_update, tree_request, tree_validated, process_update_vss_tree,
  metadata_update, metadata_request, metadata_validated, metadata_path, process_update_meta_data,
  update_members,
}
use kuksa_val.Database.Metadata.{update_json_tree, update_meta_data, update_json_tree-err}
use kuksa_val.Database.Nodes.{Database}
use kuksa_val.Exception.{Exception, Result, ok, err, ok-injective}
use kuksa_val.External.{BoostText, Jsoncons, Clock}
use kuksa_val.Json.{Json, contains, assign, lookup}
use kuksa_val.Prelude.{String, ◌≡◌, refl, sym, ap, true, false}
use kuksa_val.Subscription.State.{member_of}

module _ ⦃J : Jsoncons⦄ ⦃C : Clock⦄ ⦃V : RequestValidator⦄ where
  tree_update-kept :
      (channel : KuksaChannel) (db : Database) (r : Result Json)
      → channel.modify_tree ≡ false
      → (tree_update channel db r).1 ≡ db
  unfolding update_json_tree
  tree_update-kept channel db (err e) denied = refl
  tree_update-kept channel db (ok tree) denied = rw denied

  tree_request-kept :
      (channel : KuksaChannel) (request : Json) (db : Database) (r : Result Json)
      → channel.modify_tree ≡ false
      → (tree_request channel request db r).1 ≡ db
  tree_request-kept channel request db (err e) denied = refl
  tree_request-kept channel request db (ok id) denied = tree_update-kept channel db _ denied

  tree_validated-kept :
      (channel : KuksaChannel) (request : Json) (db : Database) (r : Result (Unit {0}))
      → channel.modify_tree ≡ false
      → (tree_validated channel request db r).1 ≡ db
  tree_validated-kept channel request db (err e) denied = refl
  tree_validated-kept channel request db (ok tt) denied =
      tree_request-kept channel request db _ denied

  -- An answer with an error, or an exception, means that the update has thrown.
  update_answer-err :
      (action : String) (request_id answer : Json) (r : Result (Unit {0}))
      → update_answer action request_id r ≡ ok answer
      → contains "error" answer ≡ true
      → (e : Exception) × (r ≡ err e)
  unfolding update_answer update_members assign lookup
  update_answer-err action request_id answer (err e) h has = (e, refl)
  update_answer-err action request_id answer (ok tt) h has =
      absurd (not_both (ap (contains "error") (sym (ok-injective h))) has)
    where
      not_both : contains "error" answer ≡ false → contains "error" answer ≡ true → ⊥
      not_both a b = cc

  tree_update-err :
      (channel : KuksaChannel) (db : Database) (r : Result Json) (e : Exception)
      → (tree_update channel db r).0 ≡ err e
      → (tree_update channel db r).1.data_tree ≡ db.data_tree
  tree_update-err channel db (err d) e h = refl
  tree_update-err channel db (ok tree) e h = update_json_tree-err channel tree db e h

  tree_request-err :
      (channel : KuksaChannel) (request answer : Json) (db : Database) (r : Result Json)
      → (tree_request channel request db r).0 ≡ ok answer
      → contains "error" answer ≡ true
      → (tree_request channel request db r).1.data_tree ≡ db.data_tree
  tree_request-err channel request answer db (err e) h has = refl
  tree_request-err channel request answer db (ok id) h has =
      let (e, thrown) = update_answer-err "updateVSSTree" id answer _ h has in
      tree_update-err channel db (member_of "metadata" request) e thrown

  tree_validated-err :
      (channel : KuksaChannel) (request answer : Json) (db : Database) (r : Result (Unit {0}))
      → (tree_validated channel request db r).0 ≡ ok answer
      → contains "error" answer ≡ true
      → (tree_validated channel request db r).1.data_tree ≡ db.data_tree
  tree_validated-err channel request answer db (err e) h has = refl
  tree_validated-err channel request answer db (ok tt) h has =
      tree_request-err channel request answer db _ h has

  -- A request to update the tree that is answered with an error has left the data tree as it was.
  pub process_update_vss_tree-err :
      (channel : KuksaChannel) (request answer : Json) (db : Database)
      → (process_update_vss_tree channel request db).0 ≡ ok answer
      → contains "error" answer ≡ true
      → (process_update_vss_tree channel request db).1.data_tree ≡ db.data_tree
  unfolding process_update_vss_tree
  process_update_vss_tree-err channel request answer db h has =
      tree_validated-err channel request answer db (V.validate_update_vss_tree request) h has

  module _ ⦃B : BoostText⦄ where
    metadata_update-kept :
        (channel : KuksaChannel) (path : String) (db : Database) (r : Result Json)
        → channel.modify_tree ≡ false
        → (metadata_update channel path db r).1 ≡ db
    unfolding update_meta_data
    metadata_update-kept channel path db (err e) denied = refl
    metadata_update-kept channel path db (ok metadata) denied = rw denied

    metadata_request-kept :
        (channel : KuksaChannel) (request : Json) (path : String) (db : Database) (r : Result Json)
        → channel.modify_tree ≡ false
        → (metadata_request channel request path db r).1 ≡ db
    metadata_request-kept channel request path db (err e) denied = refl
    metadata_request-kept channel request path db (ok id) denied =
        metadata_update-kept channel path db _ denied

    metadata_validated-kept :
        (channel : KuksaChannel) (request : Json) (path : String) (db : Database)
        (r : Result (Unit {0}))
        → channel.modify_tree ≡ false
        → (metadata_validated channel request path db r).1 ≡ db
    metadata_validated-kept channel request path db (err e) denied = refl
    metadata_validated-kept channel request path db (ok tt) denied =
        metadata_request-kept channel request path db _ denied

    metadata_path-kept :
        (channel : KuksaChannel) (request : Json) (db : Database) (r : Result String)
        → channel.modify_tree ≡ false
        → (metadata_path channel request db r).1 ≡ db
    metadata_path-kept channel request db (err e) denied = refl
    metadata_path-kept channel request db (ok path) denied =
        metadata_validated-kept channel request path db _ denied

    -- No request of a channel without the right to modify the tree, valid or not, changes either
    -- tree by a request to update the tree or its metadata.
    pub process_updates_denied :
        (channel : KuksaChannel) (request : Json) (db : Database)
        → channel.modify_tree ≡ false
        → ((process_update_vss_tree channel request db).1 ≡ db)
          × ((process_update_meta_data channel request db).1 ≡ db)
    unfolding process_update_vss_tree process_update_meta_data
    process_updates_denied channel request db denied = (
      tree_validated-kept channel request db _ denied,
      metadata_path-kept channel request db _ denied,
    )
