-- ===== src/Command/Metadata.antt =====
-- VssCommandProcessor.cpp: processUpdateVSSTree and processUpdateMetaData.
pub mod Permission
use kuksa_val.Channel.{KuksaChannel}
use kuksa_val.Command.{RequestValidator, invalid_request, request_text}
use kuksa_val.Database.Metadata.{update_json_tree, update_meta_data}
use kuksa_val.Database.Nodes.{Database}
use kuksa_val.Exception.{Exception, gen_exception, no_permission, what, Result, ok, err, ◌>>=◌}
use kuksa_val.External.{BoostText, Jsoncons, Clock}
use kuksa_val.Json.{Json, str, obj, Members, end, assign}
use kuksa_val.Path.{from_vss}
use kuksa_val.Prelude.{String, ◌<>◌}
use kuksa_val.Response.{error_of, no_access, malformed_request}
use kuksa_val.Subscription.State.{member_of}

module _ ⦃J : Jsoncons⦄ ⦃C : Clock⦄ ⦃V : RequestValidator⦄ where
  unfoldable pub update_members : String → Json → Members
  unfolding assign
  update_members action request_id =
      assign "ts" (str C.time_stamp)
        (assign "requestId" request_id (assign "action" (str action) end))

  -- The catch clauses around the update; the last one answers for "get".
  unfoldable pub update_error : String → Json → Exception → Result Json
  unfolding update_members error_of what assign
  update_error action request_id (gen_exception msg) =
      ok (
        obj
          (assign "error" (error_of "401" "Unknown error" msg) (update_members action request_id)))
  update_error action request_id (no_permission msg) = do
    text ← J.as_string request_id
    ok (no_access text action msg)
  update_error action request_id e = do
    text ← J.as_string request_id
    ok (malformed_request text "get" ("Unhandled error: " <> what e))

  unfoldable pub update_answer : String → Json → Result (Unit {0}) → Result Json
  unfolding update_members update_error
  update_answer action request_id (ok tt) = ok (obj (update_members action request_id))
  update_answer action request_id (err e) = update_error action request_id e

  -- request["metadata"] is read inside the try block.
  abbrev pub tree_update : KuksaChannel → Database → Result Json → Result (Unit {0}) × Database
  tree_update channel db (err e) = (err e, db)
  tree_update channel db (ok tree) = update_json_tree channel tree db

  abbrev pub tree_request : KuksaChannel → Json → Database → Result Json → Result Json × Database
  tree_request channel request db (err e) = (err e, db)
  tree_request channel request db (ok request_id) =
      let outcome = tree_update channel db (member_of "metadata" request) in
      (update_answer "updateVSSTree" request_id outcome.0, outcome.1)

  abbrev pub tree_validated :
      KuksaChannel → Json → Database → Result (Unit {0}) → Result Json × Database
  tree_validated channel request db (err e) = (invalid_request "updateVSSTree" request e, db)
  tree_validated channel request db (ok tt) =
      tree_request channel request db (member_of "requestId" request)

  unfoldable pub process_update_vss_tree : KuksaChannel → Json → Database → Result Json × Database
  unfolding update_answer
  process_update_vss_tree channel request db =
      tree_validated channel request db (V.validate_update_vss_tree request)

  module _ ⦃B : BoostText⦄ where
    abbrev pub metadata_update :
        KuksaChannel → String → Database → Result Json → Result (Unit {0}) × Database
    metadata_update channel path db (err e) = (err e, db)
    metadata_update channel path db (ok metadata) =
        update_meta_data channel (from_vss path) metadata db

    abbrev pub metadata_request :
        KuksaChannel → Json → String → Database → Result Json → Result Json × Database
    metadata_request channel request path db (err e) = (err e, db)
    metadata_request channel request path db (ok request_id) =
        let outcome = metadata_update channel path db (member_of "metadata" request) in
        (update_answer "updateMetaData" request_id outcome.0, outcome.1)

    abbrev pub metadata_validated :
        KuksaChannel → Json → String → Database → Result (Unit {0}) → Result Json × Database
    metadata_validated channel request path db (err e) =
        (invalid_request "updateMetaData" request e, db)
    metadata_validated channel request path db (ok tt) =
        metadata_request channel request path db (member_of "requestId" request)

    -- The path is read before the request is validated.
    abbrev pub metadata_path :
        KuksaChannel → Json → Database → Result String → Result Json × Database
    metadata_path channel request db (err e) = (err e, db)
    metadata_path channel request db (ok path) =
        metadata_validated channel request path db (V.validate_update_metadata request)

    unfoldable pub process_update_meta_data :
        KuksaChannel → Json → Database → Result Json × Database
    unfolding update_answer request_text
    process_update_meta_data channel request db =
        metadata_path channel request db (request_text "path" request)
