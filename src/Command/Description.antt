-- ===== src/Command/Description.antt =====
-- VssCommandProcessor.cpp: processGetMetaData.
use kuksa_val.Command.{RequestValidator, invalid_request, request_text}
use kuksa_val.Database.MetaData.{Outcome, answered, get_meta_data}
use kuksa_val.Database.Nodes.{Database}
use kuksa_val.Exception.{Result, ok, err}
use kuksa_val.External.{BoostText, Jsoncons, Clock}
use kuksa_val.Json.{Json, str, obj, Members, end, assign, size}
use kuksa_val.Path.{VssPath, from_vss}
use kuksa_val.Prelude.{String, ◌<>◌, ◌==◌, if◌then◌else◌}
use kuksa_val.Response.{error_of}
use kuksa_val.Subscription.State.{member_of}

module _ ⦃J : Jsoncons⦄ ⦃B : BoostText⦄ ⦃C : Clock⦄ ⦃V : RequestValidator⦄ where
  unfoldable pub description_members : Json → Members
  unfolding assign
  description_members request_id =
      assign "ts" (str C.time_stamp)
        (assign "requestId" request_id (assign "action" (str "getMetaData") end))

  -- Metadata without members are reported as a path that is not there.
  unfoldable pub description_answer : VssPath → Json → Json → Json
  unfolding description_members error_of assign
  description_answer path request_id st =
      if size st == 0
      then obj (
          assign "error"
            (error_of "404" "Path not found"
              ("In database no metadata found for path " <> path.vsspath))
            (description_members request_id))
      else obj (assign "metadata" st (description_members request_id))

  abbrev pub described : VssPath → Json → Outcome → Outcome
  described path request_id (answered (ok st)) =
      answered (ok (description_answer path request_id st))
  described path request_id outcome = outcome

  abbrev pub description_request : Database → VssPath → Result Json → Outcome
  description_request db path (err e) = answered (err e)
  description_request db path (ok request_id) = described path request_id (get_meta_data db path)

  abbrev pub description_validated : Json → Database → VssPath → Result (Unit {0}) → Outcome
  description_validated request db path (err e) = answered (invalid_request "getMetaData" request e)
  description_validated request db path (ok tt) =
      description_request db path (member_of "requestId" request)

  -- The path is read before the request is validated.
  abbrev pub description_path : Json → Database → Result String → Outcome
  description_path request db (err e) = answered (err e)
  description_path request db (ok path) =
      description_validated request db (from_vss path) (V.validate_get request)

  unfoldable pub process_get_meta_data : Json → Database → Outcome
  unfolding get_meta_data description_answer request_text
  process_get_meta_data request db = description_path request db (request_text "path" request)
