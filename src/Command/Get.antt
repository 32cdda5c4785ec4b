-- ===== src/Command/Get.antt =====
-- VssCommandGet.cpp: processGet. The fuel is that of getLeafPaths; `none` means that it ran out.
pub mod Collecting
pub mod Confidential
use kuksa_val.Access.{check_read_access}
use kuksa_val.Channel.{KuksaChannel, is_grpc}
use kuksa_val.Command.{RequestValidator, invalid_request, request_text, request_attribute}
use kuksa_val.Database.Leaves.{Leaves, found, thrown, out_of_fuel, leaf_paths}
use kuksa_val.Database.Nodes.{Database, path_is_attributable}
use kuksa_val.Database.Signals.{get_signal}
use kuksa_val.Exception.{Exception, not_set, what, Result, ok, err, ◌>>=◌}
use kuksa_val.External.{BoostText, Jsoncons, Regex, Clock}
use kuksa_val.Json.{Json, str, arr, obj, Items, nil, item, end, assign}
use kuksa_val.Path.{VssPath, from_vss, to_string}
use kuksa_val.Prelude.{
  ℕ, String, ◌<>◌, Bool, true, false, not, Option, none, some, List, [], ◌∷◌, if◌then◌else◌,
}
use kuksa_val.Response.{malformed_request, path_not_found, no_access, not_set_response}

-- What processGet reads from a valid request: the path as the client wrote it, and the rest.
pub record GetArguments : Type 0 where
  pub path_text : String
  pub request_id : String
  pub attribute : String

-- The end of the loop over the leaves: an early answer, or the data points.
pub data Collected : Type 0 where
  denied : Json → Collected
  datapoints : Items → Collected

module _ ⦃J : Jsoncons⦄ ⦃B : BoostText⦄ ⦃R : Regex⦄ ⦃C : Clock⦄ ⦃V : RequestValidator⦄ where
  unfoldable pub get_arguments : String → Json → Result GetArguments
  unfolding request_text request_attribute
  get_arguments path_text request = do
    request_id ← request_text "requestId" request
    attribute ← request_attribute request
    ok (record { path_text = path_text; request_id = request_id; attribute = attribute })

  abbrev pub add_datapoint : Json → Collected → Collected
  add_datapoint dp (denied answer) = denied answer
  add_datapoint dp (datapoints rest) = datapoints (item dp rest)

  -- One leaf that the channel may read, with `rest` for the leaves after it.
  unfoldable pub read_leaf :
      KuksaChannel → GetArguments → Database → Result Collected → VssPath → Result Collected
  read_leaf channel a db rest leaf = do
    let path = from_vss a.path_text
    attributable ← path_is_attributable db path a.attribute
    if attributable
        then (do
          dp ← get_signal db leaf a.attribute (not (is_grpc channel.type_of_connection))
          collected ← rest
          ok (add_datapoint dp collected))
        else ok (
            denied (
              no_access a.request_id "set"
                ("Can not get " <> to_string path <> " with attribute " <> a.attribute <> ".")))

  unfoldable pub visit_leaf :
      KuksaChannel → GetArguments → Database → Result Collected → VssPath → Result Collected
  unfolding read_leaf
  visit_leaf channel a db rest leaf = do
    allowed ← check_read_access channel leaf
    if allowed
        then read_leaf channel a db rest leaf
        else ok
            (denied (no_access a.request_id "get" ("Insufficient read access to " <> a.path_text)))

  -- The loop over vssPaths.
  unfoldable pub collect : KuksaChannel → GetArguments → Database → List VssPath → Result Collected
  unfolding visit_leaf
  collect channel a db [] = ok (datapoints nil)
  collect channel a db (leaf ∷ leaves) = visit_leaf channel a db (collect channel a db leaves) leaf

  unfoldable pub get_done : GetArguments → Json → Json
  unfolding assign
  get_done a result = obj (
      assign "ts" (str C.time_stamp) (
        assign "requestId" (str a.request_id)
          (assign "action" (str "get") (assign "data" result end))))

  -- A single data point is not wrapped in an array.
  abbrev pub get_answer : GetArguments → Items → Json
  get_answer a nil = path_not_found a.request_id "get" a.path_text
  get_answer a (item dp nil) = get_done a dp
  get_answer a (item dp (item dp' rest)) = get_done a (arr (item dp (item dp' rest)))

  -- The end of the try block, and its catch clauses.
  unfoldable pub get_collected : GetArguments → Result Collected → Json
  unfolding get_done what
  get_collected a (ok (denied answer)) = answer
  get_collected a (ok (datapoints dps)) = get_answer a dps
  get_collected a (err (not_set msg)) = not_set_response a.request_id msg
  get_collected a (err e) = malformed_request a.request_id "get" ("Unhandled error: " <> what e)

  abbrev pub get_leaves : KuksaChannel → GetArguments → Database → Leaves → Option (Result Json)
  get_leaves channel a db (found leaves) = some (ok (get_collected a (collect channel a db leaves)))
  get_leaves channel a db (thrown e) = some (ok (get_collected a (err e)))
  get_leaves channel a db out_of_fuel = none

  abbrev pub get_request : ℕ → KuksaChannel → Database → Result GetArguments → Option (Result Json)
  get_request fuel channel db (err e) = some (err e)
  get_request fuel channel db (ok a) =
      get_leaves channel a db (leaf_paths fuel db (from_vss a.path_text))

  abbrev pub get_validated :
      ℕ → KuksaChannel → Json → Database → String → Result (Unit {0}) → Option (Result Json)
  get_validated fuel channel request db path_text (err e) = some (invalid_request "get" request e)
  get_validated fuel channel request db path_text (ok tt) =
      get_request fuel channel db (get_arguments path_text request)

  -- The path is read before the request is validated.
  abbrev pub get_path : ℕ → KuksaChannel → Json → Database → Result String → Option (Result Json)
  get_path fuel channel request db (err e) = some (err e)
  get_path fuel channel request db (ok path_text) =
      get_validated fuel channel request db path_text (V.validate_get request)

  unfoldable pub process_get : ℕ → KuksaChannel → Json → Database → Option (Result Json)
  unfolding get_collected collect get_arguments request_text
  process_get fuel channel request db =
      get_path fuel channel request db (request_text "path" request)
