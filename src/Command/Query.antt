-- ===== src/Command/Query.antt =====
-- VssCommandProcessor.cpp: processQuery, with all that a query may change.
pub mod Unprivileged
use kuksa_val.Access.{check_read_access}
use kuksa_val.Channel.{KuksaChannel}
use kuksa_val.Command.{RequestValidator, request_text, text_or_unknown}
use kuksa_val.Command.Authorize.{process_authorize}
use kuksa_val.Command.Description.{process_get_meta_data}
use kuksa_val.Command.Get.{process_get}
use kuksa_val.Command.Metadata.{process_update_vss_tree, process_update_meta_data}
use kuksa_val.Command.Set.{process_set}
use kuksa_val.Command.Subscribe.{process_subscribe, process_unsubscribe}
use kuksa_val.Database.MetaData.{Outcome, out_of_fuel, undefined, answered, outcome_of}
use kuksa_val.Database.Nodes.{Database, path_exists, path_is_readable}
use kuksa_val.Database.Signals.{Server}
use kuksa_val.Exception.{Exception, ser_error, key_not_found, not_an_object, Result, ok, err, ◌>>=◌}
use kuksa_val.External.{BoostText, Jsoncons, Regex, Clock, Uuids, Jwt}
use kuksa_val.Json.{Json, obj, find}
use kuksa_val.Numbers.{Floats}
use kuksa_val.Prelude.{ℕ, String, Bool, Option, none, some, List, [], ◌∷◌, if◌then◌else◌, str_eq}
use kuksa_val.Response.{malformed_message}
use kuksa_val.Sanitizer.Numeric.{Streams}
use kuksa_val.Subscription.State.{Guards, Handler}

-- The server, and the channel of the client that sends the query.
pub record World : Type 0 where
  pub server : Server
  pub channel : KuksaChannel

pub data Action : Type 0 where
  get_action set_action get_meta_data_action update_meta_data_action : Action
  authorize_action unsubscribe_action subscribe_action update_vss_tree_action unknown_action :
      Action

-- The tests on the action, in their order.
unfoldable pub action_named : String → Action
action_named text =
    if str_eq text "get"
    then get_action
    else if str_eq text "set"
    then set_action
    else if str_eq text "getMetaData"
    then get_meta_data_action
    else if str_eq text "updateMetaData"
    then update_meta_data_action
    else if str_eq text "authorize"
    then authorize_action
    else if str_eq text "unsubscribe"
    then unsubscribe_action
    else if str_eq text "subscribe"
    then subscribe_action
    else if str_eq text "updateVSSTree"
    then update_vss_tree_action
    else unknown_action

module _ ⦃J : Jsoncons⦄ where
  -- root["action"].as<string>()
  abbrev pub action_text : Json → Result String
  action_text (obj ms) = request_text "action" (obj ms)
  action_text _ = err (not_an_object "")

  -- What subscribe asks of the database and of the access checker.
  unfoldable pub guards_of : ⦃R : Regex⦄ → Database → Guards
  unfolding path_exists path_is_readable check_read_access
  guards_of db = record {
    path_exists = path_exists db;
    path_is_readable = path_is_readable db;
    check_read_access = check_read_access;
  }

module _ ⦃J : Jsoncons⦄ ⦃B : BoostText⦄ ⦃R : Regex⦄ ⦃S : Streams⦄ ⦃F : Floats⦄ ⦃C : Clock⦄
    ⦃U : Uuids⦄ ⦃V : RequestValidator⦄ ⦃W : Jwt⦄ where
  -- The three catch clauses of processQuery.
  unfoldable pub caught : Outcome → Outcome
  unfolding malformed_message
  caught (answered (err (ser_error msg))) = answered (ok (malformed_message msg "UNKNOWN"))
  caught (answered (err (key_not_found msg))) = answered (ok (malformed_message msg "UNKNOWN"))
  caught (answered (err (not_an_object msg))) = answered (ok (malformed_message msg "UNKNOWN"))
  caught outcome = outcome

  abbrev pub with_db : World → Result Json × Database → Outcome × World
  with_db w (answer, db) = (answered answer, record w { server = record w.server { db = db } })

  abbrev pub with_handler : World → Result Json × Handler → Outcome × World
  with_handler w (answer, handler) =
      (answered answer, record w { server = record w.server { handler = handler } })

  abbrev pub with_server : World → Result Json × Server → Outcome × World
  with_server w (answer, server) = (answered answer, record w { server = server })

  abbrev pub with_channel : World → Result Json × KuksaChannel → Outcome × World
  with_channel w (answer, channel) = (answered answer, record w { channel = channel })

  -- The token and the identifier of an authorize request, in this order.
  unfoldable pub authorize_texts : Json → Result (String × String)
  unfolding request_text
  authorize_texts root = do
    token ← request_text "tokens" root
    request_id ← request_text "requestId" root
    ok (token, request_id)

  abbrev pub authorize_with : String → World → Result (String × String) → Outcome × World
  authorize_with key w (err e) = (answered (err e), w)
  authorize_with key w (ok (token, request_id)) =
      with_channel w (process_authorize key w.channel request_id token)

  -- `id` is the identifier that a new subscription gets.
  unfoldable pub perform : String → ℕ → ℕ → Json → World → Action → Outcome × World
  unfolding process_get process_set process_get_meta_data process_update_meta_data authorize_texts
      process_authorize process_unsubscribe process_subscribe process_update_vss_tree guards_of
      malformed_message
  perform key fuel id root w get_action =
      (outcome_of (process_get fuel w.channel root w.server.db), w)
  perform key fuel id root w set_action = with_server w (process_set w.channel root w.server)
  perform key fuel id root w get_meta_data_action = (process_get_meta_data root w.server.db, w)
  perform key fuel id root w update_meta_data_action =
      with_db w (process_update_meta_data w.channel root w.server.db)
  perform key fuel id root w authorize_action = authorize_with key w (authorize_texts root)
  perform key fuel id root w unsubscribe_action =
      with_handler w (process_unsubscribe root w.server.handler)
  perform key fuel id root w subscribe_action =
      with_handler w (process_subscribe (guards_of w.server.db) id w.channel root w.server.handler)
  perform key fuel id root w update_vss_tree_action =
      with_db w (process_update_vss_tree w.channel root w.server.db)
  perform key fuel id root w unknown_action = (
    answered (do
      request_id ← text_or_unknown (find "requestId" root)
      ok (malformed_message "Unknown action requested" request_id)),
    w,
  )

  abbrev pub query_action : String → ℕ → ℕ → Json → World → Result String → Outcome × World
  query_action key fuel id root w (err e) = (answered (err e), w)
  query_action key fuel id root w (ok action) = perform key fuel id root w (action_named action)

  abbrev pub query_root : String → ℕ → ℕ → World → Result Json → Outcome × World
  query_root key fuel id w (err e) = (answered (err e), w)
  query_root key fuel id w (ok root) = query_action key fuel id root w (action_text root)

  unfoldable pub process_query : String → ℕ → ℕ → String → World → Outcome × World
  unfolding caught perform action_named
  process_query key fuel id req_json w =
      let outcome = query_root key fuel id w (J.parse req_json) in (caught outcome.0, outcome.1)

  -- The queries of one client, one after the other; each comes with its fuel and the identifier
  -- that a subscription gets.
  unfoldable pub process_queries : String → List (ℕ × ℕ × String) → World → World
  unfolding process_query
  process_queries key [] w = w
  process_queries key ((fuel, id, req_json) ∷ queries) w =
      process_queries key queries (process_query key fuel id req_json w).1
