-- ===== src/Grpc.antt =====
-- grpcHandler.cpp: the sessions of gRPC clients, what the four calls share, and authorize. The
-- transport is a parameter: a call comes with its peer, its metadata and its context.
pub mod Values
pub mod Sessions
pub mod Get
pub mod Set
pub mod Subscribe
pub mod RoundTrip
use kuksa_val.Channel.{KuksaChannel, websocket_plain, grpc}
use kuksa_val.Command.Authorize.{process_authorize}
use kuksa_val.Exception.{Result, ok, err, ◌>>=◌}
use kuksa_val.External.{Jsoncons, Clock, Uuids, Jwt}
use kuksa_val.Json.{Json, Members, str, empty, assign, contains}
use kuksa_val.Numbers.{uint32}
use kuksa_val.Prelude.{
  ℕ, String, ◌<>◌, Bool, true, false, ◌&&◌, Option, none, some, List, [], ◌∷◌, ◌==◌, if◌then◌else◌,
  str_eq,
}
use kuksa_val.Prelude.Int.{ℤ, pos}
use kuksa_val.Subscription.State.{member_of}

-- grpcSession
pub record Session : Type 0 where
  pub peer : String
  pub session_id : ℕ

unfoldable pub same_session : Session → Session → Bool
same_session p q = str_eq p.peer q.peer && (p.session_id == q.session_id)

-- The channel of a stream of subscriptions, with the identifiers in its map of streams.
pub record StreamChannel : Type 0 where
  pub channel : KuksaChannel
  pub streams : List ℕ

-- grpcSessionMap, and grpcSubscribeSessionMap by the address of the context.
pub record Service : Type 0 where
  pub sessions : List (Session × KuksaChannel)
  pub contexts : List (ℕ × StreamChannel)

-- What a ServerContext holds: the peer, the entry "connectionid" of the metadata, its address.
pub record Call : Type 0 where
  pub peer : String
  pub connection_id : Option String
  pub address : ℕ

-- kuksa::RequestType and kuksa::Status
pub data RequestType : Type 0 where
  unknown_type current_value target_value metadata : RequestType

pub record Status : Type 0 where
  pub code : ℤ
  pub description : String

-- kuksa::AuthResponse
pub record AuthResponse : Type 0 where
  pub connection_id : String
  pub status : Status

abbrev pub no_status : Status
no_status = record { code = pos 0; description = "" }

abbrev pub is_metadata : RequestType → Bool
is_metadata metadata = true
is_metadata _ = false

-- AttributeStringMap
abbrev pub attribute_string : RequestType → Option String
attribute_string current_value = some "value"
attribute_string target_value = some "targetValue"
attribute_string _ = none

abbrev pub attribute_or_default : Option String → String
attribute_or_default none = "value"
attribute_or_default (some attr) = attr

-- req_json["attribute"] = iter->second, where the map has the type.
abbrev pub with_attribute : Option String → Members → Members
with_attribute none ms = ms
with_attribute (some attr) ms = assign "attribute" (str attr) ms

-- A channel as its constructor leaves it, for a map's operator[] and for make_shared.
abbrev pub default_channel : KuksaChannel
default_channel = record {
  connection_id = 0;
  authorized = false;
  modify_tree = false;
  auth_token = "";
  permissions = empty;
  type_of_connection = websocket_plain;
}

-- The channel that authorizeHelper starts from.
abbrev pub grpc_channel : KuksaChannel
grpc_channel = record default_channel { type_of_connection = grpc }

unfoldable pub find_session : Session → List (Session × KuksaChannel) → Option KuksaChannel
unfolding same_session
find_session s [] = none
find_session s ((other, channel) ∷ sessions) =
    if same_session other s then some channel else find_session s sessions

-- grpcSessionMap[s] = channel
unfoldable pub put_session :
    Session → KuksaChannel → List (Session × KuksaChannel) → List (Session × KuksaChannel)
unfolding same_session
put_session s channel [] = (s, channel) ∷ []
put_session s channel ((other, old) ∷ sessions) =
    if same_session other s
    then (s, channel) ∷ sessions
    else (other, old) ∷ put_session s channel sessions

unfoldable pub find_context : ℕ → List (ℕ × StreamChannel) → Option StreamChannel
find_context key [] = none
find_context key ((other, channel) ∷ contexts) =
    if other == key then some channel else find_context key contexts

-- The session's channel, which operator[] makes where there is none.
abbrev pub session_channel : Service → Session → Option KuksaChannel → KuksaChannel × Service
session_channel svc s (some channel) = (channel, svc)
session_channel svc s none =
    (default_channel, record svc { sessions = put_session s default_channel svc.sessions })

module _ ⦃J : Jsoncons⦄ where
  -- The status for an answer with an error.
  unfoldable pub error_status : Json → Result Status
  error_status answer = do
    error ← member_of "error" answer
    number ← member_of "number" error
    code ← J.as_integer uint32 number
    reason_value ← member_of "reason" error
    reason ← J.as_string reason_value
    message_value ← member_of "message" error
    message ← J.as_string message_value
    ok (record { code = code; description = reason <> " " <> message })

  unfoldable pub auth_response : Json → Result AuthResponse
  unfolding error_status
  auth_response answer =
      if contains "error" answer
      then (do status ← error_status answer; ok (record { connection_id = ""; status = status }))
      else (do
        id_value ← member_of "requestId" answer
        id ← J.as_string id_value
        ok (record {
          connection_id = id;
          status = record { code = pos 200; description = "Authorization Successful." };
        }))

module _ ⦃U : Uuids⦄ where
  abbrev pub checked_id : Service → String → Result ℕ → Option KuksaChannel × Service
  checked_id svc peer (err e) = (none, svc)
  checked_id svc peer (ok id) =
      let s : Session = record { peer = peer; session_id = id } in
      let found = session_channel svc s (find_session s svc.sessions) in (some found.0, found.1)

  abbrev pub checked_text : Service → String → Option String → Option KuksaChannel × Service
  checked_text svc peer none = (none, svc)
  checked_text svc peer (some text) = checked_id svc peer (U.uuid_of_text text)

  -- authChecker
  unfoldable pub auth_checker : Call → Service → Option KuksaChannel × Service
  unfolding find_session put_session
  auth_checker call svc = checked_text svc call.peer call.connection_id

  abbrev pub new_context : ℕ → Option KuksaChannel × Service → Option StreamChannel × Service
  new_context key (none, svc) = (none, svc)
  new_context key (some channel, svc) =
      let stream : StreamChannel = record {
        channel = record channel { connection_id = key };
        streams = [];
      } in
      (some stream, record svc { contexts = (key, stream) ∷ svc.contexts })

  abbrev pub context_or_new : Call → Service → Option StreamChannel → Option StreamChannel × Service
  context_or_new call svc (some stream) = (some stream, svc)
  context_or_new call svc none = new_context call.address (auth_checker call svc)

  -- getKuksaChannelForSubscriptionContext
  unfoldable pub subscription_channel : Call → Service → Option StreamChannel × Service
  unfolding auth_checker find_context
  subscription_channel call svc = context_or_new call svc (find_context call.address svc.contexts)

  module _ ⦃J : Jsoncons⦄ ⦃C : Clock⦄ ⦃W : Jwt⦄ where
    abbrev pub with_session : Service → Session → Result Json × KuksaChannel → Result Json × Service
    with_session svc s (err e, channel) = (err e, svc)
    with_session svc s (ok answer, channel) =
        if contains "error" answer
        then (ok answer, svc)
        else (ok answer, record svc { sessions = put_session s channel svc.sessions })

    -- authorizeHelper, with the identifier that the random generator gives.
    unfoldable pub authorize_helper : String → String → String → ℕ → Service → Result Json × Service
    unfolding process_authorize put_session
    authorize_helper key peer token id svc =
        with_session svc (record { peer = peer; session_id = id })
          (process_authorize key grpc_channel (U.uuid_text id) token)

    -- The call authorize.
    unfoldable pub authorize_call :
        String → String → String → ℕ → Service → Result AuthResponse × Service
    unfolding authorize_helper auth_response
    authorize_call key peer token id svc =
        let outcome = authorize_helper key peer token id svc in
        ((do answer ← outcome.0; auth_response answer), outcome.1)
