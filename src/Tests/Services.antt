-- ===== src/Tests/Services.antt =====
-- Calls of the gRPC service.
use kuksa_val.Channel.{KuksaChannel, grpc}
use kuksa_val.Command.Set.{SetArguments, set_arguments, set_guards}
use kuksa_val.Database.Nodes.{Database, path_exists, path_is_writable, path_is_attributable}
use kuksa_val.Database.Signals.{Server, set_signal, get_signal}
use kuksa_val.Exception.{ok}
use kuksa_val.External.{boost_text, jsoncons, regex, uuids}
use kuksa_val.Grpc.{Service, Call, current_value, no_status, find_session}
use kuksa_val.Grpc.Get.{GetProgress, no_reply, get_loop}
use kuksa_val.Grpc.Get.Counting.{Counted, get_loop-Counted}
use kuksa_val.Grpc.RoundTrip.{json_of-case_of}
use kuksa_val.Grpc.Sessions.{
  Rpc, sign_in, check_session, open_stream, AllTrusted, serve_all, serve_all-AllTrusted,
}
use kuksa_val.Grpc.Set.{SetProgress, set_value, set_call, set_members}
use kuksa_val.Grpc.Set.Unauthorized.{set_call_unauthorized, set_value_unnoticed}
use kuksa_val.Grpc.Subscribe.{StreamRequest, Stream, stream_loop}
use kuksa_val.Grpc.Subscribe.Isolation.{registry_of-stream_loop}
use kuksa_val.Subscription.Registry.{registry_of}
use kuksa_val.Grpc.Values.{
  Value, ValueCase, value_uint32, value_string, no_value, wire_of, case_of, json_of,
}
use kuksa_val.Json.{int, str, obj, end, member, lookup}
use kuksa_val.Numbers.{uint8}
use kuksa_val.Access.{check_read_access, check_write_access}
use kuksa_val.Database.Leaves.{leaf_paths}
use kuksa_val.Sanitizer.Checks.{check_and_sanitize_type}
use kuksa_val.Path.{from_vss, from_json, to_string}
use kuksa_val.Prelude.{ℕ, ◌≡◌, refl, Bool, true, false, some, List, [], ◌∷◌, arith}
use kuksa_val.Prelude.Int.{pos}
use kuksa_val.Tests.Fixtures.{
  sample_boost, sample_jsoncons, sample_regex, sample_clock, sample_uuids, sample_streams,
  sample_floats, sample_validator, sample_jwt, driver, passenger, server, speed_json_path, all_open,
  speed_key, handler_of,
}

json_of-case_of_example :
    (v : ValueCase) × (case_of (wire_of "uint8") (int (pos 9)) ≡ ok v)
    × (json_of (wire_of "uint8") v ≡ int (pos 9))
json_of-case_of_example =
    json_of-case_of uint8 (pos 9) (record { above = omega arith; below = omega arith })

abbrev call : Call
call = record { peer = "peer"; connection_id = some "111"; address = 4 }

abbrev no_sessions : Service
no_sessions = record { sessions = []; contexts = [] }

abbrev rpcs : List Rpc
rpcs = check_session call ∷ sign_in "peer" "good" 3 ∷ open_stream call ∷ check_session call ∷ []

serve_all-AllTrusted_example : AllTrusted "key" (serve_all "key" rpcs no_sessions)
serve_all-AllTrusted_example = serve_all-AllTrusted "key" rpcs no_sessions (tt, tt)

abbrev speed_value : Value
speed_value = record no_value { path = "Vehicle.Speed"; content = value_uint32 (pos 9) }

set_call_unauthorized_example :
    (set_call call current_value ((5, speed_value) ∷ []) server no_sessions).0.1 ≡ server
unfolding jsoncons find_session
set_call_unauthorized_example =
    set_call_unauthorized call current_value ((5, speed_value) ∷ []) server no_sessions refl
      (λ text id h₁ h₂. refl)

-- A signal whose data type is none of VSS.
abbrev odd_server : Server
odd_server = record server {
  db = record {
    data_tree = obj (
        member speed_json_path
          (obj (member "type" (str "sensor") (member "datatype" (str "odd") end))) end);
    meta_tree = obj end;
  };
}

abbrev fresh : SetProgress
fresh = record { status = no_status; single_failure = false }

abbrev odd_arguments : SetArguments
odd_arguments = record {
  path = from_vss "Vehicle.Speed";
  request_id = "11111";
  request_id_value = str "11111";
  attribute = "value";
  value = str "";
}

set_value_unnoticed_example :
    (set_value driver "value" 5 speed_value end fresh odd_server (ok "odd")).0 ≡ (record fresh {
      status = record { code = pos 200; description = "Set request successfully processed" };
    })
unfolding jsoncons regex from_vss boost_text set_members set_arguments set_guards set_signal lookup
    uuids path_exists check_write_access path_is_writable path_is_attributable
    check_and_sanitize_type
set_value_unnoticed_example =
    set_value_unnoticed driver "value" 5 speed_value end fresh odd_server "odd"
      "The datatype odd is not supported " odd_arguments refl refl refl refl

-- The tree of the sample store, with the paths that fromJSON makes.
abbrev grpc_database : Database
grpc_database = record {
  data_tree = obj (
      member speed_json_path (obj (member "type" (str "sensor") (member "value" (str "9") end)))
        end);
  meta_tree = obj end;
}

abbrev grpc_driver : KuksaChannel
grpc_driver = record driver { type_of_connection = grpc }

abbrev started : GetProgress
started = record { reply = no_reply; single_failure = false }

abbrev got : GetProgress
got = record {
  reply = record no_reply {
    values = (record no_value { path = "Vehicle.Speed"; content = value_string "9" }) ∷ [];
  };
  single_failure = false;
}

get_loop-Counted_example : Counted 1 started got
unfolding get_loop jsoncons regex from_vss boost_text lookup leaf_paths check_read_access from_json
    path_is_attributable get_signal to_string
get_loop-Counted_example =
    get_loop-Counted 1 grpc_driver grpc_database current_value ((5, "Vehicle.Speed") ∷ []) started
      got refl

-- A client that subscribes, gives the subscription back and subscribes again.
abbrev stream_requests : List StreamRequest
stream_requests = stream_request 7 true ∷ stream_request 9 false ∷ stream_request 9 true ∷ []
  where
    stream_request : ℕ → Bool → StreamRequest
    stream_request id start = record {
      type = current_value;
      path = "Vehicle.Speed";
      start = start;
      request_id = 1;
      new_id = id;
    }

abbrev opened : Stream
opened = record {
  request = end;
  current = [];
  streams = [];
  responses = [];
  handler = handler_of ((speed_key, (8, passenger) ∷ []) ∷ []);
}

registry_of-stream_loop_example :
    registry_of
      (stream_loop all_open driver stream_requests opened).1.handler.subscriptions
      speed_key
      8
    ≡ registry_of opened.handler.subscriptions speed_key 8
registry_of-stream_loop_example =
    registry_of-stream_loop 8 all_open driver stream_requests opened refl (tt, (tt, tt), tt)
      (λ q. omega arith, (λ q. omega arith, (λ q. omega arith, tt))) speed_key
