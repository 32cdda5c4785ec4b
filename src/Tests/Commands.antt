-- ===== src/Tests/Commands.antt =====
-- Requests to set and to get a signal.
use kuksa_val.Access.{check_read_access}
use kuksa_val.Command.{request_text}
use kuksa_val.Command.Subscribe.{process_unsubscribe, subscription_answer}
use kuksa_val.Command.Subscribe.RoundTrip.{process_unsubscribe-subscribe}
use kuksa_val.Subscription.State.{subscribe, unsubscribe}
use kuksa_val.Command.Get.{process_get}
use kuksa_val.Command.Get.Confidential.{IsDisclosed, process_get-IsDisclosed}
use kuksa_val.Command.Set.{SetArguments, process_set}
use kuksa_val.Command.Set.Guarding.{IsPerformed, process_set-IsPerformed}
use kuksa_val.Database.Leaves.{leaf_paths}
use kuksa_val.Database.Signals.{get_signal}
use kuksa_val.Database.Nodes.{Database, path_is_attributable}
use kuksa_val.Exception.{ok}
use kuksa_val.External.{boost_text, jsoncons, clock, uuids}
use kuksa_val.Json.{Json, int, str, obj, end, member, lookup}
use kuksa_val.Path.{from_vss, from_json, to_string}
use kuksa_val.Prelude.{◌≡◌, ◌⊎◌, refl, [], ◌∷◌}
use kuksa_val.Prelude.Int.{pos}
use kuksa_val.Response.{convert_time_stamp}
use kuksa_val.Tests.Fixtures.{
  sample_validator, sample_uuids, handler_of, speed_key, all_open, sample_boost, sample_jsoncons,
  sample_regex, sample_clock, sample_streams, sample_floats, driver, server, speed_json_path,
}

abbrev set_speed : Json
set_speed = obj (
    member "path" (str "Vehicle.Speed")
      (member "requestId" (str "1") (member "value" (int (pos 9)) end)))

abbrev speed_arguments : SetArguments
speed_arguments = record {
  path = from_vss "Vehicle.Speed";
  request_id = "1";
  request_id_value = str "1";
  attribute = "value";
  value = int (pos 9);
}

process_set-IsPerformed_example :
    ((process_set driver set_speed server).1 ≡ server)
    ⊎ IsPerformed driver set_speed server (process_set driver set_speed server)
process_set-IsPerformed_example = process_set-IsPerformed driver set_speed server

-- The tree of the sample store, with the paths that fromJSON makes.
abbrev valued : Database
valued = record {
  data_tree = obj (
      member speed_json_path (obj (member "type" (str "sensor") (member "value" (str "9") end)))
        end);
  meta_tree = obj end;
}

abbrev speed_answer : Json
speed_answer = obj (
    member "data"
      (obj (
        member "path" (str "Vehicle.Speed") (
          member "dp"
            (obj
              (member "value" (str "9") (member "ts" (str "2023-01-01T00:00:00.000000000Z") end)))
            end)))
      (member "action" (str "get")
        (member "requestId" (str "1") (member "ts" (str "2023-01-01T00:00:00.000000000Z") end))))

process_get-IsDisclosed_example : IsDisclosed 1 driver set_speed valued speed_answer
unfolding process_get lookup jsoncons clock from_vss boost_text leaf_paths check_read_access
    from_json path_is_attributable get_signal convert_time_stamp to_string
process_get-IsDisclosed_example =
    process_get-IsDisclosed 1 driver set_speed valued speed_answer refl refl

abbrev give_back : Json
give_back =
    obj
      (member "requestId" (str "2") (member "subscriptionId" (str (sample_uuids.uuid_text 7)) end))

process_unsubscribe-subscribe_example :
    process_unsubscribe give_back (handler_of ((speed_key, (7, driver) ∷ []) ∷ [])) ≡ (
      ok (subscription_answer "unsubscribe" "2" 7),
      (unsubscribe 7 (handler_of ((speed_key, (7, driver) ∷ []) ∷ []))).1,
    )
unfolding subscribe from_vss boost_text lookup jsoncons uuids request_text
process_unsubscribe-subscribe_example =
    process_unsubscribe-subscribe all_open 7 7 driver "Vehicle.Speed" "value" "2" give_back
      (handler_of []) (handler_of ((speed_key, (7, driver) ∷ []) ∷ [])) refl refl refl refl
