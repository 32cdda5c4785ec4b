-- ===== src/Response.antt =====
-- JsonResponses.cpp: the error answers and the time stamps. The order of an object's members is
-- not modelled.
pub mod Times
use kuksa_val.Exception.{Result, ok, ◌>>=◌}
use kuksa_val.External.{Jsoncons, Clock}
use kuksa_val.Json.{Json, int, str, obj, Members, end, assign, remove, lookup}
use kuksa_val.Numbers.{uint32, uint64}
use kuksa_val.Prelude.{String, ◌<>◌, Option, some}

-- The object `error` of an answer.
unfoldable pub error_of : String → String → String → Json
unfolding assign
error_of number reason message = obj (
    assign "message" (str message)
      (assign "reason" (str reason) (assign "number" (str number) end)))

-- The members that every error answer with an action has.
unfoldable pub error_answer : String → String → String → Json → Json
unfolding assign
error_answer ts request_id action error = obj (
    assign "ts" (str ts) (
      assign "error" error
        (assign "requestId" (str request_id) (assign "action" (str action) end))))

module _ ⦃C : Clock⦄ where
  open C use {time_stamp}

  unfoldable pub malformed_request : String → String → String → Json
  unfolding error_answer error_of
  malformed_request request_id action message =
      error_answer time_stamp request_id action (error_of "400" "Bad Request" message)

  -- The overload without an action.
  unfoldable pub malformed_message : String → String → Json
  unfolding error_of assign
  malformed_message message request_id = obj (
      assign "ts" (str time_stamp) (
        assign "requestId" (str request_id)
          (assign "error" (error_of "400" "Bad Request" message) end)))

  unfoldable pub not_set_response : String → String → Json
  unfolding error_answer error_of
  not_set_response request_id message =
      error_answer time_stamp request_id "get" (error_of "404" "unavailable_data" message)

  unfoldable pub path_not_found : String → String → String → Json
  unfolding error_answer error_of
  path_not_found request_id action path =
      error_answer time_stamp request_id action
        (error_of "404" "Path not found" ("I can not find " <> path <> " in my db"))

  unfoldable pub no_access : String → String → String → Json
  unfolding error_answer error_of
  no_access request_id action message =
      error_answer time_stamp request_id action (error_of "403" "Forbidden" message)

  unfoldable pub value_out_of_bounds : String → String → String → Json
  unfolding error_answer error_of
  value_out_of_bounds request_id action message =
      error_answer time_stamp request_id action
        (error_of "400" "Value passed is out of bounds" message)

  unfoldable pub time_stamp_zero : String
  time_stamp_zero = "1970-01-01T00:00:00.0Z"

  unfoldable pub add_time_stamp : String → Members → Members
  unfolding assign
  add_time_stamp suffix target =
      assign ("ts_ns" <> suffix) (int C.nanoseconds)
        (assign ("ts_s" <> suffix) (int C.seconds) target)

  module _ ⦃J : Jsoncons⦄ where
    -- The branch for a target that has both numbers.
    unfoldable pub replace_time_stamp : Json → Json → Members → Result Members
    unfolding assign remove
    replace_time_stamp ts_s ts_ns target = do
      sec ← J.as_integer uint64 ts_s
      nsec ← J.as_integer uint32 ts_ns
      ok (assign "ts" (str (C.iso8601 sec nsec)) (remove "ts_ns" (remove "ts_s" target)))

    unfoldable pub convert_with : Option Json → Option Json → Members → Result Members
    unfolding replace_time_stamp time_stamp_zero
    convert_with (some ts_s) (some ts_ns) target = replace_time_stamp ts_s ts_ns target
    convert_with _ _ target =
        ok (remove "ts_ns" (remove "ts_s" (assign "ts" (str time_stamp_zero) target)))

    -- convertJSONTimeStampToISO8601
    unfoldable pub convert_time_stamp : Members → Result Members
    unfolding convert_with
    convert_time_stamp target = convert_with (lookup "ts_s" target) (lookup "ts_ns" target) target
