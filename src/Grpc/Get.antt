-- ===== src/Grpc/Get.antt =====
-- grpcHandler.cpp: the call get. `none` means that a getLeafPaths ran out of fuel, or that a
-- getMetaData wrote behind its arrays.
pub mod Counting
use kuksa_val.Channel.{KuksaChannel}
use kuksa_val.Command.{RequestValidator}
use kuksa_val.Command.Description.{process_get_meta_data}
use kuksa_val.Command.Get.{process_get}
use kuksa_val.Database.MetaData.{Outcome, out_of_fuel, undefined, answered, outcome_of}
use kuksa_val.Database.Nodes.{Database, datatype_for_path}
use kuksa_val.Exception.{Result, ok, err, ◌>>=◌}
use kuksa_val.External.{BoostText, Jsoncons, Regex, Clock, Uuids}
use kuksa_val.Grpc.{
  Service, Call, RequestType, metadata, Status, no_status, is_metadata, attribute_string,
  with_attribute, attribute_or_default, error_status, auth_checker, default_channel,
}
use kuksa_val.Grpc.Values.{Value, value_string, no_value, datapoint_member, fill_value}
use kuksa_val.Json.{Json, str, obj, Members, end, assign, contains}
use kuksa_val.Numbers.{uint32, uint64}
use kuksa_val.Path.{from_vss}
use kuksa_val.Prelude.{
  ℕ, String, Bool, true, false, not, ◌&&◌, Option, none, some, List, [], ◌∷◌, ◌++◌, ltb,
  if◌then◌else◌, length,
}
use kuksa_val.Prelude.Int.{pos}
use kuksa_val.Subscription.State.{member_of}

-- kuksa::GetResponse
pub record GetResponse : Type 0 where
  pub values : List Value
  pub status : Status

-- The reply so far, and singleFailure.
pub record GetProgress : Type 0 where
  pub reply : GetResponse
  pub single_failure : Bool

abbrev pub no_reply : GetResponse
no_reply = record { values = []; status = no_status }

unfoldable pub get_failed : GetProgress → GetProgress
get_failed p = record p { single_failure = true }

module _ ⦃J : Jsoncons⦄ where
  abbrev pub get_status : GetProgress → Result Status → GetProgress
  get_status p (err e) = get_failed p
  get_status p (ok status) = get_failed (record p { reply = record p.reply { status = status } })

  -- The value that has been added to the reply, as far as it has been filled.
  unfoldable pub add_value : GetProgress → Result (Unit {0}) × Value → GetProgress
  unfolding get_failed
  add_value p (ok tt, value) = record p {
    reply = record p.reply { values = p.reply.values ++ value ∷ [] };
  }
  add_value p (err e, value) =
      get_failed (record p { reply = record p.reply { values = p.reply.values ++ value ∷ [] } })

  abbrev pub with_nanos : Json → Result (Unit {0}) × Value → Result (Unit {0}) × Value
  with_nanos answer (err e, v) = (err e, v)
  with_nanos answer (ok tt, v) =
      elim (do j ← datapoint_member "ts_ns" answer; J.as_integer uint32 j) [
        | err e ↦ (err e, v)
        | ok n ↦ (ok tt, record v { nanos = n })
      ]

  abbrev pub with_seconds : Json → Result (Unit {0}) × Value → Result (Unit {0}) × Value
  with_seconds answer (err e, v) = (err e, v)
  with_seconds answer (ok tt, v) =
      elim (do j ← datapoint_member "ts_s" answer; J.as_integer uint64 j) [
        | err e ↦ (err e, v)
        | ok n ↦ (ok tt, record v { seconds = n })
      ]

  abbrev pub datatype_or_empty : Result String → String
  datatype_or_empty (err e) = ""
  datatype_or_empty (ok text) = text

  -- An answer without an error, for a value and for metadata.
  unfoldable pub value_of_answer : String → String → Json → Result (Unit {0}) × Value
  unfolding fill_value datapoint_member
  value_of_answer datatype attr answer =
      with_nanos answer (with_seconds answer (fill_value datatype answer attr no_value))

  abbrev pub metadata_value : Result String → Result (Unit {0}) × Value
  metadata_value (err e) = (err e, no_value)
  metadata_value (ok text) = (ok tt, record no_value { content = value_string text })

  module _ ⦃B : BoostText⦄ ⦃R : Regex⦄ ⦃C : Clock⦄ ⦃V : RequestValidator⦄ ⦃U : Uuids⦄ where
    unfoldable pub answer_value :
        Database → RequestType → String → String → Json → Result (Unit {0}) × Value
    unfolding value_of_answer datatype_for_path
    answer_value db type path attr answer =
        if is_metadata type
        then metadata_value (do j ← member_of "metadata" answer; J.as_string j)
        else value_of_answer (datatype_or_empty (datatype_for_path db (from_vss path))) attr answer

    -- What an iteration makes of the answer to its request.
    unfoldable pub get_answered :
        Database → RequestType → String → String → GetProgress → Result Json → GetProgress
    unfolding error_status add_value answer_value get_failed
    get_answered db type path attr p (err e) = get_failed p
    get_answered db type path attr p (ok answer) =
        if contains "error" answer
        then get_status p (error_status answer)
        else add_value p (answer_value db type path attr answer)

    -- The request for a path, with the identifier that the random generator gives.
    unfoldable pub path_request : RequestType → ℕ → String → Json
    unfolding assign
    path_request type id path = obj (
        assign "path" (str path) (
          assign "requestId" (str (U.uuid_text id)) (
            with_attribute (attribute_string type)
              (assign "action" (str (if is_metadata type then "getMetaData" else "get")) end))))

    -- processGet or processGetMetaData
    unfoldable pub get_processed : ℕ → KuksaChannel → Database → RequestType → Json → Outcome
    unfolding process_get process_get_meta_data
    get_processed fuel channel db type request =
        if is_metadata type
        then process_get_meta_data request db
        else outcome_of (process_get fuel channel request db)

    abbrev pub get_next :
        Database
        → RequestType
        → String
        → GetProgress
        → (GetProgress → Option GetProgress)
        → Outcome
        → Option GetProgress
    get_next db type path p next (answered answer) =
        next (get_answered db type path (attribute_or_default (attribute_string type)) p answer)
    get_next db type path p next stuck = none

    -- The loop over the paths of a request.
    unfoldable pub get_loop :
        ℕ
        → KuksaChannel
        → Database
        → RequestType
        → List (ℕ × String)
        → GetProgress
        → Option GetProgress
    unfolding get_answered path_request get_processed
    get_loop fuel channel db type [] p = some p
    get_loop fuel channel db type ((id, path) ∷ paths) p =
        get_next db type path p (get_loop fuel channel db type paths)
          (get_processed fuel channel db type (path_request type id path))

    -- The status after the loop.
    abbrev pub get_finished : ℕ → GetProgress → GetResponse
    get_finished count p =
        if p.single_failure && ltb 1 count
        then record p.reply {
          status = record {
            code = pos 400;
            description = "One or more paths could not be resolved. Try individual requests.";
          };
        }
        else if not p.single_failure
        then record p.reply {
          status = record { code = pos 200; description = "Get request successfully processed" };
        }
        else p.reply

    abbrev pub get_finish : ℕ → Option GetProgress → Option GetResponse
    get_finish count none = none
    get_finish count (some p) = some (get_finished count p)

    abbrev pub get_paths :
        ℕ → KuksaChannel → Database → RequestType → List (ℕ × String) → Option GetResponse
    get_paths fuel channel db type [] = some (record no_reply {
      status = record { code = pos 400; description = "No valid path found." };
    })
    get_paths fuel channel db type (path ∷ paths) = get_finish (length (path ∷ paths)) (
        get_loop fuel channel db type (path ∷ paths)
          (record { reply = no_reply; single_failure = false }))

    -- Metadata are given without a channel, which processGetMetaData does not ask for.
    abbrev pub get_checked :
        ℕ → Database → RequestType → List (ℕ × String) → Option KuksaChannel → Option GetResponse
    get_checked fuel db type paths (some channel) = get_paths fuel channel db type paths
    get_checked fuel db metadata paths none = get_paths fuel default_channel db metadata paths
    get_checked fuel db type paths none =
        some (record no_reply {
          status = record { code = pos 404; description = "No Authorization." };
        })

    -- The call get.
    unfoldable pub get_call :
        ℕ
        → Call
        → Database
        → RequestType
        → List (ℕ × String)
        → Service
        → Option GetResponse × Service
    unfolding get_loop auth_checker
    get_call fuel call db type paths svc =
        let checked = auth_checker call svc in (get_checked fuel db type paths checked.0, checked.1)
