-- ===== src/Grpc/Set.antt =====
-- grpcHandler.cpp: the call set.
pub mod Unauthorized
use kuksa_val.Channel.{KuksaChannel}
use kuksa_val.Command.{RequestValidator}
use kuksa_val.Command.Set.{process_set}
use kuksa_val.Database.Nodes.{datatype_for_path}
use kuksa_val.Database.Signals.{Server}
use kuksa_val.Exception.{Result, ok, err, ◌>>=◌}
use kuksa_val.External.{BoostText, Jsoncons, Regex, Clock, Uuids}
use kuksa_val.Grpc.{
  Service, Call, RequestType, metadata, Status, no_status, attribute_string, attribute_or_default,
  error_status, auth_checker,
}
use kuksa_val.Grpc.Values.{Value, wire_of, json_of}
use kuksa_val.Json.{Json, str, obj, Members, end, assign, contains}
use kuksa_val.Numbers.{Floats}
use kuksa_val.Path.{from_vss}
use kuksa_val.Prelude.{
  ℕ, String, Bool, true, false, not, ◌&&◌, Option, none, some, List, [], ◌∷◌, ltb, if◌then◌else◌,
  length,
}
use kuksa_val.Prelude.Int.{pos}
use kuksa_val.Sanitizer.Numeric.{Streams}

-- The status of the reply so far, and singleFailure.
pub record SetProgress : Type 0 where
  pub status : Status
  pub single_failure : Bool

abbrev pub set_failed : SetProgress → SetProgress
set_failed p = record p { single_failure = true }

module _ ⦃J : Jsoncons⦄ where
  abbrev pub set_error_status : SetProgress → Result Status → SetProgress
  set_error_status p (err e) = set_failed p
  set_error_status p (ok status) = set_failed (record p { status = status })

  -- What an iteration makes of the answer of processSet.
  unfoldable pub set_answered : SetProgress → Result Json → SetProgress
  unfolding error_status
  set_answered p (err e) = set_failed p
  set_answered p (ok answer) =
      if contains "error" answer then set_error_status p (error_status answer) else record p {
        status = record { code = pos 200; description = "Set request successfully processed" };
      }

  module _ ⦃B : BoostText⦄ ⦃R : Regex⦄ ⦃S : Streams⦄ ⦃F : Floats⦄ ⦃C : Clock⦄ ⦃V : RequestValidator⦄
      ⦃U : Uuids⦄ where
    -- The members of req_json, which the iterations share, for a value of this data type.
    unfoldable pub set_members : String → ℕ → Value → String → Members → Members
    unfolding json_of wire_of assign
    set_members attr id v datatype ms =
        assign attr (json_of (wire_of datatype) v.content)
          (assign "path" (str v.path) (assign "requestId" (str (U.uuid_text id)) ms))

    abbrev pub set_processed : SetProgress → Result Json × Server → SetProgress × Server
    set_processed p (answer, s) = (set_answered p answer, s)

    abbrev pub set_value :
        KuksaChannel
        → String
        → ℕ
        → Value
        → Members
        → SetProgress
        → Server
        → Result String
        → SetProgress × Server
    set_value channel attr id v ms p s (err e) = (set_failed p, s)
    set_value channel attr id v ms p s (ok datatype) =
        set_processed p (process_set channel (obj (set_members attr id v datatype ms)) s)

    -- The members that stay in req_json for the next iteration.
    abbrev pub kept_members : String → ℕ → Value → Members → Result String → Members
    kept_members attr id v ms (err e) =
        assign "path" (str v.path) (assign "requestId" (str (U.uuid_text id)) ms)
    kept_members attr id v ms (ok datatype) = set_members attr id v datatype ms

    -- The loop over the values of a request.
    unfoldable pub set_loop :
        KuksaChannel
        → String
        → List (ℕ × Value)
        → Members
        → SetProgress
        → Server
        → SetProgress × Server
    unfolding set_answered set_members process_set datatype_for_path
    set_loop channel attr [] ms p s = (p, s)
    set_loop channel attr ((id, v) ∷ values) ms p s =
        let datatype = datatype_for_path s.db (from_vss v.path) in
        let outcome = set_value channel attr id v ms p s datatype in
        set_loop channel attr values (kept_members attr id v ms datatype) outcome.0 outcome.1

    -- The status after the loop.
    abbrev pub set_finished : ℕ → SetProgress → Status
    set_finished count p =
        if p.single_failure && ltb 1 count
        then record {
          code = pos 400;
          description = "One or more paths could not be resolved. Try individual requests.";
        }
        else if not p.single_failure
        then record { code = pos 200; description = "Set request successfully processed." }
        else p.status

    abbrev pub set_values : KuksaChannel → String → List (ℕ × Value) → Server → Status × Server
    set_values channel attr values s =
        let members = assign "attribute" (str attr) (assign "action" (str "set") end) in
        let start : SetProgress = record { status = no_status; single_failure = false } in
        let outcome = set_loop channel attr values members start s in
        (set_finished (length values) outcome.0, outcome.1)

    -- Metadata cannot be set; the status is then left as it is.
    abbrev pub set_checked :
        RequestType → List (ℕ × Value) → Server → Option KuksaChannel → Status × Server
    set_checked type values s none =
        (record { code = pos 404; description = "No Authorization!." }, s)
    set_checked metadata values s (some channel) = (no_status, s)
    set_checked type values s (some channel) =
        set_values channel (attribute_or_default (attribute_string type)) values s

    -- The call set.
    unfoldable pub set_call :
        Call → RequestType → List (ℕ × Value) → Server → Service → (Status × Server) × Service
    unfolding set_loop auth_checker assign
    set_call call type values s svc =
        let checked = auth_checker call svc in (set_checked type values s checked.0, checked.1)
