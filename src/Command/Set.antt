-- ===== src/Command/Set.antt =====
-- VssCommandSet.cpp: processSet.
pub mod Guarding
use kuksa_val.Access.{check_write_access}
use kuksa_val.Channel.{KuksaChannel}
use kuksa_val.Command.{RequestValidator, invalid_request, request_text, request_attribute}
use kuksa_val.Database.Nodes.{Database, path_exists, path_is_writable, path_is_attributable}
use kuksa_val.Database.Signals.{Server, set_signal}
use kuksa_val.Exception.{
  Exception, gen_exception, no_path_found_on_tree, out_of_bound, no_permission, what, Result, ok,
  err, ◌>>=◌, >>=-eq-ok, ok-injective,
}
use kuksa_val.External.{BoostText, Jsoncons, Regex, Clock}
use kuksa_val.Json.{Json, str, obj, end, assign}
use kuksa_val.Numbers.{Floats}
use kuksa_val.Path.{VssPath, from_vss, to_string}
use kuksa_val.Prelude.{
  String, ◌<>◌, ◌≡◌, refl, sym, ap, ◌∙◌, Bool, true, false, inl, inr, ◌⊎◌, Option, none, some,
  arith, if◌then◌else◌, Bool-cases,
}
use kuksa_val.Response.{error_of, malformed_request, path_not_found, no_access, value_out_of_bounds}
use kuksa_val.Sanitizer.Numeric.{Streams}
use kuksa_val.Subscription.State.{member_of}

-- What processSet reads from a valid request.
pub record SetArguments : Type 0 where
  pub path : VssPath
  pub request_id : String
  -- request["requestId"], which some answers repeat as it is
  pub request_id_value : Json
  pub attribute : String
  pub value : Json

module _ ⦃J : Jsoncons⦄ ⦃B : BoostText⦄ ⦃R : Regex⦄ ⦃S : Streams⦄ ⦃F : Floats⦄ ⦃C : Clock⦄
    ⦃V : RequestValidator⦄ where
  unfoldable pub set_arguments : Json → Result SetArguments
  unfolding request_text request_attribute
  set_arguments request = do
    path ← request_text "path" request
    request_id_value ← member_of "requestId" request
    request_id ← J.as_string request_id_value
    attribute ← request_attribute request
    value ← member_of attribute request
    ok (record {
      path = from_vss path;
      request_id = request_id;
      request_id_value = request_id_value;
      attribute = attribute;
      value = value;
    })

  -- The four tests before anything is set, in their order: the answer of the first that fails.
  unfoldable pub attributable_guard : SetArguments → Database → Result (Option Json)
  attributable_guard a db = do
    attributable ← path_is_attributable db a.path a.attribute
    ok (
        if attributable
        then none
        else some (
            no_access a.request_id "set" (
              "Can not set path:" <> to_string a.path <> " with attribute:" <> a.attribute <> ".")))

  unfoldable pub writable_guard : SetArguments → Database → Result (Option Json)
  unfolding attributable_guard
  writable_guard a db = do
    writable ← path_is_writable db a.path
    if writable
        then attributable_guard a db
        else ok (
            some (
              no_access a.request_id "set" (
                "Can not set " <> to_string a.path <> ". Only sensor or actor leaves can be set.")))

  unfoldable pub access_guard : KuksaChannel → SetArguments → Database → Result (Option Json)
  unfolding writable_guard
  access_guard channel a db = do
    allowed ← check_write_access channel a.path
    if allowed
        then writable_guard a db
        else ok (some (no_access a.request_id "set" ("No write access to " <> to_string a.path)))

  unfoldable pub set_guards : KuksaChannel → SetArguments → Database → Result (Option Json)
  unfolding access_guard
  set_guards channel a db = do
    exists ← path_exists db a.path
    if exists
        then access_guard channel a db
        else ok (some (path_not_found a.request_id "set" (to_string a.path)))

  -- The answer for a genException is JSON text inside a JSON string.
  unfoldable pub unknown_error : SetArguments → String → Json
  unfolding error_of assign
  unknown_error a message = str (
      J.dump_pretty (
        obj (
          assign "ts" (str C.time_stamp) (
            assign "error" (error_of "401" "Unknown error" message)
              (assign "requestId" a.request_id_value (assign "action" (str "set") end))))))

  -- The catch clauses around setSignal.
  unfoldable pub set_error : SetArguments → Exception → Json
  unfolding unknown_error what
  set_error a (gen_exception msg) = unknown_error a msg
  set_error a (no_path_found_on_tree p) = path_not_found a.request_id "set" (to_string a.path)
  set_error a (out_of_bound msg) = value_out_of_bounds a.request_id "set" msg
  set_error a (no_permission msg) = no_access a.request_id "set" msg
  set_error a e = malformed_request a.request_id "set" ("Unhandled error: " <> what e)

  unfoldable pub set_done : SetArguments → Json
  unfolding assign
  set_done a = obj (
      assign "ts" (str C.time_stamp)
        (assign "requestId" a.request_id_value (assign "action" (str "set") end)))

  abbrev pub set_answer : SetArguments → Result Json → Json
  set_answer a (ok result) = set_done a
  set_answer a (err e) = set_error a e

  -- After the guards: an early answer, or the write.
  unfoldable pub set_guarded : SetArguments → Server → Result (Option Json) → Result Json × Server
  unfolding set_done set_error
  set_guarded a s (err e) = (err e, s)
  set_guarded a s (ok (some answer)) = (ok answer, s)
  set_guarded a s (ok none) =
      let outcome = set_signal a.path a.attribute a.value s in
      (ok (set_answer a outcome.0), outcome.1)

  abbrev pub set_request : KuksaChannel → Server → Result SetArguments → Result Json × Server
  set_request channel s (err e) = (err e, s)
  set_request channel s (ok a) = set_guarded a s (set_guards channel a s.db)

  abbrev pub set_validated : KuksaChannel → Json → Server → Result (Unit {0}) → Result Json × Server
  set_validated channel request s (err e) = (invalid_request "set" request e, s)
  set_validated channel request s (ok tt) = set_request channel s (set_arguments request)

  unfoldable pub process_set : KuksaChannel → Json → Server → Result Json × Server
  unfolding set_guarded set_guards set_arguments
  process_set channel request s = set_validated channel request s (V.validate_set request)
