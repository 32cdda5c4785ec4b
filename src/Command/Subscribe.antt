-- ===== src/Command/Subscribe.antt =====
-- VssCommandSubscribe.cpp and VssCommandUnsubscribe.cpp: processSubscribe and processUnsubscribe.
pub mod RoundTrip
pub mod Effects
use kuksa_val.Channel.{KuksaChannel}
use kuksa_val.Command.{
  RequestValidator, invalid_request, try_extract_request_id, request_text, request_attribute,
}
use kuksa_val.Exception.{
  Exception, schema_error, gen_exception, no_path_found_on_tree, no_permission, what, Result, ok,
  err, ◌>>=◌,
}
use kuksa_val.External.{BoostText, Jsoncons, Clock, Uuids}
use kuksa_val.Json.{Json, str, obj, end, assign}
use kuksa_val.Prelude.{ℕ, String, ◌<>◌, Bool, true, false}
use kuksa_val.Response.{
  error_of, error_answer, malformed_request, path_not_found, no_access, value_out_of_bounds,
}
use kuksa_val.Subscription.State.{Guards, Handler, subscribe, unsubscribe}

pub record SubscribeArguments : Type 0 where
  pub path : String
  pub request_id : String
  pub attribute : String

module _ ⦃J : Jsoncons⦄ ⦃C : Clock⦄ ⦃U : Uuids⦄ ⦃V : RequestValidator⦄ where
  -- The members that the answers to both requests have.
  unfoldable pub subscription_answer : String → String → ℕ → Json
  unfolding assign
  subscription_answer action request_id id = obj (
      assign "ts" (str C.time_stamp) (
        assign "subscriptionId" (str (U.uuid_text id))
          (assign "requestId" (str request_id) (assign "action" (str action) end))))

  unfoldable pub subscribe_arguments : Json → Result SubscribeArguments
  unfolding request_text request_attribute
  subscribe_arguments request = do
    path ← request_text "path" request
    request_id ← request_text "requestId" request
    attribute ← request_attribute request
    ok (record { path = path; request_id = request_id; attribute = attribute })

  -- The catch clauses around subscribe.
  unfoldable pub subscribe_error : SubscribeArguments → Exception → Json
  unfolding what
  subscribe_error a (no_path_found_on_tree p) = path_not_found a.request_id "subscribe" a.path
  subscribe_error a (no_permission msg) = no_access a.request_id "subscribe" msg
  subscribe_error a (gen_exception msg) = value_out_of_bounds a.request_id "subscribe" msg
  subscribe_error a e = malformed_request a.request_id "get" ("Unhandled error: " <> what e)

  abbrev pub subscribe_answer :
      SubscribeArguments → Handler → Result (ℕ × Handler) → Result Json × Handler
  subscribe_answer a h (err e) = (ok (subscribe_error a e), h)
  subscribe_answer a h (ok (id, h')) = (ok (subscription_answer "subscribe" a.request_id id), h')

  -- What is caught while a subscribe request is validated; the second clause answers for "get".
  abbrev pub invalid_subscribe : Json → Exception → Result Json
  invalid_subscribe request (schema_error msg) =
      invalid_request "subscribe" request (schema_error msg)
  invalid_subscribe request e = invalid_request "get" request e

  module _ ⦃B : BoostText⦄ (g : Guards) where
    abbrev pub subscribe_request :
        ℕ → KuksaChannel → Handler → Result SubscribeArguments → Result Json × Handler
    subscribe_request id channel h (err e) = (err e, h)
    subscribe_request id channel h (ok a) =
        subscribe_answer a h (subscribe g id channel a.path a.attribute h)

    abbrev pub subscribe_validated :
        ℕ → KuksaChannel → Json → Handler → Result (Unit {0}) → Result Json × Handler
    subscribe_validated id channel request h (err e) = (invalid_subscribe request e, h)
    subscribe_validated id channel request h (ok tt) =
        subscribe_request id channel h (subscribe_arguments request)

    unfoldable pub process_subscribe : ℕ → KuksaChannel → Json → Handler → Result Json × Handler
    unfolding subscribe_arguments subscribe_error subscription_answer
    process_subscribe id channel request h =
        subscribe_validated id channel request h (V.validate_subscribe request)

  unfoldable pub not_unsubscribed : String → Json
  unfolding error_of error_answer
  not_unsubscribed request_id =
      error_answer C.time_stamp request_id "unsubscribe"
        (error_of "400" "Unknown error" "Error while unsubscribing")

  abbrev pub unsubscribe_answer : String → ℕ → Bool × Handler → Result Json × Handler
  unsubscribe_answer request_id id (true, h) =
      (ok (subscription_answer "unsubscribe" request_id id), h)
  unsubscribe_answer request_id id (false, h) = (ok (not_unsubscribed request_id), h)

  -- An identifier that is no UUID is caught.
  unfoldable pub invalid_id : Json → Exception → Result Json
  unfolding try_extract_request_id what
  invalid_id request e = do
    request_id ← try_extract_request_id request
    ok (malformed_request request_id "unsubscribe" ("Subscription ID is not a UUID: " <> what e))

  abbrev pub unsubscribe_id : Json → String → Handler → Result ℕ → Result Json × Handler
  unsubscribe_id request request_id h (err e) = (invalid_id request e, h)
  unsubscribe_id request request_id h (ok id) = unsubscribe_answer request_id id (unsubscribe id h)

  abbrev pub unsubscribe_texts : Json → Handler → Result (String × String) → Result Json × Handler
  unsubscribe_texts request h (err e) = (err e, h)
  unsubscribe_texts request h (ok (request_id, text)) =
      unsubscribe_id request request_id h (U.uuid_of_text text)

  unfoldable pub unsubscribe_arguments : Json → Result (String × String)
  unfolding request_text
  unsubscribe_arguments request = do
    request_id ← request_text "requestId" request
    text ← request_text "subscriptionId" request
    ok (request_id, text)

  abbrev pub unsubscribe_validated : Json → Handler → Result (Unit {0}) → Result Json × Handler
  unsubscribe_validated request h (err e) = (invalid_request "unsubscribe" request e, h)
  unsubscribe_validated request h (ok tt) =
      unsubscribe_texts request h (unsubscribe_arguments request)

  unfoldable pub process_unsubscribe : Json → Handler → Result Json × Handler
  unfolding not_unsubscribed subscription_answer invalid_id unsubscribe_arguments
  process_unsubscribe request h = unsubscribe_validated request h (V.validate_unsubscribe request)
