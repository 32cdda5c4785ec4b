-- ===== src/Command.antt =====
-- The request handlers of VssCommandProcessor, each with its guards, its catch clauses and its
-- answer. This file has what they share: the validation of a request, and the reading of its
-- members. A handler's answer may be an exception, which goes on to processQuery.
pub mod Set
pub mod Get
pub mod Subscribe
pub mod Metadata
pub mod Authorize
pub mod Description
pub mod Query
use kuksa_val.Exception.{Exception, schema_error, not_an_object, what, Result, ok, err, ◌>>=◌}
use kuksa_val.External.{Jsoncons, Clock}
use kuksa_val.Json.{Json, null, obj, find, lookup}
use kuksa_val.Prelude.{String, ◌<>◌, Option, none, some}
use kuksa_val.Response.{malformed_request}
use kuksa_val.Subscription.State.{member_of}

-- VSSRequestValidator: the JSON schemas for each kind of request, as jsoncons::jsonschema decides
-- them, and boost::algorithm::trim for the messages.
pub record RequestValidator : Type 0 where
  pub validate_get : Json → Result (Unit {0})
  pub validate_set : Json → Result (Unit {0})
  pub validate_subscribe : Json → Result (Unit {0})
  pub validate_unsubscribe : Json → Result (Unit {0})
  pub validate_update_metadata : Json → Result (Unit {0})
  pub validate_update_vss_tree : Json → Result (Unit {0})
  pub trim : String → String

module _ ⦃J : Jsoncons⦄ where
  abbrev pub text_or_unknown : Option Json → Result String
  text_or_unknown none = ok "UNKNOWN"
  text_or_unknown (some value) = J.as_string value

  -- tryExtractRequestId
  unfoldable pub try_extract_request_id : Json → Result String
  try_extract_request_id (obj ms) = text_or_unknown (lookup "requestId" ms)
  try_extract_request_id null = ok "UNKNOWN"
  try_extract_request_id _ = err (not_an_object "")

  -- request[key].as_string()
  unfoldable pub request_text : String → Json → Result String
  request_text key request = do value ← member_of key request; J.as_string value

  abbrev pub attribute_or_value : Option Json → Result String
  attribute_or_value none = ok "value"
  attribute_or_value (some attribute) = J.as_string attribute

  unfoldable pub request_attribute : Json → Result String
  request_attribute request = attribute_or_value (find "attribute" request)

  module _ ⦃C : Clock⦄ ⦃V : RequestValidator⦄ where
    abbrev pub refusal_text : Exception → String
    refusal_text (schema_error msg) = "Schema error: " <> V.trim msg
    refusal_text e = "Unhandled error: " <> what e

    -- The catch clauses around the validation of a request.
    unfoldable pub invalid_request : String → Json → Exception → Result Json
    unfolding try_extract_request_id what
    invalid_request action request e = do
      request_id ← try_extract_request_id request
      ok (malformed_request request_id action (refusal_text e))
