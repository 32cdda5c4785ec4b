-- ===== src/Command/Authorize.antt =====
-- VssCommandProcessor.cpp: processAuthorize.
pub mod Granting
use kuksa_val.Authenticator.{is_minus_one, validate}
use kuksa_val.Channel.{KuksaChannel}
use kuksa_val.Exception.{Result, ok, err}
use kuksa_val.External.{Jsoncons, Clock, Jwt}
use kuksa_val.Json.{Json, int, str, obj, end, assign}
use kuksa_val.Prelude.{String, if◌then◌else◌}
use kuksa_val.Prelude.Int.{ℤ}
use kuksa_val.Response.{error_of, error_answer}

module _ ⦃C : Clock⦄ where
  unfoldable pub invalid_token : String → Json
  unfolding error_of error_answer
  invalid_token request_id =
      error_answer C.time_stamp request_id "authorize"
        (error_of "401" "Invalid Token" "Check the JWT token passed")

  unfoldable pub authorized_answer : String → ℤ → Json
  unfolding assign
  authorized_answer request_id ttl = obj (
      assign "ts" (str C.time_stamp) (
        assign "TTL" (int ttl)
          (assign "requestId" (str request_id) (assign "action" (str "authorize") end))))

  abbrev pub authorize_answer : String → Result ℤ → Result Json
  authorize_answer request_id (err e) = err e
  authorize_answer request_id (ok ttl) =
      ok (if is_minus_one ttl then invalid_token request_id else authorized_answer request_id ttl)

  module _ ⦃J : Jsoncons⦄ ⦃W : Jwt⦄ where
    -- With the public key of the authenticator.
    unfoldable pub process_authorize :
        String → KuksaChannel → String → String → Result Json × KuksaChannel
    unfolding validate authorized_answer invalid_token
    process_authorize key channel request_id token =
        let outcome = validate key channel token in
        (authorize_answer request_id outcome.0, outcome.1)
