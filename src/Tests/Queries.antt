-- ===== src/Tests/Queries.antt =====
-- Queries and tokens.
use kuksa_val.Authenticator.{validate, verified_claims, expiry}
use kuksa_val.Authenticator.Grants.{IsGranted, validate-IsGranted}
use kuksa_val.Channel.{KuksaChannel}
use kuksa_val.Command.Authorize.{invalid_token, authorized_answer, process_authorize}
use kuksa_val.Command.Authorize.Granting.{
  HoldsToken, process_authorize-HoldsToken, process_authorize_unreadable,
}
use kuksa_val.Command.Query.{World, process_query, process_queries}
use kuksa_val.Command.Query.Unprivileged.{IsKept, process_query-IsKept, process_queries-IsKept}
use kuksa_val.Exception.{ok, key_not_found}
use kuksa_val.External.{Jsoncons, jsoncons, jwt, jwt-other_key}
use kuksa_val.Grpc.{default_channel, grpc_channel}
use kuksa_val.Grpc.Set.Unauthorized.{default_channel_denied}
use kuksa_val.Json.{Json, obj, str, int, member, end, lookup}
use kuksa_val.Prelude.{ℕ, String, true, if◌then◌else◌, str_eq, ◌≡◌, refl, List, [], ◌∷◌}
use kuksa_val.Prelude.Int.{pos}
use kuksa_val.Tests.Fixtures.{
  sample_boost, sample_regex, sample_clock, sample_uuids, sample_streams, sample_floats,
  sample_validator, sample_jwt, passenger, server,
}

-- A request to set the signal, and a parser that knows it by the text "set".
abbrev set_query : Json
set_query = obj (
    member "action" (str "set") (
      member "path" (str "Vehicle.Speed")
        (member "requestId" (str "1") (member "value" (int (pos 9)) end))))

instance abbrev scripted : Jsoncons
scripted = record jsoncons {
  parse = λ text. if str_eq text "set" then ok set_query else jsoncons.parse text;
}

-- What the token makes of a channel without rights.
abbrev granted : KuksaChannel
granted = record passenger { authorized = true; auth_token = "good" }

validate-IsGranted_example :
    (sample_jwt.verify "key" "good" ≡ ok tt) × IsGranted "key" "good" granted
unfolding validate jsoncons jwt lookup
validate-IsGranted_example =
    validate-IsGranted "key" passenger granted "good" (pos 3) refl refl refl

-- A client without any rights.
abbrev stranger : World
stranger = record { server = server; channel = default_channel }

process_query-IsKept_example : IsKept stranger (process_query "key" 1 5 "set" stranger).1
unfolding jsoncons
process_query-IsKept_example =
    process_query-IsKept "key" 1 5 "set" stranger ((λ path. default_channel_denied path refl), refl)

abbrev two_queries : List (ℕ × ℕ × String)
two_queries = (1, 5, "set") ∷ (1, 6, "{}") ∷ []

process_queries-IsKept_example :
    IsKept stranger (process_queries "other" two_queries stranger)
    × ((process_queries "other" two_queries stranger).channel ≡ default_channel)
unfolding jsoncons
process_queries-IsKept_example =
    process_queries-IsKept "other" jwt-other_key two_queries stranger
      ((λ path. default_channel_denied path refl), refl)

process_authorize-HoldsToken_example :
    (sample_jwt.verify "key" "good" ≡ ok tt)
    × HoldsToken "good" (process_authorize "key" grpc_channel "1" "good").1
unfolding process_authorize validate jsoncons jwt lookup
process_authorize-HoldsToken_example =
    process_authorize-HoldsToken "key" grpc_channel "1" "good" (authorized_answer "1" (pos 3)) refl
      refl

process_authorize_unreadable_example :
    process_authorize "key" passenger "1" "undated"
    ≡ (ok (invalid_token "1"), record passenger { authorized = true; auth_token = "undated" })
unfolding jwt lookup verified_claims expiry
process_authorize_unreadable_example =
    process_authorize_unreadable "key" passenger "1" "undated" (("kuksa-vss", obj end) ∷ [])
      (key_not_found "exp") refl refl
