-- ===== src/Publisher.antt =====
-- MQTTPublisher.cpp: start and sendPathValue. libmosquitto is a parameter: whether an attempt to
-- connect succeeds, counted from the first one, and the code that mosquitto_publish returns. The
-- calls of mosquitto_publish are kept as a list, with their codes.
pub mod Sending
use Prim.Native.String
use kuksa_val.Access.{expand_stars}
use kuksa_val.Exception.{Result, ok, err, ◌>>=◌}
use kuksa_val.External.{Jsoncons, Regex}
use kuksa_val.Json.{Json}
use kuksa_val.Prelude.{
  ℕ, zero, suc, code, String, ◌<>◌, Bool, true, false, ◌||◌, List, [], ◌∷◌, ◌++◌, ◌==◌,
  if◌then◌else◌, is_empty,
}

-- A call of mosquitto_publish: topic, text and return code, where 0 is MOSQ_ERR_SUCCESS.
pub record Publish : Type 0 where
  pub topic : String
  pub payload : String
  pub code : ℕ

-- MQTTPublisher: paths_, connection_retry_ (none for a negative number), isConnected_ and prefix_;
-- the attempts to connect so far, and the calls of mosquitto_publish.
pub record MqttPublisher : Type 0 where
  pub paths : List String
  pub connection_retry : ℕ
  pub is_connected : Bool
  pub prefix : String
  pub attempts : ℕ
  pub published : List Publish

abbrev pub no_paths : List String → Bool
no_paths [] = true
no_paths (path ∷ paths) = false

-- std::regex_replace(topic_path, std::regex("\\."), std::string("/"))
unfoldable pub dots_to_slashes : String → String
dots_to_slashes String.[] = String.[]
dots_to_slashes (String.◌∷◌ c s) =
    let rest = dots_to_slashes s in
    if code c == b'.' then String.◌∷◌ "/" rest else String.◌∷◌ c rest

unfoldable pub topic_name : String → String → String
unfolding dots_to_slashes
topic_name prefix path =
    if is_empty prefix then dots_to_slashes path else prefix <> "/" <> dots_to_slashes path

abbrev pub add_publish_path : String → MqttPublisher → MqttPublisher
add_publish_path path m = record m { paths = m.paths ++ path ∷ [] }

module _ (connects : ℕ → Bool) where
  -- The loop of start: `retries` attempts are left.
  unfoldable pub connect_loop : ℕ → MqttPublisher → MqttPublisher
  connect_loop zero m = m
  connect_loop (suc retries) m =
      let rest =
        connect_loop retries (record m { is_connected = false; attempts = suc m.attempts }) in
      if connects m.attempts
      then record m { is_connected = true; attempts = suc m.attempts }
      else rest

  unfoldable pub start : MqttPublisher → MqttPublisher
  unfolding connect_loop
  start m = if m.is_connected || no_paths m.paths then m else connect_loop m.connection_retry m

  -- The code may depend on the calls so far.
  module _ ⦃J : Jsoncons⦄ ⦃R : Regex⦄ (mosquitto_publish : List Publish → String → String → ℕ) where
    abbrev pub published_call : String → String → MqttPublisher → Publish
    published_call topic payload m = record {
      topic = topic;
      payload = payload;
      code = mosquitto_publish m.published topic payload;
    }

    -- A code of failure is logged, and the answer is true all the same.
    abbrev pub publish_text : String → MqttPublisher → Result String → Result Bool × MqttPublisher
    publish_text topic m (err e) = (err e, m)
    publish_text topic m (ok payload) =
        let call = published_call (topic_name m.prefix topic) payload m in
        (ok true, record m { published = m.published ++ call ∷ [] })

    -- What follows a match.
    abbrev pub publish_matched : String → Json → MqttPublisher → Result Bool × MqttPublisher
    publish_matched topic value m =
        if m.is_connected then publish_text topic m (J.as_string value) else (ok false, m)

    abbrev pub send_if :
        String
        → Json
        → MqttPublisher
        → Result Bool × MqttPublisher
        → Result Bool
        → Result Bool × MqttPublisher
    send_if topic value m rest (err e) = (err e, m)
    send_if topic value m rest (ok true) = publish_matched topic value (start m)
    send_if topic value m rest (ok false) = rest

    -- The loop over the paths: the first that matches decides.
    unfoldable pub send_loop :
        String → Json → List String → MqttPublisher → Result Bool × MqttPublisher
    unfolding start topic_name expand_stars
    send_loop topic value [] m = (ok false, m)
    send_loop topic value (path ∷ paths) m =
        send_if topic value m (send_loop topic value paths m)
          (R.regex_match (expand_stars path) topic)

    unfoldable pub send_path_value : String → Json → MqttPublisher → Result Bool × MqttPublisher
    unfolding send_loop
    send_path_value topic value m = send_loop topic value m.paths m
