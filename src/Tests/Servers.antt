-- ===== src/Tests/Servers.antt =====
-- The subscription registry, web socket sessions, the MQTT publisher and overlays.
use kuksa_val.Database.Nodes.{Database}
use kuksa_val.Exception.{Exception, std_error, Result, ok, err}
use kuksa_val.External.{boost_text, regex, jsoncons}
use kuksa_val.Json.{int, str, obj, end, lookup, assign}
use kuksa_val.Prelude.Int.{pos}
use kuksa_val.Overlays.{OverlayFile, apply_overlays}
use kuksa_val.Overlays.Stopping.{IsStopped, apply_overlays-IsStopped}
use kuksa_val.Path.{from_vss}
use kuksa_val.Prelude.{
  str_eq, if◌then◌else◌, ℕ, String, true, false, ◌≡◌, refl, List, [], ◌∷◌, ◌++◌,
}
use kuksa_val.Publisher.{Publish, MqttPublisher, send_path_value}
use kuksa_val.Publisher.Sending.{IsSent, send_path_value-IsSent}
use kuksa_val.Subscription.Registry.{
  Request, subscribing, unsubscribing, perform_requests, promised_all, registry_of, notified,
  perform_requests-promised,
}
use kuksa_val.Subscription.State.{Notification, Handler, key_of}
use kuksa_val.Tests.Fixtures.{
  sample_boost, sample_jsoncons, sample_regex, driver, passenger, database, all_open, handler_of,
  payload, note, speed_key,
}
use kuksa_val.WebServer.Order.{IsWriting, outgoing, given_all, handle_all-IsWriting}
use kuksa_val.WebServer.Session.{
  WebSocketSession, Event, message, write_ended, read_ended, success, failure, handle_all,
}

abbrev requests : List Request
requests =
    subscribing 7 driver "Vehicle.Speed" "value"
    ∷ subscribing 8 passenger "Vehicle/Speed" "value"
    ∷ unsubscribing 7
    ∷ []

abbrev notified_handler : Handler
notified_handler = record (handler_of ((speed_key, (8, passenger) ∷ []) ∷ [])) {
  buffer = note 8 passenger ∷ [];
  publishers = (("Vehicle/Speed", int (pos 9)) ∷ []) ∷ [];
}

perform_requests-promised_example :
    (new : List Notification) × (notified_handler.buffer
      ≡ (perform_requests all_open requests (handler_of [])).buffer ++ new)
    × ((id : ℕ)
        → notified id new
          ≡ promised_all all_open requests
              (registry_of [])
              (key_of (from_vss "Vehicle.Speed") "value")
              id)
unfolding perform_requests from_vss boost_text lookup
perform_requests-promised_example =
    perform_requests-promised all_open requests (handler_of []) notified_handler
      (from_vss "Vehicle.Speed") "uint8" "value" payload tt refl

abbrev idle_session : WebSocketSession
idle_session = record {
  write_queue = [];
  writing = [];
  sent = [];
  registered = true;
  reading = true;
}

abbrev events : List Event
events =
    message "a"
    ∷ read_ended success "b"
    ∷ write_ended success
    ∷ read_ended failure "c"
    ∷ write_ended success
    ∷ read_ended success "x"
    ∷ message "d"
    ∷ []

-- A request handler that throws on the text "x".
abbrev answer : String → Result String
answer text = if str_eq text "x" then err (std_error "no answer") else ok text

handle_all-IsWriting_example :
    IsWriting
      (handle_all answer events idle_session).writing
      (handle_all answer events idle_session).write_queue
    × (outgoing (handle_all answer events idle_session)
        ≡ outgoing idle_session ++ given_all answer events)
handle_all-IsWriting_example = handle_all-IsWriting answer events idle_session tt

abbrev publisher : MqttPublisher
publisher = record {
  paths = "Vehicle.Mass" ∷ "Vehicle.Speed" ∷ [];
  connection_retry = 3;
  is_connected = false;
  prefix = "vss";
  attempts = 0;
  published = [];
}

-- A broker that is reached at once, and that no message can be published to.
abbrev no_connection : List Publish → String → String → ℕ
no_connection sent topic text = 4

send_path_value-IsSent_example :
    IsSent
      (λ n. true)
      no_connection
      "Vehicle.Speed"
      (str "9")
      publisher
      (send_path_value (λ n. true) no_connection "Vehicle.Speed" (str "9") publisher).1
unfolding send_path_value jsoncons regex
send_path_value-IsSent_example =
    send_path_value-IsSent (λ n. true) no_connection "Vehicle.Speed" (str "9") publisher refl

abbrev overlay : String → OverlayFile
overlay name = record {
  generic_string = name;
  filename = name;
  extension = ".json";
  is_regular_file = true;
  content = ok (obj end);
}

abbrev overlays : List OverlayFile
overlays =
    overlay "a.json"
    ∷ (record (overlay "b.json") { content = err (std_error "Syntax error") })
    ∷ overlay "c.json"
    ∷ []

abbrev emptied : Database
emptied = record { data_tree = obj end; meta_tree = obj end }

abbrev load_error : Exception
load_error = std_error "Error loading \"b.json\": Syntax error"

apply_overlays-IsStopped_example : IsStopped overlays database emptied load_error
unfolding apply_overlays jsoncons lookup assign
apply_overlays-IsStopped_example =
    apply_overlays-IsStopped overlays database emptied load_error refl
