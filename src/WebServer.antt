-- ===== src/WebServer.antt =====
-- WebSockHttpFlexServer.cpp: the table of connections, the dispatch of requests to listeners, and
-- SendToConnection. A session is known by its address; sockets, certificates and pings are left
-- out.
pub mod Session
pub mod Order
pub mod Connections
use kuksa_val.Channel.{
  KuksaChannel, ChannelType, websocket_plain, websocket_ssl, http_plain, http_ssl, grpc,
}
use kuksa_val.Exception.{std_error, Result, ok, err}
use kuksa_val.Json.{empty}
use kuksa_val.Prelude.{ℕ, String, Bool, true, false, ◌||◌, List, [], ◌∷◌, ◌++◌, ◌==◌, if◌then◌else◌}

-- One of the maps from sessions to channels.
abbrev pub Connections : Type 0
Connections = List (ℕ × KuksaChannel)

-- ConnectionHandler, isInitialized, and the messages given to write of a session.
pub record WebServer : Type 0 where
  pub plain_web_sock : Connections
  pub ssl_web_sock : Connections
  pub plain_http : Connections
  pub ssl_http : Connections
  pub is_initialized : Bool
  pub written : List (ℕ × String)

unfoldable pub put_connection : ℕ → KuksaChannel → Connections → Connections
put_connection session channel [] = (session, channel) ∷ []
put_connection session channel ((other, old) ∷ connections) =
    if other == session
    then (session, channel) ∷ connections
    else (other, old) ∷ put_connection session channel connections

unfoldable pub erase_connection : ℕ → Connections → Connections
erase_connection session [] = []
erase_connection session ((other, channel) ∷ connections) =
    let rest = erase_connection session connections in
    if other == session then rest else (other, channel) ∷ rest

unfoldable pub has_connection : ℕ → Connections → Bool
has_connection session [] = false
has_connection session ((other, channel) ∷ connections) =
    (other == session) || has_connection session connections

-- The four kinds of session.
pub data Kind : Type 0 where
  plain_socket ssl_socket plain_request ssl_request : Kind

abbrev pub type_of_kind : Kind → ChannelType
type_of_kind plain_socket = websocket_plain
type_of_kind ssl_socket = websocket_ssl
type_of_kind plain_request = http_plain
type_of_kind ssl_request = http_ssl

abbrev pub new_client : Kind → ℕ → KuksaChannel
new_client kind session = record {
  connection_id = session;
  authorized = false;
  modify_tree = false;
  auth_token = "";
  permissions = empty;
  type_of_connection = type_of_kind kind;
}

-- AddClient, for each kind of session; it returns the new channel.
unfoldable pub add_client : Kind → ℕ → WebServer → KuksaChannel × WebServer
unfolding put_connection
add_client plain_socket session w = (
  new_client plain_socket session,
  record w {
    plain_web_sock = put_connection session (new_client plain_socket session) w.plain_web_sock;
  },
)
add_client ssl_socket session w = (
  new_client ssl_socket session,
  record w { ssl_web_sock = put_connection session (new_client ssl_socket session) w.ssl_web_sock },
)
add_client plain_request session w = (
  new_client plain_request session,
  record w { plain_http = put_connection session (new_client plain_request session) w.plain_http },
)
add_client ssl_request session w = (
  new_client ssl_request session,
  record w { ssl_http = put_connection session (new_client ssl_request session) w.ssl_http },
)

-- RemoveClient
unfoldable pub remove_client : Kind → ℕ → WebServer → WebServer
unfolding erase_connection
remove_client plain_socket session w = record w {
  plain_web_sock = erase_connection session w.plain_web_sock;
}
remove_client ssl_socket session w = record w {
  ssl_web_sock = erase_connection session w.ssl_web_sock;
}
remove_client plain_request session w = record w {
  plain_http = erase_connection session w.plain_http;
}
remove_client ssl_request session w = record w { ssl_http = erase_connection session w.ssl_http }

abbrev pub write_to : ℕ → String → WebServer → WebServer
write_to session message w = record w { written = w.written ++ (session, message) ∷ [] }

-- The searches of SendToConnection, in their order. Nothing is written to an HTTP session.
unfoldable pub send_found : ℕ → String → WebServer → Bool × WebServer
unfolding has_connection
send_found session message w =
    if has_connection session w.plain_web_sock
    then (true, write_to session message w)
    else if has_connection session w.ssl_web_sock
    then (true, write_to session message w)
    else if has_connection session w.plain_http
    then (true, w)
    else if has_connection session w.ssl_http
    then (true, w)
    else (false, w)

unfoldable pub send_to_connection : ℕ → String → WebServer → Result Bool × WebServer
unfolding send_found
send_to_connection session message w =
    if w.is_initialized
    then (ok (send_found session message w).0, (send_found session message w).1)
    else (err (std_error "Cannot send to connection, server not initialized!"), w)

-- ObserverType, and the listeners with their processors; the state that a processor changes is
-- any type.
pub data ObserverType : Type 0 where
  websocket http all_types : ObserverType

abbrev pub observer_of : ChannelType → ObserverType
observer_of websocket_plain = websocket
observer_of websocket_ssl = websocket
observer_of _ = http

abbrev pub same_observer : ObserverType → ObserverType → Bool
same_observer websocket websocket = true
same_observer http http = true
same_observer all_types all_types = true
same_observer _ _ = false

module _ {ℓ} {S : Type ℓ} {A : Type 0} where
  -- The loop of HandleRequest: the last listener that is asked gives the response.
  unfoldable pub handle_loop : ObserverType → List (ObserverType × (S → A × S)) → A → S → A × S
  handle_loop type [] response s = (response, s)
  handle_loop type ((listener, process) ∷ listeners) response s =
      let asked = process s in
      let outcome =
        if same_observer listener all_types || same_observer listener type
        then asked
        else (response, s) in
      handle_loop type listeners outcome.0 outcome.1
