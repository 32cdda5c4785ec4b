-- ===== src/WebServer/Connections.antt =====
-- What SendToConnection finds.
use kuksa_val.Channel.{KuksaChannel}
use kuksa_val.Exception.{ok}
use kuksa_val.Prelude.{
  ℕ, String, ◌≡◌, refl, Bool, true, false, ◌||◌, ◌&&◌, [], ◌∷◌, ◌++◌, ◌==◌, if◌then◌else◌, arith,
}
use kuksa_val.WebServer.{
  WebServer, Connections, Kind, plain_socket, ssl_socket, plain_request, ssl_request,
  erase_connection, has_connection, remove_client, add_client, new_client, put_connection,
  send_found, send_to_connection,
}

has_connection-erase_connection :
    (session other : ℕ) (connections : Connections)
    → has_connection other (erase_connection session connections)
      ≡ (if session == other then false else has_connection other connections)
unfolding has_connection erase_connection
has_connection-erase_connection session other [] = ground arith
has_connection-erase_connection session other ((s, c) ∷ connections) =
    ground (arith, has_connection-erase_connection session other connections)

-- The maps that have the session.
abbrev pub in_web_sock : ℕ → WebServer → Bool
in_web_sock session w =
    has_connection session w.plain_web_sock || has_connection session w.ssl_web_sock

abbrev pub in_http : ℕ → WebServer → Bool
in_http session w = has_connection session w.plain_http || has_connection session w.ssl_http

-- An initialized server answers true exactly for a session in one of the four maps, and writes
-- the message, once, exactly for one in the maps of the web sockets.
pub send_to_connection-found :
    (session : ℕ) (text : String) (w : WebServer)
    → w.is_initialized ≡ true
    → ((send_to_connection session text w).0 ≡ ok (in_web_sock session w || in_http session w))
      × ((send_to_connection session text w).1.written
          ≡ (if in_web_sock session w then w.written ++ (session, text) ∷ [] else w.written))
unfolding send_to_connection send_found
send_to_connection-found session text w ready = rw ready (ground arith, ground arith)

has_connection-put_connection :
    (session other : ℕ) (channel : KuksaChannel) (connections : Connections)
    → has_connection other (put_connection session channel connections)
      ≡ ((session == other) || has_connection other connections)
unfolding has_connection put_connection
has_connection-put_connection session other channel [] = refl
has_connection-put_connection session other channel ((s, c) ∷ connections) =
    ground (arith, has_connection-put_connection session other channel connections)

-- Which maps have the session, for each kind.
abbrev pub has_client : Kind → ℕ → WebServer → Bool
has_client plain_socket session w = has_connection session w.plain_web_sock
has_client ssl_socket session w = has_connection session w.ssl_web_sock
has_client plain_request session w = has_connection session w.plain_http
has_client ssl_request session w = has_connection session w.ssl_http

abbrev pub same_kind : Kind → Kind → Bool
same_kind plain_socket plain_socket = true
same_kind ssl_socket ssl_socket = true
same_kind plain_request plain_request = true
same_kind ssl_request ssl_request = true
same_kind _ _ = false

-- AddClient and RemoveClient change the entry of their session in the map of their kind, and no
-- other entry of any map.
pub has_client-add_client-remove_client :
    (kind other_kind : Kind) (session other : ℕ) (w : WebServer)
    → (has_client other_kind other (add_client kind session w).1
        ≡ ((same_kind kind other_kind && (session == other)) || has_client other_kind other w))
      × (has_client other_kind other (remove_client kind session w) ≡ (
          if same_kind kind other_kind && (session == other)
          then false
          else has_client other_kind other w))
unfolding add_client remove_client
has_client-add_client-remove_client plain_socket plain_socket session other w = (
  has_connection-put_connection session other (new_client plain_socket session) w.plain_web_sock,
  has_connection-erase_connection session other w.plain_web_sock,
)
has_client-add_client-remove_client plain_socket _ session other w = (refl, refl)
has_client-add_client-remove_client ssl_socket ssl_socket session other w = (
  has_connection-put_connection session other (new_client ssl_socket session) w.ssl_web_sock,
  has_connection-erase_connection session other w.ssl_web_sock,
)
has_client-add_client-remove_client ssl_socket _ session other w = (refl, refl)
has_client-add_client-remove_client plain_request plain_request session other w = (
  has_connection-put_connection session other (new_client plain_request session) w.plain_http,
  has_connection-erase_connection session other w.plain_http,
)
has_client-add_client-remove_client plain_request _ session other w = (refl, refl)
has_client-add_client-remove_client ssl_request ssl_request session other w = (
  has_connection-put_connection session other (new_client ssl_request session) w.ssl_http,
  has_connection-erase_connection session other w.ssl_http,
)
has_client-add_client-remove_client ssl_request _ session other w = (refl, refl)
