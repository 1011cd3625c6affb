-- ===== src/Transports/TcpSockets.antt =====
-- libnymea-remoteproxy/server/tcpsocketserver.h and tcpsocketserver.cpp: TcpSocketServer, the
-- SslServer that it owns, and the timer of SslClient. Sockets are numbers; their peer addresses,
-- whether they are encrypted, and whether an address can be listened on, are Qt's.
use Prim.Native.Nat.{◌%◌, ◌^◌}
use nymea_remoteproxy.Base.{
  ℕ, ◌+◌, Bool, true, false, not, ◌&&◌, Option, none, some, String, List, [], ◌∷◌, ◌++◌, Hash,
  Bytes, value, insert, remove, keys, count, if◌then◌else◌, ◌==◌, remove_all,
}
use nymea_remoteproxy.Transports.{
  Signal, client_connected, client_disconnected, data_available, ServerUrl, Call, wrote, flushed,
  closed, deleted, started_encryption, closed_server, key,
}

pub record SslServer : Type 0 where
  pub listening : Bool
  pub clients : List ℕ
  -- the connections that Qt has and that nextPendingConnection has not returned
  pub pending : List ℕ

pub record TcpSocketServer : Type 0 where
  pub ssl_enabled : Bool
  pub server_url : ServerUrl
  pub server : Option SslServer
  pub client_list : Hash ℕ
  -- the number of calls of createUuid
  pub created : ℕ
  -- the signals and the calls, the latest first
  pub signals : List Signal
  pub calls : List Call

unfoldable pub new_tcp_socket_server : Bool → TcpSocketServer
new_tcp_socket_server ssl_enabled = record {
  ssl_enabled = ssl_enabled;
  server_url = record { host = ""; port = 0 };
  server = none;
  client_list = [];
  created = 0;
  signals = [];
  calls = [];
}

abbrev pub emit : Signal → TcpSocketServer → TcpSocketServer
emit signal t = record t { signals = signal ∷ t.signals }

abbrev pub call : Call → TcpSocketServer → TcpSocketServer
call c t = record t { calls = c ∷ t.calls }

unfoldable pub set_server_url : ServerUrl → TcpSocketServer → TcpSocketServer
set_server_url url t = record t { server_url = url }

unfoldable pub send_data : ℕ → Bytes → TcpSocketServer → TcpSocketServer
send_data client_id bytes t = elim (value t.client_list client_id) [
  | none ↦ t
  | some client ↦ call (wrote client bytes) t
]

unfoldable pub kill_client_connection : ℕ → String → TcpSocketServer → TcpSocketServer
kill_client_connection client_id kill_reason t = elim (value t.client_list client_id) [
  | none ↦ t
  | some client ↦ call (closed client) (call (flushed client) t)
]

unfoldable pub connections_count : TcpSocketServer → ℕ
connections_count t = count t.client_list

unfoldable pub running : TcpSocketServer → Bool
running t = elim t.server [ none ↦ false | some server ↦ server.listening ]

abbrev pub close_old : Option SslServer → TcpSocketServer → TcpSocketServer
close_old none t = t
close_old (some server) t = record (call closed_server t) { server = none }

-- The port is cut to 16 bits.
unfoldable pub start_server : (String → ℕ → Bool) → TcpSocketServer → TcpSocketServer × Bool
start_server can_listen t =
    let t' = close_old t.server t in
    if can_listen t.server_url.host (t.server_url.port % 2 ^ 16)
    then (
      record t' { server = some (record { listening = true; clients = []; pending = [] }) },
      true,
    )
    else (t', false)

unfoldable pub kill_all : List ℕ → TcpSocketServer → TcpSocketServer
unfolding kill_client_connection
kill_all [] t = t
kill_all (client_id ∷ ids) t = kill_all ids (kill_client_connection client_id "Stop server" t)

unfoldable pub stop_listening : Option SslServer → TcpSocketServer → TcpSocketServer
unfolding kill_all
stop_listening none t = t
stop_listening (some server) t = record (call closed_server (kill_all (keys t.client_list) t)) {
  server = none;
}

unfoldable pub stop_server : TcpSocketServer → TcpSocketServer × Bool
unfolding stop_listening
stop_server t = (stop_listening t.server t, true)

-- Data of a socket that has no uuid is ignored.
unfoldable pub on_data_available : ℕ → Bytes → TcpSocketServer → TcpSocketServer
on_data_available client bytes t =
    let client_id = key t.client_list client in
    if client_id == 0 then t else emit (data_available client_id bytes) t

unfoldable pub on_socket_disconnected : ℕ → TcpSocketServer → TcpSocketServer
on_socket_disconnected client t =
    let client_id = key t.client_list client in
    if client_id == 0
    then t
    else emit (client_disconnected client_id)
        (record t { client_list = remove t.client_list client_id })

-- A connection that waits for its encryption is closed after five seconds; so is one with an error.
unfoldable pub on_encryption_timeout : ℕ → TcpSocketServer → TcpSocketServer
on_encryption_timeout client t = call (closed client) t

unfoldable pub on_error_occurred : ℕ → TcpSocketServer → TcpSocketServer
on_error_occurred client t = call (closed client) t

abbrev pub forward : (SslServer → SslServer) → TcpSocketServer → TcpSocketServer
forward f t = elim t.server [ none ↦ t | some server ↦ record t { server = some (f server) } ]

-- SslServer::incomingConnection, with whether the socket took the descriptor.
unfoldable pub incoming_connection : ℕ → Bool → TcpSocketServer → TcpSocketServer
incoming_connection client accepted t =
    if not accepted
    then call (deleted client) t
    else forward
        (λ server. record server {
          clients = server.clients ++ client ∷ [];
          pending = server.pending ++ client ∷ [];
        })
        (if t.ssl_enabled then call (started_encryption client) t else t)

-- readyRead of a socket.
unfoldable pub on_ready_read : ℕ → Bytes → Bool → TcpSocketServer → TcpSocketServer
unfolding on_data_available
on_ready_read client bytes is_encrypted t =
    if t.ssl_enabled && not is_encrypted then t else on_data_available client bytes t

abbrev pub pending_of : Option SslServer → List ℕ
pending_of none = []
pending_of (some server) = server.pending

module _ (create_uuid : ℕ → ℕ) (peer_address : ℕ → String) where
  unfoldable pub on_socket_connected : ℕ → TcpSocketServer → TcpSocketServer
  on_socket_connected client t =
      let client_id = create_uuid t.created in
      emit (client_connected client_id (peer_address client))
        (record t { client_list = insert t.client_list client_id client; created = t.created + 1 })

  -- The loop over the pending connections.
  unfoldable pub accept_pending : List ℕ → TcpSocketServer → TcpSocketServer
  unfolding on_socket_connected
  accept_pending [] t = t
  accept_pending (client ∷ clients) t =
      accept_pending clients (if not t.ssl_enabled then on_socket_connected client t else t)

  unfoldable pub on_new_connection : TcpSocketServer → TcpSocketServer
  unfolding accept_pending
  on_new_connection t =
      accept_pending (pending_of t.server) (forward (λ server. record server { pending = [] }) t)

  unfoldable pub on_encrypted : ℕ → TcpSocketServer → TcpSocketServer
  unfolding on_socket_connected
  on_encrypted client t = on_socket_connected client t

-- The end of a socket. With Qt 6 the upper layer is told of it in any case, and with Qt 5 and SSL
-- only if the socket was encrypted.
unfoldable pub on_disconnected : Bool → ℕ → Bool → TcpSocketServer → TcpSocketServer
unfolding on_socket_disconnected
on_disconnected qt_6 client is_encrypted t = call (deleted client) (
    forward (λ server. record server { clients = remove_all client server.clients })
      (if t.ssl_enabled
        then (if qt_6
            then on_socket_disconnected client t
            else if is_encrypted
            then on_socket_disconnected client t
            else t)
        else on_socket_disconnected client t))
