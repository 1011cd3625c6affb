-- ===== src/Transports/UnixSockets.antt =====
-- libnymea-remoteproxy/server/unixsocketserver.h and unixsocketserver.cpp: UnixSocketServer. Sockets
-- are numbers; their states, and whether the file can be listened on, are Qt's.
use nymea_remoteproxy.Base.{
  ℕ, ◌+◌, Bool, true, false, Option, none, some, String, List, [], ◌∷◌, Hash, Bytes, value, insert,
  remove, values, count, if◌then◌else◌,
}
use nymea_remoteproxy.Transports.{
  Signal, client_connected, client_disconnected, data_available, Call, wrote, flushed, closed,
  closed_server, key,
}

pub record UnixSocketServer : Type 0 where
  pub socket_file_name : String
  -- the server object, and whether it listens
  pub server : Option Bool
  pub client_list : Hash ℕ
  -- the uuids that the handlers of readyRead have captured, by socket
  pub captured : Hash ℕ
  -- the number of calls of createUuid
  pub created : ℕ
  -- the signals and the calls, the latest first
  pub signals : List Signal
  pub calls : List Call

unfoldable pub new_unix_socket_server : String → UnixSocketServer
new_unix_socket_server socket_file_name = record {
  socket_file_name = socket_file_name;
  server = none;
  client_list = [];
  captured = [];
  created = 0;
  signals = [];
  calls = [];
}

abbrev pub emit : Signal → UnixSocketServer → UnixSocketServer
emit signal t = record t { signals = signal ∷ t.signals }

abbrev pub call : Call → UnixSocketServer → UnixSocketServer
call c t = record t { calls = c ∷ t.calls }

unfoldable pub send_data : ℕ → Bytes → UnixSocketServer → UnixSocketServer
send_data client_id bytes t = elim (value t.client_list client_id) [
  | none ↦ t
  | some client ↦ call (flushed client) (call (wrote client bytes) t)
]

-- With whether each socket is in the connected state.
unfoldable pub kill_client_connection :
    (ℕ → Bool) → ℕ → String → UnixSocketServer → UnixSocketServer
kill_client_connection is_connected client_id kill_reason t = elim (value t.client_list client_id) [
  | none ↦ t
  | some client ↦ if is_connected client then call (closed client) t else t
]

unfoldable pub connections_count : UnixSocketServer → ℕ
connections_count t = count t.client_list

unfoldable pub running : UnixSocketServer → Bool
running t = elim t.server [ none ↦ false | some listening ↦ listening ]

-- startServer; it does not look at a server that there is. The removal of an old file is left out.
unfoldable pub start_server : (String → Bool) → UnixSocketServer → UnixSocketServer × Bool
start_server can_listen t =
    if can_listen t.socket_file_name
    then (record t { server = some true }, true)
    else (record t { server = none }, false)

abbrev pub close_all : List ℕ → UnixSocketServer → UnixSocketServer
close_all [] t = t
close_all (client ∷ clients) t = close_all clients (call (closed client) t)

abbrev pub stop_listening : Option Bool → UnixSocketServer → UnixSocketServer
stop_listening none t = t
stop_listening (some listening) t =
    record (call closed_server (close_all (values t.client_list) t)) { server = none }

unfoldable pub stop_server : UnixSocketServer → UnixSocketServer × Bool
stop_server t = (stop_listening t.server t, true)

abbrev pub take_client : Option ℕ → ℕ → UnixSocketServer → UnixSocketServer
take_client none client_id t = t
take_client (some found) client_id t =
    emit (client_disconnected client_id) (record t { client_list = remove t.client_list client_id })

-- The handler of a socket's end: it announces the end of a client that is in the table.
unfoldable pub on_disconnected : ℕ → UnixSocketServer → UnixSocketServer
on_disconnected client t =
    let client_id = key t.client_list client in
    take_client (value t.client_list client_id) client_id t

abbrev pub forward : Option ℕ → Bytes → UnixSocketServer → UnixSocketServer
forward none bytes t = t
forward (some client_id) bytes t = emit (data_available client_id bytes) t

-- The handler of a socket's data, which has captured the uuid; a socket that no client was made of
-- has no handler.
unfoldable pub on_ready_read : ℕ → Bytes → UnixSocketServer → UnixSocketServer
on_ready_read client bytes t = forward (value t.captured client) bytes t

module _ (create_uuid : ℕ → ℕ) where
  -- QHostAddress::LocalHost stands for the address.
  unfoldable pub on_client_connected : ℕ → UnixSocketServer → UnixSocketServer
  on_client_connected client t =
      let client_id = create_uuid t.created in
      emit (client_connected client_id "127.0.0.1") (record t {
        client_list = insert t.client_list client_id client;
        captured = insert t.captured client client_id;
        created = t.created + 1;
      })
