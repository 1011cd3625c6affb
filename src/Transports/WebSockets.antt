-- ===== src/Transports/WebSockets.antt =====
-- libnymea-remoteproxy/server/websocketserver.h and websocketserver.cpp: WebSocketServer. Sockets
-- are numbers; their versions and peer addresses, whether an address can be listened on, and the
-- conversion of texts are Qt's.
use Prim.Native.Nat.{◌%◌, ◌^◌}
use nymea_remoteproxy.Base.{
  ℕ, ◌+◌, Bool, true, false, not, Option, none, some, String, str_append, List, [], ◌∷◌, Hash,
  Bytes, value, insert, remove, values, count, if◌then◌else◌, ◌==◌,
}
use nymea_remoteproxy.Transports.{
  close_code_normal, close_code_protocol_error, close_code_bad_operation, Signal, client_connected,
  client_disconnected, data_available, ServerUrl, Call, sent_text, flushed, closed, closed_because,
  aborted, deleted, closed_server, key,
}

pub record WebSocketServer : Type 0 where
  pub ssl_enabled : Bool
  pub server_url : ServerUrl
  -- the server object, and whether it listens
  pub server : Option Bool
  pub client_list : Hash ℕ
  -- the number of calls of createUuid
  pub created : ℕ
  -- the signals and the calls, the latest first
  pub signals : List Signal
  pub calls : List Call

unfoldable pub new_web_socket_server : Bool → WebSocketServer
new_web_socket_server ssl_enabled = record {
  ssl_enabled = ssl_enabled;
  server_url = record { host = ""; port = 0 };
  server = none;
  client_list = [];
  created = 0;
  signals = [];
  calls = [];
}

abbrev pub emit : Signal → WebSocketServer → WebSocketServer
emit signal t = record t { signals = signal ∷ t.signals }

abbrev pub call : Call → WebSocketServer → WebSocketServer
call c t = record t { calls = c ∷ t.calls }

unfoldable pub running : WebSocketServer → Bool
running t = elim t.server [ none ↦ false | some listening ↦ listening ]

unfoldable pub set_server_url : ServerUrl → WebSocketServer → WebSocketServer
set_server_url url t = record t { server_url = url }

unfoldable pub connections_count : WebSocketServer → ℕ
connections_count t = count t.client_list

unfoldable pub kill_client_connection : ℕ → String → WebSocketServer → WebSocketServer
kill_client_connection client_id kill_reason t = elim (value t.client_list client_id) [
  | none ↦ t
  | some client ↦
      call (closed_because client close_code_bad_operation kill_reason) (call (flushed client) t)
]

-- A socket that Qt has for the server, with the version of its protocol.
pub record Pending : Type 0 where
  pub socket : ℕ
  pub version : ℕ
  pub address : String

-- startServer; it does not look at a server that there is.
unfoldable pub start_server : (String → ℕ → Bool) → WebSocketServer → WebSocketServer × Bool
start_server can_listen t =
    if can_listen t.server_url.host (t.server_url.port % 2 ^ 16)
    then (record t { server = some true }, true)
    else (record t { server = none }, false)

unfoldable pub abort_all : List ℕ → WebSocketServer → WebSocketServer
abort_all [] t = t
abort_all (client ∷ clients) t = abort_all clients (
    call (aborted client)
      (call (flushed client) (call (closed_because client close_code_normal "Stop server") t)))

abbrev pub drop_server : Option Bool → WebSocketServer → WebSocketServer
drop_server none t = t
drop_server (some listening) t = record (call closed_server t) { server = none }

unfoldable pub stop_server : WebSocketServer → WebSocketServer × Bool
unfolding abort_all
stop_server t = let t' = abort_all (values t.client_list) t in (drop_server t.server t', true)

abbrev pub take_client : Option ℕ → ℕ → ℕ → WebSocketServer → Option WebSocketServer
take_client none client client_id t = none
take_client (some found) client client_id t = some (
    emit (client_disconnected client_id) (record (call (deleted found) (call (closed client) t)) {
      client_list = remove t.client_list client_id;
    }))

-- The end of a socket. The entry of the table is used without a test: there is no result if there
-- is no such entry.
unfoldable pub on_client_disconnected : ℕ → WebSocketServer → Option WebSocketServer
on_client_disconnected client t =
    let client_id = key t.client_list client in
    take_client (value t.client_list client_id) client client_id t

unfoldable pub on_binary_message_received : ℕ → Bytes → WebSocketServer → WebSocketServer
on_binary_message_received client bytes t =
    call (closed_because client close_code_bad_operation "Binary message not expected.") t

unfoldable pub on_client_error : ℕ → WebSocketServer → WebSocketServer
on_client_error client t = call (closed client) t

module _ (from_utf8 : Bytes → String) where
  -- The conversion of the bytes to a text is that of QString's constructor.
  unfoldable pub send_data : ℕ → Bytes → WebSocketServer → WebSocketServer
  send_data client_id bytes t = elim (value t.client_list client_id) [
    | none ↦ t
    | some client ↦ call (sent_text client (from_utf8 bytes)) t
  ]

module _ (to_utf8 : String → Bytes) where
  unfoldable pub on_text_message_received : ℕ → String → WebSocketServer → WebSocketServer
  on_text_message_received client message t =
      emit (data_available (key t.client_list client) (to_utf8 message)) t

module _ (number_text : ℕ → String) (create_uuid : ℕ → ℕ) where
  abbrev pub refuse : Pending → WebSocketServer → WebSocketServer
  refuse p t = call (deleted p.socket) (
      call
        (closed_because p.socket close_code_protocol_error (
          str_append "invalid protocol version: "
            (str_append (number_text p.version) " != Supported Version 13")))
        t)

  abbrev pub admit : Pending → WebSocketServer → WebSocketServer
  admit p t =
      let client_id = create_uuid t.created in
      emit (client_connected client_id p.address) (record t {
        client_list = insert t.client_list client_id p.socket;
        created = t.created + 1;
      })

  unfoldable pub accept_client : Pending → WebSocketServer → WebSocketServer
  accept_client p t = if not (p.version == 13) then refuse p t else admit p t

  -- nextPendingConnection has returned a socket, or null.
  unfoldable pub on_client_connected : Option Pending → WebSocketServer → WebSocketServer
  unfolding accept_client
  on_client_connected none t = t
  on_client_connected (some p) t = accept_client p t
