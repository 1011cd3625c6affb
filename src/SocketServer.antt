-- ===== src/SocketServer.antt =====
-- libnymea-remoteproxyclient/tunnelproxy/tunnelproxysocketserver.h and .cpp, tunnelproxysocket.h
-- and .cpp: a server behind the proxy. What its connection is asked to do is a signal here; the
-- connection answers by events of its own (onConnectionChanged, onConnectionStateChanged).
pub mod Slots
pub mod Delivery
pub mod Running
pub mod Reading
pub mod Reach
use nymea_remoteproxy.Base.{
  ℕ, Bool, true, false, not, ◌&&◌, Option, none, some, List, [], ◌∷◌, ◌++◌, String, str_eq, Hash,
  value, insert, remove, keys, Bytes, if◌then◌else◌, ◌==◌, is_empty,
}
use nymea_remoteproxy.Slip.{
  Frame, protocol_byte_end, serialize_data, build_frame, deserialize_data, parse_frame,
}
use nymea_remoteproxy.Client.{json_cut}
use nymea_remoteproxy.Variant.{VariantMap, get_value, to_map, Qt}
use nymea_remoteproxy.RpcClient.{
  JsonRpcClient, PendingReply, ClientEvent, finished, tunnel_established, client_connected,
  client_disconnected, new_rpc_client, call_hello, call_register_server, call_disconnect_client,
  call_ping, receive_packet,
}

pub data SocketServerState : Type 0 where
  state_connecting state_host_lookup state_connected state_initializing state_register state_running
        state_disconnecting state_disconnected :
      SocketServerState

pub data SocketServerError : Type 0 where
  error_no_error error_connection_error error_invalid_address error_not_connected
        error_not_registered :
      SocketServerError

-- QAbstractSocket::SocketState.
pub data SocketState : Type 0 where
  unconnected host_lookup connecting connected bound closing listening : SocketState

pub record TunnelProxySocket : Type 0 where
  pub client_name : String
  pub client_uuid : ℕ
  pub client_peer_address : String
  pub socket_address : ℕ
  pub is_connected : Bool

-- Errors of a socket are numbered, with QAbstractSocket::UnknownSocketError as the first.
abbrev pub unknown_socket_error : ℕ
unknown_socket_error = 0

-- What the server emits, and what it asks of its connection.
pub data Signal : Type 0 where
  state_changed : SocketServerState → Signal
  running_changed : Bool → Signal
  error_occurred : ℕ → Signal
  server_error_occurred : SocketServerError → Signal
  socket_connected socket_disconnected : ℕ → Signal
  data_received : ℕ → Bytes → Signal
  connects disconnects : Signal
  writes : Bytes → Signal

pub record TunnelProxySocketServer : Type 0 where
  pub server_uuid : ℕ
  pub server_name : String
  pub remote_proxy_server : String
  pub remote_proxy_server_name : String
  pub remote_proxy_server_version : String
  pub remote_proxy_api_version : String
  pub running : Bool
  pub error : ℕ
  pub server_error : SocketServerError
  pub state : SocketServerState
  pub reconnect_timer : Bool
  pub keep_alive_timer : Bool
  pub enabled : Bool
  pub connection : Bool
  pub json_client : Option JsonRpcClient
  pub tunnel_proxy_sockets : Hash TunnelProxySocket
  pub data_buffer : Bytes
  pub signals : List Signal

unfoldable pub new_socket_server : ℕ → String → TunnelProxySocketServer
new_socket_server server_uuid server_name = record {
  server_uuid = server_uuid;
  server_name = server_name;
  remote_proxy_server = "";
  remote_proxy_server_name = "";
  remote_proxy_server_version = "";
  remote_proxy_api_version = "";
  running = false;
  error = unknown_socket_error;
  server_error = error_no_error;
  state = state_disconnected;
  reconnect_timer = false;
  keep_alive_timer = false;
  enabled = false;
  connection = false;
  json_client = none;
  tunnel_proxy_sockets = [];
  data_buffer = [];
  signals = [];
}

abbrev pub signal : Signal → TunnelProxySocketServer → TunnelProxySocketServer
signal g s = record s { signals = s.signals ++ g ∷ [] }

-- The enumerators by number, for the tests of equality.
abbrev number_of : SocketServerState → ℕ
number_of state_connecting = 0
number_of state_host_lookup = 1
number_of state_connected = 2
number_of state_initializing = 3
number_of state_register = 4
number_of state_running = 5
number_of state_disconnecting = 6
number_of state_disconnected = 7

abbrev pub same_state : SocketServerState → SocketServerState → Bool
same_state a b = number_of a == number_of b

abbrev error_number : SocketServerError → ℕ
error_number error_no_error = 0
error_number error_connection_error = 1
error_number error_invalid_address = 2
error_number error_not_connected = 3
error_number error_not_registered = 4

unfoldable pub set_socket_server_running : Bool → TunnelProxySocketServer → TunnelProxySocketServer
set_socket_server_running true s =
    if s.running
    then s
    else signal (running_changed true) (record s { running = true; keep_alive_timer = true })
set_socket_server_running false s =
    if s.running
    then signal (running_changed false) (record s { running = false; keep_alive_timer = false })
    else s

-- The timers after a change of state.
abbrev pub after_change : TunnelProxySocketServer → TunnelProxySocketServer
after_change s =
    if same_state s.state state_disconnected && s.enabled
    then record s { reconnect_timer = true; keep_alive_timer = false }
    else s

unfoldable pub set_state : SocketServerState → TunnelProxySocketServer → TunnelProxySocketServer
unfolding set_socket_server_running
set_state state s =
    if same_state s.state state
    then s
    else after_change (
        set_socket_server_running (same_state state state_running)
          (signal (state_changed state) (record s { state = state })))

unfoldable pub set_error : ℕ → TunnelProxySocketServer → TunnelProxySocketServer
set_error error s =
    if s.error == error then s else signal (error_occurred error) (record s { error = error })

abbrev pub on_connection_socket_error : ℕ → TunnelProxySocketServer → TunnelProxySocketServer
on_connection_socket_error error s = set_error error s

unfoldable pub set_server_error :
    SocketServerError → TunnelProxySocketServer → TunnelProxySocketServer
set_server_error error s =
    if error_number s.server_error == error_number error
    then s
    else signal (server_error_occurred error) (record s { server_error = error })

unfoldable pub on_tunnel_proxy_client_connected :
    String → ℕ → String → ℕ → TunnelProxySocketServer → TunnelProxySocketServer
on_tunnel_proxy_client_connected client_name client_uuid client_peer_address socket_address s =
    signal (socket_connected socket_address) (record s {
      tunnel_proxy_sockets = insert s.tunnel_proxy_sockets socket_address (record {
        client_name = client_name;
        client_uuid = client_uuid;
        client_peer_address = client_peer_address;
        socket_address = socket_address;
        is_connected = true;
      });
    })

unfoldable pub on_tunnel_proxy_client_disconnected :
    ℕ → TunnelProxySocketServer → TunnelProxySocketServer
on_tunnel_proxy_client_disconnected socket_address s =
    elim (value s.tunnel_proxy_sockets socket_address) [
      | none ↦ s
      | some socket ↦
          signal (socket_disconnected socket_address)
            (record s { tunnel_proxy_sockets = remove s.tunnel_proxy_sockets socket_address })
    ]

abbrev pub disconnect_all : List ℕ → TunnelProxySocketServer → TunnelProxySocketServer
disconnect_all [] s = s
disconnect_all (a ∷ addresses) s =
    disconnect_all addresses (on_tunnel_proxy_client_disconnected a s)

unfoldable pub clean_up : TunnelProxySocketServer → TunnelProxySocketServer
unfolding set_state
clean_up s =
    let s' = disconnect_all (keys s.tunnel_proxy_sockets) s in
    set_state state_disconnected (record s' {
      json_client = none;
      connection = false;
      remote_proxy_server = "";
      remote_proxy_server_name = "";
      remote_proxy_server_version = "";
      remote_proxy_api_version = "";
    })

-- startServer, for a URL that is valid or not.
unfoldable pub start_socket_server : Bool → TunnelProxySocketServer → TunnelProxySocketServer
start_socket_server valid s =
    if not valid
    then s
    else signal connects (record (clean_up (record s { error = unknown_socket_error })) {
      connection = true;
      json_client = some new_rpc_client;
      enabled = true;
    })

unfoldable pub stop_socket_server : TunnelProxySocketServer → TunnelProxySocketServer
stop_socket_server s =
    let s' = record s { enabled = false; reconnect_timer = false } in
    if s.connection then signal disconnects s' else s'

unfoldable pub write_data :
    TunnelProxySocket → Bytes → TunnelProxySocketServer → TunnelProxySocketServer
write_data socket bytes s =
    signal
      (writes (
        serialize_data
          (build_frame (record { socket_address = socket.socket_address; payload = bytes }))))
      s

unfoldable pub on_connection_state_changed :
    SocketState → TunnelProxySocketServer → TunnelProxySocketServer
on_connection_state_changed unconnected s = set_state state_disconnected s
on_connection_state_changed host_lookup s = set_state state_host_lookup s
on_connection_state_changed connecting s = set_state state_connecting s
on_connection_state_changed connected s = record (set_state state_connected s) {
  reconnect_timer = false;
}
on_connection_state_changed closing s = set_state state_disconnecting s
on_connection_state_changed bound s = s
on_connection_state_changed listening s = s
