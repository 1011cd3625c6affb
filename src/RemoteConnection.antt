-- ===== src/RemoteConnection.antt =====
-- libnymea-remoteproxyclient/tunnelproxy/tunnelproxyremoteconnection.h and .cpp: the connection of a
-- client to a server behind the proxy. What it emits, and what its own connection is asked to do, is
-- a signal here; the connection answers by events.
pub mod Announced
pub mod Reach
use nymea_remoteproxy.Base.{
  ℕ, Bool, true, false, not, Option, none, some, List, [], ◌∷◌, ◌++◌, String, str_eq, Bytes,
  if◌then◌else◌, ◌==◌,
}
use nymea_remoteproxy.Client.{json_cut}
use nymea_remoteproxy.Variant.{VariantMap, get_value, to_map, Qt}
use nymea_remoteproxy.RpcClient.{
  JsonRpcClient, PendingReply, ClientEvent, finished, tunnel_established, client_connected,
  client_disconnected, new_rpc_client, call_hello, call_register_client, receive_packet,
}
use nymea_remoteproxy.SocketServer.{
  unknown_socket_error, SocketState, unconnected, host_lookup, connecting, connected, bound,
  closing, listening,
}

pub data RemoteState : Type 0 where
  state_connecting state_host_lookup state_connected state_initializing state_register
        state_remote_connected state_disconnecting state_disconnected :
      RemoteState

pub data RemoteSignal : Type 0 where
  state_changed : RemoteState → RemoteSignal
  remote_connected_changed : Bool → RemoteSignal
  error_occurred : ℕ → RemoteSignal
  data_ready sends : Bytes → RemoteSignal
  connects disconnects : RemoteSignal

pub record TunnelProxyRemoteConnection : Type 0 where
  pub client_uuid : ℕ
  pub client_name : String
  pub server_uuid : ℕ
  pub remote_proxy_server : String
  pub remote_proxy_server_name : String
  pub remote_proxy_server_version : String
  pub remote_proxy_api_version : String
  pub error : ℕ
  pub state : RemoteState
  pub connection : Bool
  pub json_client : Option JsonRpcClient
  pub signals : List RemoteSignal

-- The null uuid of the server is 0.
unfoldable pub new_remote_connection : ℕ → String → TunnelProxyRemoteConnection
new_remote_connection client_uuid client_name = record {
  client_uuid = client_uuid;
  client_name = client_name;
  server_uuid = 0;
  remote_proxy_server = "";
  remote_proxy_server_name = "";
  remote_proxy_server_version = "";
  remote_proxy_api_version = "";
  error = unknown_socket_error;
  state = state_disconnected;
  connection = false;
  json_client = none;
  signals = [];
}

abbrev pub signal : RemoteSignal → TunnelProxyRemoteConnection → TunnelProxyRemoteConnection
signal g r = record r { signals = r.signals ++ g ∷ [] }

abbrev number_of : RemoteState → ℕ
number_of state_connecting = 0
number_of state_host_lookup = 1
number_of state_connected = 2
number_of state_initializing = 3
number_of state_register = 4
number_of state_remote_connected = 5
number_of state_disconnecting = 6
number_of state_disconnected = 7

abbrev pub same_state : RemoteState → RemoteState → Bool
same_state a b = number_of a == number_of b

abbrev pub remote_connected : TunnelProxyRemoteConnection → Bool
remote_connected r = same_state r.state state_remote_connected

-- The signal of setState about the remote connection, for its two tests.
abbrev pub announce : Bool → Bool → TunnelProxyRemoteConnection → TunnelProxyRemoteConnection
announce true true r = r
announce true false r = signal (remote_connected_changed false) r
announce false true r = signal (remote_connected_changed true) r
announce false false r = r

unfoldable pub set_state : RemoteState → TunnelProxyRemoteConnection → TunnelProxyRemoteConnection
set_state state r =
    if same_state r.state state
    then r
    else announce (remote_connected r) (same_state state state_remote_connected)
        (signal (state_changed state) (record r { state = state }))

unfoldable pub clean_up : TunnelProxyRemoteConnection → TunnelProxyRemoteConnection
clean_up r = set_state state_disconnected (record r {
  json_client = none;
  connection = false;
  remote_proxy_server = "";
  remote_proxy_server_name = "";
  remote_proxy_server_version = "";
  remote_proxy_api_version = "";
})

unfoldable pub connect_server : ℕ → TunnelProxyRemoteConnection → TunnelProxyRemoteConnection
connect_server server_uuid r =
    signal connects
      (record (clean_up (record r { server_uuid = server_uuid; error = unknown_socket_error })) {
        connection = true;
        json_client = some new_rpc_client;
      })

unfoldable pub disconnect_server : TunnelProxyRemoteConnection → TunnelProxyRemoteConnection
disconnect_server r = if r.connection then signal disconnects r else r

-- sendData, with what it returns.
unfoldable pub send_data : Bytes → TunnelProxyRemoteConnection → TunnelProxyRemoteConnection × Bool
send_data bytes r = if not (remote_connected r) then (r, false) else (signal (sends bytes) r, true)

unfoldable pub set_error : ℕ → TunnelProxyRemoteConnection → TunnelProxyRemoteConnection
set_error error r =
    if r.error == error then r else signal (error_occurred error) (record r { error = error })

abbrev pub on_connection_socket_error :
    ℕ → TunnelProxyRemoteConnection → TunnelProxyRemoteConnection
on_connection_socket_error error r = set_error error r

unfoldable pub on_connection_state_changed :
    SocketState → TunnelProxyRemoteConnection → TunnelProxyRemoteConnection
on_connection_state_changed unconnected r = set_state state_disconnected r
on_connection_state_changed host_lookup r = set_state state_host_lookup r
on_connection_state_changed connecting r = set_state state_connecting r
on_connection_state_changed connected r = set_state state_connected r
on_connection_state_changed closing r = set_state state_disconnecting r
on_connection_state_changed bound r = r
on_connection_state_changed listening r = r

-- A call through m_jsonClient.
abbrev calls :
    (JsonRpcClient → JsonRpcClient) → TunnelProxyRemoteConnection → TunnelProxyRemoteConnection
calls f r = record r { json_client = elim r.json_client [ none ↦ none | some c ↦ some (f c) ] }

module _ (q : Qt) where
  unfoldable pub on_connection_changed :
      Bool → TunnelProxyRemoteConnection → TunnelProxyRemoteConnection
  on_connection_changed true r =
      calls (call_hello q) (set_state state_initializing (set_state state_connected r))
  on_connection_changed false r = clean_up (set_state state_disconnected r)

  unfoldable pub on_hello_finished :
      VariantMap → TunnelProxyRemoteConnection → TunnelProxyRemoteConnection
  on_hello_finished response r =
      if not (str_eq (q.to_text (get_value response "status")) "success")
      then signal disconnects r
      else let params = to_map (get_value response "params") in
        calls (λ c. call_register_client q c r.client_uuid r.client_name r.server_uuid)
          (set_state state_register (record r {
            remote_proxy_server = q.to_text (get_value params "server");
            remote_proxy_server_name = q.to_text (get_value params "name");
            remote_proxy_server_version = q.to_text (get_value params "version");
            remote_proxy_api_version = q.to_text (get_value params "apiVersion");
          }))

  unfoldable pub on_client_registration_finished :
      VariantMap → TunnelProxyRemoteConnection → TunnelProxyRemoteConnection
  on_client_registration_finished response r =
      if not (str_eq (q.to_text (get_value response "status")) "success")
      then signal disconnects r
      else if not (
          str_eq (q.to_text (get_value (to_map (get_value response "params")) "tunnelProxyError"))
            "TunnelProxyErrorNoError")
      then signal disconnects r
      else set_state state_remote_connected r

  -- The slot of a reply, which is the one of the call that made it; no other event has a slot.
  unfoldable pub on_event :
      Option ClientEvent → TunnelProxyRemoteConnection → TunnelProxyRemoteConnection
  on_event none r = r
  on_event (some (finished reply)) r =
      if str_eq reply.method "Hello"
      then on_hello_finished reply.response r
      else if str_eq reply.method "RegisterClient"
      then on_client_registration_finished reply.response r
      else r
  on_event (some (tunnel_established name uuid)) r = r
  on_event (some (client_connected name uuid peer address)) r = r
  on_event (some (client_disconnected address)) r = r

  -- One packet of JsonRpcClient::processData, with the slot that runs.
  unfoldable pub on_packet :
      Option JsonRpcClient → Bytes → TunnelProxyRemoteConnection → TunnelProxyRemoteConnection
  on_packet none packet r = r
  on_packet (some c) packet r =
      let (c', event) = receive_packet q c packet in
      on_event event (record r { json_client = some c' })

  unfoldable pub process_json_packets :
      List Bytes → TunnelProxyRemoteConnection → TunnelProxyRemoteConnection
  process_json_packets [] r = r
  process_json_packets (packet ∷ packets) r =
      process_json_packets packets (on_packet r.json_client packet r)

  unfoldable pub process_json :
      Option JsonRpcClient → Bytes → TunnelProxyRemoteConnection → TunnelProxyRemoteConnection
  process_json none bytes r = r
  process_json (some c) bytes r =
      let cut = json_cut c.data_buffer bytes in
      process_json_packets cut.packets
        (record r { json_client = some (record c { data_buffer = cut.buffer }) })

  unfoldable pub on_connection_data_available :
      Bytes → TunnelProxyRemoteConnection → TunnelProxyRemoteConnection
  on_connection_data_available bytes r =
      if not (remote_connected r)
      then process_json r.json_client bytes r
      else signal (data_ready bytes) r
