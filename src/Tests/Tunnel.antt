-- ===== src/Tests/Tunnel.antt =====
-- Examples for the theorems on both ends of the tunnel.
use nymea_remoteproxy.Base.{
  ℕ, ◌≡◌, ◌++◌, refl, sym, subst, true, false, some, [], ◌∷◌, Bytes, value, contains, insert,
  remove, modify, arith, is_some,
}
use nymea_remoteproxy.Slip.{build_frame}
use nymea_remoteproxy.Client.{
  tcp, type_server, type_client, TunnelProxyClient, new_client, activate_client, set_name, set_uuid,
  set_type, enable_slip_after_response, add_tx_data_count, set_slip_enabled,
}
use nymea_remoteproxy.Client.Slip.{IsPlain}
use nymea_remoteproxy.Connections.{
  register_client_connection, get_free_address, skip_used, set_server_connection,
  set_socket_address, new_client_connection, new_server_connection,
}
use nymea_remoteproxy.State.{
  TunnelProxyServer, sent, send_data, modify_client, send_notification, send_document, json_bytes,
  notification_document,
}
use nymea_remoteproxy.Registration.{
  register_server, accept_server, register_client, accept_client, link_client,
}
use nymea_remoteproxy.JsonRpc.{register_handler, register_json_client}
use nymea_remoteproxy.Server.Lifecycle.{new_server}
use nymea_remoteproxy.Server.Sockets.{on_client_connected}
use nymea_remoteproxy.Server.Traffic.{on_client_data_available}
use nymea_remoteproxy.Server.View.{view, view-modify_client}
use nymea_remoteproxy.Server.Consistent.{IsConsistent}
use nymea_remoteproxy.SocketServer.{
  TunnelProxySocketServer, TunnelProxySocket, state_running, same_state, data_received, writes,
  write_data, new_socket_server, set_socket_server_running, on_tunnel_proxy_client_connected,
}
use nymea_remoteproxy.SocketServer.Slots.{on_connection_data_available}
use nymea_remoteproxy.RemoteConnection.{
  TunnelProxyRemoteConnection, remote_connected, data_ready, new_remote_connection,
  state_remote_connected,
}
use nymea_remoteproxy.RemoteConnection
use nymea_remoteproxy.SocketServer
use nymea_remoteproxy.Tunnel.{client_data_arrives, server_data_arrives}
use nymea_remoteproxy.Tests.{test_qt, settings, with_client}
use nymea_remoteproxy.Tests.Server.{with_client-IsConsistent, phone, phone_found, phone_role}

abbrev phone_socket : TunnelProxySocket
phone_socket = record {
  client_name = "phone";
  client_uuid = 88;
  client_peer_address = "10.0.0.2";
  socket_address = 1;
  is_connected = true;
}

-- The server behind the proxy, which knows the phone by the address 1.
abbrev house : TunnelProxySocketServer
house =
    on_tunnel_proxy_client_connected "phone" 88 "10.0.0.2" 1
      (SocketServer.set_state state_running (new_socket_server 77 "house"))

house_empty : house.data_buffer ≡ []
unfolding on_tunnel_proxy_client_connected SocketServer.set_state set_socket_server_running
    new_socket_server
house_empty = refl

house_runs : same_state house.state state_running ≡ true
unfolding on_tunnel_proxy_client_connected SocketServer.set_state set_socket_server_running
    new_socket_server
house_runs = refl

house_knows : is_some (value house.tunnel_proxy_sockets 1) ≡ true
unfolding on_tunnel_proxy_client_connected SocketServer.set_state set_socket_server_running
    new_socket_server value insert remove
house_knows = refl

-- An end byte and others.
abbrev payload : Bytes
payload = 104 ∷ 192 ∷ []

client_data_arrives_example :
    (j : ℕ) × (p : TunnelProxyClient) × (bytes : Bytes) × ((view with_client).role j
      ≡ some (type_server, 77))
    × (value with_client.proxy_clients j ≡ some p)
    × ((on_client_data_available test_qt settings with_client 2 payload).output
        ≡ with_client.output ++ sent p.interface j bytes ∷ [])
    × (on_connection_data_available test_qt bytes house ≡ record house {
      keep_alive_timer = true;
      data_buffer = [];
      signals = house.signals ++ data_received 1 payload ∷ [];
    })
client_data_arrives_example =
    client_data_arrives test_qt settings with_client with_client-IsConsistent 2 88 77 phone payload
      house phone_role phone_found refl house_empty house_runs house_knows

-- The proxy speaks SLIP with the house.
abbrev slipping : TunnelProxyServer
slipping = modify_client 1 (set_slip_enabled true) with_client

slipping-IsConsistent : IsConsistent (view slipping)
unfolding set_slip_enabled
slipping-IsConsistent =
    subst IsConsistent (sym (view-modify_client 1 (set_slip_enabled true) with_client (λ c. refl)))
      with_client-IsConsistent

-- The house's socket.
abbrev house_socket : TunnelProxyClient
house_socket = record {
  interface = tcp;
  client_id = 1;
  peer_address = "10.0.0.1";
  creation_time_stamp = 5;
  name = "house";
  uuid = 77;
  data_buffer = [];
  kill_connection_requested = false;
  kill_connection_reason = "";
  slip_after_response_enabled = true;
  slip_enabled = true;
  message_id = 0;
  rx_data_count = 0;
  tx_data_count = 3;
  inactive_timer = record { interval = 60000; single_shot = false; active = true; restarts = true };
  type = type_server;
}

slipping_lem :
    (value slipping.proxy_clients 1 ≡ some house_socket)
    × ((view slipping).role 1 ≡ some (type_server, 77))
    × (value slipping.tunnel_proxy_client_connections 88 ≡ some phone)
unfolding on_client_connected new_client register_json_client new_server register_handler value
    contains insert remove modify modify_client register_server accept_server register_client
    accept_client link_client register_client_connection get_free_address skip_used
    set_server_connection set_socket_address new_client_connection new_server_connection
    send_notification send_document send_data activate_client set_name set_uuid set_type
    enable_slip_after_response add_tx_data_count set_slip_enabled json_bytes notification_document
slipping_lem = (refl, refl, refl)

abbrev established : TunnelProxyRemoteConnection
established = RemoteConnection.set_state state_remote_connected (new_remote_connection 88 "phone")

established_ready : remote_connected established ≡ true
unfolding RemoteConnection.set_state new_remote_connection
established_ready = refl

abbrev plain_bytes : Bytes
plain_bytes = 104 ∷ 105 ∷ []

short_frame-IsPlain : IsPlain (build_frame (record { socket_address = 1; payload = plain_bytes }))
unfolding build_frame
short_frame-IsPlain = (
  (λ e. absurd (omega (arith, e)), λ e. absurd (omega (arith, e))),
  (
    (λ e. absurd (omega (arith, e)), λ e. absurd (omega (arith, e))),
    (
      (λ e. absurd (omega (arith, e)), λ e. absurd (omega (arith, e))),
      ((λ e. absurd (omega (arith, e)), λ e. absurd (omega (arith, e))), tt),
    ),
  ),
)

server_data_arrives_example :
    (bytes : Bytes) × (j : ℕ) × (p : TunnelProxyClient) × ((write_data phone_socket plain_bytes
        house).signals
      ≡ house.signals ++ writes bytes ∷ [])
    × ((view slipping).role j ≡ some (type_client, 88))
    × (value slipping.proxy_clients j ≡ some p)
    × ((on_client_data_available test_qt settings slipping 1 bytes).output
        ≡ slipping.output ++ sent p.interface j plain_bytes ∷ [])
    × (RemoteConnection.on_connection_data_available test_qt plain_bytes established
        ≡ record established { signals = established.signals ++ data_ready plain_bytes ∷ [] })
server_data_arrives_example =
    server_data_arrives test_qt settings slipping slipping-IsConsistent 1 88 77 house_socket phone
      phone_socket plain_bytes house established slipping_lem.0 slipping_lem.1 refl refl
      slipping_lem.2 refl refl short_frame-IsPlain established_ready
