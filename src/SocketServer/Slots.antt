-- ===== src/SocketServer/Slots.antt =====
-- libnymea-remoteproxyclient/tunnelproxy/tunnelproxysocketserver.cpp: the slots for replies and
-- notifications, the data of the connection, and the timers.
use nymea_remoteproxy.Base.{
  ℕ, Bool, true, false, not, Option, none, some, List, [], ◌∷◌, str_eq, value, Bytes, if◌then◌else◌,
  ◌==◌, is_empty, ◌++◌,
}
use nymea_remoteproxy.Slip.{Frame, protocol_byte_end, deserialize_data, parse_frame}
use nymea_remoteproxy.Client.{json_cut}
use nymea_remoteproxy.Variant.{VariantMap, get_value, to_map, Qt}
use nymea_remoteproxy.RpcClient.{
  JsonRpcClient, PendingReply, ClientEvent, finished, tunnel_established, client_connected,
  client_disconnected, call_hello, call_register_server, call_disconnect_client, call_ping,
  receive_packet,
}
use nymea_remoteproxy.SocketServer.{
  TunnelProxySocketServer, state_connected, state_initializing, state_register, state_running,
  state_disconnected, error_no_error, error_connection_error, error_not_connected, same_state,
  signal, disconnects, data_received, set_state, set_server_error, clean_up, start_socket_server,
  on_tunnel_proxy_client_connected, on_tunnel_proxy_client_disconnected,
}

abbrev on_client : (JsonRpcClient → JsonRpcClient) → Option JsonRpcClient → Option JsonRpcClient
on_client f none = none
on_client f (some c) = some (f c)

-- A call through m_jsonClient.
abbrev pub calls :
    (JsonRpcClient → JsonRpcClient) → TunnelProxySocketServer → TunnelProxySocketServer
calls f s = record s { json_client = on_client f s.json_client }

module _ (q : Qt) where
  unfoldable pub on_connection_changed : Bool → TunnelProxySocketServer → TunnelProxySocketServer
  on_connection_changed true s = calls (call_hello q) (
      set_state state_initializing
        (record (set_state state_connected s) { server_error = error_no_error }))
  on_connection_changed false s =
      clean_up (set_server_error error_not_connected (set_state state_disconnected s))

  -- The end of a connection that cannot be used.
  abbrev pub give_up : TunnelProxySocketServer → TunnelProxySocketServer
  give_up s = set_server_error error_connection_error (signal disconnects s)

  unfoldable pub on_hello_finished : VariantMap → TunnelProxySocketServer → TunnelProxySocketServer
  on_hello_finished response s =
      if not (str_eq (q.to_text (get_value response "status")) "success")
      then give_up s
      else let params = to_map (get_value response "params") in
        calls (λ c. call_register_server q c s.server_uuid s.server_name)
          (set_state state_register (record s {
            remote_proxy_server = q.to_text (get_value params "server");
            remote_proxy_server_name = q.to_text (get_value params "name");
            remote_proxy_server_version = q.to_text (get_value params "version");
            remote_proxy_api_version = q.to_text (get_value params "apiVersion");
          }))

  unfoldable pub on_server_registration_finished :
      VariantMap → TunnelProxySocketServer → TunnelProxySocketServer
  on_server_registration_finished response s =
      if not (str_eq (q.to_text (get_value response "status")) "success")
      then give_up s
      else if not (
          str_eq (q.to_text (get_value (to_map (get_value response "params")) "tunnelProxyError"))
            "TunnelProxyErrorNoError")
      then give_up s
      else record (set_state state_running s) { server_error = error_no_error }

  -- The slot of a reply, which is the one of the call that made it.
  unfoldable pub on_reply_finished :
      PendingReply → TunnelProxySocketServer → TunnelProxySocketServer
  on_reply_finished r s =
      if str_eq r.method "Hello"
      then on_hello_finished r.response s
      else if str_eq r.method "RegisterServer"
      then on_server_registration_finished r.response s
      else s

  unfoldable pub on_event : Option ClientEvent → TunnelProxySocketServer → TunnelProxySocketServer
  on_event none s = s
  on_event (some (finished r)) s = on_reply_finished r s
  on_event (some (tunnel_established name uuid)) s = s
  on_event (some (client_connected name uuid peer address)) s =
      on_tunnel_proxy_client_connected name uuid peer address s
  on_event (some (client_disconnected address)) s = on_tunnel_proxy_client_disconnected address s

  -- JsonRpcClient::processData, with the slots that run while it goes through the packets.
  unfoldable pub process_json_packets :
      List Bytes → TunnelProxySocketServer → TunnelProxySocketServer
  process_json_packets [] s = s
  process_json_packets (packet ∷ packets) s = process_json_packets packets (elim s.json_client [
    | none ↦ s
    | some c ↦
        let (c', event) = receive_packet q c packet in
        on_event event (record s { json_client = some c' })
  ])

  unfoldable pub process_json : Bytes → TunnelProxySocketServer → TunnelProxySocketServer
  process_json bytes s = elim s.json_client [
    | none ↦ s
    | some c ↦
        let cut = json_cut c.data_buffer bytes in
        process_json_packets cut.packets
          (record s { json_client = some (record c { data_buffer = cut.buffer }) })
  ]

  unfoldable pub on_frame_received : Frame → TunnelProxySocketServer → TunnelProxySocketServer
  on_frame_received frame s =
      if frame.socket_address == 0x0000
      then process_json frame.payload s
      else elim (value s.tunnel_proxy_sockets frame.socket_address) [
        | none ↦ s
        | some socket ↦ signal (data_received frame.socket_address frame.payload) s
      ]

  -- One round of the loop over the received bytes; the buffer is cleared after every end byte.
  unfoldable pub on_byte : ℕ → TunnelProxySocketServer → TunnelProxySocketServer
  on_byte byte s =
      if byte == protocol_byte_end
      then (if is_empty s.data_buffer
          then s
          else let frame_data = deserialize_data s.data_buffer in
            if is_empty frame_data
            then record s { data_buffer = [] }
            else record (on_frame_received (parse_frame frame_data) s) { data_buffer = [] })
      else record s { data_buffer = s.data_buffer ++ byte ∷ [] }

  unfoldable pub on_bytes : Bytes → TunnelProxySocketServer → TunnelProxySocketServer
  on_bytes [] s = s
  on_bytes (byte ∷ bytes) s = on_bytes bytes (on_byte byte s)

  unfoldable pub on_connection_data_available :
      Bytes → TunnelProxySocketServer → TunnelProxySocketServer
  on_connection_data_available bytes s =
      let s' = record s { keep_alive_timer = true } in
      if same_state s.state state_running
      then on_bytes bytes s'
      else record (process_json bytes s') { data_buffer = [] }

  unfoldable pub request_socket_disconnect : ℕ → TunnelProxySocketServer → TunnelProxySocketServer
  request_socket_disconnect socket_address s =
      calls (λ c. call_disconnect_client q c socket_address) s

  -- The timers of setupTimers; the URL is the one that the server was started with.
  unfoldable pub on_reconnect_timeout : TunnelProxySocketServer → TunnelProxySocketServer
  on_reconnect_timeout s =
      if not s.enabled
      then record s { reconnect_timer = false }
      else if same_state s.state state_disconnected
      then start_socket_server true s
      else s

  unfoldable pub on_keep_alive_timeout : ℕ → TunnelProxySocketServer → TunnelProxySocketServer
  on_keep_alive_timeout now s =
      if same_state s.state state_running
      then calls (λ c. call_ping q c now) s
      else record s { keep_alive_timer = false }
