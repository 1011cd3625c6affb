-- ===== src/SocketServer/Reading.antt =====
-- A server behind the proxy says that it is running exactly in the running state: what it does with
-- replies, notifications and received data (tunnelproxysocketserver.cpp: its slots).
use nymea_remoteproxy.Base.{
  not, str_eq, ℕ, Bool, true, false, Option, none, some, List, [], ◌∷◌, Bytes, arith, if◌then◌else◌,
  ◌==◌, inl, inr, Option-cases, value,
}
use nymea_remoteproxy.Slip.{Frame, deserialize_data, parse_frame}
use nymea_remoteproxy.Client.{json_cut}
use nymea_remoteproxy.Variant.{Qt, VariantMap, get_value}
use nymea_remoteproxy.RpcClient.{
  JsonRpcClient, PendingReply, ClientEvent, finished, tunnel_established, client_connected,
  client_disconnected, receive_packet,
}
use nymea_remoteproxy.SocketServer.{
  TunnelProxySocketServer, state_running, same_state, state_disconnected, state_connected,
  state_initializing, state_register, error_not_connected, error_connection_error, disconnects,
  signal,
}
use nymea_remoteproxy.SocketServer.Slots.{
  give_up, on_connection_changed, on_hello_finished, on_server_registration_finished,
  on_reply_finished, on_event, process_json_packets, process_json, on_frame_received, on_byte,
  on_bytes, on_connection_data_available, on_reconnect_timeout, on_keep_alive_timeout,
}
use nymea_remoteproxy.SocketServer.Running.{
  IsSettled, state_set, error_set, socket_gone, socket_new, cleaned, started,
}

if-IsSettled :
    (b : Bool) (s t : TunnelProxySocketServer)
    → IsSettled s
    → IsSettled t
    → IsSettled (if b then s else t)
if-IsSettled true s t h k = h
if-IsSettled false s t h k = k

module _ (q : Qt) where
  pub connection_changed :
      (b : Bool) (s : TunnelProxySocketServer)
      → IsSettled s
      → IsSettled (on_connection_changed q b s)
  unfolding on_connection_changed
  connection_changed true s h = state_set state_initializing _ (state_set state_connected s h)
  connection_changed false s h =
      cleaned _ (error_set error_not_connected _ (state_set state_disconnected s h))

  gave_up : (s : TunnelProxySocketServer) → IsSettled s → IsSettled (give_up q s)
  gave_up s h = error_set error_connection_error (signal disconnects s) h

  said_hello :
      (response : VariantMap) (s : TunnelProxySocketServer)
      → IsSettled s
      → IsSettled (on_hello_finished q response s)
  unfolding on_hello_finished
  said_hello response s h =
      if-IsSettled (not (str_eq (q.to_text (get_value response "status")) "success")) _ _
        (gave_up s h) (state_set state_register _ h)

  registered :
      (response : VariantMap) (s : TunnelProxySocketServer)
      → IsSettled s
      → IsSettled (on_server_registration_finished q response s)
  unfolding on_server_registration_finished
  registered response s h = ground (arith, gave_up s h, state_set state_running s h)

  reply_finished :
      (r : PendingReply) (s : TunnelProxySocketServer)
      → IsSettled s
      → IsSettled (on_reply_finished q r s)
  unfolding on_reply_finished
  reply_finished r s h = ground (arith, said_hello r.response s h, registered r.response s h)

  event_seen :
      (e : Option ClientEvent) (s : TunnelProxySocketServer)
      → IsSettled s
      → IsSettled (on_event q e s)
  unfolding on_event
  event_seen none s h = h
  event_seen (some (finished r)) s h = reply_finished r s h
  event_seen (some (tunnel_established name uuid)) s h = h
  event_seen (some (client_connected name uuid peer a)) s h = socket_new name uuid peer a s h
  event_seen (some (client_disconnected a)) s h = socket_gone a s h

  packets_read :
      (packets : List Bytes) (s : TunnelProxySocketServer)
      → IsSettled s
      → IsSettled (process_json_packets q packets s)
  unfolding process_json_packets
  packets_read [] s h = h
  packets_read (packet ∷ packets) s h = packets_read packets _ (one s.json_client)
    where
      one :
          (c : Option JsonRpcClient)
          → IsSettled (elim c [
            | none ↦ s
            | some c ↦
                let (c', event) = receive_packet q c packet in
                on_event q event (record s { json_client = some c' })
          ])
      one none = h
      one (some c) = event_seen (receive_packet q c packet).1 _ h

  json_read :
      (bytes : Bytes) (s : TunnelProxySocketServer)
      → IsSettled s
      → IsSettled (process_json q bytes s)
  unfolding process_json
  json_read bytes s h = elim (Option-cases s.json_client) [
    | inl none_e ↦ rw (process_json, none_e) h
    | inr (c, found) ↦
        rw (process_json, found) (packets_read (json_cut c.data_buffer bytes).packets _ h)
  ]

  frame_seen :
      (f : Frame) (s : TunnelProxySocketServer) → IsSettled s → IsSettled (on_frame_received q f s)
  unfolding on_frame_received
  frame_seen f s h = elim (Option-cases (value s.tunnel_proxy_sockets f.socket_address)) [
    | inl none_e ↦
        rw (on_frame_received, none_e)
          (if-IsSettled (f.socket_address == 0) _ _ (json_read f.payload s h) h)
    | inr (socket, found) ↦
        rw (on_frame_received, found)
          (if-IsSettled (f.socket_address == 0) _ _ (json_read f.payload s h) h)
  ]

  byte_read : (b : ℕ) (s : TunnelProxySocketServer) → IsSettled s → IsSettled (on_byte q b s)
  unfolding on_byte
  byte_read b s h = ground (arith, h, frame_seen (parse_frame (deserialize_data s.data_buffer)) s h)

  bytes_read :
      (bytes : Bytes) (s : TunnelProxySocketServer) → IsSettled s → IsSettled (on_bytes q bytes s)
  unfolding on_bytes
  bytes_read [] s h = h
  bytes_read (b ∷ bytes) s h = bytes_read bytes (on_byte q b s) (byte_read b s h)

  pub data_read :
      (bytes : Bytes) (s : TunnelProxySocketServer)
      → IsSettled s
      → IsSettled (on_connection_data_available q bytes s)
  unfolding on_connection_data_available
  data_read bytes s h =
      if-IsSettled (same_state s.state state_running) _ _ (bytes_read bytes _ h)
        (json_read bytes _ h)

  pub reconnects :
      (s : TunnelProxySocketServer) → IsSettled s → IsSettled (on_reconnect_timeout q s)
  unfolding on_reconnect_timeout
  reconnects s h = ground (arith, h, started true s h)

  pub keeps_alive :
      (now : ℕ) (s : TunnelProxySocketServer)
      → IsSettled s
      → IsSettled (on_keep_alive_timeout q now s)
  unfolding on_keep_alive_timeout
  keeps_alive now s h = if-IsSettled (same_state s.state state_running) _ _ h h
