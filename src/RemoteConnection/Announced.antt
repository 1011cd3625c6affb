-- ===== src/RemoteConnection/Announced.antt =====
-- What a connection to a server behind the proxy tells about itself
-- (tunnelproxyremoteconnection.cpp: setState, onConnectionDataAvailable, and all that calls them).
use nymea_remoteproxy.Base.{
  ℕ, ◌≡◌, ◌∙◌, refl, Bool, true, false, not, Option, none, some, List, [], ◌∷◌, ◌++◌, str_eq, Bytes,
  arith, if◌then◌else◌, ◌==◌, inl, inr, Bool-cases, sym,
}
use nymea_remoteproxy.Client.{json_cut}
use nymea_remoteproxy.Variant.{Qt, VariantMap, get_value}
use nymea_remoteproxy.RpcClient.{
  JsonRpcClient, ClientEvent, finished, tunnel_established, client_connected, client_disconnected,
  receive_packet,
}
use nymea_remoteproxy.SocketServer.{
  unknown_socket_error, SocketState, unconnected, host_lookup, connecting, connected, bound,
  closing, listening,
}
use nymea_remoteproxy.RemoteConnection.{
  TunnelProxyRemoteConnection, RemoteState, RemoteSignal, state_changed, remote_connected_changed,
  error_occurred, set_error, data_ready, sends, connects, disconnects, state_connecting,
  state_host_lookup, state_connected, state_initializing, state_register, state_remote_connected,
  state_disconnecting, state_disconnected, signal, same_state, remote_connected, announce,
  set_state, clean_up, connect_server, disconnect_server, send_data, on_connection_state_changed,
  on_connection_changed, on_hello_finished, on_client_registration_finished, on_event, on_packet,
  process_json_packets, process_json, on_connection_data_available,
}

abbrev told : Bool → RemoteSignal → Bool
told b (remote_connected_changed c) = c
told b _ = b

-- What a listener believes that hears the signals one after the other.
abbrev pub believed : Bool → List RemoteSignal → Bool
believed b [] = b
believed b (g ∷ l) = believed (told b g) l

abbrev pub IsAnnounced : TunnelProxyRemoteConnection → Type 0
IsAnnounced r = believed false r.signals ≡ remote_connected r

believed_last :
    (b : Bool) (l : List RemoteSignal) (g : RemoteSignal)
    → believed b (l ++ g ∷ []) ≡ told (believed b l) g
believed_last b [] g = refl
believed_last b (a ∷ l) g = believed_last (told b a) l g

announced :
    (a b : Bool) (r : TunnelProxyRemoteConnection)
    → believed false r.signals ≡ a
    → remote_connected r ≡ b
    → IsAnnounced (announce a b r)
announced true true r h k = h ∙ sym k
announced true false r h k = believed_last false r.signals (remote_connected_changed false) ∙ sym k
announced false true r h k = believed_last false r.signals (remote_connected_changed true) ∙ sym k
announced false false r h k = h ∙ sym k

state_set :
    (state : RemoteState) (r : TunnelProxyRemoteConnection)
    → IsAnnounced r
    → IsAnnounced (set_state state r)
unfolding set_state
state_set state r h = elim (Bool-cases (same_state r.state state)) [
  | inl same ↦ rw same h
  | inr other ↦ rw other (
      announced (remote_connected r) (same_state state state_remote_connected)
        (signal (state_changed state) (record r { state = state }))
        (believed_last false r.signals (state_changed state) ∙ h) refl)
]

cleaned : (r : TunnelProxyRemoteConnection) → IsAnnounced r → IsAnnounced (clean_up r)
unfolding clean_up
cleaned r h = state_set state_disconnected _ h

pub connects_server :
    (server_uuid : ℕ) (r : TunnelProxyRemoteConnection)
    → IsAnnounced r
    → IsAnnounced (connect_server server_uuid r)
unfolding connect_server
connects_server server_uuid r h =
    let r' = clean_up (record r { server_uuid = server_uuid; error = unknown_socket_error }) in
    believed_last false r'.signals connects
    ∙ cleaned (record r { server_uuid = server_uuid; error = unknown_socket_error }) h

gave_up : (r : TunnelProxyRemoteConnection) → IsAnnounced r → IsAnnounced (signal disconnects r)
gave_up r h = believed_last false r.signals disconnects ∙ h

if-IsAnnounced :
    (b : Bool) (r t : TunnelProxyRemoteConnection)
    → IsAnnounced r
    → IsAnnounced t
    → IsAnnounced (if b then r else t)
if-IsAnnounced true r t h k = h
if-IsAnnounced false r t h k = k

pub disconnects_server :
    (r : TunnelProxyRemoteConnection) → IsAnnounced r → IsAnnounced (disconnect_server r)
unfolding disconnect_server
disconnects_server r h = if-IsAnnounced r.connection _ _ (gave_up r h) h

pub sent :
    (bytes : Bytes) (r : TunnelProxyRemoteConnection)
    → IsAnnounced r
    → IsAnnounced (send_data bytes r).0
unfolding send_data
sent bytes r h = elim (Bool-cases (remote_connected r)) [
  | inl there ↦ rw there (believed_last false r.signals (sends bytes) ∙ h)
  | inr gone ↦ rw gone h
]

pub socket_failed :
    (error : ℕ) (r : TunnelProxyRemoteConnection) → IsAnnounced r → IsAnnounced (set_error error r)
unfolding set_error
socket_failed error r h = elim (Bool-cases (r.error == error)) [
  | inl same ↦ rw same h
  | inr other ↦ rw other (believed_last false r.signals (error_occurred error) ∙ h)
]

pub connection_state :
    (st : SocketState) (r : TunnelProxyRemoteConnection)
    → IsAnnounced r
    → IsAnnounced (on_connection_state_changed st r)
unfolding on_connection_state_changed
connection_state unconnected r h = state_set state_disconnected r h
connection_state host_lookup r h = state_set state_host_lookup r h
connection_state connecting r h = state_set state_connecting r h
connection_state connected r h = state_set state_connected r h
connection_state closing r h = state_set state_disconnecting r h
connection_state bound r h = h
connection_state listening r h = h

module _ (q : Qt) where
  pub connection_changed :
      (b : Bool) (r : TunnelProxyRemoteConnection)
      → IsAnnounced r
      → IsAnnounced (on_connection_changed q b r)
  unfolding on_connection_changed
  connection_changed true r h = state_set state_initializing _ (state_set state_connected r h)
  connection_changed false r h = cleaned _ (state_set state_disconnected r h)

  said_hello :
      (response : VariantMap) (r : TunnelProxyRemoteConnection)
      → IsAnnounced r
      → IsAnnounced (on_hello_finished q response r)
  unfolding on_hello_finished
  said_hello response r h =
      if-IsAnnounced (not (str_eq (q.to_text (get_value response "status")) "success")) _ _
        (gave_up r h) (state_set state_register _ h)

  registered :
      (response : VariantMap) (r : TunnelProxyRemoteConnection)
      → IsAnnounced r
      → IsAnnounced (on_client_registration_finished q response r)
  unfolding on_client_registration_finished
  registered response r h = ground (arith, gave_up r h, state_set state_remote_connected r h)

  event_seen :
      (e : Option ClientEvent) (r : TunnelProxyRemoteConnection)
      → IsAnnounced r
      → IsAnnounced (on_event q e r)
  unfolding on_event
  event_seen none r h = h
  event_seen (some (finished reply)) r h =
      ground (arith, said_hello reply.response r h, registered reply.response r h)
  event_seen (some (tunnel_established name uuid)) r h = h
  event_seen (some (client_connected name uuid peer a)) r h = h
  event_seen (some (client_disconnected a)) r h = h

  packet_read :
      (c : Option JsonRpcClient) (packet : Bytes) (r : TunnelProxyRemoteConnection)
      → IsAnnounced r
      → IsAnnounced (on_packet q c packet r)
  unfolding on_packet
  packet_read none packet r h = h
  packet_read (some c) packet r h = event_seen (receive_packet q c packet).1 _ h

  packets_read :
      (packets : List Bytes) (r : TunnelProxyRemoteConnection)
      → IsAnnounced r
      → IsAnnounced (process_json_packets q packets r)
  unfolding process_json_packets
  packets_read [] r h = h
  packets_read (packet ∷ packets) r h =
      packets_read packets _ (packet_read r.json_client packet r h)

  json_read :
      (c : Option JsonRpcClient) (bytes : Bytes) (r : TunnelProxyRemoteConnection)
      → IsAnnounced r
      → IsAnnounced (process_json q c bytes r)
  unfolding process_json
  json_read none bytes r h = h
  json_read (some c) bytes r h = packets_read (json_cut c.data_buffer bytes).packets _ h

  pub data_read :
      (bytes : Bytes) (r : TunnelProxyRemoteConnection)
      → IsAnnounced r
      → IsAnnounced (on_connection_data_available q bytes r)
  unfolding on_connection_data_available
  data_read bytes r h =
      if-IsAnnounced (not (remote_connected r)) _ _ (json_read r.json_client bytes r h)
        (believed_last false r.signals (data_ready bytes) ∙ h)
