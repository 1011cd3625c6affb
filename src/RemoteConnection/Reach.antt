-- ===== src/RemoteConnection/Reach.antt =====
-- The states that a connection to a server behind the proxy gets into
-- (tunnelproxyremoteconnection.cpp: its slots).
use nymea_remoteproxy.Base.{
  ℕ, ◌≡◌, ◌∙◌, refl, Bool, true, false, List, [], ◌∷◌, ◌++◌, map, append-nil, append_assoc, String,
  Bytes, sym, ap,
}
use nymea_remoteproxy.Variant.{Qt}
use nymea_remoteproxy.SocketServer.{SocketState}
use nymea_remoteproxy.RemoteConnection.{
  TunnelProxyRemoteConnection, data_ready, new_remote_connection, signal, remote_connected,
  connect_server, disconnect_server, send_data, on_connection_state_changed,
  on_connection_socket_error, on_connection_changed, on_connection_data_available,
}
use nymea_remoteproxy.RemoteConnection.Announced.{
  believed, IsAnnounced, connects_server, disconnects_server, sent, socket_failed, connection_state,
  connection_changed, data_read,
}

module _ (q : Qt) where
  -- What may happen to the connection, one call at a time.
  pub data RemoteStep : TunnelProxyRemoteConnection → TunnelProxyRemoteConnection → Type 0 where
    connecting_to :
        (uuid : ℕ) (r : TunnelProxyRemoteConnection) → RemoteStep r (connect_server uuid r)
    disconnecting : (r : TunnelProxyRemoteConnection) → RemoteStep r (disconnect_server r)
    sending : (bytes : Bytes) (r : TunnelProxyRemoteConnection) → RemoteStep r (send_data bytes r).0
    connection_changes :
        (b : Bool) (r : TunnelProxyRemoteConnection) → RemoteStep r (on_connection_changed q b r)
    state_changes :
        (st : SocketState) (r : TunnelProxyRemoteConnection)
        → RemoteStep r (on_connection_state_changed st r)
    socket_fails :
        (error : ℕ) (r : TunnelProxyRemoteConnection)
        → RemoteStep r (on_connection_socket_error error r)
    receives :
        (bytes : Bytes) (r : TunnelProxyRemoteConnection)
        → RemoteStep r (on_connection_data_available q bytes r)

  -- A state that the connection gets into after it was made.
  pub data IsRemoteReachable : TunnelProxyRemoteConnection → Type 0 where
    created : (uuid : ℕ) (name : String) → IsRemoteReachable (new_remote_connection uuid name)
    then_step :
        {r t : TunnelProxyRemoteConnection}
        → IsRemoteReachable r
        → RemoteStep r t
        → IsRemoteReachable t

  step-IsAnnounced :
      {r t : TunnelProxyRemoteConnection} → RemoteStep r t → IsAnnounced r → IsAnnounced t
  step-IsAnnounced (connecting_to uuid r) h = connects_server uuid r h
  step-IsAnnounced (disconnecting r) h = disconnects_server r h
  step-IsAnnounced (sending bytes r) h = sent bytes r h
  step-IsAnnounced (connection_changes b r) h = connection_changed q b r h
  step-IsAnnounced (state_changes st r) h = connection_state st r h
  step-IsAnnounced (socket_fails error r) h = socket_failed error r h
  step-IsAnnounced (receives bytes r) h = data_read q bytes r h

  -- In every state that a connection to a server reaches, by any sequence of calls and events of
  -- its own connection, the last remoteConnectedChanged that it emitted says whether it is in the
  -- state of a remote connection; where it emitted none, it is not in this state.
  pub announced_in_reach :
      {r : TunnelProxyRemoteConnection}
      → IsRemoteReachable r
      → believed false r.signals ≡ remote_connected r
  unfolding new_remote_connection
  announced_in_reach (created uuid name) = refl
  announced_in_reach (then_step reach step) = step-IsAnnounced step (announced_in_reach reach)

  handed_on :
      (bytes : Bytes) (r : TunnelProxyRemoteConnection)
      → remote_connected r ≡ true
      → on_connection_data_available q bytes r ≡ signal (data_ready bytes) r
  unfolding on_connection_data_available
  handed_on bytes r h = rw h

  abbrev pub receive_all : List Bytes → TunnelProxyRemoteConnection → TunnelProxyRemoteConnection
  receive_all [] r = r
  receive_all (bytes ∷ more) r = receive_all more (on_connection_data_available q bytes r)

  -- Once a connection is in the state of a remote connection, all data that it receives is handed
  -- on as it is, in order, whatever it contains; nothing else changes, and none of it is read as
  -- JSON.
  pub data_passes :
      (chunks : List Bytes) (r : TunnelProxyRemoteConnection)
      → remote_connected r ≡ true
      → receive_all chunks r ≡ record r { signals = r.signals ++ map data_ready chunks }
  data_passes [] r h = ap (λ l. record r { signals = l }) (sym (append-nil r.signals))
  data_passes (bytes ∷ more) r h =
      ap (receive_all more) (handed_on bytes r h)
      ∙ data_passes more (signal (data_ready bytes) r) h
      ∙ ap (λ l. record r { signals = l })
          (append_assoc r.signals (data_ready bytes ∷ []) (map data_ready more))
