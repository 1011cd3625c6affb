-- ===== src/SocketServer/Reach.antt =====
-- The states that a server behind the proxy gets into (tunnelproxysocketserver.cpp: its public
-- operations and its slots).
use nymea_remoteproxy.Base.{ℕ, ◌≡◌, refl, Bool, String, Bytes}
use nymea_remoteproxy.Variant.{Qt}
use nymea_remoteproxy.SocketServer.{
  TunnelProxySocketServer, TunnelProxySocket, write_data, SocketState, state_running, same_state,
  start_socket_server, stop_socket_server, on_connection_state_changed, on_connection_socket_error,
  new_socket_server,
}
use nymea_remoteproxy.SocketServer.Slots.{
  on_connection_changed, on_connection_data_available, request_socket_disconnect,
  on_reconnect_timeout, on_keep_alive_timeout,
}
use nymea_remoteproxy.SocketServer.Running.{
  IsSettled, started, stopped, socket_failed, connection_state,
}
use nymea_remoteproxy.SocketServer.Reading.{connection_changed, data_read, reconnects, keeps_alive}

module _ (q : Qt) where
  -- What may happen to the server, one call at a time.
  pub data SocketStep : TunnelProxySocketServer → TunnelProxySocketServer → Type 0 where
    starts :
        (valid : Bool) (s : TunnelProxySocketServer) → SocketStep s (start_socket_server valid s)
    stops : (s : TunnelProxySocketServer) → SocketStep s (stop_socket_server s)
    connection_changes :
        (b : Bool) (s : TunnelProxySocketServer) → SocketStep s (on_connection_changed q b s)
    state_changes :
        (st : SocketState) (s : TunnelProxySocketServer)
        → SocketStep s (on_connection_state_changed st s)
    socket_fails :
        (error : ℕ) (s : TunnelProxySocketServer)
        → SocketStep s (on_connection_socket_error error s)
    receives :
        (bytes : Bytes) (s : TunnelProxySocketServer)
        → SocketStep s (on_connection_data_available q bytes s)
    disconnect_requested :
        (a : ℕ) (s : TunnelProxySocketServer) → SocketStep s (request_socket_disconnect q a s)
    reconnect_due : (s : TunnelProxySocketServer) → SocketStep s (on_reconnect_timeout q s)
    keep_alive_due :
        (now : ℕ) (s : TunnelProxySocketServer) → SocketStep s (on_keep_alive_timeout q now s)
    writes_data :
        (socket : TunnelProxySocket) (bytes : Bytes) (s : TunnelProxySocketServer)
        → SocketStep s (write_data socket bytes s)

  -- A state that the server gets into after it was made.
  pub data IsReachable : TunnelProxySocketServer → Type 0 where
    made : (uuid : ℕ) (name : String) → IsReachable (new_socket_server uuid name)
    after : {s t : TunnelProxySocketServer} → IsReachable s → SocketStep s t → IsReachable t

  step-IsSettled : {s t : TunnelProxySocketServer} → SocketStep s t → IsSettled s → IsSettled t
  unfolding request_socket_disconnect write_data
  step-IsSettled (starts valid s) h = started valid s h
  step-IsSettled (stops s) h = stopped s h
  step-IsSettled (connection_changes b s) h = connection_changed q b s h
  step-IsSettled (state_changes st s) h = connection_state st s h
  step-IsSettled (socket_fails error s) h = socket_failed error s h
  step-IsSettled (receives bytes s) h = data_read q bytes s h
  step-IsSettled (disconnect_requested a s) h = h
  step-IsSettled (reconnect_due s) h = reconnects q s h
  step-IsSettled (keep_alive_due now s) h = keeps_alive q now s h
  step-IsSettled (writes_data socket bytes s) h = h

  -- In every state that a server behind the proxy reaches, by any sequence of starts, stops,
  -- events of its connection, received bytes, requests, writes and timeouts, the flag that it is
  -- running is set exactly in the running state.
  pub running_iff_state :
      {s : TunnelProxySocketServer} → IsReachable s → s.running ≡ same_state s.state state_running
  unfolding new_socket_server
  running_iff_state (made uuid name) = refl
  running_iff_state (after r step) = step-IsSettled step (running_iff_state r)
