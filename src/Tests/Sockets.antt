-- ===== src/Tests/Sockets.antt =====
-- Examples for the theorems on a server behind the proxy.
use nymea_remoteproxy.Base.{
  remove, ◌≡◌, refl, true, List, [], ◌∷◌, ◌++◌, map, concat, value, insert, All, arith,
}
use nymea_remoteproxy.Slip.{Frame, serialize_data, build_frame}
use nymea_remoteproxy.SocketServer.{
  start_socket_server, TunnelProxySocketServer, state_running, same_state, new_socket_server,
  set_state, set_socket_server_running, on_tunnel_proxy_client_connected,
}
use nymea_remoteproxy.SocketServer.Slots.{on_connection_data_available, on_connection_changed}
use nymea_remoteproxy.SocketServer.Reach.{
  made, after, starts, connection_changes, running_iff_state,
}
use nymea_remoteproxy.SocketServer.Delivery.{IsKnown, frame_signals, frames_delivered}
use nymea_remoteproxy.Tests.{test_qt}

-- A running server with two clients.
abbrev served : TunnelProxySocketServer
served = on_tunnel_proxy_client_connected "tablet" 78 "10.0.0.3" 2 (
    on_tunnel_proxy_client_connected "phone" 77 "10.0.0.2" 1
      (set_state state_running (new_socket_server 7 "home")))

abbrev frames : List Frame
frames =
    record { socket_address = 2; payload = 192 ∷ 5 ∷ [] }
    ∷ record { socket_address = 1; payload = 6 ∷ [] }
    ∷ []

served_empty : served.data_buffer ≡ []
unfolding on_tunnel_proxy_client_connected set_state set_socket_server_running new_socket_server
served_empty = refl

served_runs : same_state served.state state_running ≡ true
unfolding on_tunnel_proxy_client_connected set_state set_socket_server_running new_socket_server
served_runs = refl

frames-IsKnown : All (IsKnown served) frames
unfolding on_tunnel_proxy_client_connected set_state set_socket_server_running new_socket_server
    value insert remove
frames-IsKnown = ((ground arith, omega arith, refl), ((ground arith, omega arith, refl), tt))

frames_delivered_example :
    on_connection_data_available test_qt
      (concat (map (λ f. serialize_data (build_frame f)) frames))
      served
    ≡ record served {
      keep_alive_timer = true;
      data_buffer = [];
      signals = served.signals ++ frame_signals frames;
    }
frames_delivered_example =
    frames_delivered test_qt frames served served_empty served_runs frames-IsKnown

abbrev begun : TunnelProxySocketServer
begun = on_connection_changed test_qt true (start_socket_server true (new_socket_server 7 "home"))

running_iff_state_example : begun.running ≡ same_state begun.state state_running
running_iff_state_example = running_iff_state test_qt (
    after (after (made 7 "home") (starts true (new_socket_server 7 "home")))
      (connection_changes true (start_socket_server true (new_socket_server 7 "home"))))
