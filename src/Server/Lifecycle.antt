-- ===== src/Server/Lifecycle.antt =====
-- libnymea-remoteproxy/tunnelproxy/tunnelproxyserver.cpp: the constructor, the transports, start,
-- stop and the tick of every second.
use nymea_remoteproxy.Base.{Bool, true, false, List, [], ◌∷◌, ◌++◌, if◌then◌else◌}
use nymea_remoteproxy.Client.{Transport, web_socket, tcp, unix}
use nymea_remoteproxy.State.{TunnelProxyServer, started, stopped, emit}
use nymea_remoteproxy.TunnelHandler.{tunnel_proxy_handler}
use nymea_remoteproxy.JsonRpc.{remote_proxy_handler, register_handler}

-- The constructor: the JSON RPC server is a handler of its own.
unfoldable pub new_server : TunnelProxyServer
unfolding register_handler
new_server = register_handler tunnel_proxy_handler (
    register_handler remote_proxy_handler (record {
      running = false;
      transport_interfaces = [];
      proxy_clients = [];
      tunnel_proxy_server_connections = [];
      tunnel_proxy_client_connections = [];
      troughput = 0;
      troughput_counter = 0;
      handlers = [];
      async_replies = [];
      next_reply = 0;
      clients = [];
      notification_id = 0;
      output = [];
    }))

abbrev same_transport : Transport → Transport → Bool
same_transport web_socket web_socket = true
same_transport tcp tcp = true
same_transport unix unix = true
same_transport _ _ = false

abbrev pub has_transport : List Transport → Transport → Bool
has_transport [] t = false
has_transport (u ∷ us) t = if same_transport u t then true else has_transport us t

unfoldable pub register_transport_interface : Transport → TunnelProxyServer → TunnelProxyServer
register_transport_interface t w =
    if has_transport w.transport_interfaces t
    then w
    else record w { transport_interfaces = w.transport_interfaces ++ t ∷ [] }

unfoldable pub set_running : Bool → TunnelProxyServer → TunnelProxyServer
set_running running w = record w { running = running }

abbrev pub start_all : List Transport → TunnelProxyServer → TunnelProxyServer
start_all [] w = w
start_all (t ∷ ts) w = start_all ts (emit (started t) w)

abbrev pub stop_all : List Transport → TunnelProxyServer → TunnelProxyServer
stop_all [] w = w
stop_all (t ∷ ts) w = stop_all ts (emit (stopped t) w)

unfoldable pub start_server : TunnelProxyServer → TunnelProxyServer
unfolding set_running
start_server w = set_running true (start_all w.transport_interfaces w)

unfoldable pub stop_server : TunnelProxyServer → TunnelProxyServer
unfolding set_running
stop_server w = set_running false (stop_all w.transport_interfaces w)

unfoldable pub tick : TunnelProxyServer → TunnelProxyServer
tick w = record w { troughput = w.troughput_counter; troughput_counter = 0 }
