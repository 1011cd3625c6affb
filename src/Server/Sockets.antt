-- ===== src/Server/Sockets.antt =====
-- libnymea-remoteproxy/tunnelproxy/tunnelproxyserver.cpp: onClientConnected and
-- onClientDisconnected, and the inactivity timer of tunnelproxyclient.cpp. A connection that the
-- server kills is closed by its transport; that it has closed is an event of its own, after the
-- handler that killed it.
use nymea_remoteproxy.Base.{
  ℕ, Option, none, some, List, [], ◌∷◌, String, value, contains, insert, remove, values,
  if◌then◌else◌,
}
use nymea_remoteproxy.Client.{
  Transport, ClientType, type_none, type_server, type_client, TunnelProxyClient, new_client, stop,
}
use nymea_remoteproxy.Connections.{
  TunnelProxyServerConnection, TunnelProxyClientConnection, unregister_client_connection,
}
use nymea_remoteproxy.Variant.{number, pos, end, insert_value, Qt}
use nymea_remoteproxy.State.{
  TunnelProxyServer, Settings, killed, emit, modify_client, kill_connection, send_notification,
}
use nymea_remoteproxy.JsonRpc.{register_json_client, unregister_json_client}

unfoldable pub on_client_connected :
    Settings → ℕ → TunnelProxyServer → Transport → ℕ → String → TunnelProxyServer
on_client_connected s now w interface id address =
    if contains w.proxy_clients id
    then emit (killed interface id "Internal server error") w
    else register_json_client id (record w {
      proxy_clients =
          insert w.proxy_clients id (new_client interface id address now s.inactive_timeout);
    })

-- The timer of a client has run out; one that is not single shot goes on.
abbrev pub after_timeout : TunnelProxyClient → TunnelProxyClient
after_timeout c =
    if c.inactive_timer.single_shot then record c { inactive_timer = stop c.inactive_timer } else c

unfoldable pub on_inactive_timeout : TunnelProxyServer → ℕ → TunnelProxyServer
on_inactive_timeout w id = elim (value w.proxy_clients id) [
  | none ↦ w
  | some c ↦
      if c.inactive_timer.active
      then emit
          (killed c.interface id "Tunnelproxy client timeout occurred. The socket was inactive.")
          (modify_client id after_timeout w)
      else w
]

-- The loop over the clients of a server that has gone. The server connection is deleted after it.
unfoldable pub drop_clients :
    TunnelProxyServer → TunnelProxyServerConnection → List ℕ → TunnelProxyServer
drop_clients w s [] = w
drop_clients w s (client_uuid ∷ rest) = elim (value w.tunnel_proxy_client_connections client_uuid) [
  | none ↦ drop_clients w s rest
  | some c ↦
      let (s', c') = unregister_client_connection s c in
      let w' = record w {
        tunnel_proxy_client_connections = insert w.tunnel_proxy_client_connections client_uuid c';
      } in
      drop_clients (kill_connection w' c.transport_client "Server disconnected") s' rest
]

unfoldable pub server_gone : TunnelProxyServer → ℕ → TunnelProxyServer
server_gone w server_uuid = elim (value w.tunnel_proxy_server_connections server_uuid) [
  | none ↦ w
  | some s ↦
      drop_clients
        (record w {
          tunnel_proxy_server_connections = remove w.tunnel_proxy_server_connections server_uuid;
        })
        s (values s.client_connections)
]

module _ (q : Qt) where
  -- The server of a client that has gone is told so.
  unfoldable pub leave_server :
      TunnelProxyServer → TunnelProxyClientConnection → Option ℕ → TunnelProxyServer
  leave_server w c none = w
  leave_server w c (some server_uuid) = elim (value w.tunnel_proxy_server_connections server_uuid) [
    | none ↦ w
    | some s ↦
        let (s', c') = unregister_client_connection s c in
        send_notification q
          (record w {
            tunnel_proxy_server_connections =
                insert w.tunnel_proxy_server_connections server_uuid s';
          })
          "TunnelProxy" "ClientDisconnected"
          (insert_value end "socketAddress" (number (pos c.socket_address))) s.transport_client
  ]

  unfoldable pub client_gone : TunnelProxyServer → ℕ → TunnelProxyServer
  client_gone w client_uuid = elim (value w.tunnel_proxy_client_connections client_uuid) [
    | none ↦ w
    | some c ↦
        leave_server
          (record w {
            tunnel_proxy_client_connections = remove w.tunnel_proxy_client_connections client_uuid;
          })
          c c.server_connection
  ]

  unfoldable pub connection_gone : TunnelProxyServer → ClientType → ℕ → TunnelProxyServer
  connection_gone w type_server uuid = server_gone w uuid
  connection_gone w type_client uuid = client_gone w uuid
  connection_gone w type_none uuid = w

  unfoldable pub on_client_disconnected : TunnelProxyServer → ℕ → TunnelProxyServer
  on_client_disconnected w id = elim (value w.proxy_clients id) [
    | none ↦ w
    | some c ↦
        let w₀ = record w { proxy_clients = remove w.proxy_clients id } in
        unregister_json_client id (connection_gone w₀ c.type c.uuid)
  ]
