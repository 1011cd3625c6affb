-- ===== src/Server/Statistics.antt =====
-- libnymea-remoteproxy/tunnelproxy/tunnelproxyserver.cpp, currentStatistics: what monitors are
-- shown. The number of sockets of a transport is the transport's, and an argument here.
use nymea_remoteproxy.Base.{
  ℕ, Bool, not, ◌&&◌, Option, none, some, List, [], ◌∷◌, String, value, values, count, is_empty,
  if◌then◌else◌,
}
use nymea_remoteproxy.Client.{Transport, web_socket, tcp, unix, TunnelProxyClient}
use nymea_remoteproxy.Connections.{TunnelProxyServerConnection, TunnelProxyClientConnection}
use nymea_remoteproxy.Variant.{
  Variant, VariantList, VariantMap, pos, number, string, list, map, nil, cons, end, insert_value,
  Qt,
}
use nymea_remoteproxy.State.{TunnelProxyServer}

abbrev transport_name : Transport → String
transport_name web_socket = "WebSocket"
transport_name tcp = "TCP"
transport_name unix = "unix"

abbrev count_variant : ℕ → Variant
count_variant n = number (pos n)

abbrev transport_counts : (Transport → ℕ) → List Transport → VariantMap → VariantMap
transport_counts counts [] m = m
transport_counts counts (t ∷ ts) m =
    transport_counts counts ts (insert_value m (transport_name t) (count_variant (counts t)))

module _ (q : Qt) where
  -- The entries of a socket; the uuid's key differs.
  abbrev client_map : TunnelProxyClient → String → VariantMap
  client_map c uuid_key =
      insert_value
        (insert_value
          (insert_value
            (insert_value
              (insert_value
                (insert_value (insert_value end "id" (string (q.uuid_to_text c.client_id)))
                  "address" (string c.peer_address))
                "timestamp" (count_variant c.creation_time_stamp))
              "name" (string c.name))
            uuid_key (string (q.uuid_to_text c.uuid)))
          "rxDataCount" (count_variant c.rx_data_count))
        "txDataCount" (count_variant c.tx_data_count)

  abbrev map_of : Option TunnelProxyClient → String → VariantMap
  map_of none uuid_key = end
  map_of (some c) uuid_key = client_map c uuid_key

  abbrev socket_of :
      TunnelProxyServer → Option TunnelProxyClientConnection → Option TunnelProxyClient
  socket_of w none = none
  socket_of w (some c) = value w.proxy_clients c.transport_client

  abbrev client_list : TunnelProxyServer → List ℕ → VariantList
  client_list w [] = nil
  client_list w (client_uuid ∷ rest) =
      cons
        (map
          (map_of (socket_of w (value w.tunnel_proxy_client_connections client_uuid)) "clientUuid"))
        (client_list w rest)

  abbrev pub server_map : TunnelProxyServer → TunnelProxyServerConnection → VariantMap
  server_map w s =
      insert_value (map_of (value w.proxy_clients s.transport_client) "serverUuid")
        "clientConnections" (list (client_list w (values s.client_connections)))

  -- Only servers with clients are shown, unless all are asked for.
  unfoldable pub tunnel_connections :
      TunnelProxyServer → Bool → List TunnelProxyServerConnection → VariantList
  tunnel_connections w print_all [] = nil
  tunnel_connections w print_all (s ∷ rest) =
      let others = tunnel_connections w print_all rest in
      if not print_all && is_empty (values s.client_connections)
      then others
      else cons (map (server_map w s)) others

  unfoldable pub current_statistics : (Transport → ℕ) → TunnelProxyServer → Bool → VariantMap
  unfolding tunnel_connections
  current_statistics counts w print_all =
      insert_value
        (insert_value
          (insert_value
            (insert_value
              (insert_value
                (insert_value end "totalClientCount" (count_variant (count w.proxy_clients)))
                "serverConnectionsCount" (count_variant (count w.tunnel_proxy_server_connections)))
              "clientConnectionsCount" (count_variant (count w.tunnel_proxy_client_connections)))
            "transports" (map (transport_counts counts w.transport_interfaces end)))
          "troughput" (count_variant w.troughput))
        "tunnelConnections"
        (list (tunnel_connections w print_all (values w.tunnel_proxy_server_connections)))
