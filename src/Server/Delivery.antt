-- ===== src/Server/Delivery.antt =====
-- Where tunnelled data goes (tunnelproxyserver.cpp: onClientDataAvailable).
use nymea_remoteproxy.Base.{
  ℕ, ◌≡◌, ◌≢◌, ◌∙◌, List, [], ◌∷◌, ◌++◌, none, some, value, Bytes, length, arith, inl, inr,
  Option-cases, ap, sym, append-nil, ◌⊎◌,
}
use nymea_remoteproxy.Client.{TunnelProxyClient, type_server, type_client, add_rx_data_count}
use nymea_remoteproxy.Connections.{TunnelProxyServerConnection, TunnelProxyClientConnection}
use nymea_remoteproxy.Slip.{Frame, parse_frame, deserialize_data}
use nymea_remoteproxy.Slip.RoundTrip.{frame_round_trip}
use nymea_remoteproxy.Variant.{Qt}
use nymea_remoteproxy.State.{TunnelProxyServer, Settings, Output, sent, modify_client}
use nymea_remoteproxy.Server.Traffic.{
  tunnel_to_server, tunnel_to_client, on_frame, on_client_data_available,
}
use nymea_remoteproxy.Server.View.{view}
use nymea_remoteproxy.Server.Consistent.{IsConsistent, link_of, IsClientAddress}
use nymea_remoteproxy.Server.Sending.{
  socket_with_role, output-tunnel_to_server, other_socket, client_data, frame_tunnelled,
  output-tunnel_to_client, nobody_there, framed,
}

module _ (q : Qt) (settings : Settings) (w : TunnelProxyServer) (h : IsConsistent (view w)) where
  pub client_data_sent :
      (id u x : ℕ) (d : TunnelProxyClientConnection) (data_ : Bytes)
      → (view w).role id ≡ some (type_client, u)
      → value w.tunnel_proxy_client_connections u ≡ some d
      → d.server_connection ≡ some x
      → (j : ℕ) × (p : TunnelProxyClient) × ((view w).role j ≡ some (type_server, x))
        × (value w.proxy_clients j ≡ some p)
        × ((on_client_data_available q settings w id data_).output
            ≡ w.output ++ sent p.interface j (framed d.socket_address data_) ∷ [])
        × IsClientAddress d.socket_address
  unfolding modify_client
  client_data_sent id u x d data_ role known linked =
      let both = h.linked u x d known linked in
      elim (Option-cases (value w.tunnel_proxy_server_connections x)) [
        | inl unknown ↦ absurd (ground (arith, unknown, both))
        | inr (s, server) ↦
            let owned = h.servers_owned x s server in
            let (p, socket, p_role) =
              socket_with_role w s.transport_client (type_server, x) owned in
            let (c, found, c_role) = socket_with_role w id (type_client, u) role in
            let usable = h.valid x d.socket_address u s server (ground (arith, server, both)) in
            let t : c.type ≡ type_client = ap (λ r. r.0) c_role in
            let c_uuid : c.uuid ≡ u = ap (λ r. r.1) c_role in
            (
              s.transport_client,
              p,
              owned,
              socket,
              ap {B = List Output} (λ v. v.output) (client_data q settings w id c data_ found t)
                  ∙ ap
                      (λ n.
                        (tunnel_to_server (modify_client id (add_rx_data_count (length data_)) w) n
                          data_).output)
                      c_uuid
                  ∙ output-tunnel_to_server (modify_client id (add_rx_data_count (length data_)) w)
                      u x d s p data_ known linked server
                      (other_socket w id s.transport_client (add_rx_data_count (length data_)) p
                        (λ e. absurd (ground (arith, ap (view w).role e, role, owned))) socket),
              usable,
            )
      ]

  -- With consistent bookkeeping, data of a registered client that has a server is sent to the
  -- socket of that server and to nothing else, in one escaped frame that is read back as the
  -- client's address with the data; the address is a client address, so not that of the API.
  pub client_data_delivered :
      (id u x : ℕ) (d : TunnelProxyClientConnection) (data_ : Bytes)
      → (view w).role id ≡ some (type_client, u)
      → value w.tunnel_proxy_client_connections u ≡ some d
      → d.server_connection ≡ some x
      → (j : ℕ) × (p : TunnelProxyClient) × (bytes : Bytes) × ((view w).role j
          ≡ some (type_server, x))
        × (value w.proxy_clients j ≡ some p)
        × ((on_client_data_available q settings w id data_).output
            ≡ w.output ++ sent p.interface j bytes ∷ [])
        × (parse_frame (deserialize_data bytes)
            ≡ record { socket_address = d.socket_address; payload = data_ })
        × IsClientAddress d.socket_address
  client_data_delivered id u x d data_ role known linked =
      let (j, p, owned, socket, goes, usable) = client_data_sent id u x d data_ role known linked in
      let frame : Frame = record { socket_address = d.socket_address; payload = data_ } in
      (
        j,
        p,
        framed d.socket_address data_,
        owned,
        socket,
        goes,
        ap (λ b. parse_frame (deserialize_data b))
              (sym (append-nil (framed d.socket_address data_)))
            ∙ frame_round_trip frame [] usable.2,
        usable,
      )

  -- With consistent bookkeeping, a packet of a server goes where its first two bytes say, as they
  -- stand in the packet, without being unescaped: unless they say the API's address, the bytes
  -- after them are sent, as they stand, to the client that has this address at this server, and
  -- to nobody else. Where no client has the address, nothing happens.
  pub server_frame_delivered :
      (id x : ℕ) (packet : Bytes)
      → (view w).role id ≡ some (type_server, x)
      → (parse_frame packet).socket_address ≢ 0
      → ((on_frame q settings w id packet ≡ w)
          × ((u : ℕ)
              → link_of (value w.tunnel_proxy_client_connections u)
                ≢ some (some x, (parse_frame packet).socket_address)))
        ⊎ ((u j : ℕ) × (p : TunnelProxyClient) × (link_of
                (value w.tunnel_proxy_client_connections u)
              ≡ some (some x, (parse_frame packet).socket_address))
            × ((view w).role j ≡ some (type_client, u))
            × (value w.proxy_clients j ≡ some p)
            × ((on_frame q settings w id packet).output
                ≡ w.output ++ sent p.interface j (parse_frame packet).payload ∷ []))
  server_frame_delivered id x packet role tunnel =
      let frame = parse_frame packet in
      let (c, found, c_role) = socket_with_role w id (type_server, x) role in
      let goes : on_frame q settings w id packet ≡ tunnel_to_client w x frame =
        frame_tunnelled q settings w id c packet found tunnel
        ∙ ap (λ n. tunnel_to_client w n frame) (ap (λ r. r.1) c_role) in
      elim (Option-cases (value w.tunnel_proxy_server_connections x)) [
        | inl unknown ↦ absurd (ground (arith, unknown, h.server_known id x role))
        | inr (s, server) ↦
            elim (Option-cases (value s.client_connections_addresses frame.socket_address)) [
              | inl nobody ↦ inl (
                goes ∙ nobody_there w x s frame server nobody,
                λ u link. unlinked u s server nobody link,
              )
              | inr (u, at) ↦
                  let link = h.addressed x frame.socket_address u s server at in
                  elim (Option-cases (value w.tunnel_proxy_client_connections u)) [
                    | inl unknown ↦ absurd (ground (arith, unknown, link))
                    | inr (d, known) ↦
                        let owned = h.clients_owned u d known in
                        let (p, socket, p_role) =
                          socket_with_role w d.transport_client (type_client, u) owned in
                        inr (
                          u,
                          d.transport_client,
                          p,
                          link,
                          owned,
                          socket,
                          ap {B = List Output} (λ v. v.output) goes
                              ∙ output-tunnel_to_client w x u s d p frame server at known socket,
                        )
                  ]
            ]
      ]
    where
      unlinked :
          (u : ℕ) (s : TunnelProxyServerConnection)
          → value w.tunnel_proxy_server_connections x ≡ some s
          → value s.client_connections_addresses (parse_frame packet).socket_address ≡ none
          → link_of (value w.tunnel_proxy_client_connections u)
            ≢ some (some x, (parse_frame packet).socket_address)
      unlinked u s server nobody link =
          elim (Option-cases (value w.tunnel_proxy_client_connections u)) [
            | inl unknown ↦ absurd (ground (arith, unknown, link))
            | inr (d, known) ↦ absurd (ground (arith, known, link, server, nobody, h.linked u x d))
          ]
