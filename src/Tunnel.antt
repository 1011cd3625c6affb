-- ===== src/Tunnel.antt =====
-- Both ends of the tunnel together: what a client sends through the proxy (tunnelproxyserver.cpp)
-- to a server behind it (tunnelproxysocketserver.cpp), and what the server sends back
-- (tunnelproxysocket.cpp, tunnelproxyclient.cpp) to the client (tunnelproxyremoteconnection.cpp).
mod Packets
use nymea_remoteproxy.Base.{
  if◌then◌else◌, value-modify, modify, ℕ, ◌≡◌, ◌≢◌, ◌<◌, ◌∙◌, ap, sym, true, some, is_some, List,
  [], ◌∷◌, ◌++◌, Bytes, length, value, arith, append-nil, inl, inr, Option-cases,
}
use nymea_remoteproxy.Slip.{Frame, serialize_data, serialize_loop, build_frame, parse_frame}
use nymea_remoteproxy.Client.{
  Cut, slip_cut, json_cut, TunnelProxyClient, type_server, type_client, process_data,
  add_rx_data_count,
}
use nymea_remoteproxy.Client.Slip.{IsPlain, packet_faithful_iff, slip_cut_frames}
use nymea_remoteproxy.Connections.{TunnelProxyServerConnection, TunnelProxyClientConnection}
use nymea_remoteproxy.Variant.{Qt}
use nymea_remoteproxy.State.{TunnelProxyServer, Settings, Output, sent, modify_client}
use nymea_remoteproxy.Server.Traffic.{
  on_client_data_available, on_slip_data, on_frames, on_frame, tunnel_to_client,
}
use nymea_remoteproxy.Server.View.{view}
use nymea_remoteproxy.Server.Consistent.{IsConsistent}
use nymea_remoteproxy.Server.Delivery.{client_data_sent}
use nymea_remoteproxy.Server.Sending.{
  framed, other_socket, socket_with_role, frame_tunnelled, output-tunnel_to_client,
}
use nymea_remoteproxy.SocketServer.{
  TunnelProxySocketServer, TunnelProxySocket, state_running, same_state, data_received, writes,
  write_data,
}
use nymea_remoteproxy.SocketServer.Slots.{on_connection_data_available}
use nymea_remoteproxy.SocketServer.Delivery.{frames_delivered}
use nymea_remoteproxy.RemoteConnection.{TunnelProxyRemoteConnection, remote_connected, data_ready}
use nymea_remoteproxy.RemoteConnection
use nymea_remoteproxy.RemoteConnection.Reach.{data_passes}
use nymea_remoteproxy.Tunnel.Packets.{one_packet, packet_sent, written_back, server_data}

-- A running server behind the proxy that holds no bytes reads one frame for a client that it knows.
one_frame :
    (q : Qt) (address : ℕ) (data_ : Bytes) (t : TunnelProxySocketServer)
    → t.data_buffer ≡ []
    → same_state t.state state_running ≡ true
    → (address ≢ 0) × (address < 65536) × (is_some (value t.tunnel_proxy_sockets address) ≡ true)
    → on_connection_data_available q (framed address data_) t ≡ record t {
      keep_alive_timer = true;
      data_buffer = [];
      signals = t.signals ++ data_received address data_ ∷ [];
    }
one_frame q address data_ t empty runs known =
    let frame : Frame = record { socket_address = address; payload = data_ } in
    ap (λ b. on_connection_data_available q b t) (sym (append-nil (framed address data_)))
    ∙ frames_delivered q (frame ∷ []) t empty runs (known, tt)

module _ (q : Qt) (settings : Settings) (w : TunnelProxyServer) (h : IsConsistent (view w)) where
  -- With consistent bookkeeping at the proxy, data that a registered client sends arrives at its
  -- server: the proxy writes bytes to the socket of this server and to nothing else, and the
  -- server behind the proxy, when it is running, holds no bytes and knows the client by its
  -- address, emits the data, as it was sent, for this client when these bytes arrive.
  pub client_data_arrives :
      (id u x : ℕ) (d : TunnelProxyClientConnection) (data_ : Bytes) (t : TunnelProxySocketServer)
      → (view w).role id ≡ some (type_client, u)
      → value w.tunnel_proxy_client_connections u ≡ some d
      → d.server_connection ≡ some x
      → t.data_buffer ≡ []
      → same_state t.state state_running ≡ true
      → is_some (value t.tunnel_proxy_sockets d.socket_address) ≡ true
      → (j : ℕ) × (p : TunnelProxyClient) × (bytes : Bytes) × ((view w).role j
          ≡ some (type_server, x))
        × (value w.proxy_clients j ≡ some p)
        × ((on_client_data_available q settings w id data_).output
            ≡ w.output ++ sent p.interface j bytes ∷ [])
        × (on_connection_data_available q bytes t ≡ record t {
          keep_alive_timer = true;
          data_buffer = [];
          signals = t.signals ++ data_received d.socket_address data_ ∷ [];
        })
  client_data_arrives id u x d data_ t role known linked empty runs met =
      let (j, p, owned, socket, goes, usable) =
        client_data_sent q settings w h id u x d data_ role known linked in
      (
        j,
        p,
        framed d.socket_address data_,
        owned,
        socket,
        goes,
        one_frame q d.socket_address data_ t empty runs (usable.0, usable.2, met),
      )

module _ (q : Qt) (settings : Settings) (w : TunnelProxyServer) (h : IsConsistent (view w)) where
  -- With consistent bookkeeping at the proxy, data that a server writes to the socket of one of
  -- its clients arrives at this client if no byte has to be escaped, neither in the data nor in
  -- the two bytes of the client's address, the proxy holds no bytes of the server and speaks SLIP
  -- with it: the proxy writes the data, as it is, to the client's socket and to nothing else, and
  -- the client's connection, when it is a remote connection, hands it on when it arrives.
  pub server_data_arrives :
      (id u x : ℕ) (c : TunnelProxyClient) (d : TunnelProxyClientConnection)
      (socket : TunnelProxySocket) (data_ : Bytes) (t : TunnelProxySocketServer)
      (r : TunnelProxyRemoteConnection)
      → value w.proxy_clients id ≡ some c
      → (view w).role id ≡ some (type_server, x)
      → c.slip_enabled ≡ true
      → c.data_buffer ≡ []
      → value w.tunnel_proxy_client_connections u ≡ some d
      → d.server_connection ≡ some x
      → socket.socket_address ≡ d.socket_address
      → IsPlain (build_frame (record { socket_address = d.socket_address; payload = data_ }))
      → remote_connected r ≡ true
      → (bytes : Bytes) × (j : ℕ) × (p : TunnelProxyClient) × ((write_data socket data_ t).signals
          ≡ t.signals ++ writes bytes ∷ [])
        × ((view w).role j ≡ some (type_client, u))
        × (value w.proxy_clients j ≡ some p)
        × ((on_client_data_available q settings w id bytes).output
            ≡ w.output ++ sent p.interface j data_ ∷ [])
        × (RemoteConnection.on_connection_data_available q data_ r
            ≡ record r { signals = r.signals ++ data_ready data_ ∷ [] })
  unfolding write_data add_rx_data_count process_data modify_client
  server_data_arrives id u x c d socket data_ t r found role slip empty known linked same plain
        ready =
      let bytes = framed d.socket_address data_ in
      let frame : Frame = record { socket_address = d.socket_address; payload = data_ } in
      let c₁ = add_rx_data_count (length bytes) c in
      let both = h.linked u x d known linked in
      let type : c.type ≡ type_server = ground (arith, role, found) in
      let uuid : c.uuid ≡ x = ground (arith, role, found) in
      elim (Option-cases (value w.tunnel_proxy_server_connections x)) [
        | inl unknown ↦ absurd (ground (arith, unknown, both))
        | inr (s, server) ↦
            let usable = h.valid x d.socket_address u s server (ground (arith, server, both)) in
            let owned = h.clients_owned u d known in
            let (p, p_found, p_role) =
              socket_with_role w d.transport_client (type_client, u) owned in
            let one = one_packet c₁ frame slip empty usable.2 plain in
            let apart : id ≢ d.transport_client =
              λ e. absurd (ground (arith, ap (view w).role e, role, owned)) in
            let w₂ =
              modify_client id (λ _. (process_data bytes c₁).0)
                (modify_client id (add_rx_data_count (length bytes)) w) in
            let read =
              server_data q settings w id c bytes (serialize_loop (build_frame frame)) found type
                slip one.0 in
            (
              bytes,
              d.transport_client,
              p,
              ap (λ a. t.signals ++ writes (framed a data_) ∷ []) same,
              owned,
              p_found,
              ap {B = List Output} (λ v. v.output) read
                  ∙ packet_sent q settings w₂ id x u (process_data bytes c₁).0 s d p
                      (serialize_loop (build_frame frame)) frame
                      (written_back w id c (add_rx_data_count (length bytes))
                        (λ _. (process_data bytes c₁).0) found)
                      uuid one.1 usable.0 server (ground (arith, server, both)) known
                      (other_socket (modify_client id (add_rx_data_count (length bytes)) w) id
                        d.transport_client (λ _. (process_data bytes c₁).0) p apart
                        (other_socket w id d.transport_client (add_rx_data_count (length bytes)) p
                          apart p_found)),
              data_passes q (data_ ∷ []) r ready,
            )
      ]
