-- ===== src/Server/Sending.antt =====
-- What a call of the tunnel proxy server sends (tunnelproxyserver.cpp: onClientDataAvailable;
-- sendData of the transports).
use nymea_remoteproxy.Base.{
  ℕ, ◌≡◌, ◌≢◌, [], ◌∷◌, ◌++◌, none, some, value, value-modify, Bytes, length, arith, ◌==◌, inl, inr,
  Option-cases, Bool-cases,
}
use nymea_remoteproxy.Client.{TunnelProxyClient, type_client, add_rx_data_count}
use nymea_remoteproxy.Connections.{
  TunnelProxyServerConnection, TunnelProxyClientConnection, get_client_connection,
}
use nymea_remoteproxy.Slip.{Frame, parse_frame, build_frame, serialize_data}
use nymea_remoteproxy.Variant.{Qt}
use nymea_remoteproxy.State.{TunnelProxyServer, Settings, sent, modify_client, send_data}
use nymea_remoteproxy.Server.Traffic.{
  tunnel_to_server, tunnel_to_client, on_frame, on_client_data_available,
}
use nymea_remoteproxy.Server.View.{view, role_of}

pub output-send_data :
    (w : TunnelProxyServer) (id : ℕ) (bytes : Bytes) (c : TunnelProxyClient)
    → value w.proxy_clients id ≡ some c
    → (send_data w id bytes).output ≡ w.output ++ sent c.interface id bytes ∷ []
unfolding send_data modify_client
output-send_data w id bytes c e = rw (e, send_data)

-- A socket that is registered as something stands among the sockets.
pub socket_with_role :
    (w : TunnelProxyServer) (id : ℕ) (r : _)
    → (view w).role id ≡ some r
    → (c : TunnelProxyClient) × (value w.proxy_clients id ≡ some c) × (role_of c ≡ r)
socket_with_role w id r e = elim (Option-cases (value w.proxy_clients id)) [
  | inl nobody ↦ absurd (ground (arith, e, nobody))
  | inr (c, known) ↦ (c, known, ground (arith, e, known))
]

pub output-tunnel_to_server :
    (w : TunnelProxyServer) (u x : ℕ) (d : TunnelProxyClientConnection)
    (s : TunnelProxyServerConnection) (p : TunnelProxyClient) (data_ : Bytes)
    → value w.tunnel_proxy_client_connections u ≡ some d
    → d.server_connection ≡ some x
    → value w.tunnel_proxy_server_connections x ≡ some s
    → value w.proxy_clients s.transport_client ≡ some p
    → (tunnel_to_server w u data_).output
      ≡ w.output
        ++ sent p.interface s.transport_client (
            serialize_data
              (build_frame (record { socket_address = d.socket_address; payload = data_ })))
          ∷ []
unfolding tunnel_to_server
output-tunnel_to_server w u x d s p data_ known linked server socket =
    rw (known, tunnel_to_server, linked, server)
      (output-send_data w s.transport_client
        (serialize_data
          (build_frame (record { socket_address = d.socket_address; payload = data_ })))
        p socket)

-- The counting of received bytes leaves the other sockets alone.
pub other_socket :
    (w : TunnelProxyServer) (id j : ℕ) (f : TunnelProxyClient → TunnelProxyClient)
    (p : TunnelProxyClient)
    → id ≢ j
    → value w.proxy_clients j ≡ some p
    → value (modify_client id f w).proxy_clients j ≡ some p
unfolding modify_client
other_socket w id j f p other e = ground (arith, other, e, value-modify w.proxy_clients id f j)

pub client_data :
    (q : Qt) (settings : Settings) (w : TunnelProxyServer) (id : ℕ) (c : TunnelProxyClient)
    (data_ : Bytes)
    → value w.proxy_clients id ≡ some c
    → c.type ≡ type_client
    → on_client_data_available q settings w id data_
      ≡ tunnel_to_server (modify_client id (add_rx_data_count (length data_)) w) c.uuid data_
unfolding on_client_data_available
client_data q settings w id c data_ e t = rw (e, on_client_data_available, t)

pub frame_tunnelled :
    (q : Qt) (settings : Settings) (w : TunnelProxyServer) (id : ℕ) (c : TunnelProxyClient)
    (packet : Bytes)
    → value w.proxy_clients id ≡ some c
    → (parse_frame packet).socket_address ≢ 0
    → on_frame q settings w id packet ≡ tunnel_to_client w c.uuid (parse_frame packet)
unfolding on_frame
frame_tunnelled q settings w id c packet e tunnel =
    elim (Bool-cases ((parse_frame packet).socket_address == 0)) [
      | inl api ↦ absurd (ground (arith, api, tunnel))
      | inr other ↦ rw (other, on_frame, e)
    ]

pub output-tunnel_to_client :
    (w : TunnelProxyServer) (x u : ℕ) (s : TunnelProxyServerConnection)
    (c : TunnelProxyClientConnection) (p : TunnelProxyClient) (frame : Frame)
    → value w.tunnel_proxy_server_connections x ≡ some s
    → value s.client_connections_addresses frame.socket_address ≡ some u
    → value w.tunnel_proxy_client_connections u ≡ some c
    → value w.proxy_clients c.transport_client ≡ some p
    → (tunnel_to_client w x frame).output
      ≡ w.output ++ sent p.interface c.transport_client frame.payload ∷ []
unfolding tunnel_to_client get_client_connection
output-tunnel_to_client w x u s c p frame server at known socket =
    rw (server, tunnel_to_client, at, known)
      (output-send_data w c.transport_client frame.payload p socket)

pub nobody_there :
    (w : TunnelProxyServer) (x : ℕ) (s : TunnelProxyServerConnection) (frame : Frame)
    → value w.tunnel_proxy_server_connections x ≡ some s
    → value s.client_connections_addresses frame.socket_address ≡ none
    → tunnel_to_client w x frame ≡ w
unfolding tunnel_to_client get_client_connection
nobody_there w x s frame server nobody = rw (server, tunnel_to_client, nobody)

-- Data in a frame for an address.
abbrev pub framed : ℕ → Bytes → Bytes
framed address data_ =
    serialize_data (build_frame (record { socket_address = address; payload = data_ }))
