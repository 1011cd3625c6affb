-- ===== src/Tunnel/Packets.antt =====
-- One packet of a server at the proxy (tunnelproxyserver.cpp, tunnelproxyclient.cpp).
use nymea_remoteproxy.Base.{
  value-modify, modify, ℕ, ◌≡◌, ◌≢◌, ◌<◌, ◌∙◌, ap, sym, true, some, List, [], ◌∷◌, ◌++◌, Bytes,
  length, value, arith,
}
use nymea_remoteproxy.Slip.{Frame, serialize_data, serialize_loop, build_frame, parse_frame}
use nymea_remoteproxy.Client.{TunnelProxyClient, type_server, process_data, add_rx_data_count}
use nymea_remoteproxy.Client.Slip.{IsPlain, serialized_faithful_iff, packets-serialize_data}
use nymea_remoteproxy.Connections.{TunnelProxyServerConnection, TunnelProxyClientConnection}
use nymea_remoteproxy.Variant.{Qt}
use nymea_remoteproxy.State.{TunnelProxyServer, Settings, Output, sent, modify_client}
use nymea_remoteproxy.Server.Traffic.{
  on_client_data_available, on_slip_data, on_frames, on_frame, tunnel_to_client,
}
use nymea_remoteproxy.Server.Sending.{frame_tunnelled, output-tunnel_to_client}

-- A client's socket that holds no bytes takes one packet from a frame without bytes to escape, and
-- reads the frame in it.
pub one_packet :
    (c : TunnelProxyClient) (frame : Frame)
    → c.slip_enabled ≡ true
    → c.data_buffer ≡ []
    → frame.socket_address < 65536
    → IsPlain (build_frame frame)
    → ((process_data (serialize_data (build_frame frame)) c).1
        ≡ serialize_loop (build_frame frame) ∷ [])
      × (parse_frame (serialize_loop (build_frame frame)) ≡ frame)
unfolding build_frame
one_packet c frame slip empty small plain = (
  packets-serialize_data c (build_frame frame) slip empty (λ e. absurd (ground (arith, e))),
  (serialized_faithful_iff frame small).1 plain,
)

-- A packet of the server x with a frame for the address of the client u goes to the socket of
-- this client.
pub packet_sent :
    (q : Qt) (settings : Settings) (w : TunnelProxyServer) (id x u : ℕ) (c : TunnelProxyClient)
    (s : TunnelProxyServerConnection) (d : TunnelProxyClientConnection) (p : TunnelProxyClient)
    (packet : Bytes) (frame : Frame)
    → value w.proxy_clients id ≡ some c
    → c.uuid ≡ x
    → parse_frame packet ≡ frame
    → frame.socket_address ≢ 0
    → value w.tunnel_proxy_server_connections x ≡ some s
    → value s.client_connections_addresses frame.socket_address ≡ some u
    → value w.tunnel_proxy_client_connections u ≡ some d
    → value w.proxy_clients d.transport_client ≡ some p
    → (on_frame q settings w id packet).output
      ≡ w.output ++ sent p.interface d.transport_client frame.payload ∷ []
packet_sent q settings w id x u c s d p packet frame found uuid parsed tunnel server at known
      socket =
    ap {B = List Output} (λ v. v.output)
      (frame_tunnelled q settings w id c packet found
        (λ e. tunnel (ap Frame.socket_address (sym parsed) ∙ e)))
    ∙ ap {B = List Output} (λ n. (tunnel_to_client w n (parse_frame packet)).output) uuid
    ∙ ap {B = List Output} (λ f. (tunnel_to_client w x f).output) parsed
    ∙ output-tunnel_to_client w x u s d p frame server at known socket

-- A socket that was read and written back stands as it was written.
pub written_back :
    (w : TunnelProxyServer) (id : ℕ) (c : TunnelProxyClient)
    (f g : TunnelProxyClient → TunnelProxyClient)
    → value w.proxy_clients id ≡ some c
    → value (modify_client id g (modify_client id f w)).proxy_clients id ≡ some (g (f c))
unfolding modify_client
written_back w id c f g found = ground (
  arith,
  value-modify (modify w.proxy_clients id f) id g id,
  value-modify w.proxy_clients id f id,
  found,
)

-- A server's data of one packet goes to the reader of frames.
pub server_data :
    (q : Qt) (settings : Settings) (w : TunnelProxyServer) (id : ℕ) (c : TunnelProxyClient)
    (bytes packet : Bytes)
    → value w.proxy_clients id ≡ some c
    → c.type ≡ type_server
    → c.slip_enabled ≡ true
    → (process_data bytes (add_rx_data_count (length bytes) c)).1 ≡ packet ∷ []
    → on_client_data_available q settings w id bytes
      ≡ on_frame q settings
          (modify_client id
            (λ _. (process_data bytes (add_rx_data_count (length bytes) c)).0)
            (modify_client id (add_rx_data_count (length bytes)) w))
          id
          packet
unfolding on_client_data_available on_slip_data on_frames
server_data q settings w id c bytes packet found type slip one =
    simp (on_client_data_available, found, type, slip, on_slip_data, one, on_frames)
