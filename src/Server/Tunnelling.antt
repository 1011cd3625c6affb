-- ===== src/Server/Tunnelling.antt =====
-- Data of a socket (tunnelproxyserver.cpp: onClientDataAvailable), tunnelled or for the API,
-- keeps the bookkeeping consistent.
use nymea_remoteproxy.Base.{
  true, false, Bool, if◌then◌else◌, ◌==◌, ℕ, ◌≡◌, refl, true, List, [], ◌∷◌, some, value,
  value-modify, Bytes, length, arith, ◌==◌, inl, inr, Bool-cases, Option-cases,
}
use nymea_remoteproxy.Client.{TunnelProxyClient, process_data, add_rx_data_count}
use nymea_remoteproxy.Connections.{get_client_connection}
use nymea_remoteproxy.Slip.{Frame, parse_frame, build_frame, serialize_data}
use nymea_remoteproxy.Variant.{Qt}
use nymea_remoteproxy.State.{TunnelProxyServer, Settings, modify_client}
use nymea_remoteproxy.JsonRpc.{receive_json}
use nymea_remoteproxy.Server.Traffic.{
  tunnel_to_server, tunnel_to_client, on_frame, on_frames, on_slip_data, on_client_data_available,
}
use nymea_remoteproxy.Server.View.{
  View, type_cases, view, role_of, view-modify_client, view-send_data,
}
use nymea_remoteproxy.Server.Changed.{Changed, kept}
use nymea_remoteproxy.Server.Serving.{
  view-write, process_data_lem, receive_json-Changed, process_data_packet-Changed,
}

view-tunnel_to_client :
    (w : TunnelProxyServer) (x : ℕ) (frame : Frame) → view (tunnel_to_client w x frame) ≡ view w
unfolding tunnel_to_client
view-tunnel_to_client w x frame = elim (Option-cases (value w.tunnel_proxy_server_connections x)) [
  | inl e ↦ rw (e, tunnel_to_client)
  | inr (s, e) ↦ elim (Option-cases (get_client_connection s frame.socket_address)) [
    | inl nobody ↦ rw (e, tunnel_to_client, nobody)
    | inr (u, at) ↦ elim (Option-cases (value w.tunnel_proxy_client_connections u)) [
      | inl unknown ↦ rw (e, tunnel_to_client, at, unknown)
      | inr (c, known) ↦
          rw (e, tunnel_to_client, at, known) (view-send_data w c.transport_client frame.payload)
    ]
  ]
]

view-tunnel_to_server :
    (w : TunnelProxyServer) (u : ℕ) (received : Bytes)
    → view (tunnel_to_server w u received) ≡ view w
unfolding tunnel_to_server
view-tunnel_to_server w u received =
    elim (Option-cases (value w.tunnel_proxy_client_connections u)) [
      | inl e ↦ rw (e, tunnel_to_server)
      | inr (c, e) ↦ elim (Option-cases c.server_connection) [
        | inl alone ↦ rw (e, tunnel_to_server, alone)
        | inr (x, linked) ↦ elim (Option-cases (value w.tunnel_proxy_server_connections x)) [
          | inl unknown ↦ rw (e, tunnel_to_server, linked, unknown)
          | inr (s, known) ↦
              rw (e, tunnel_to_server, linked, known)
                (view-send_data w s.transport_client (
                  serialize_data (
                    build_frame
                      (record { socket_address = c.socket_address; payload = received }))))
        ]
      ]
    ]

module _ (q : Qt) (settings : Settings) (v₀ : View) where
  on_frames-Changed :
      (w : TunnelProxyServer) (id : ℕ) (packets : List Bytes)
      → Changed v₀ (view w)
      → Changed v₀ (view (on_frames q settings w id packets))
  unfolding on_frames on_frame
  on_frames-Changed w id [] h = h
  on_frames-Changed w id (packet ∷ packets) h =
      on_frames-Changed (on_frame q settings w id packet) id packets (one packet)
    where
      one : (packet : Bytes) → Changed v₀ (view (on_frame q settings w id packet))
      one packet = elim (Bool-cases ((parse_frame packet).socket_address == 0x0000)) [
        | inl api ↦
            rw (api, on_frame)
              (process_data_packet-Changed q v₀ settings w id (parse_frame packet).payload h)
        | inr tunnel ↦
            rw (tunnel, on_frame) (kept (view-tunnel_to_client w _ (parse_frame packet)) h)
      ]

  role-add_rx_data_count :
      (n : ℕ) (c : TunnelProxyClient) → role_of (add_rx_data_count n c) ≡ role_of c
  unfolding add_rx_data_count
  role-add_rx_data_count n c = refl

  after_rx :
      (w : TunnelProxyServer) (id : ℕ) (c : TunnelProxyClient) (received : Bytes)
      → value w.proxy_clients id ≡ some c
      → value (modify_client id (add_rx_data_count (length received)) w).proxy_clients id
        ≡ some (add_rx_data_count (length received) c)
  unfolding modify_client
  after_rx w id c received e =
      ground (arith, e, value-modify w.proxy_clients id (add_rx_data_count (length received)) id)

  on_slip_data-Changed :
      (w : TunnelProxyServer) (id : ℕ) (c : TunnelProxyClient) (received : Bytes)
      → value w.proxy_clients id ≡ some c
      → Changed v₀ (view w)
      → Changed v₀ (view (on_slip_data q settings w id c received))
  unfolding on_slip_data
  on_slip_data-Changed w id c received e h =
      let c' = (process_data received c).0 in
      on_frames-Changed (modify_client id (λ _. c') w) id (process_data received c).1
        (kept (view-write w id c c' e (process_data_lem q received c)) h)

  server_data :
      (slip : Bool) (w : TunnelProxyServer) (id : ℕ) (c : TunnelProxyClient) (received : Bytes)
      → value w.proxy_clients id ≡ some c
      → Changed v₀ (view w)
      → Changed v₀ (
          view (
            if slip
            then on_slip_data q settings w id c received
            else receive_json q settings w id received))
  server_data true w id c received e h = on_slip_data-Changed w id c received e h
  server_data false w id c received e h = receive_json-Changed q v₀ settings w id received h

  -- Data of any socket, whatever it is registered as and whatever bytes come, leaves the bookkeeping
  -- consistent.
  pub on_client_data_available-Changed :
      (w : TunnelProxyServer) (id : ℕ) (received : Bytes)
      → Changed v₀ (view w)
      → Changed v₀ (view (on_client_data_available q settings w id received))
  unfolding on_client_data_available
  on_client_data_available-Changed w id received h =
      elim (Option-cases (value w.proxy_clients id)) [
        | inl e ↦ rw (e, on_client_data_available) h
        | inr (c, e) ↦
            let c₁ = add_rx_data_count (length received) c in
            let w₁ = modify_client id (add_rx_data_count (length received)) w in
            let h₁ : Changed v₀ (view w₁) =
              kept
                (view-modify_client id (add_rx_data_count (length received)) w
                  (role-add_rx_data_count (length received)))
                h in
            elim (type_cases c.type) [
              | inl t ↦
                  rw (e, on_client_data_available, t)
                    (receive_json-Changed q v₀ settings w₁ id received h₁)
              | inr (inr t) ↦
                  rw (e, on_client_data_available, t)
                    (kept (view-tunnel_to_server w₁ c.uuid received) h₁)
              | inr (inl t) ↦
                  rw (e, on_client_data_available, t)
                    (server_data c.slip_enabled w₁ id c₁ received (after_rx w id c received e) h₁)
            ]
      ]
