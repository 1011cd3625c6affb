-- ===== src/Server/Traffic.antt =====
-- libnymea-remoteproxy/tunnelproxy/tunnelproxyserver.cpp: onClientDataAvailable.
use nymea_remoteproxy.Base.{
  ℕ, ◌+◌, Option, none, some, List, [], ◌∷◌, value, Bytes, length, if◌then◌else◌, ◌==◌,
}
use nymea_remoteproxy.Slip.{Frame, serialize_data, build_frame, parse_frame}
use nymea_remoteproxy.Client.{
  type_none, type_server, type_client, TunnelProxyClient, add_rx_data_count, process_data,
}
use nymea_remoteproxy.Connections.{get_client_connection}
use nymea_remoteproxy.Variant.{Qt}
use nymea_remoteproxy.State.{TunnelProxyServer, Settings, modify_client, send_data}
use nymea_remoteproxy.JsonRpc.{receive_json, process_data_packet}

-- Data of a client goes to its server, in a frame with the client's address.
unfoldable pub tunnel_to_server : TunnelProxyServer → ℕ → Bytes → TunnelProxyServer
tunnel_to_server w client_uuid received =
    elim (value w.tunnel_proxy_client_connections client_uuid) [
      | none ↦ w
      | some c ↦ elim c.server_connection [
        | none ↦ w
        | some server_uuid ↦ elim (value w.tunnel_proxy_server_connections server_uuid) [
          | none ↦ w
          | some s ↦
              let frame : Frame = record {
                socket_address = c.socket_address;
                payload = received;
              } in
              let w' = send_data w s.transport_client (serialize_data (build_frame frame)) in
              record w' { troughput_counter = w'.troughput_counter + length received }
        ]
      ]
    ]

-- The payload of a frame of a server goes to the client at the frame's address.
unfoldable pub tunnel_to_client : TunnelProxyServer → ℕ → Frame → TunnelProxyServer
tunnel_to_client w server_uuid frame = elim (value w.tunnel_proxy_server_connections server_uuid) [
  | none ↦ w
  | some s ↦ elim (get_client_connection s frame.socket_address) [
    | none ↦ w
    | some client_uuid ↦ elim (value w.tunnel_proxy_client_connections client_uuid) [
      | none ↦ w
      | some c ↦
          let w' = send_data w c.transport_client frame.payload in
          record w' { troughput_counter = w'.troughput_counter + length frame.payload }
    ]
  ]
]

abbrev uuid_of : Option TunnelProxyClient → ℕ
uuid_of none = 0
uuid_of (some c) = c.uuid

module _ (q : Qt) (settings : Settings) where
  unfoldable pub on_frame : TunnelProxyServer → ℕ → Bytes → TunnelProxyServer
  on_frame w id packet =
      let frame = parse_frame packet in
      if frame.socket_address == 0x0000
      then process_data_packet q settings w id frame.payload
      else tunnel_to_client w (uuid_of (value w.proxy_clients id)) frame

  unfoldable pub on_frames : TunnelProxyServer → ℕ → List Bytes → TunnelProxyServer
  on_frames w id [] = w
  on_frames w id (packet ∷ packets) = on_frames (on_frame w id packet) id packets

  -- A server's data with SLIP: the packets that it completes are frames.
  unfoldable pub on_slip_data :
      TunnelProxyServer → ℕ → TunnelProxyClient → Bytes → TunnelProxyServer
  on_slip_data w id c received =
      let (c', packets) = process_data received c in
      on_frames (modify_client id (λ _. c') w) id packets

  unfoldable pub on_client_data_available : TunnelProxyServer → ℕ → Bytes → TunnelProxyServer
  on_client_data_available w id received = elim (value w.proxy_clients id) [
    | none ↦ w
    | some c ↦
        let c₁ = add_rx_data_count (length received) c in
        let w₁ = modify_client id (add_rx_data_count (length received)) w in
        elim c.type [
          | type_client ↦ tunnel_to_server w₁ c.uuid received
          | type_server ↦
              if c.slip_enabled
              then on_slip_data w₁ id c₁ received
              else receive_json q settings w₁ id received
          | type_none ↦ receive_json q settings w₁ id received
        ]
  ]
