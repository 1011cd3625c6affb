-- ===== src/State.antt =====
-- The state that the server's handlers share: libnymea-
-- remoteproxy/tunnelproxy/tunnelproxyserver.h with the JsonRpcServer it owns
-- (server/jsonrpcserver.h), and what its sockets are told to do. TransportClient::sendData and
-- killConnection (server/transportclient.cpp) stand here, and the sending of JSON documents
-- (server/jsonrpcserver.cpp).
use nymea_remoteproxy.Base.{
  ℕ, ◌+◌, Bool, false, Option, none, some, List, [], ◌∷◌, ◌++◌, String, str_append, Dict, Hash,
  value, modify, Bytes, length, if◌then◌else◌,
}
use nymea_remoteproxy.Slip.{serialize_data, build_frame}
use nymea_remoteproxy.Client.{Transport, TunnelProxyClient, add_tx_data_count}
use nymea_remoteproxy.Connections.{TunnelProxyServerConnection, TunnelProxyClientConnection}
use nymea_remoteproxy.Variant.{VariantMap, ℤ, pos, number, string, map, end, insert_value, Qt}
use nymea_remoteproxy.Handler.{JsonHandler}

-- What a transport is asked to do with one of its sockets.
pub data Output : Type 0 where
  sent : Transport → ℕ → Bytes → Output
  killed : Transport → ℕ → String → Output
  started stopped : Transport → Output

pub record TunnelProxyServer : Type 0 where
  pub running : Bool
  pub transport_interfaces : List Transport
  -- client id, server uuid and client uuid to the objects
  pub proxy_clients : Hash TunnelProxyClient
  pub tunnel_proxy_server_connections : Hash TunnelProxyServerConnection
  pub tunnel_proxy_client_connections : Hash TunnelProxyClientConnection
  pub troughput : ℕ
  pub troughput_counter : ℕ
  -- the JsonRpcServer
  pub handlers : Dict JsonHandler
  pub async_replies : Hash ℕ
  pub next_reply : ℕ
  pub clients : List ℕ
  pub notification_id : ℕ
  -- what went out, in order
  pub output : List Output

-- The strings of the generated version.h, and what is read of the configuration.
pub record Settings : Type 0 where
  pub server_name_string : String
  pub server_version_string : String
  pub api_version_string : String
  pub server_name : String
  pub inactive_timeout : ℕ

-- A write through a TransportClient pointer.
unfoldable pub modify_client :
    ℕ → (TunnelProxyClient → TunnelProxyClient) → TunnelProxyServer → TunnelProxyServer
modify_client id f w = record w { proxy_clients = modify w.proxy_clients id f }

abbrev pub emit : Output → TunnelProxyServer → TunnelProxyServer
emit o w = record w { output = w.output ++ o ∷ [] }

unfoldable pub send_data : TunnelProxyServer → ℕ → Bytes → TunnelProxyServer
unfolding modify_client
send_data w id bytes = elim (value w.proxy_clients id) [
  | none ↦ w
  | some c ↦
      emit (sent c.interface id bytes) (modify_client id (add_tx_data_count (length bytes)) w)
]

unfoldable pub kill_connection : TunnelProxyServer → ℕ → String → TunnelProxyServer
kill_connection w id reason = elim (value w.proxy_clients id) [
  | none ↦ w
  | some c ↦ emit (killed c.interface id reason) w
]

abbrev pub newline : Bytes
newline = 10 ∷ []

-- A JSON document goes out in a frame for the address 0 where SLIP is enabled, and else as a line.
unfoldable pub json_bytes : Bool → Bytes → Bytes
json_bytes slip_enabled document =
    if slip_enabled
    then serialize_data
        (build_frame (record { socket_address = 0x0000; payload = document ++ newline }))
    else document ++ newline

abbrev slip_of : Option TunnelProxyClient → Bool
slip_of none = false
slip_of (some c) = c.slip_enabled

unfoldable pub send_document : TunnelProxyServer → ℕ → Bytes → TunnelProxyServer
send_document w id document =
    send_data w id (json_bytes (slip_of (value w.proxy_clients id)) document)

module _ (q : Qt) where
  unfoldable pub response_document : ℤ → VariantMap → Bytes
  response_document command_id params = q.to_json (
      insert_value
        (insert_value (insert_value end "id" (number command_id)) "status" (string "success"))
        "params" (map params))

  unfoldable pub error_document : ℤ → String → Bytes
  error_document command_id error = q.to_json (
      insert_value
        (insert_value (insert_value end "id" (number command_id)) "status" (string "error")) "error"
        (string error))

  unfoldable pub notification_document : ℕ → String → String → VariantMap → Bytes
  notification_document id name_space method params = q.to_json (
      insert_value
        (insert_value (insert_value end "id" (number (pos id))) "notification"
          (string (str_append name_space (str_append "." method))))
        "params" (map params))

  unfoldable pub send_response : TunnelProxyServer → ℕ → ℤ → VariantMap → TunnelProxyServer
  send_response w id command_id params = send_document w id (response_document command_id params)

  unfoldable pub send_error_response : TunnelProxyServer → ℕ → ℤ → String → TunnelProxyServer
  send_error_response w id command_id error = send_document w id (error_document command_id error)

  unfoldable pub send_notification :
      TunnelProxyServer → String → String → VariantMap → ℕ → TunnelProxyServer
  send_notification w name_space method params id =
      send_document (record w { notification_id = w.notification_id + 1 }) id
        (notification_document w.notification_id name_space method params)
