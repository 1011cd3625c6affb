-- ===== src/Tests/Library.antt =====
-- Examples for the theorems on the client library.
use nymea_remoteproxy.Base.{
  ◌≡◌, refl, true, none, some, ◌∷◌, ◌++◌, [], str_append, value, remove, arith,
}
use nymea_remoteproxy.Client.{tcp, TunnelProxyClient, new_client}
use nymea_remoteproxy.Variant.{VariantMap, pos, number, string, map, end, field, find}
use nymea_remoteproxy.State.{notification_document, response_document, error_document}
use nymea_remoteproxy.Registration.{connected_params}
use nymea_remoteproxy.RpcClient.{
  JsonRpcClient, finished, client_connected, new_rpc_client, call, receive_packet,
}
use nymea_remoteproxy.RpcClient.Matching.{
  sent_line, answered, response_received, notification_swallowed, client_connected_received,
}
use nymea_remoteproxy.Tests.Codec.{json_qt, json_qt_reads}

abbrev timestamp : VariantMap
timestamp = field "timestamp" (number (pos 5)) end

-- A client that has sent a ping.
abbrev pinged : JsonRpcClient
pinged = call json_qt new_rpc_client "TunnelProxy" "Ping" timestamp true

response_received_example :
    let n = new_rpc_client.command_id in
    (request response refusal : VariantMap) × (pinged.sent_data
      ≡ new_rpc_client.sent_data ++ sent_line true (json_qt.to_json request ++ 10 ∷ []) ∷ [])
    × (find request "id" ≡ some (number (pos n)))
    × (find request "method" ≡ some (string (str_append "TunnelProxy" (str_append "." "Ping"))))
    × (receive_packet json_qt pinged (response_document json_qt (pos n) timestamp) ≡ (
      record pinged { replies = remove pinged.replies n },
      some (finished (answered n "TunnelProxy" "Ping" timestamp response)),
    ))
    × (find response "status" ≡ some (string "success"))
    × (find response "params" ≡ some (map timestamp))
    × (receive_packet json_qt pinged (error_document json_qt (pos n) "No such method") ≡ (
      record pinged { replies = remove pinged.replies n },
      some (finished (answered n "TunnelProxy" "Ping" timestamp refusal)),
    ))
    × (find refusal "status" ≡ some (string "error"))
    × (find refusal "error" ≡ some (string "No such method"))
response_received_example =
    response_received json_qt json_qt_reads (λ n. refl) new_rpc_client "TunnelProxy" "Ping"
      timestamp timestamp true "No such method"

abbrev gone : VariantMap
gone = field "socketAddress" (number (pos 1)) end

notification_swallowed_example :
    let n = new_rpc_client.command_id in
    (response : VariantMap) × (receive_packet json_qt pinged
        (notification_document json_qt n "TunnelProxy" "ClientDisconnected" gone)
      ≡ (
        record pinged { replies = remove pinged.replies n },
        some (finished (answered n "TunnelProxy" "Ping" timestamp response)),
      ))
    × (find response "status" ≡ none)
    × (find response "notification"
        ≡ some (string (str_append "TunnelProxy" (str_append "." "ClientDisconnected"))))
    × (find response "params" ≡ some (map gone))
notification_swallowed_example =
    notification_swallowed json_qt json_qt_reads (λ n. refl) new_rpc_client "TunnelProxy" "Ping"
      timestamp true "TunnelProxy" "ClientDisconnected" gone

abbrev visitor : TunnelProxyClient
visitor = record (new_client tcp 2 "10.0.0.2" 6 8000) { name = "phone"; uuid = 88 }

client_connected_received_example :
    receive_packet json_qt new_rpc_client (
      notification_document json_qt 3 "TunnelProxy" "ClientConnected"
        (connected_params json_qt visitor 1))
    ≡ (new_rpc_client, some (client_connected "phone" 88 "10.0.0.2" 1))
unfolding new_client new_rpc_client value
client_connected_received_example =
    client_connected_received json_qt json_qt_reads (λ n. refl) new_rpc_client visitor 3 1 refl
      (λ s. refl) refl refl (omega arith)
