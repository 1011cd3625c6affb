-- ===== src/RpcClient.antt =====
-- libnymea-remoteproxyclient/proxyjsonrpcclient.h and .cpp, jsonreply.h and .cpp: the requests of a
-- client of the proxy, and what it does with a packet of the proxy. The loop that cuts packets calls
-- the slots of the events in between, and is not part of this module.
pub mod Matching
use nymea_remoteproxy.Base.{
  ℕ, suc, ◌+◌, ◌%◌, ◌^◌, Bool, true, false, ◌&&◌, Option, none, some, List, [], ◌∷◌, ◌++◌, String,
  str_append, str_eq, Hash, value, insert, remove, Bytes, if◌then◌else◌,
}
use nymea_remoteproxy.Slip.{serialize_data, build_frame}
use nymea_remoteproxy.Variant.{
  Variant, VariantMap, ℤ, pos, negsuc, number, string, map, end, field, has_key, insert_value,
  get_value, to_map, Qt,
}
use nymea_remoteproxy.JsonRpc.{split_dots}

-- A JsonReply of the client library: a request that waits for its response.
pub record PendingReply : Type 0 where
  pub command_id : ℕ
  pub name_space : String
  pub method : String
  pub params : VariantMap
  pub response : VariantMap

-- What the client emits.
pub data ClientEvent : Type 0 where
  finished : PendingReply → ClientEvent
  tunnel_established : String → String → ClientEvent
  client_connected : String → ℕ → String → ℕ → ClientEvent
  client_disconnected : ℕ → ClientEvent

-- The client, with the bytes it gave to its connection.
pub record JsonRpcClient : Type 0 where
  pub command_id : ℕ
  pub data_buffer : Bytes
  pub replies : Hash PendingReply
  pub sent_data : List Bytes

unfoldable pub new_rpc_client : JsonRpcClient
new_rpc_client = record { command_id = 0; data_buffer = []; replies = []; sent_data = [] }

abbrev no_entries : VariantMap → Bool
no_entries end = true
no_entries (field k v m) = false

-- requestMap: the request, and the reply with its own number counted up.
unfoldable pub request_map : PendingReply → PendingReply × VariantMap
request_map r =
    let request =
      insert_value (insert_value end "id" (number (pos r.command_id))) "method"
        (string (str_append r.name_space (str_append "." r.method))) in
    (
      record r { command_id = r.command_id + 1 },
      if no_entries r.params then request else insert_value request "params" (map r.params),
    )

unfoldable pub set_response : VariantMap → PendingReply → PendingReply
set_response response r = record r { response = response }

-- QVariant::toInt without the flag: 0 where it fails. No reply waits under a negative number.
abbrev int_or_zero : Option ℤ → ℤ
int_or_zero none = pos 0
int_or_zero (some n) = n

abbrev pub pending_at : JsonRpcClient → ℤ → Option (ℕ × PendingReply)
pending_at c (negsuc n) = none
pending_at c (pos n) = elim (value c.replies n) [ none ↦ none | some r ↦ some (n, r) ]

abbrev first_part : List String → String
first_part [] = ""
first_part (s ∷ ss) = s

abbrev last_part : List String → String
last_part [] = ""
last_part (s ∷ []) = s
last_part (s ∷ t ∷ ss) = last_part (t ∷ ss)

module _ (q : Qt) where
  unfoldable pub send_request : JsonRpcClient → VariantMap → Bool → JsonRpcClient
  send_request c request slip_enabled =
      let line = q.to_json request ++ 10 ∷ [] in
      record c {
        sent_data =
            c.sent_data
            ++ (if slip_enabled
                then serialize_data
                    (build_frame (record { socket_address = 0x0000; payload = line }))
                else line)
              ∷ [];
      }

  -- What all calls do: the reply waits under the number that the client has.
  unfoldable pub call : JsonRpcClient → String → String → VariantMap → Bool → JsonRpcClient
  unfolding request_map send_request
  call c name_space method params slip_enabled =
      let (reply, request) = request_map (record {
        command_id = c.command_id;
        name_space = name_space;
        method = method;
        params = params;
        response = end;
      }) in
      let c' = send_request c request slip_enabled in
      record c' { replies = insert c'.replies c'.command_id reply }

  unfoldable pub call_hello : JsonRpcClient → JsonRpcClient
  call_hello c = call c "RemoteProxy" "Hello" end false

  unfoldable pub call_register_server : JsonRpcClient → ℕ → String → JsonRpcClient
  call_register_server c server_uuid server_name =
      call c "TunnelProxy" "RegisterServer"
        (insert_value (insert_value end "serverName" (string server_name)) "serverUuid"
          (string (q.uuid_to_text server_uuid)))
        false

  -- The uuid of the client is put in as it is, and is a text in the document only.
  unfoldable pub call_register_client : JsonRpcClient → ℕ → String → ℕ → JsonRpcClient
  call_register_client c client_uuid client_name server_uuid =
      call c "TunnelProxy" "RegisterClient"
        (insert_value
          (insert_value (insert_value end "clientUuid" (string (q.uuid_json_text client_uuid)))
            "clientName" (string client_name))
          "serverUuid" (string (q.uuid_to_text server_uuid)))
        false

  unfoldable pub call_disconnect_client : JsonRpcClient → ℕ → JsonRpcClient
  call_disconnect_client c socket_address =
      call c "TunnelProxy" "DisconnectClient"
        (insert_value end "socketAddress" (number (pos socket_address))) true

  unfoldable pub call_ping : JsonRpcClient → ℕ → JsonRpcClient
  call_ping c timestamp =
      call c "TunnelProxy" "Ping" (insert_value end "timestamp" (number (pos timestamp))) true

  unfoldable pub read_notification : String → String → VariantMap → Option ClientEvent
  read_notification name_space name params =
      if str_eq name_space "RemoteProxy" && str_eq name "TunnelEstablished"
      then some (
          tunnel_established (q.to_text (get_value params "name"))
            (q.to_text (get_value params "uuid")))
      else if str_eq name_space "TunnelProxy" && str_eq name "ClientConnected"
      then some (
          client_connected (q.to_text (get_value params "clientName"))
            (q.to_uuid (get_value params "clientUuid"))
            (q.to_text (get_value params "clientPeerAddress"))
            (q.to_uint (get_value params "socketAddress") % 2 ^ 16))
      else if str_eq name_space "TunnelProxy" && str_eq name "ClientDisconnected"
      then some (client_disconnected (q.to_uint (get_value params "socketAddress") % 2 ^ 16))
      else none

  -- What is no reply may be a notification.
  unfoldable pub read_other : VariantMap → Option ClientEvent
  read_other m =
      let parts = split_dots (q.to_text (get_value m "notification")) in
      if has_key m "notification"
      then read_notification (first_part parts) (last_part parts) (to_map (get_value m "params"))
      else none

  -- JsonRpcClient::processDataPacket: the client after it and what it emits.
  unfoldable pub receive_packet : JsonRpcClient → Bytes → JsonRpcClient × Option ClientEvent
  unfolding set_response
  receive_packet c packet = elim (q.from_json packet) [
    | none ↦ (c, none)
    | some document ↦
        let m = to_map document in
        elim (pending_at c (int_or_zero (q.to_int (get_value m "id")))) [
          | none ↦ (c, read_other m)
          | some e ↦
              (record c { replies = remove c.replies e.0 }, some (finished (set_response m e.1)))
        ]
  ]
