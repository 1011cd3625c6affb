-- ===== src/RpcClient/Matching.antt =====
-- How the client of the library (proxyjsonrpcclient.cpp) takes the documents of the proxy
-- (jsonrpcserver.cpp) apart: responses by their number, and notifications.
use nymea_remoteproxy.Base.{
  if◌then◌else◌, [], ◌∷◌, ◌++◌, ℕ, ◌≡◌, ◌∙◌, refl, ◌<◌, ◌+◌, Bool, none, some, String, str_append,
  value, insert, remove, Bytes, arith, ap,
}
use nymea_remoteproxy.Variant.{
  VariantMap, ℤ, pos, number, string, map, end, field, insert_value, find, without_key, Qt,
}
use nymea_remoteproxy.Slip.{serialize_data, build_frame}
use nymea_remoteproxy.Client.{TunnelProxyClient}
use nymea_remoteproxy.State.{notification_document, response_document, error_document}
use nymea_remoteproxy.Registration.{connected_params}
use nymea_remoteproxy.JsonRpc.{split_dots}
use nymea_remoteproxy.RpcClient.{
  JsonRpcClient, PendingReply, finished, client_connected, call, request_map, send_request,
  set_response, read_notification, read_other, receive_packet,
}

-- The documents that the proxy prints.
abbrev notification_map : ℕ → String → String → VariantMap → VariantMap
notification_map id name_space method params =
    insert_value
      (insert_value (insert_value end "id" (number (pos id))) "notification"
        (string (str_append name_space (str_append "." method))))
      "params" (map params)

abbrev response_map : ℕ → VariantMap → VariantMap
response_map id params =
    insert_value
      (insert_value (insert_value end "id" (number (pos id))) "status" (string "success")) "params"
      (map params)

abbrev error_map : ℕ → String → VariantMap
error_map id error =
    insert_value (insert_value (insert_value end "id" (number (pos id))) "status" (string "error"))
      "error" (string error)

-- A request takes the place of a request that still waits: the client gives every request the same
-- number.
pub call_replaces :
    (q : Qt) (c : JsonRpcClient) (name_space method name_space' method' : String)
    (params params' : VariantMap) (slip slip' : Bool)
    → let c' = call q (call q c name_space method params slip) name_space' method' params' slip' in
      (c'.command_id ≡ c.command_id)
      × (value c'.replies c.command_id
          ≡ some (record {
            command_id = c.command_id + 1;
            name_space = name_space';
            method = method';
            params = params';
            response = end;
          }))
unfolding call request_map send_request value insert
call_replaces q c name_space method name_space' method' params params' slip slip' =
    (refl, ground arith)

-- A line as the client sends it.
abbrev pub sent_line : Bool → Bytes → Bytes
sent_line slip_enabled line =
    if slip_enabled
    then serialize_data (build_frame (record { socket_address = 0x0000; payload = line }))
    else line

-- The reply that waits after a request, with its response.
abbrev pub answered : ℕ → String → String → VariantMap → VariantMap → PendingReply
answered number_ name_space method params response = record {
  command_id = number_ + 1;
  name_space = name_space;
  method = method;
  params = params;
  response = response;
}

call_waits :
    (q : Qt) (c : JsonRpcClient) (name_space method : String) (params : VariantMap) (slip : Bool)
    → value (call q c name_space method params slip).replies c.command_id
      ≡ some (answered c.command_id name_space method params end)
unfolding call request_map send_request value insert
call_waits q c name_space method params slip = ground arith

call_sends :
    (q : Qt) (c : JsonRpcClient) (name_space method : String) (params : VariantMap) (slip : Bool)
    → (request : VariantMap) × ((call q c name_space method params slip).sent_data
        ≡ c.sent_data ++ sent_line slip (q.to_json request ++ 10 ∷ []) ∷ [])
      × (find request "id" ≡ some (number (pos c.command_id)))
      × (find request "method" ≡ some (string (str_append name_space (str_append "." method))))
unfolding call request_map send_request insert_value without_key find
call_sends q c name_space method end slip = (_, refl, refl, refl)
call_sends q c name_space method (field k v params) slip = (_, refl, refl, refl)

module _ (q : Qt) (documents : (m : VariantMap) → q.from_json (q.to_json m) ≡ some (map m))
    (ints : (n : ℤ) → q.to_int (number n) ≡ some n) where
  pending_first :
      (c : JsonRpcClient) (r : PendingReply) (m : VariantMap) (n : ℕ)
      → find m "id" ≡ some (number (pos n))
      → value c.replies n ≡ some r
      → receive_packet q c (q.to_json m)
        ≡ (record c { replies = remove c.replies n }, some (finished (set_response m r)))
  unfolding receive_packet
  pending_first c r m n id waits = rw (documents m, receive_packet, id) (rw (ints, waits))

  -- What a client gets back for a request, whatever it waits for: the request that it sends
  -- carries the method and a number, and both documents that the proxy makes with this number,
  -- the response and the error, end the wait of this very request, with the status, and the
  -- values or the error, that the proxy wrote. JSON objects and numbers are read back.
  pub response_received :
      (c : JsonRpcClient) (name_space method : String) (params values : VariantMap) (slip : Bool)
      (error : String)
      → let c' = call q c name_space method params slip in
        let n = c.command_id in
        (request response refusal : VariantMap) × (c'.sent_data
          ≡ c.sent_data ++ sent_line slip (q.to_json request ++ 10 ∷ []) ∷ [])
        × (find request "id" ≡ some (number (pos n)))
        × (find request "method" ≡ some (string (str_append name_space (str_append "." method))))
        × (receive_packet q c' (response_document q (pos n) values) ≡ (
          record c' { replies = remove c'.replies n },
          some (finished (answered n name_space method params response)),
        ))
        × (find response "status" ≡ some (string "success"))
        × (find response "params" ≡ some (map values))
        × (receive_packet q c' (error_document q (pos n) error) ≡ (
          record c' { replies = remove c'.replies n },
          some (finished (answered n name_space method params refusal)),
        ))
        × (find refusal "status" ≡ some (string "error"))
        × (find refusal "error" ≡ some (string error))
  unfolding insert_value without_key find set_response response_document error_document
  response_received c name_space method params values slip error =
      let c' = call q c name_space method params slip in
      let (request, goes, id, command) = call_sends q c name_space method params slip in
      let waits = call_waits q c name_space method params slip in
      let r = answered c.command_id name_space method params end in
      (
        request,
        response_map c.command_id values,
        error_map c.command_id error,
        goes,
        id,
        command,
        pending_first c' r (response_map c.command_id values) c.command_id refl waits,
        refl,
        refl,
        pending_first c' r (error_map c.command_id error) c.command_id refl waits,
        refl,
        refl,
      )

  -- A notification of the proxy with the number of a request that waits is lost: it ends the wait of
  -- the request, as a response that has no status, and nothing is emitted for it. JSON objects and
  -- numbers are read back.
  pub notification_swallowed :
      (c : JsonRpcClient) (name_space method : String) (params : VariantMap) (slip : Bool)
      (from name : String) (values : VariantMap)
      → let c' = call q c name_space method params slip in
        let n = c.command_id in
        (response : VariantMap) × (receive_packet q c' (notification_document q n from name values)
          ≡ (
            record c' { replies = remove c'.replies n },
            some (finished (answered n name_space method params response)),
          ))
        × (find response "status" ≡ none)
        × (find response "notification" ≡ some (string (str_append from (str_append "." name))))
        × (find response "params" ≡ some (map values))
  unfolding insert_value without_key find set_response notification_document
  notification_swallowed c name_space method params slip from name values =
      let m = notification_map c.command_id from name values in
      (
        m,
        pending_first (call q c name_space method params slip)
            (answered c.command_id name_space method params end) m c.command_id refl
            (call_waits q c name_space method params slip),
        refl,
        refl,
        refl,
      )

  other_received :
      (c : JsonRpcClient) (m : VariantMap) (n : ℕ)
      → find m "id" ≡ some (number (pos n))
      → value c.replies n ≡ none
      → receive_packet q c (q.to_json m) ≡ (c, read_other q m)
  unfolding receive_packet
  other_received c m n id free = rw (documents m, receive_packet, id) (rw (ints, free))

  -- The notification of a new client, with a number that no request waits under, is emitted with
  -- the name, uuid, peer address and 16 bit socket address that the proxy wrote; JSON objects,
  -- numbers, texts and uuids are read back.
  pub client_connected_received :
      (c : JsonRpcClient) (p : TunnelProxyClient) (n a : ℕ)
      → value c.replies n ≡ none
      → ((s : String) → q.to_text (string s) ≡ s)
      → q.to_uuid (string (q.uuid_to_text p.uuid)) ≡ p.uuid
      → q.to_uint (number (pos a)) ≡ a
      → a < 65536
      → receive_packet q c
          (notification_document q n "TunnelProxy" "ClientConnected" (connected_params q p a))
        ≡ (c, some (client_connected p.name p.uuid p.peer_address a))
  unfolding insert_value without_key find connected_params read_other read_notification split_dots
      notification_document
  client_connected_received c p n a free texts uuids uints small =
      other_received c (notification_map n "TunnelProxy" "ClientConnected" (connected_params q p a))
        n refl free
      ∙ ap (λ e. (c, e))
          (rw (texts, uuids, uints)
            (rw (texts p.name, texts p.peer_address)
              (ap (λ k. some (client_connected p.name p.uuid p.peer_address k))
                (omega (arith, small)))))
