-- ===== src/Server/Serving.antt =====
-- Requests (jsonrpcserver.cpp: processDataPacket and processData) keep the bookkeeping
-- consistent, and change the directory by its moves. The view v₀ is the one before the first of
-- them.
use mathlib.Core.Path.{fun_ext}
use nymea_remoteproxy.Base.{
  ℕ, ◌≡◌, ◌∙◌, refl, not, true, List, [], ◌∷◌, Option, none, some, str_eq, Hash, value,
  value-modify, modify, count-modify, Bytes, ltb, member, arith, ◌==◌, inl, inr, ◌⊎◌, Bool-cases,
  Option-cases, ap,
}
use nymea_remoteproxy.Client.{TunnelProxyClient, set_slip_enabled, process_data, buffer_size}
use nymea_remoteproxy.Variant.{Qt, ℤ, VariantMap, get_value}
use nymea_remoteproxy.Handler.{JsonReply, type_sync, type_async}
use nymea_remoteproxy.State.{TunnelProxyServer, Settings, modify_client, send_response}
use nymea_remoteproxy.TunnelHandler.{
  handle_register_server, handle_disconnect_client, handle_ping, handle_register_client,
}
use nymea_remoteproxy.JsonRpc.{
  Request, Rejection, Checked, accepted, rejected, check_request, after_response, invoke_method,
  deliver_reply, deliver, reject_request, process_data_packet, process_packets, receive_json,
  buffer_limit,
}
use nymea_remoteproxy.Server.View.{
  View, view, role_in, role_of, view-modify_client, view-kill_connection, view-send_response,
  view-send_error_response,
}
use nymea_remoteproxy.Server.Changed.{Changed, Changed-trans, kept}
use nymea_remoteproxy.Server.Registering.{register_server-Changed, register_client-Changed}
use nymea_remoteproxy.Server.Arriving.{view-disconnect_client}

role-write :
    (clients : Hash TunnelProxyClient) (id : ℕ) (c c' : TunnelProxyClient) (j : ℕ)
    → value clients id ≡ some c
    → role_of c' ≡ role_of c
    → role_in (modify clients id (λ _. c')) j ≡ role_in clients j
role-write clients id c c' j found same =
    ground (arith, value-modify clients id (λ _. c') j, ap {B = Option _} some same)

-- The client that was found is written back with its role.
pub view-write :
    (w : TunnelProxyServer) (id : ℕ) (c c' : TunnelProxyClient)
    → value w.proxy_clients id ≡ some c
    → role_of c' ≡ role_of c
    → view (modify_client id (λ _. c') w) ≡ view w
unfolding modify_client
view-write w id c c' found same = λ i. record (view w) {
  role = fun_ext (λ j. role-write w.proxy_clients id c c' j found same) i;
  socket_count = count-modify w.proxy_clients id (λ _. c') i;
}

view-after_response : (w : TunnelProxyServer) (id : ℕ) → view (after_response w id) ≡ view w
unfolding after_response set_slip_enabled
view-after_response w id = elim (Option-cases (value w.proxy_clients id)) [
  | inl e ↦ rw (e, after_response)
  | inr (c, e) ↦ elim (Bool-cases c.kill_connection_requested) [
    | inl kill ↦ rw (e, after_response, kill) (view-kill_connection w id c.kill_connection_reason)
    | inr stay ↦ elim (Bool-cases c.slip_after_response_enabled) [
      | inl slip ↦
          rw (e, after_response, stay, slip)
            (view-modify_client id (set_slip_enabled true) w (λ c. refl))
      | inr plain ↦ rw (e, after_response, stay, plain)
    ]
  ]
]

module _ (q : Qt) where
  view-deliver :
      (w : TunnelProxyServer) (reply : Option JsonReply) (id : ℕ) (n : ℤ)
      → view (deliver q w reply id n) ≡ view w
  unfolding deliver_reply
  view-deliver w none id n = refl
  view-deliver w (some reply) id n = elim (type-cases reply) [
    | inl e ↦ rw (e, deliver_reply)
    | inr e ↦
        rw (e, deliver_reply)
          (view-after_response (send_response q w id n reply.reply_values) id
            ∙ view-send_response q w id n reply.reply_values)
  ]
    where
      type-cases : (r : JsonReply) → (r.type ≡ type_async) ⊎ (r.type ≡ type_sync)
      type-cases r = elim r.type as (λ t. (t ≡ type_async) ⊎ (t ≡ type_sync)) [
        | type_async ↦ inl refl
        | type_sync ↦ inr refl
      ]

  pub view-reject_request :
      (w : TunnelProxyServer) (id : ℕ) (r : Rejection) → view (reject_request q w id r) ≡ view w
  unfolding reject_request
  view-reject_request w id r =
      view-kill_connection _ id r.reason ∙ view-send_error_response q w id r.command_id r.error

  -- The buffer of a client has no part in the bookkeeping.
  pub process_data_lem :
      (received : Bytes) (c : TunnelProxyClient) → role_of (process_data received c).0 ≡ role_of c
  unfolding process_data
  process_data_lem received c = refl

module _ (q : Qt) (v₀ : View) where
  handle_register_server-Changed :
      (w : TunnelProxyServer) (params : VariantMap) (id : ℕ)
      → Changed v₀ (view w)
      → Changed v₀ (view (handle_register_server q w params id).0)
  unfolding handle_register_server
  handle_register_server-Changed w params id h =
      let u = q.to_uuid (get_value params "serverUuid") in
      elim (Bool-cases (u == 0)) [
        | inl null ↦ rw (null, handle_register_server) h
        | inr some_uuid ↦
            rw (some_uuid, handle_register_server)
              (Changed-trans h (
                register_server-Changed w id u (q.to_text (get_value params "serverName"))
                  h.consistent))
      ]

  handle_register_client-Changed :
      (w : TunnelProxyServer) (params : VariantMap) (id : ℕ)
      → Changed v₀ (view w)
      → Changed v₀ (view (handle_register_client q w params id).0)
  unfolding handle_register_client
  handle_register_client-Changed w params id h =
      let u = q.to_uuid (get_value params "clientUuid") in
      let x = q.to_uuid (get_value params "serverUuid") in
      elim (Bool-cases (x == 0)) [
        | inl null ↦ rw (null, handle_register_client) h
        | inr server ↦ elim (Bool-cases (u == 0)) [
          | inl null ↦ rw (server, handle_register_client, null) h
          | inr client ↦
              rw (server, handle_register_client, client)
                (Changed-trans h (
                  register_client-Changed q w id u (q.to_text (get_value params "clientName")) x
                    h.consistent))
        ]
      ]

  -- The method that is called, and the reply to it.
  invoke_method-Changed :
      (s : Settings) (w : TunnelProxyServer) (r : Request) (id : ℕ)
      → Changed v₀ (view w)
      → Changed v₀ (view (invoke_method q s w r id).0)
  unfolding invoke_method handle_disconnect_client handle_ping
  invoke_method-Changed s w r id h = elim (Bool-cases (str_eq r.handler.name "TunnelProxy")) [
    | inr other ↦ elim (Bool-cases (str_eq r.handler.name "RemoteProxy")) [
      | inr unknown ↦ rw (other, invoke_method, unknown) h
      | inl remote ↦ elim (Bool-cases (str_eq r.method_name "Hello")) [
        | inl hello ↦ rw (other, invoke_method, remote, hello) h
        | inr not_hello ↦ elim (Bool-cases (str_eq r.method_name "Introspect")) [
          | inl introspect ↦ rw (other, invoke_method, remote, not_hello, introspect) h
          | inr nothing ↦ rw (other, invoke_method, remote, not_hello, nothing) h
        ]
      ]
    ]
    | inl tunnel ↦ elim (Bool-cases (str_eq r.method_name "RegisterServer")) [
      | inl server ↦
          rw (tunnel, invoke_method, server) (handle_register_server-Changed w r.params id h)
      | inr n₁ ↦ elim (Bool-cases (str_eq r.method_name "DisconnectClient")) [
        | inl disconnect ↦
            rw (tunnel, invoke_method, n₁, disconnect) (kept (view-disconnect_client w id _) h)
        | inr n₂ ↦ elim (Bool-cases (str_eq r.method_name "Ping")) [
          | inl ping ↦ rw (tunnel, invoke_method, n₁, n₂, ping) h
          | inr n₃ ↦ elim (Bool-cases (str_eq r.method_name "RegisterClient")) [
            | inl client ↦
                rw (tunnel, invoke_method, n₁, n₂, n₃, client)
                  (handle_register_client-Changed w r.params id h)
            | inr n₄ ↦ rw (tunnel, invoke_method, n₁, n₂, n₃, n₄) h
          ]
        ]
      ]
    ]
  ]

  -- Any packet, a request or not, is registrations at most.
  pub process_data_packet-Changed :
      (s : Settings) (w : TunnelProxyServer) (id : ℕ) (packet : Bytes)
      → Changed v₀ (view w)
      → Changed v₀ (view (process_data_packet q s w id packet))
  unfolding process_data_packet
  process_data_packet-Changed s w id packet h = checked (check_request q w.handlers packet)
    where
      checked :
          (c : Checked Request)
          → Changed v₀ (
              view (elim c [
                | rejected r ↦ reject_request q w id r
                | accepted r ↦
                    let (w', reply) = invoke_method q s w r id in deliver q w' reply id r.command_id
              ]))
      checked (rejected r) = kept (view-reject_request q w id r) h
      checked (accepted r) =
          let a = invoke_method q s w r id in
          kept (view-deliver q a.0 a.1 id r.command_id) (invoke_method-Changed s w r id h)

  process_packets-Changed :
      (s : Settings) (w : TunnelProxyServer) (id : ℕ) (packets : List Bytes)
      → Changed v₀ (view w)
      → Changed v₀ (view (process_packets q s w id packets))
  unfolding process_packets
  process_packets-Changed s w id [] h = h
  process_packets-Changed s w id (packet ∷ packets) h =
      process_packets-Changed s (process_data_packet q s w id packet) id packets
        (process_data_packet-Changed s w id packet h)

  pub receive_json-Changed :
      (s : Settings) (w : TunnelProxyServer) (id : ℕ) (received : Bytes)
      → Changed v₀ (view w)
      → Changed v₀ (view (receive_json q s w id received))
  unfolding receive_json
  receive_json-Changed s w id received h = elim (Bool-cases (not (member id w.clients))) [
    | inl stranger ↦ rw (stranger, receive_json) h
    | inr known ↦ elim (Option-cases (value w.proxy_clients id)) [
      | inl e ↦ rw (known, receive_json, e) h
      | inr (c, e) ↦
          let c' = (process_data received c).0 in
          let w' = modify_client id (λ _. c') w in
          let h' : Changed v₀ (view w') =
            kept (view-write w id c c' e (process_data_lem q received c)) h in
          elim (Bool-cases (ltb buffer_limit (buffer_size c'))) [
            | inl large ↦
                rw (known, receive_json, e, large)
                  (kept (view-kill_connection w' id "Data buffer size violation.") h')
            | inr small ↦
                rw (known, receive_json, e, small)
                  (process_packets-Changed s w' id (process_data received c).1 h')
          ]
    ]
  ]
