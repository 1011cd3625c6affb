-- ===== src/Server/Answers.antt =====
-- What goes out after a request (jsonrpcserver.cpp: processDataPacket): the error and the end of a
-- connection whose request is refused, and the first frame of a server.
use mathlib.Core.Option
use nymea_remoteproxy.Base.{
  ℕ, ◌≡◌, ◌∙◌, refl, Bool, true, false, [], ◌∷◌, ◌++◌, append_assoc, none, some, String, value,
  value-modify, contains, Bytes, length, arith, inl, inr, Option-cases, ap,
}
use nymea_remoteproxy.Client.{
  TunnelProxyClient, type_none, add_tx_data_count, set_slip_enabled, enable_slip_after_response,
  activate_client, set_name, set_uuid, set_type,
}
use nymea_remoteproxy.Types.{no_error}
use nymea_remoteproxy.Variant.{ℤ, VariantMap, Qt}
use nymea_remoteproxy.Handler.{JsonReply, type_sync}
use nymea_remoteproxy.State.{
  TunnelProxyServer, Settings, sent, killed, json_bytes, newline, response_document, error_document,
  send_data, send_document, send_response, send_error_response, modify_client, kill_connection,
}
use nymea_remoteproxy.Registration.{register_server, accept_server, as_server}
use nymea_remoteproxy.JsonRpc.{
  Rejection, rejected, check_request, reject_request, process_data_packet, deliver_reply,
  after_response,
}
use nymea_remoteproxy.Server.View.{view}
use nymea_remoteproxy.Server.Serving.{view-reject_request}
use nymea_remoteproxy.Server.Sending.{output-send_data}

-- A socket after bytes have been sent to it.
socket-send_data :
    (w : TunnelProxyServer) (id : ℕ) (bytes : Bytes) (c : TunnelProxyClient)
    → value w.proxy_clients id ≡ some c
    → value (send_data w id bytes).proxy_clients id ≡ some (add_tx_data_count (length bytes) c)
unfolding send_data modify_client
socket-send_data w id bytes c e =
    rw (e, send_data)
      (ground (arith, e, value-modify w.proxy_clients id (add_tx_data_count (length bytes)) id))

module _ (q : Qt) where
  output-send_error_response :
      (w : TunnelProxyServer) (id : ℕ) (n : ℤ) (error : String) (c : TunnelProxyClient)
      → value w.proxy_clients id ≡ some c
      → (send_error_response q w id n error).output
        ≡ w.output
          ++ sent c.interface id (json_bytes c.slip_enabled (error_document q n error)) ∷ []
  unfolding send_error_response send_document
  output-send_error_response w id n error c e =
      rw e (output-send_data w id (json_bytes c.slip_enabled (error_document q n error)) c e)

  socket-send_error_response :
      (w : TunnelProxyServer) (id : ℕ) (n : ℤ) (error : String) (c : TunnelProxyClient)
      → value w.proxy_clients id ≡ some c
      → Option.map (λ p. p.interface) (value (send_error_response q w id n error).proxy_clients id)
        ≡ some c.interface
  unfolding send_error_response send_document add_tx_data_count
  socket-send_error_response w id n error c e = rw e (
      ap (Option.map (λ p. p.interface))
        (socket-send_data w id (json_bytes c.slip_enabled (error_document q n error)) c e))

output-kill_connection :
    (w : TunnelProxyServer) (id : ℕ) (reason : String) (interface : _)
    → Option.map (λ p. p.interface) (value w.proxy_clients id) ≡ some interface
    → (kill_connection w id reason).output ≡ w.output ++ killed interface id reason ∷ []
unfolding kill_connection
output-kill_connection w id reason interface e = elim (Option-cases (value w.proxy_clients id)) [
  | inl nobody ↦ absurd (ground (arith, nobody, e))
  | inr (c, found) ↦
      rw (found, kill_connection)
        (ap (λ i. w.output ++ killed i id reason ∷ []) (ground (arith, found, e)))
]

module _ (q : Qt) where
  -- A packet of a known socket that the checks refuse has two effects, in this order: the error
  -- goes to its sender, and then the sender's connection is killed; the registrations stay as
  -- they are.
  pub process_data_packet_rejected :
      (s : Settings) (w : TunnelProxyServer) (id : ℕ) (packet : Bytes) (r : Rejection)
      (c : TunnelProxyClient)
      → check_request q w.handlers packet ≡ rejected r
      → value w.proxy_clients id ≡ some c
      → let w' = process_data_packet q s w id packet in
        (w'.output
          ≡ w.output
            ++ sent c.interface id
                (json_bytes c.slip_enabled (error_document q r.command_id r.error))
              ∷ killed c.interface id r.reason
              ∷ [])
        × (view w' ≡ view w)
  unfolding process_data_packet reject_request
  process_data_packet_rejected s w id packet r c refused found =
      rw (refused, process_data_packet)
        (
          output-kill_connection (send_error_response q w id r.command_id r.error) id r.reason
                c.interface (socket-send_error_response q w id r.command_id r.error c found)
              ∙ ap (λ o. o ++ killed c.interface id r.reason ∷ [])
                  (output-send_error_response q w id r.command_id r.error c found)
              ∙ append_assoc w.output
                  (sent c.interface id
                      (json_bytes c.slip_enabled (error_document q r.command_id r.error))
                    ∷ [])
                  (killed c.interface id r.reason ∷ []),
          view-reject_request q w id r,
        )

plain_line :
    (slip : Bool) (document : Bytes) → slip ≡ false → json_bytes slip document ≡ document ++ newline
unfolding json_bytes
plain_line slip document e = rw e

-- A server that registers has its socket and its connection written, whatever its uuid and name.
register_server_accepts :
    (w : TunnelProxyServer) (id u : ℕ) (name : String) (c : TunnelProxyClient)
    → value w.proxy_clients id ≡ some c
    → c.type ≡ type_none
    → value w.tunnel_proxy_server_connections u ≡ none
    → value w.tunnel_proxy_client_connections u ≡ none
    → register_server w id u name ≡ (accept_server w id u name, no_error)
unfolding register_server contains
register_server_accepts w id u name c found t server client =
    rw (found, register_server, t, server, client)

socket-accept_server :
    (w : TunnelProxyServer) (id u : ℕ) (name : String) (c : TunnelProxyClient)
    → value w.proxy_clients id ≡ some c
    → value (accept_server w id u name).proxy_clients id ≡ some (as_server u name c)
unfolding accept_server modify_client
socket-accept_server w id u name c found =
    ground (arith, found, value-modify w.proxy_clients id (as_server u name) id)

slip_after :
    (w : TunnelProxyServer) (id : ℕ) (c : TunnelProxyClient)
    → value w.proxy_clients id ≡ some c
    → c.kill_connection_requested ≡ false
    → c.slip_after_response_enabled ≡ true
    → after_response w id ≡ modify_client id (set_slip_enabled true) w
unfolding after_response
slip_after w id c found stays slip = rw (found, after_response, stays, slip)

socket_slips :
    (w : TunnelProxyServer) (id : ℕ) (c : TunnelProxyClient)
    → value w.proxy_clients id ≡ some c
    → Option.map
        (λ p. p.slip_enabled)
        (value (modify_client id (set_slip_enabled true) w).proxy_clients id)
      ≡ some true
unfolding modify_client set_slip_enabled
socket_slips w id c found =
    ground (arith, found, value-modify w.proxy_clients id (set_slip_enabled true) id)

module _ (q : Qt) where
  output-send_response :
      (w : TunnelProxyServer) (id : ℕ) (n : ℤ) (values : VariantMap) (c : TunnelProxyClient)
      → value w.proxy_clients id ≡ some c
      → (send_response q w id n values).output
        ≡ w.output
          ++ sent c.interface id (json_bytes c.slip_enabled (response_document q n values)) ∷ []
  unfolding send_response send_document
  output-send_response w id n values c e =
      rw e (output-send_data w id (json_bytes c.slip_enabled (response_document q n values)) c e)

  socket-send_response :
      (w : TunnelProxyServer) (id : ℕ) (n : ℤ) (values : VariantMap) (c : TunnelProxyClient)
      → value w.proxy_clients id ≡ some c
      → value (send_response q w id n values).proxy_clients id
        ≡ some (
            add_tx_data_count (length (json_bytes c.slip_enabled (response_document q n values))) c)
  unfolding send_response send_document
  socket-send_response w id n values c e =
      rw e (socket-send_data w id (json_bytes c.slip_enabled (response_document q n values)) c e)

  synchronous :
      (w : TunnelProxyServer) (id : ℕ) (n : ℤ) (reply : JsonReply)
      → reply.type ≡ type_sync
      → deliver_reply q w id n reply ≡ after_response (send_response q w id n reply.reply_values) id
  unfolding deliver_reply
  synchronous w id n reply sync = rw (sync, deliver_reply)

  -- A socket that is not registered and is not to be killed registers as a server under a uuid
  -- that is free: the response goes out as a plain line, and only then the socket speaks SLIP.
  pub register_server_slip :
      (w : TunnelProxyServer) (id u : ℕ) (name : String) (n : ℤ) (reply : JsonReply)
      (c : TunnelProxyClient)
      → value w.proxy_clients id ≡ some c
      → c.type ≡ type_none
      → c.kill_connection_requested ≡ false
      → c.slip_enabled ≡ false
      → value w.tunnel_proxy_server_connections u ≡ none
      → value w.tunnel_proxy_client_connections u ≡ none
      → reply.type ≡ type_sync
      → let w' = deliver_reply q (register_server w id u name).0 id n reply in
        (w'.output
          ≡ w.output
            ++ sent c.interface id (response_document q n reply.reply_values ++ newline) ∷ [])
        × (Option.map (λ p. p.slip_enabled) (value w'.proxy_clients id) ≡ some true)
  unfolding enable_slip_after_response activate_client set_name set_uuid set_type modify_client
      accept_server add_tx_data_count
  register_server_slip w id u name n reply c found t stays plain server client sync =
      let a = accept_server w id u name in
      let c' = as_server u name c in
      let document = response_document q n reply.reply_values in
      let there = socket-accept_server w id u name c found in
      let line : json_bytes c'.slip_enabled document ≡ document ++ newline =
        plain_line c'.slip_enabled document plain in
      let w₁ = send_response q a id n reply.reply_values in
      let after : value w₁.proxy_clients id
          ≡ some (add_tx_data_count (length (json_bytes c'.slip_enabled document)) c') =
        socket-send_response a id n reply.reply_values c' there in
      let ends : deliver_reply q (register_server w id u name).0 id n reply
          ≡ modify_client id (set_slip_enabled true) w₁ =
        ap (λ r. deliver_reply q r.0 id n reply)
          (register_server_accepts w id u name c found t server client)
        ∙ synchronous a id n reply sync
        ∙ slip_after w₁ id (add_tx_data_count (length (json_bytes c'.slip_enabled document)) c')
            after stays refl in
      (
        ap (λ v. v.output) ends
            ∙ output-send_response a id n reply.reply_values c' there
            ∙ ap (λ b. w.output ++ sent c.interface id b ∷ []) line,
        ap (λ v. Option.map (λ p. p.slip_enabled) (value v.proxy_clients id)) ends
            ∙ socket_slips w₁ id
                (add_tx_data_count (length (json_bytes c'.slip_enabled document)) c') after,
      )
