-- ===== src/Server/Quiet.antt =====
-- The events that leave the bookkeeping as it is: transports, start and stop, the inactivity timer,
-- and late replies (tunnelproxyserver.cpp, jsonrpcserver.cpp: asyncReplyFinished).
use nymea_remoteproxy.Base.{
  ℕ, ◌≡◌, ◌∙◌, refl, true, false, not, List, [], ◌∷◌, String, value, if◌then◌else◌, inl, inr,
  Bool-cases, Option-cases, remove,
}
use nymea_remoteproxy.Client.{Transport, TunnelProxyClient, stop, kill_connection_after_response}
use nymea_remoteproxy.Variant.{Qt}
use nymea_remoteproxy.Handler.{JsonReply}
use nymea_remoteproxy.State.{TunnelProxyServer, emit, started, stopped, modify_client}
use nymea_remoteproxy.JsonRpc.{async_reply_finished, finished_response, kill_requested}
use nymea_remoteproxy.Server.Lifecycle.{
  register_transport_interface, start_server, stop_server, set_running, start_all, stop_all,
  has_transport,
}
use nymea_remoteproxy.Server.Sockets.{on_inactive_timeout, after_timeout}
use nymea_remoteproxy.Server.View.{
  view, role_of, view-modify_client, view-kill_connection, view-send_response,
  view-send_error_response,
}

pub view-register_transport_interface :
    (t : Transport) (w : TunnelProxyServer) → view (register_transport_interface t w) ≡ view w
unfolding register_transport_interface
view-register_transport_interface t w = elim (Bool-cases (has_transport w.transport_interfaces t)) [
  | inl e ↦ rw (e, register_transport_interface)
  | inr e ↦ rw (e, register_transport_interface)
]

view-start_all : (ts : List Transport) (w : TunnelProxyServer) → view (start_all ts w) ≡ view w
view-start_all [] w = refl
view-start_all (t ∷ ts) w = view-start_all ts (emit (started t) w)

view-stop_all : (ts : List Transport) (w : TunnelProxyServer) → view (stop_all ts w) ≡ view w
view-stop_all [] w = refl
view-stop_all (t ∷ ts) w = view-stop_all ts (emit (stopped t) w)

pub view-start_server : (w : TunnelProxyServer) → view (start_server w) ≡ view w
unfolding start_server set_running
view-start_server w = view-start_all w.transport_interfaces w

pub view-stop_server : (w : TunnelProxyServer) → view (stop_server w) ≡ view w
unfolding stop_server set_running
view-stop_server w = view-stop_all w.transport_interfaces w

role-after_timeout : (c : TunnelProxyClient) → role_of (after_timeout c) ≡ role_of c
role-after_timeout c =
    elim c.inactive_timer.single_shot
      as (λ b.
        role_of (if b then record c { inactive_timer = stop c.inactive_timer } else c)
        ≡ role_of c) [ true ↦ refl | false ↦ refl ]

pub view-on_inactive_timeout :
    (w : TunnelProxyServer) (id : ℕ) → view (on_inactive_timeout w id) ≡ view w
unfolding on_inactive_timeout
view-on_inactive_timeout w id = elim (Option-cases (value w.proxy_clients id)) [
  | inl e ↦ rw (e, on_inactive_timeout)
  | inr (c, e) ↦ elim (Bool-cases c.inactive_timer.active) [
    | inl active ↦
        rw (e, on_inactive_timeout, active)
          (view-modify_client id after_timeout w role-after_timeout)
    | inr idle ↦ rw (e, on_inactive_timeout, idle)
  ]
]

view-kill_requested : (w : TunnelProxyServer) (id : ℕ) → view (kill_requested w id) ≡ view w
unfolding kill_requested
view-kill_requested w id = elim (Option-cases (value w.proxy_clients id)) [
  | inl e ↦ rw (e, kill_requested)
  | inr (c, e) ↦ elim (Bool-cases c.kill_connection_requested) [
    | inl kill ↦ rw (e, kill_requested, kill) (view-kill_connection w id c.kill_connection_reason)
    | inr stay ↦ rw (e, kill_requested, stay)
  ]
]

view-kill_later :
    (w : TunnelProxyServer) (id : ℕ) (reason : String)
    → view (modify_client id (kill_connection_after_response reason) w) ≡ view w
unfolding kill_connection_after_response
view-kill_later w id reason =
    view-modify_client id (kill_connection_after_response reason) w (λ c. refl)

module _ (q : Qt) where
  view-finished_response :
      (w : TunnelProxyServer) (id : ℕ) (reply : JsonReply)
      → view (finished_response q w id reply) ≡ view w
  unfolding finished_response
  view-finished_response w id reply = elim (Bool-cases (not reply.timed_out)) [
    | inr late ↦
        rw (late, finished_response)
          (view-send_error_response q
              (modify_client id (kill_connection_after_response "API call timeouted.") w) id
              reply.command_id "Command timed out"
            ∙ view-kill_later w id "API call timeouted.")
    | inl in_time ↦ elim (Bool-cases (not reply.success)) [
      | inl failed ↦
          rw (in_time, finished_response, failed)
            (view-send_response q
                (modify_client id (kill_connection_after_response "API call was not successfully.")
                  w)
                id reply.command_id reply.reply_values
              ∙ view-kill_later w id "API call was not successfully.")
      | inr worked ↦
          rw (in_time, finished_response, worked)
            (view-send_response q w id reply.command_id reply.reply_values)
    ]
  ]

  pub view-async_reply_finished :
      (w : TunnelProxyServer) (number : ℕ) (reply : JsonReply)
      → view (async_reply_finished q w number reply) ≡ view w
  unfolding async_reply_finished
  view-async_reply_finished w number reply = elim (Option-cases (value w.async_replies number)) [
    | inl e ↦ rw (e, async_reply_finished)
    | inr (id, e) ↦
        let w₀ = record w { async_replies = remove w.async_replies number } in
        rw (e, async_reply_finished)
          (view-kill_requested (finished_response q w₀ id reply) id
            ∙ view-finished_response w₀ id reply)
  ]
