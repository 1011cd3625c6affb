-- ===== src/JsonRpc.antt =====
-- libnymea-remoteproxy/server/jsonrpcserver.h and jsonrpcserver.cpp: the dispatch of requests,
-- replies, and the clients that JSON data is taken from.
pub mod Api
pub mod Requests
pub mod Names
pub mod Checks
pub mod Values
pub mod Returns
unfoldable pub use Api.{
  remote_proxy_handler, hello, introspect_reply, introspect_all, register_handler,
  unregister_handler,
}
pub use Requests.{Request, Rejection, Checked, accepted, rejected}
unfoldable pub use Requests.{check_request, split_dots}
use Prim.Native.String
use Prim.Native.Char.{Char, code}
use nymea_remoteproxy.Base.{
  ℕ, suc, ◌+◌, ◌*◌, Bool, true, false, not, Option, none, some, List, [], ◌∷◌, ◌++◌, String,
  str_append, str_eq, get, put, without, Dict, value, insert, remove, Hash, Bytes, if◌then◌else◌,
  ltb, ◌==◌, member, remove_all,
}
use nymea_remoteproxy.Client.{
  TunnelProxyClient, process_data, buffer_size, kill_connection_after_response, set_slip_enabled,
}
use nymea_remoteproxy.Variant.{
  Variant, VariantMap, ℤ, pos, negsuc, string, list, map, end, field, insert_value, get_value,
  to_map, Qt,
}
use nymea_remoteproxy.Types.{basic_type_to_string, string_type, object_type, all_types}
use nymea_remoteproxy.Handler.{
  JsonHandler, JsonReply, ReplyType, type_sync, type_async, MethodType, method, signal, has_method,
  validate_params, introspect, set_description, set_params, set_returns, create_reply,
}
use nymea_remoteproxy.State.{
  TunnelProxyServer, Settings, modify_client, kill_connection, send_response, send_error_response,
}
use nymea_remoteproxy.TunnelHandler.{
  Reply, tunnel_proxy_handler, handle_register_server, handle_disconnect_client, handle_ping,
  handle_register_client,
}

abbrev with_reply : Reply → TunnelProxyServer × Option JsonReply
with_reply a = (a.0, some a.1)

-- The connection is killed if that was asked for.
unfoldable pub kill_requested : TunnelProxyServer → ℕ → TunnelProxyServer
kill_requested w id = elim (value w.proxy_clients id) [
  | none ↦ w
  | some c ↦
      if c.kill_connection_requested then kill_connection w id c.kill_connection_reason else w
]

-- After a response: the connection is killed if that was asked for, else SLIP is enabled if that
-- was.
unfoldable pub after_response : TunnelProxyServer → ℕ → TunnelProxyServer
after_response w id = elim (value w.proxy_clients id) [
  | none ↦ w
  | some c ↦
      if c.kill_connection_requested
      then kill_connection w id c.kill_connection_reason
      else if c.slip_after_response_enabled
      then modify_client id (set_slip_enabled true) w
      else w
]

abbrev pub buffer_limit : ℕ
buffer_limit = 1024 * 10

module _ (q : Qt) where
  -- QMetaObject::invokeMethod on the handler, by its class and the method's name.
  unfoldable pub invoke_method :
      Settings → TunnelProxyServer → Request → ℕ → TunnelProxyServer × Option JsonReply
  invoke_method s w r id =
      if str_eq r.handler.name "TunnelProxy"
      then (if str_eq r.method_name "RegisterServer"
          then with_reply (handle_register_server q w r.params id)
          else if str_eq r.method_name "DisconnectClient"
          then with_reply (handle_disconnect_client q w r.params id)
          else if str_eq r.method_name "Ping"
          then with_reply (handle_ping q w r.params id)
          else if str_eq r.method_name "RegisterClient"
          then with_reply (handle_register_client q w r.params id)
          else (w, none))
      else if str_eq r.handler.name "RemoteProxy"
      then (if str_eq r.method_name "Hello"
          then (w, some (hello s))
          else if str_eq r.method_name "Introspect"
          then (w, some (introspect_reply w))
          else (w, none))
      else (w, none)

  unfoldable pub deliver_reply : TunnelProxyServer → ℕ → ℤ → JsonReply → TunnelProxyServer
  unfolding after_response
  deliver_reply w id command_id reply = elim reply.type [
    | type_async ↦ record w {
      async_replies = insert w.async_replies w.next_reply id;
      next_reply = w.next_reply + 1;
    }
    | type_sync ↦ after_response (send_response q w id command_id reply.reply_values) id
  ]

  abbrev pub deliver : TunnelProxyServer → Option JsonReply → ℕ → ℤ → TunnelProxyServer
  deliver w none id command_id = w
  deliver w (some reply) id command_id = deliver_reply w id command_id reply

  unfoldable pub reject_request : TunnelProxyServer → ℕ → Rejection → TunnelProxyServer
  reject_request w id r =
      kill_connection (send_error_response q w id r.command_id r.error) id r.reason

  unfoldable pub process_data_packet : Settings → TunnelProxyServer → ℕ → Bytes → TunnelProxyServer
  process_data_packet s w id packet = elim (check_request q w.handlers packet) [
    | rejected r ↦ reject_request w id r
    | accepted r ↦ let (w', reply) = invoke_method s w r id in deliver w' reply id r.command_id
  ]

  unfoldable pub process_packets : Settings → TunnelProxyServer → ℕ → List Bytes → TunnelProxyServer
  process_packets s w id [] = w
  process_packets s w id (packet ∷ packets) =
      process_packets s (process_data_packet s w id packet) id packets

  -- JsonRpcServer::processData.
  unfoldable pub receive_json : Settings → TunnelProxyServer → ℕ → Bytes → TunnelProxyServer
  unfolding process_packets
  receive_json s w id received =
      if not (member id w.clients) then w else elim (value w.proxy_clients id) [
        | none ↦ w
        | some c ↦
            let (c', packets) = process_data received c in
            let w' = modify_client id (λ _. c') w in
            if ltb buffer_limit (buffer_size c')
            then kill_connection w' id "Data buffer size violation."
            else process_packets s w' id packets
      ]

  -- The response to a request whose reply has come later, or has timed out.
  unfoldable pub finished_response : TunnelProxyServer → ℕ → JsonReply → TunnelProxyServer
  finished_response w id reply =
      if not reply.timed_out
      then send_response q
          (if not reply.success
            then modify_client id (kill_connection_after_response "API call was not successfully.")
                w
            else w)
          id reply.command_id reply.reply_values
      else send_error_response q
          (modify_client id (kill_connection_after_response "API call timeouted.") w) id
          reply.command_id "Command timed out"

  -- asyncReplyFinished, for the reply that emitted finished() and the number it was stored under.
  unfoldable pub async_reply_finished : TunnelProxyServer → ℕ → JsonReply → TunnelProxyServer
  async_reply_finished w number reply = elim (value w.async_replies number) [
    | none ↦ w
    | some id ↦
        kill_requested
          (finished_response (record w { async_replies = remove w.async_replies number }) id reply)
          id
  ]

-- registerClient and unregisterClient of the JSON RPC server.
unfoldable pub register_json_client : ℕ → TunnelProxyServer → TunnelProxyServer
register_json_client id w =
    if member id w.clients then w else record w { clients = w.clients ++ id ∷ [] }

-- m_asyncReplies.key(client), and the removal of that entry.
abbrev forget_reply : Hash ℕ → ℕ → Hash ℕ
forget_reply [] id = []
forget_reply ((number, i) ∷ replies) id =
    if i == id then replies else (number, i) ∷ forget_reply replies id

unfoldable pub unregister_json_client : ℕ → TunnelProxyServer → TunnelProxyServer
unregister_json_client id w = if not (member id w.clients) then w else record w {
  clients = remove_all id w.clients;
  async_replies = forget_reply w.async_replies id;
}
