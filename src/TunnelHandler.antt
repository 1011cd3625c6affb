-- ===== src/TunnelHandler.antt =====
-- libnymea-remoteproxy/jsonrpc/tunnelproxyhandler.h and tunnelproxyhandler.cpp: the methods of the
-- TunnelProxy namespace, and the constructor that describes them.
use Prim.Native.Nat.{◌%◌, ◌^◌}
use nymea_remoteproxy.Base.{ℕ, Bool, true, false, [], ◌∷◌, String, if◌then◌else◌, ◌==◌}
use nymea_remoteproxy.Variant.{
  Variant, VariantMap, boolean, string, end, insert_value, get_value, Qt,
}
use nymea_remoteproxy.Types.{
  TunnelProxyError, no_error, invalid_uuid, tunnel_proxy_error_to_string, basic_type_to_string,
  tunnel_proxy_error_ref, string_type, uuid_type, bool_type, uint_type,
}
use nymea_remoteproxy.Handler.{
  JsonHandler, JsonReply, method, signal, set_description, set_params, set_returns, create_reply,
}
use nymea_remoteproxy.State.{TunnelProxyServer}
use nymea_remoteproxy.Registration.{register_server, register_client, disconnect_client}

-- The class before its constructor ran: its name and its invokable methods and signals.
abbrev bare_handler : JsonHandler
bare_handler = record {
  name = "TunnelProxy";
  meta_methods =
      (signal, "ClientConnected")
      ∷ (signal, "ClientDisconnected")
      ∷ (method, "RegisterServer")
      ∷ (method, "DisconnectClient")
      ∷ (method, "Ping")
      ∷ (method, "RegisterClient")
      ∷ [];
  descriptions = [];
  params = [];
  returns = [];
}

abbrev text_template : Variant
text_template = string (basic_type_to_string string_type)

abbrev uuid_template : Variant
uuid_template = string (basic_type_to_string uuid_type)

abbrev uint_template : Variant
uint_template = string (basic_type_to_string uint_type)

abbrev describe : String → String → VariantMap → VariantMap → JsonHandler → JsonHandler
describe name description params returns h =
    set_returns name returns (set_params name params (set_description name description h))

abbrev describe_signal : String → String → VariantMap → JsonHandler → JsonHandler
describe_signal name description params h =
    set_params name params (set_description name description h)

abbrev error_returns : VariantMap
error_returns = insert_value end "tunnelProxyError" (string tunnel_proxy_error_ref)

unfoldable pub tunnel_proxy_handler : JsonHandler
unfolding set_description set_params set_returns insert_value
tunnel_proxy_handler =
    describe_signal "ClientDisconnected"
      "Emitted whenever a new client has been connected to a registered server. Only tunnel proxy clients registered as server will receive this notification."
      (insert_value end "socketAddress" uint_template)
      (describe_signal "ClientConnected"
        "Emitted whenever a new client has been connected to a registered server. Only tunnel proxy clients registered as server will receive this notification. The socket address will be used for framing."
        (insert_value
          (insert_value
            (insert_value (insert_value end "clientName" text_template) "clientUuid" text_template)
            "clientPeerAddress" text_template)
          "socketAddress" uint_template)
        (describe "RegisterClient"
          "Register a new TunnelProxy client on TunnelProxy server with the given serverUuid. On success, the remote connection has been accepted and any further data will come from the connected server."
          (insert_value
            (insert_value (insert_value end "clientName" text_template) "clientUuid" uuid_template)
            "serverUuid" uuid_template)
          error_returns
          (describe "Ping"
            "In order to keep a connection alive when no client is connected, this Ping method can be used. The sent timestamp will be returned as sent in the response for speed measuements on the client side."
            (insert_value end "timestamp" uint_template)
            (insert_value end "timestamp" uint_template)
            (describe "DisconnectClient"
              "A registered server can ask the remote proxy connection to disconnect a client for whatever reason."
              (insert_value end "socketAddress" uint_template) error_returns
              (describe "RegisterServer"
                "Register a new TunnelProxy server on this instance. Multiple TunnelProxy clients can be connected to the registered server on success."
                (insert_value (insert_value end "serverName" text_template) "serverUuid"
                  uuid_template)
                (insert_value error_returns "slipEnabled" (string (basic_type_to_string bool_type)))
                bare_handler)))))

abbrev pub is_no_error : TunnelProxyError → Bool
is_no_error no_error = true
is_no_error _ = false

unfoldable pub error_response : TunnelProxyError → VariantMap
error_response error =
    insert_value end "tunnelProxyError" (string (tunnel_proxy_error_to_string error))

-- The answer of the tunnel proxy server as a reply.
abbrev pub Reply : Type 0
Reply = TunnelProxyServer × JsonReply

module _ (q : Qt) where
  unfoldable pub handle_register_server : TunnelProxyServer → VariantMap → ℕ → Reply
  handle_register_server w params id =
      let server_uuid = q.to_uuid (get_value params "serverUuid") in
      let (w', error) =
        if server_uuid == 0
        then (w, invalid_uuid)
        else register_server w id server_uuid (q.to_text (get_value params "serverName")) in
      (
        w',
        create_reply tunnel_proxy_handler "RegisterServer"
            (insert_value (error_response error) "slipEnabled" (boolean (is_no_error error))),
      )

  -- The address of the request is cut to 16 bits.
  unfoldable pub handle_disconnect_client : TunnelProxyServer → VariantMap → ℕ → Reply
  handle_disconnect_client w params id =
      let socket_address = q.to_uint (get_value params "socketAddress") % 2 ^ 16 in
      let (w', error) = disconnect_client w id socket_address in
      (w', create_reply tunnel_proxy_handler "DisconnectClient" (error_response error))

  unfoldable pub handle_ping : TunnelProxyServer → VariantMap → ℕ → Reply
  handle_ping w params id = (
    w,
    create_reply tunnel_proxy_handler "Ping"
        (insert_value end "timestamp" (get_value params "timestamp")),
  )

  unfoldable pub handle_register_client : TunnelProxyServer → VariantMap → ℕ → Reply
  handle_register_client w params id =
      let client_name = q.to_text (get_value params "clientName") in
      let client_uuid = q.to_uuid (get_value params "clientUuid") in
      let server_uuid = q.to_uuid (get_value params "serverUuid") in
      let (w', error) =
        if server_uuid == 0
        then (w, invalid_uuid)
        else if client_uuid == 0
        then (w, invalid_uuid)
        else register_client q w id client_uuid client_name server_uuid in
      (w', create_reply tunnel_proxy_handler "RegisterClient" (error_response error))
