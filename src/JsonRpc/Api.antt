-- ===== src/JsonRpc/Api.antt =====
-- libnymea-remoteproxy/server/jsonrpcserver.cpp: the constructor that describes the RemoteProxy
-- namespace, its methods Hello and Introspect, and the registration of handlers.
use nymea_remoteproxy.Base.{[], ◌∷◌, put, without, Dict}
use nymea_remoteproxy.Variant.{Variant, VariantMap, string, map, end, field, insert_value}
use nymea_remoteproxy.Types.{basic_type_to_string, string_type, object_type, all_types}
use nymea_remoteproxy.Handler.{
  JsonHandler, JsonReply, MethodType, method, signal, introspect, set_description, set_params,
  set_returns, create_reply,
}
use nymea_remoteproxy.State.{TunnelProxyServer, Settings}

abbrev bare_handler : JsonHandler
bare_handler = record {
  name = "RemoteProxy";
  meta_methods = (signal, "TunnelEstablished") ∷ (method, "Hello") ∷ (method, "Introspect") ∷ [];
  descriptions = [];
  params = [];
  returns = [];
}

abbrev text_template : Variant
text_template = string (basic_type_to_string string_type)

abbrev object_template : Variant
object_template = string (basic_type_to_string object_type)

unfoldable pub remote_proxy_handler : JsonHandler
unfolding set_description set_params set_returns insert_value
remote_proxy_handler =
    set_params "TunnelEstablished"
      (insert_value (insert_value end "uuid" text_template) "name" text_template)
      (set_description "TunnelEstablished"
        "Emitted whenever the tunnel has been established successfully. This is the last message from the remote proxy server! Any following data will be from the other tunnel client until the connection will be closed. The parameter contain some information about the other tunnel client."
        (set_returns "Introspect"
          (insert_value
            (insert_value (insert_value end "methods" object_template) "types" object_template)
            "notifications" object_template)
          (set_params "Introspect" end (
            set_description "Introspect" "Introspect this API." (
              set_returns "Hello"
                (insert_value
                  (insert_value
                    (insert_value (insert_value end "server" text_template) "name" text_template)
                    "version" text_template)
                  "apiVersion" text_template)
                (set_params "Hello" end (
                  set_description "Hello"
                    "Once connected to this server, a client can get information about the server by saying Hello. The response informs the client about this proxy server."
                    bare_handler)))))))

-- registerHandler and unregisterHandler.
unfoldable pub register_handler : JsonHandler → TunnelProxyServer → TunnelProxyServer
register_handler h w = record w { handlers = put w.handlers h.name h }

unfoldable pub unregister_handler : JsonHandler → TunnelProxyServer → TunnelProxyServer
unregister_handler h w = record w { handlers = without w.handlers h.name }

unfoldable pub hello : Settings → JsonReply
hello s = create_reply remote_proxy_handler "Hello" (
    insert_value
      (insert_value
        (insert_value (insert_value end "server" (string s.server_name_string)) "name"
          (string s.server_name))
        "version" (string s.server_version_string))
      "apiVersion" (string s.api_version_string))

abbrev merge : VariantMap → VariantMap → VariantMap
merge m end = m
merge m (field k v rest) = merge (insert_value m k v) rest

unfoldable pub introspect_all : MethodType → Dict JsonHandler → VariantMap → VariantMap
introspect_all type [] m = m
introspect_all type ((name, h) ∷ rest) m = introspect_all type rest (merge m (introspect h type))

unfoldable pub introspect_reply : TunnelProxyServer → JsonReply
unfolding introspect_all
introspect_reply w = create_reply remote_proxy_handler "Introspect" (
    insert_value
      (insert_value (insert_value end "types" (map all_types)) "methods"
        (map (introspect_all method w.handlers end)))
      "notifications" (map (introspect_all signal w.handlers end)))
