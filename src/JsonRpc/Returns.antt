-- ===== src/JsonRpc/Returns.antt =====
-- The replies of the handlers (tunnelproxyhandler.cpp, jsonrpcserver.cpp) fit the return values that
-- they describe, which processDataPacket asserts.
use nymea_remoteproxy.Base.{
  [], ◌∷◌, ℕ, ◌≡◌, ◌∙◌, sym, refl, Bool, true, false, Option, none, some, String, str_eq, eq_iff,
  get, arith, ◌⊎◌, inl, inr, Bytes, Dict, Bool-cases, subst,
}
use nymea_remoteproxy.Variant.{VariantMap, boolean, string, string_kind, bool_kind, Qt}
use nymea_remoteproxy.State.{TunnelProxyServer, Settings}
use nymea_remoteproxy.Handler.{
  JsonHandler, JsonReply, create_reply, validate_params, validate_returns,
}
use nymea_remoteproxy.TunnelHandler.{
  tunnel_proxy_handler, handle_register_server, handle_disconnect_client, handle_ping,
  handle_register_client,
}
use nymea_remoteproxy.JsonRpc.{
  remote_proxy_handler, Request, invoke_method, accepted, check_request, register_handler,
}
use nymea_remoteproxy.JsonRpc.Checks.{check_request_iff, params_iff}
use nymea_remoteproxy.Server.Lifecycle.{new_server}
use nymea_remoteproxy.JsonRpc.Values.{
  Fits, hello_returned, introspect_returned, register_server_returned, error_returned,
  ping_returned,
}

module _ (q : Qt) (texts : (s : String) → q.to_text (string s) ≡ s)
    (strings : (s : String) → q.can_convert string_kind (string s) ≡ true)
    (bools : (b : Bool) → q.can_convert bool_kind (boolean b) ≡ true) where
  abbrev FitsRequest : Request → Option JsonReply → Type 0
  FitsRequest r none = Unit
  FitsRequest r (some reply) = Fits q r.handler r.method_name reply.reply_values

  as_request :
      (r : Request) (h : JsonHandler) (name : String) (values : VariantMap)
      → r.handler ≡ h
      → str_eq r.method_name name ≡ true
      → Fits q h name values
      → Fits q r.handler r.method_name values
  as_request r h name values e k fits =
      subst (λ t. Fits q t r.method_name values) (sym e)
        (subst (λ t. Fits q h t values) (sym ((eq_iff r.method_name name).0 k)) fits)

  tunnel_returned :
      (s : Settings) (w : TunnelProxyServer) (r : Request) (id : ℕ)
      → r.handler ≡ tunnel_proxy_handler
      → str_eq r.handler.name "TunnelProxy" ≡ true
      → (validate_params q tunnel_proxy_handler r.method_name r.params).success ≡ true
      → FitsRequest r (invoke_method q s w r id).1
  unfolding invoke_method handle_register_server handle_disconnect_client handle_ping
      handle_register_client create_reply
  tunnel_returned s w r id e tunnel valid =
      elim (Bool-cases (str_eq r.method_name "RegisterServer")) [
        | inl k ↦
            rw (tunnel, invoke_method, k)
              (as_request r _ _ _ e k (register_server_returned q texts strings bools _))
        | inr k1 ↦ elim (Bool-cases (str_eq r.method_name "DisconnectClient")) [
          | inl k ↦
              rw (tunnel, invoke_method, k1, k)
                (as_request r _ _ _ e k (error_returned q texts strings bools _).0)
          | inr k2 ↦ elim (Bool-cases (str_eq r.method_name "Ping")) [
            | inl k ↦
                rw (tunnel, invoke_method, k1, k2, k)
                  (as_request r _ _ _ e k (
                    ping_returned q texts strings bools r.params (
                      subst
                        (λ t. (validate_params q tunnel_proxy_handler t r.params).success ≡ true)
                        ((eq_iff r.method_name "Ping").0 k) valid)))
            | inr k3 ↦ elim (Bool-cases (str_eq r.method_name "RegisterClient")) [
              | inl k ↦
                  rw (tunnel, invoke_method, k1, k2, k3, k)
                    (as_request r _ _ _ e k (error_returned q texts strings bools _).1)
              | inr k4 ↦ rw (tunnel, invoke_method, k1, k2, k3, k4) tt
            ]
          ]
        ]
      ]

  remote_returned :
      (s : Settings) (w : TunnelProxyServer) (r : Request) (id : ℕ)
      → r.handler ≡ remote_proxy_handler
      → str_eq r.handler.name "TunnelProxy" ≡ false
      → str_eq r.handler.name "RemoteProxy" ≡ true
      → FitsRequest r (invoke_method q s w r id).1
  unfolding invoke_method
  remote_returned s w r id e other remote = elim (Bool-cases (str_eq r.method_name "Hello")) [
    | inl k ↦
        rw (other, invoke_method, remote, k)
          (as_request r _ _ _ e k (hello_returned q texts strings bools s))
    | inr k1 ↦ elim (Bool-cases (str_eq r.method_name "Introspect")) [
      | inl k ↦
          rw (other, invoke_method, remote, k1, k)
            (as_request r _ _ _ e k (introspect_returned q texts strings bools w))
      | inr k2 ↦ rw (other, invoke_method, remote, k1, k2) tt
    ]
  ]

  handler_names :
      (str_eq tunnel_proxy_handler.name "TunnelProxy" ≡ true)
      × (str_eq remote_proxy_handler.name "TunnelProxy" ≡ false)
      × (str_eq remote_proxy_handler.name "RemoteProxy" ≡ true)
  unfolding tunnel_proxy_handler remote_proxy_handler
  handler_names = (refl, refl, refl)

  new_handlers :
      new_server.handlers
      ≡ ("TunnelProxy", tunnel_proxy_handler) ∷ ("RemoteProxy", remote_proxy_handler) ∷ []
  unfolding new_server register_handler tunnel_proxy_handler remote_proxy_handler
  new_handlers = refl

  get_of_two :
      (a b name : String) (x y h : JsonHandler)
      → get ((a, x) ∷ (b, y) ∷ []) name ≡ some h
      → (h ≡ x) ⊎ (h ≡ y)
  get_of_two a b name x y h e = ground (arith, e)

  known_handler :
      (handlers : Dict JsonHandler) (name : String) (h : JsonHandler)
      → handlers ≡ new_server.handlers
      → get handlers name ≡ some h
      → (h ≡ tunnel_proxy_handler) ⊎ (h ≡ remote_proxy_handler)
  known_handler handlers name h handlers-new found =
      get_of_two _ _ name _ _ h
        (subst (λ hs. get hs name ≡ some h) (handlers-new ∙ new_handlers) found)

  -- For a server that has the handlers it was constructed with: when a request passes the checks of
  -- processDataPacket, the reply of the called method, if it has one, passes the check against the
  -- return values that the handler describes for this method, whatever the outcome of the method.
  -- Qt is taken to convert a text to itself, and a text to a string and a truth value to a Bool.
  pub reply_returned :
      (s : Settings) (w : TunnelProxyServer) (packet : Bytes) (r : Request) (id : ℕ)
      (reply : JsonReply)
      → w.handlers ≡ new_server.handlers
      → check_request q w.handlers packet ≡ accepted r
      → (invoke_method q s w r id).1 ≡ some reply
      → (validate_returns q r.handler r.method_name reply.reply_values).success ≡ true
  reply_returned s w packet r id reply handlers checked answered =
      let (document, template, json, number, command, found, method, params, keys, allowed) =
        (check_request_iff q w.handlers packet r).0 checked in
      let valid =
        (params_iff q r.handler r.method_name template r.params method.3).1 (keys, allowed) in
      subst (FitsRequest r) answered
        (elim (known_handler w.handlers r.name_space r.handler handlers found) [
          | inl e ↦
              tunnel_returned s w r id e
                (subst (λ h. str_eq h.name "TunnelProxy" ≡ true) (sym e) handler_names.0)
                (subst (λ h. (validate_params q h r.method_name r.params).success ≡ true) e valid)
          | inr e ↦
              remote_returned s w r id e
                (subst (λ h. str_eq h.name "TunnelProxy" ≡ false) (sym e) handler_names.1)
                (subst (λ h. str_eq h.name "RemoteProxy" ≡ true) (sym e) handler_names.2)
        ])
