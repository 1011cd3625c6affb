-- ===== src/JsonRpc/Values.antt =====
-- The values of the replies of the handlers (tunnelproxyhandler.cpp, jsonrpcserver.cpp) fit what the
-- handlers describe.
use nymea_remoteproxy.Base.{
  ◌≡◌, refl, Bool, true, some, String, get, arith, inl, inr, subst, Option-cases,
}
use nymea_remoteproxy.Variant.{
  Variant, VariantMap, boolean, string, end, field, find, insert_value, without_key, get_value,
  string_kind, bool_kind, uint_kind, Qt,
}
use nymea_remoteproxy.Types.{
  tunnel_proxy_error_ref, TunnelProxyError, no_error, invalid_uuid, internal_server_error,
  server_not_found, forbidden_call, already_registered, not_registered, unknown_socket_address,
  tunnel_proxy_error_to_string, tunnel_proxy_error_type, validate_enum, validate_map, validate_text,
  validate_property, stripped_key,
}
use nymea_remoteproxy.State.{TunnelProxyServer, Settings}
use nymea_remoteproxy.Handler.{
  JsonHandler, create_reply, validate_params, validate_returns, set_params, set_returns,
  set_description, or_empty,
}
use nymea_remoteproxy.TunnelHandler.{tunnel_proxy_handler, error_response, is_no_error}
use nymea_remoteproxy.JsonRpc.{remote_proxy_handler, hello, introspect_reply}

module _ (q : Qt) where
  -- The values of a reply fit what the handler says it returns.
  abbrev pub Fits : JsonHandler → String → VariantMap → Type 0
  Fits h name values = (validate_returns q h name values).success ≡ true

  -- A reply fits if its values fit the template that the handler has under that name.
  Fits-template :
      (h : JsonHandler) (name : String) (template values : VariantMap)
      → get h.returns name ≡ some template
      → (validate_map q template values).success ≡ true
      → Fits h name values
  unfolding validate_returns
  Fits-template h name template values e k = rw e k

get_returns :
    (get tunnel_proxy_handler.returns "RegisterServer"
      ≡ some (
          field "slipEnabled"
            (string "Bool")
            (field "tunnelProxyError" (string tunnel_proxy_error_ref) end)))
    × (get tunnel_proxy_handler.returns "DisconnectClient"
        ≡ some (field "tunnelProxyError" (string tunnel_proxy_error_ref) end))
    × (get tunnel_proxy_handler.returns "RegisterClient"
        ≡ some (field "tunnelProxyError" (string tunnel_proxy_error_ref) end))
    × (get tunnel_proxy_handler.returns "Ping" ≡ some (field "timestamp" (string "UInt") end))
    × (get tunnel_proxy_handler.params "Ping" ≡ some (field "timestamp" (string "UInt") end))
unfolding tunnel_proxy_handler insert_value without_key
get_returns = (refl, refl, refl, refl, refl)

module _ (q : Qt) (texts : (s : String) → q.to_text (string s) ≡ s)
    (strings : (s : String) → q.can_convert string_kind (string s) ≡ true)
    (bools : (b : Bool) → q.can_convert bool_kind (boolean b) ≡ true) where
  error_known :
      (error : TunnelProxyError)
      → (validate_enum q tunnel_proxy_error_type
          (string (tunnel_proxy_error_to_string error))).success
        ≡ true
  unfolding validate_enum tunnel_proxy_error_type
  error_known no_error = simp (texts)
  error_known invalid_uuid = simp (texts)
  error_known internal_server_error = simp (texts)
  error_known server_not_found = simp (texts)
  error_known forbidden_call = simp (texts)
  error_known already_registered = simp (texts)
  error_known not_registered = simp (texts)
  error_known unknown_socket_address = simp (texts)

  error_fits :
      (v : Variant)
      → (validate_enum q tunnel_proxy_error_type v).success ≡ true
      → (validate_map q
          (field "tunnelProxyError" (string tunnel_proxy_error_ref) end)
          (field "tunnelProxyError" v end)).success
        ≡ true
  unfolding validate_map find validate_text stripped_key
  error_fits v h = simp (h)

  server_fits :
      (v w : Variant)
      → (validate_enum q tunnel_proxy_error_type v).success ≡ true
      → q.can_convert bool_kind w ≡ true
      → (validate_map q
          (field "slipEnabled"
            (string "Bool")
            (field "tunnelProxyError" (string tunnel_proxy_error_ref) end))
          (field "slipEnabled" w (field "tunnelProxyError" v end))).success
        ≡ true
  unfolding validate_map find validate_text stripped_key validate_property
  server_fits v w h k = simp (h, k)

  stamp_fits :
      (v : Variant)
      → q.can_convert uint_kind v ≡ true
      → (validate_map q (field "timestamp" (string "UInt") end) (field "timestamp" v end)).success
        ≡ true
  unfolding validate_map find validate_text stripped_key validate_property
  stamp_fits v h = rw h

  pub hello_returned : (s : Settings) → Fits q remote_proxy_handler "Hello" (hello s).reply_values
  unfolding hello validate_returns validate_map remote_proxy_handler insert_value without_key find
      set_params set_returns set_description validate_text stripped_key validate_property
      create_reply
  hello_returned s = simp (strings)

  pub introspect_returned :
      (w : TunnelProxyServer)
      → Fits q remote_proxy_handler "Introspect" (introspect_reply w).reply_values
  unfolding introspect_reply validate_returns validate_map remote_proxy_handler insert_value
      without_key find set_params set_returns set_description validate_text stripped_key
      validate_property create_reply
  introspect_returned w = refl

  pub register_server_returned :
      (error : TunnelProxyError)
      → Fits q tunnel_proxy_handler "RegisterServer"
          (insert_value (error_response error) "slipEnabled" (boolean (is_no_error error)))
  unfolding error_response insert_value without_key
  register_server_returned error =
      Fits-template q _ _ _ _ get_returns.0 (server_fits _ _ (error_known error) (bools _))

  pub error_returned :
      (error : TunnelProxyError)
      → Fits q tunnel_proxy_handler "DisconnectClient" (error_response error)
        × Fits q tunnel_proxy_handler "RegisterClient" (error_response error)
  unfolding error_response insert_value without_key
  error_returned error = (
    Fits-template q _ _ _ _ get_returns.1 (error_fits _ (error_known error)),
    Fits-template q _ _ _ _ get_returns.2 (error_fits _ (error_known error)),
  )

  stamp_param :
      (params : VariantMap)
      → (validate_map q (field "timestamp" (string "UInt") end) params).success ≡ true
      → q.can_convert uint_kind (get_value params "timestamp") ≡ true
  unfolding validate_map find validate_text stripped_key validate_property
  stamp_param params h = elim (Option-cases (find params "timestamp")) [
    | inl e ↦ absurd (ground (arith, e, h))
    | inr (v, e) ↦ ground (arith, e, h)
  ]

  pub ping_returned :
      (params : VariantMap)
      → (validate_params q tunnel_proxy_handler "Ping" params).success ≡ true
      → Fits q tunnel_proxy_handler "Ping"
          (insert_value end "timestamp" (get_value params "timestamp"))
  unfolding validate_params insert_value without_key
  ping_returned params h = Fits-template q _ _ _ _ get_returns.3 (
      stamp_fits _ (
        stamp_param params
          (subst (λ o. (validate_map q (or_empty o) params).success ≡ true) get_returns.4 h)))
