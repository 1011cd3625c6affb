-- ===== src/JsonRpc/Checks.antt =====
-- Which requests pass the checks of processDataPacket (jsonrpcserver.cpp), and what happens to those
-- that do not.
use nymea_remoteproxy.Base.{
  ◌≡◌, refl, true, some, Dict, get, Bytes, String, arith, inl, inr, Option-cases, ◌↔◌,
}
use nymea_remoteproxy.Types.Matching.{KeysMatch, AllAllowed, validate_map_iff}
use nymea_remoteproxy.JsonRpc.Names.{AreDotted, split_dots_iff}
use nymea_remoteproxy.Variant.{Variant, VariantMap, get_value, to_map, Qt}
use nymea_remoteproxy.Handler.{JsonHandler, has_method, validate_params}
use nymea_remoteproxy.JsonRpc.{Request, accepted, check_request}

module _ (q : Qt) where
  -- A handler has a method with these parameters: it is described, with its parameters and returns.
  abbrev pub HasMethod : JsonHandler → String → VariantMap → Type 0
  HasMethod h name template =
      (description : String) × (returns : VariantMap) × (get h.descriptions name ≡ some description)
      × (get h.params name ≡ some template)
      × (get h.returns name ≡ some returns)

  -- A JSON document with an id that is a number and a method that is two names without dots with
  -- a dot between them; the first names a handler that has the second as a method, and the
  -- parameters match those that the handler describes for it.
  abbrev pub IsAcceptable : Dict JsonHandler → Bytes → Request → Type 0
  IsAcceptable handlers packet r =
      (document : Variant) × (template : VariantMap) × (q.from_json packet ≡ some document)
      × (q.to_int (get_value (to_map document) "id") ≡ some r.command_id)
      × AreDotted (q.to_text (get_value (to_map document) "method")) r.name_space r.method_name
      × (get handlers r.name_space ≡ some r.handler)
      × HasMethod r.handler r.method_name template
      × (to_map (get_value (to_map document) "params") ≡ r.params)
      × KeysMatch q template r.params
      × AllAllowed q template r.params

  method_found :
      (h : JsonHandler) (name : String)
      → has_method h name ≡ true
      → (template : VariantMap) × HasMethod h name template
  unfolding has_method
  method_found h name has = elim (Option-cases (get h.descriptions name)) [
    | inl none_d ↦ absurd (ground (arith, none_d, has))
    | inr (d, described) ↦ elim (Option-cases (get h.params name)) [
      | inl none_p ↦ absurd (ground (arith, none_p, has))
      | inr (template, params) ↦ elim (Option-cases (get h.returns name)) [
        | inl none_r ↦ absurd (ground (arith, none_r, has))
        | inr (returns, returned) ↦ (template, (d, returns, described, params, returned))
      ]
    ]
  ]

  has_method-found :
      (h : JsonHandler) (name : String) (template : VariantMap)
      → HasMethod h name template
      → has_method h name ≡ true
  unfolding has_method
  has_method-found h name template (d, returns, described, params, returned) =
      rw (described, params, returned) refl

  pub params_iff :
      (h : JsonHandler) (name : String) (template params : VariantMap)
      → get h.params name ≡ some template
      → ((validate_params q h name params).success ≡ true)
        ↔ (KeysMatch q template params × AllAllowed q template params)
  unfolding validate_params
  params_iff h name template params known = rw known (validate_map_iff q template params)

  accepted-IsAcceptable :
      (handlers : Dict JsonHandler) (packet : Bytes) (r : Request)
      → check_request q handlers packet ≡ accepted r
      → IsAcceptable handlers packet r
  unfolding check_request
  accepted-IsAcceptable handlers packet r e = elim (Option-cases (q.from_json packet)) [
    | inl broken ↦ absurd (ground (arith, broken, e))
    | inr (document, json) ↦
        let has : has_method r.handler r.method_name ≡ true = ground (arith, json, e) in
        let valid : (validate_params q r.handler r.method_name r.params).success ≡ true =
          ground (arith, json, e) in
        let (template, method) = method_found r.handler r.method_name has in
        let matches = (params_iff r.handler r.method_name template r.params method.3).0 valid in
        (
          document,
          template,
          json,
          ground (arith, json, e),
          (split_dots_iff (q.to_text (get_value (to_map document) "method")) r.name_space
                r.method_name).0
              (ground (arith, json, e)),
          ground (arith, json, e),
          method,
          ground (arith, json, e),
          matches.0,
          matches.1,
        )
  ]

  IsAcceptable-accepted :
      (handlers : Dict JsonHandler) (packet : Bytes) (r : Request)
      → IsAcceptable handlers packet r
      → check_request q handlers packet ≡ accepted r
  unfolding check_request
  IsAcceptable-accepted handlers packet r h =
      let (document, template, json, id, dotted, found, method, params, keys, allowed) = h in
      let command =
        (split_dots_iff (q.to_text (get_value (to_map document) "method")) r.name_space
            r.method_name).1
          dotted in
      let has = has_method-found r.handler r.method_name template method in
      let valid =
        (params_iff r.handler r.method_name template r.params method.3).1 (keys, allowed) in
      rw (json, id, command, found, has) (rw params (rw valid refl))

  -- A packet passes the checks, with a request, exactly when it is a JSON document with the
  -- number of the request and a method that is two names with one dot, between them, the first of
  -- them names a handler that describes the second, with parameters and returns, and the
  -- parameters of the document match those that are described.
  pub check_request_iff :
      (handlers : Dict JsonHandler) (packet : Bytes) (r : Request)
      → (check_request q handlers packet ≡ accepted r) ↔ IsAcceptable handlers packet r
  check_request_iff handlers packet r =
      (accepted-IsAcceptable handlers packet r, IsAcceptable-accepted handlers packet r)
