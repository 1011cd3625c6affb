-- ===== src/Types.antt =====
-- libnymea-remoteproxy/jsonrpc/jsontypes.h and jsontypes.cpp: the type names of the API, and the
-- validation of a value against a template.
pub mod Matching
use Prim.Native.String.{slice, len}
use nymea_remoteproxy.Base.{
  Bool, true, false, not, ◌&&◌, Option, none, some, List, [], ◌∷◌, String, str_append, str_eq,
  starts_with, if◌then◌else◌, ◌==◌,
}
use nymea_remoteproxy.Variant.{
  Variant, VariantList, VariantMap, string, list, map, nil, cons, end, field, find, has_key, to_map,
  to_list, uuid_kind, string_kind, bool_kind, int_kind, uint_kind, double_kind, Qt,
}

-- TunnelProxyServer::TunnelProxyError
pub data TunnelProxyError : Type 0 where
  no_error invalid_uuid internal_server_error server_not_found forbidden_call already_registered
        not_registered unknown_socket_address :
      TunnelProxyError

unfoldable pub tunnel_proxy_error_to_string : TunnelProxyError → String
tunnel_proxy_error_to_string no_error = "TunnelProxyErrorNoError"
tunnel_proxy_error_to_string invalid_uuid = "TunnelProxyErrorInvalidUuid"
tunnel_proxy_error_to_string internal_server_error = "TunnelProxyErrorInternalServerError"
tunnel_proxy_error_to_string server_not_found = "TunnelProxyErrorServerNotFound"
tunnel_proxy_error_to_string forbidden_call = "TunnelProxyErrorForbiddenCall"
tunnel_proxy_error_to_string already_registered = "TunnelProxyErrorAlreadyRegistered"
tunnel_proxy_error_to_string not_registered = "TunnelProxyErrorNotRegistered"
tunnel_proxy_error_to_string unknown_socket_address = "TunnelProxyErrorUnknownSocketAddress"

abbrev pub tunnel_proxy_errors : List TunnelProxyError
tunnel_proxy_errors =
    no_error ∷ invalid_uuid ∷ internal_server_error ∷ server_not_found ∷ forbidden_call
    ∷ already_registered ∷ not_registered ∷ unknown_socket_address ∷ []

abbrev pub to_variants : (List TunnelProxyError) → VariantList
to_variants [] = nil
to_variants (e ∷ es) = cons (string (tunnel_proxy_error_to_string e)) (to_variants es)

-- s_tunnelProxyError and s_basicType, the keys of the two enumerations.
unfoldable pub tunnel_proxy_error_type : VariantList
unfolding tunnel_proxy_error_to_string
tunnel_proxy_error_type = to_variants tunnel_proxy_errors

unfoldable pub basic_type : VariantList
basic_type = cons (string "Uuid") (
    cons (string "String") (
      cons (string "Int") (
        cons (string "UInt") (
          cons (string "Double")
            (cons (string "Bool") (cons (string "Variant") (cons (string "Object") nil)))))))

-- JsonTypes::BasicType
pub data BasicType : Type 0 where
  uuid_type string_type int_type uint_type double_type bool_type variant_type object_type :
      BasicType

abbrev pub basic_type_to_string : BasicType → String
basic_type_to_string uuid_type = "Uuid"
basic_type_to_string string_type = "String"
basic_type_to_string int_type = "Int"
basic_type_to_string uint_type = "UInt"
basic_type_to_string double_type = "Double"
basic_type_to_string bool_type = "Bool"
basic_type_to_string variant_type = "Variant"
basic_type_to_string object_type = "Object"

abbrev pub basic_type_ref : String
basic_type_ref = "$ref:BasicType"

abbrev pub tunnel_proxy_error_ref : String
tunnel_proxy_error_ref = "$ref:TunnelProxyError"

unfoldable pub all_types : VariantMap
unfolding basic_type tunnel_proxy_error_type
all_types =
    field "BasicType" (list basic_type)
      (field "TunnelProxyError" (list tunnel_proxy_error_type) end)

-- QPair<bool, QString>
pub record Report : Type 0 where
  pub success : Bool
  pub message : String

abbrev pub report : Bool → String → Report
report success message = record { success = success; message = message }

abbrev pub is_optional : String → Bool
is_optional key = starts_with key "o:"

-- The key without a leading "o:".
unfoldable pub stripped_key : String → String
stripped_key key = if is_optional key then slice key 2 (len key) else key

abbrev str_appends : List String → String
str_appends [] = ""
str_appends (s ∷ ss) = str_append s (str_appends ss)

-- A further check is made only if the first passes; the first failure is the report.
abbrev pub and_then : Report → Report → Report
and_then first next = if first.success then next else first

abbrev pub validate_found : (Variant → Report) → Option Variant → Report
validate_found validate none = report true ""
validate_found validate (some v) = validate v

module _ (q : Qt) where
  open q use {to_text, can_convert, converts, text_to_uuid, to_json_text}

  unfoldable pub contains_text : VariantList → String → Bool
  contains_text nil text = false
  contains_text (cons v vs) text = if str_eq (to_text v) text then true else contains_text vs text

  -- enumStrings.join(", ")
  unfoldable pub join_texts : VariantList → String
  join_texts nil = ""
  join_texts (cons v nil) = to_text v
  join_texts (cons v (cons w ws)) =
      str_append (to_text v) (str_append ", " (join_texts (cons w ws)))

  unfoldable pub validate_enum : VariantList → Variant → Report
  unfolding contains_text join_texts
  validate_enum enum_list value =
      report (contains_text enum_list (to_text value))
        (str_appends ("Value " ∷ to_text value ∷ " not allowed in " ∷ join_texts enum_list ∷ []))

  -- The last test reads canConvert(QVariant::Bool && converts): the kind asked for is Bool if the
  -- value converts to Bool, and else the invalid kind, which nothing converts to.
  unfoldable pub validate_basic_type : Variant → Report
  validate_basic_type v =
      if can_convert uuid_kind v && converts uuid_kind v
      then (if text_to_uuid (to_text v) == 0
          then report false "Invalid uuid format."
          else report true "")
      else if can_convert string_kind v && converts string_kind v
      then report true ""
      else if can_convert int_kind v && converts int_kind v
      then report true ""
      else if can_convert double_kind v && converts double_kind v
      then report true ""
      else if converts bool_kind v && can_convert bool_kind v
      then report true ""
      else report false (str_append "Error validating basic type " (to_text v))

  unfoldable pub validate_property : String → Variant → Report
  validate_property template value =
      if str_eq template (basic_type_to_string variant_type)
      then report true ""
      else if str_eq template (basic_type_to_string object_type)
      then report true ""
      else if str_eq template (basic_type_to_string uuid_type)
      then report (can_convert uuid_kind value)
          (str_appends ("Param " ∷ to_text value ∷ " is not a uuid." ∷ []))
      else if str_eq template (basic_type_to_string string_type)
      then report (can_convert string_kind value)
          (str_appends ("Param " ∷ to_text value ∷ " is not a string." ∷ []))
      else if str_eq template (basic_type_to_string bool_type)
      then report (can_convert bool_kind value)
          (str_appends ("Param " ∷ to_text value ∷ " is not a bool." ∷ []))
      else if str_eq template (basic_type_to_string int_type)
      then report (can_convert int_kind value)
          (str_appends ("Param " ∷ to_text value ∷ " is not a int." ∷ []))
      else if str_eq template (basic_type_to_string uint_type)
      then report (can_convert uint_kind value)
          (str_appends ("Param " ∷ to_text value ∷ " is not a int." ∷ []))
      else report false (
          str_appends
            ("Unhandled property type: " ∷ to_text value ∷ " (expected: " ∷ template ∷ ")" ∷ []))

  -- The String case of validateVariant.
  unfoldable pub validate_text : String → Variant → Report
  validate_text template v =
      if starts_with template "$ref:"
      then (if str_eq template basic_type_ref
          then and_then (validate_basic_type v) (report true "")
          else if str_eq template tunnel_proxy_error_ref
          then and_then (validate_enum tunnel_proxy_error_type v) (report true "")
          else report false (
              str_appends
                ("Unhandled ref " ∷ template ∷ ". Server implementation incomplete." ∷ [])))
      else and_then (validate_property template v) (report true "")

  -- The second loop of validateMap: a key that the template lacks is refused.
  unfoldable pub validate_forbidden : VariantMap → VariantMap → VariantMap → Report
  validate_forbidden template whole end = report true ""
  validate_forbidden template whole (field key v rest) =
      if not (has_key template key) && not (has_key template (str_append "o:" key))
      then report false
          (str_appends ("Forbidden key \"" ∷ key ∷ "\" in " ∷ to_json_text whole ∷ []))
      else validate_forbidden template whole rest

  unfoldable pub validate_entries : (Variant → Report) → VariantList → Report
  validate_entries validate nil = report true ""
  validate_entries validate (cons v vs) = and_then (validate v) (validate_entries validate vs)

  unfoldable mutual
    pub validate_variant : Variant → Variant → Report
    validate_variant (string template) v = validate_text template v
    validate_variant (map template) v =
        and_then (validate_keys template (to_map v))
          (validate_forbidden template (to_map v) (to_map v))
    validate_variant (list template) v = validate_list template (to_list v)
    validate_variant template v =
        report false (str_appends ("Unhandled value " ∷ to_text template ∷ "." ∷ []))

    -- The first loop of validateMap, over the keys of the template.
    pub validate_keys : VariantMap → VariantMap → Report
    validate_keys end m = report true ""
    validate_keys (field key template rest) m =
        if not (is_optional key) && not (has_key m (stripped_key key))
        then report false (str_appends ("Missing key " ∷ key ∷ " in " ∷ to_json_text m ∷ []))
        else and_then (validate_found (validate_variant template) (find m (stripped_key key)))
            (validate_keys rest m)

    pub validate_list : VariantList → VariantList → Report
    validate_list nil l = report false "empty list template"
    validate_list (cons template rest) l = validate_entries (validate_variant template) l

  unfoldable pub validate_map : VariantMap → VariantMap → Report
  unfolding validate_variant validate_keys validate_forbidden
  validate_map template m = and_then (validate_keys template m) (validate_forbidden template m m)
