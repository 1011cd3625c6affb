-- ===== src/Handler.antt =====
-- libnymea-remoteproxy/jsonrpc/jsonhandler.h and jsonhandler.cpp, jsonreply.h and jsonreply.cpp:
-- a handler describes its methods; what Qt's meta object knows of its class is the list of its
-- methods.
use Prim.Native.Char.{code}
use nymea_remoteproxy.Base.{
  ℕ, Bool, true, false, ◌&&◌, Option, none, some, List, [], ◌∷◌, String, str_append, str_eq, Dict,
  get, put, if◌then◌else◌, is_some, leb,
}
use nymea_remoteproxy.Variant.{VariantMap, ℤ, string, map, end, insert_value, Qt}
use nymea_remoteproxy.Types.{Report, validate_map}

-- QMetaMethod::MethodType
pub data MethodType : Type 0 where
  method signal slot : MethodType

pub record JsonHandler : Type 0 where
  pub name : String
  pub meta_methods : List (MethodType × String)
  pub descriptions : Dict String
  pub params : Dict VariantMap
  pub returns : Dict VariantMap

abbrev pub or_empty : Option VariantMap → VariantMap
or_empty none = end
or_empty (some m) = m

abbrev or_blank : Option String → String
or_blank none = ""
or_blank (some s) = s

unfoldable pub has_method : JsonHandler → String → Bool
has_method h name =
    is_some (get h.descriptions name)
    && (is_some (get h.params name) && is_some (get h.returns name))

unfoldable pub validate_params : Qt → JsonHandler → String → VariantMap → Report
validate_params q h name params = validate_map q (or_empty (get h.params name)) params

unfoldable pub validate_returns : Qt → JsonHandler → String → VariantMap → Report
validate_returns q h name returns = validate_map q (or_empty (get h.returns name)) returns

abbrev knows : List (MethodType × String) → String → Bool
knows [] name = false
knows ((t, n) ∷ ms) name = if str_eq n name then true else knows ms name

-- Only what the meta object knows can be described.
unfoldable pub set_description : String → String → JsonHandler → JsonHandler
set_description name description h =
    if knows h.meta_methods name
    then record h { descriptions = put h.descriptions name description }
    else h

unfoldable pub set_params : String → VariantMap → JsonHandler → JsonHandler
set_params name params h =
    if knows h.meta_methods name then record h { params = put h.params name params } else h

unfoldable pub set_returns : String → VariantMap → JsonHandler → JsonHandler
set_returns name returns h =
    if knows h.meta_methods name then record h { returns = put h.returns name returns } else h

-- The regular expression ^[A-Z].
abbrev starts_upper : String → Bool
starts_upper String.[] = false
starts_upper (String.◌∷◌ c s) = leb b'A' (code c) && leb (code c) b'Z'

abbrev same_type : MethodType → MethodType → Bool
same_type method method = true
same_type signal signal = true
same_type slot slot = true
same_type _ _ = false

abbrev introspect_method : JsonHandler → String → VariantMap → VariantMap
introspect_method h name m =
    if has_method h name
    then insert_value m (str_append h.name (str_append "." name)) (
        map (
          insert_value
            (insert_value
              (insert_value end "description" (string (or_blank (get h.descriptions name))))
              "params" (map (or_empty (get h.params name))))
            "returns" (map (or_empty (get h.returns name)))))
    else m

abbrev introspect_signal : JsonHandler → String → VariantMap → VariantMap
introspect_signal h name m =
    if is_some (get h.descriptions name) && (is_some (get h.params name) && starts_upper name)
    then insert_value m (str_append h.name (str_append "." name)) (
        map (
          insert_value
            (insert_value end "description" (string (or_blank (get h.descriptions name)))) "params"
            (map (or_empty (get h.params name)))))
    else m

abbrev introspect_one : JsonHandler → MethodType → String → VariantMap → VariantMap
introspect_one h method name m = introspect_method h name m
introspect_one h signal name m = introspect_signal h name m
introspect_one h slot name m = m

unfoldable pub introspect_loop :
    JsonHandler → MethodType → List (MethodType × String) → VariantMap → VariantMap
introspect_loop h type [] m = m
introspect_loop h type ((t, name) ∷ ms) m =
    introspect_loop h type ms (if same_type t type then introspect_one h t name m else m)

unfoldable pub introspect : JsonHandler → MethodType → VariantMap
unfolding introspect_loop
introspect h type = introspect_loop h type h.meta_methods end

-- JsonReply::Type
pub data ReplyType : Type 0 where
  type_sync type_async : ReplyType

pub record JsonReply : Type 0 where
  pub type : ReplyType
  pub reply_values : VariantMap
  pub handler : String
  pub method_name : String
  pub client_id : ℕ
  pub command_id : ℤ
  pub success : Bool
  pub timed_out : Bool

unfoldable pub create_reply : JsonHandler → String → VariantMap → JsonReply
create_reply h name values = record {
  type = type_sync;
  reply_values = values;
  handler = h.name;
  method_name = name;
  client_id = 0;
  command_id = ℤ.pos 0;
  success = true;
  timed_out = false;
}

unfoldable pub create_async_reply : JsonHandler → String → JsonReply
create_async_reply h name = record {
  type = type_async;
  reply_values = end;
  handler = h.name;
  method_name = name;
  client_id = 0;
  command_id = ℤ.pos 0;
  success = true;
  timed_out = false;
}

-- JsonReply::timeout, and what a handler does before it emits finished().
unfoldable pub timeout : JsonReply → JsonReply
timeout r = record r { timed_out = true }
