-- ===== src/JsonRpc/Requests.antt =====
-- libnymea-remoteproxy/server/jsonrpcserver.cpp, processDataPacket: the checks of a request before
-- its method is called.
use Prim.Native.Char.{Char, code}
use nymea_remoteproxy.Base.{
  Option, none, some, List, [], ◌∷◌, String, str_append, get, Dict, Bytes, if◌then◌else◌, ◌==◌,
}
use nymea_remoteproxy.Variant.{VariantMap, ℤ, negsuc, get_value, to_map, Qt}
use nymea_remoteproxy.Handler.{JsonHandler, has_method, validate_params}

-- QString::split('.'), which keeps empty parts.
abbrev pub onto_first : Char → List String → List String
onto_first c [] = String.◌∷◌ c String.[] ∷ []
onto_first c (s ∷ ss) = String.◌∷◌ c s ∷ ss

unfoldable pub split_dots : String → List String
split_dots String.[] = "" ∷ []
split_dots (String.◌∷◌ c s) =
    let rest = split_dots s in if code c == b'.' then "" ∷ rest else onto_first c rest

-- A request that is refused: the id and the error of the response, and why the connection is killed.
pub record Rejection : Type 0 where
  pub command_id : ℤ
  pub error : String
  pub reason : String

pub record Request : Type 0 where
  pub command_id : ℤ
  pub handler : JsonHandler
  pub name_space : String
  pub method_name : String
  pub params : VariantMap

pub data Checked (A : Type 0) : Type 0 where
  accepted : A → Checked A
  rejected : Rejection → Checked A

infixl 5 ◌>>=◌
abbrev pub ◌>>=◌ : {A B : Type 0} → Checked A → (A → Checked B) → Checked B
accepted a >>= f = f a
rejected r >>= f = rejected r

abbrev reject : {A : Type 0} → ℤ → String → String → Checked A
reject id error reason = rejected (record { command_id = id; error = error; reason = reason })

-- The id of a response to a request that has none: -1.
abbrev pub no_id : ℤ
no_id = negsuc 0

abbrev pub or_reject : {A : Type 0} → Option A → ℤ → String → String → Checked A
or_reject none id error reason = reject id error reason
or_reject (some a) id error reason = accepted a

abbrev pub two_parts : List String → Option (String × String)
two_parts (a ∷ b ∷ []) = some (a, b)
two_parts _ = none

-- The checks of processDataPacket, up to the call of the method.
module _ (q : Qt) where
  abbrev check_method : JsonHandler → String → ℤ → Checked JsonHandler
  check_method h name id =
      if has_method h name then accepted h else reject id "No such method" "No such method."

  abbrev check_params : JsonHandler → String → VariantMap → ℤ → Checked VariantMap
  check_params h name params id =
      let result = validate_params q h name params in
      if result.success
      then accepted params
      else reject id (str_append "Invalid params: " result.message) "Invalid params passed."

  unfoldable pub check_request : Dict JsonHandler → Bytes → Checked Request
  check_request handlers packet = do
    document ←
        or_reject (q.from_json packet) no_id
          (str_append "Failed to parse JSON data: " (q.error_string packet))
          "Invalid JSON data received."
    id ←
        or_reject (q.to_int (get_value (to_map document) "id")) no_id
          "Error parsing command. Missing 'id'" "The id property is missing in the request."
    command ←
        or_reject (two_parts (split_dots (q.to_text (get_value (to_map document) "method")))) id
          (str_append "Error parsing method. Got: '" (
            str_append (q.to_text (get_value (to_map document) "method"))
              "'', Expected: 'Namespace.method'"))
          "Invalid method passed."
    found ← or_reject (get handlers command.0) id "No such namespace" "No such namespace."
    handler ← check_method found command.1 id
    params ← check_params handler command.1 (to_map (get_value (to_map document) "params")) id
    accepted (record {
      command_id = id;
      handler = handler;
      name_space = command.0;
      method_name = command.1;
      params = params;
    })
