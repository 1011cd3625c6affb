-- ===== src/Tests.antt =====
-- Data for the examples: a stand-in for Qt, and a server of tunnelproxyserver.cpp with one
-- registered server and one registered client.
mod Server
mod Protocol
mod Library
mod Remote
mod Sockets
mod Transports
mod Engine
mod Tunnel
mod Codec
use nymea_remoteproxy.Base.{
  ℕ, Bool, true, Option, none, some, List, [], ◌∷◌, String, str_eq, Bytes, if◌then◌else◌, ◌==◌,
}
use nymea_remoteproxy.Client.{Transport, tcp}
use nymea_remoteproxy.Variant.{Variant, VariantMap, ℤ, pos, number, string, map, end, field, Qt}
use nymea_remoteproxy.State.{TunnelProxyServer, Settings}
use nymea_remoteproxy.Registration.{register_server, register_client}
use nymea_remoteproxy.Server.Lifecycle.{new_server}
use nymea_remoteproxy.Server.Sockets.{on_client_connected}

abbrev request : String → VariantMap → Variant
request method params =
    map (
      field "id" (number (pos 7))
        (field "method" (string method) (field "params" (map params) end)))

abbrev server_params : VariantMap
server_params = field "serverName" (string "house") (field "serverUuid" (string "house uuid") end)

abbrev client_params : VariantMap
client_params =
    field "clientName" (string "phone")
      (field "clientUuid" (string "phone uuid") (field "serverUuid" (string "house uuid") end))

-- "S}", "C}" and "P}" are the documents of three requests; all else is no document.
abbrev document_of : Bytes → Option Variant
document_of [] = none
document_of (b ∷ bytes) =
    if b == b'S'
    then some (request "TunnelProxy.RegisterServer" server_params)
    else if b == b'C'
    then some (request "TunnelProxy.RegisterClient" client_params)
    else if b == b'P'
    then some (request "TunnelProxy.Ping" (field "timestamp" (number (pos 5)) end))
    else none

abbrev int_of : Variant → Option ℤ
int_of (number n) = some n
int_of _ = none

abbrev text_of : Variant → String
text_of (string s) = s
text_of _ = ""

abbrev uuid_of : String → ℕ
uuid_of s = if str_eq s "house uuid" then 77 else if str_eq s "phone uuid" then 88 else 0

abbrev pub test_qt : Qt
test_qt = record {
  from_json = document_of;
  error_string = λ _. "illegal value";
  to_json = λ _. b'{' ∷ b'}' ∷ [];
  to_json_text = λ _. "{}";
  to_int = int_of;
  to_uint = λ _. 1;
  to_bool = λ _. true;
  to_text = text_of;
  to_uuid = λ v. uuid_of (text_of v);
  text_to_uuid = uuid_of;
  uuid_to_text = λ _. "uuid";
  uuid_json_text = λ _. "uuid";
  can_convert = λ _ _. true;
  converts = λ _ _. true;
}

abbrev pub settings : Settings
settings = record {
  server_name_string = "nymea-remoteproxy";
  server_version_string = "0.1.13";
  api_version_string = "0.6";
  server_name = "proxy";
  inactive_timeout = 8000;
}

abbrev pub server_request : Bytes
server_request = b'S' ∷ b'}' ∷ []

abbrev pub client_request : Bytes
client_request = b'C' ∷ b'}' ∷ []

-- Two sockets, the first of which registers as a server, and the second as its client.
abbrev pub one_socket : TunnelProxyServer
one_socket = on_client_connected settings 5 new_server tcp 1 "10.0.0.1"

abbrev pub two_sockets : TunnelProxyServer
two_sockets = on_client_connected settings 6 one_socket tcp 2 "10.0.0.2"

abbrev pub with_server : TunnelProxyServer
with_server = (register_server two_sockets 1 77 "house").0

abbrev pub with_client : TunnelProxyServer
with_client = (register_client test_qt with_server 2 88 "phone" 77).0
