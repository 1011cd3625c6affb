-- ===== src/Tests/Protocol.antt =====
-- Examples for the theorems on SLIP, on the cutting of packets, on addresses, and on requests.
use nymea_remoteproxy.Base.{
  some, insert, remove, ℕ, zero, suc, ◌≡◌, ◌≢◌, ◌<◌, ◌≤◌, ◌+◌, ◌%◌, ◌^◌, refl, true, false, none,
  List, [], ◌∷◌, ◌++◌, map, concat, ◌↔◌, ◌⊎◌, Bytes, Hash, value, contains, arith,
}
use nymea_remoteproxy.Slip.{
  Frame, protocol_byte_esc, parse_frame, build_frame, serialize_data, serialize_loop,
  deserialize_data,
}
use nymea_remoteproxy.Slip.RoundTrip.{frame_round_trip}
use nymea_remoteproxy.Client.{slip_cut, json_cut}
use nymea_remoteproxy.Client.Packets.{index_of_split, ends_with_brace, ends_with_brace_newline}
use nymea_remoteproxy.Client.Slip.{
  slip_cut-append, slip_cut_frames, IsPlain, packet_faithful_iff, without_ends, slip_cut_stuck,
}
use nymea_remoteproxy.Client.Fragments.{unsplit, json_cut_complete, json_cut_conserves}
use nymea_remoteproxy.Connections.{
  TunnelProxyServerConnection, new_server_connection, get_free_address,
}
use nymea_remoteproxy.Connections.Addresses.{get_free_address_fresh, get_free_address_collides}
use nymea_remoteproxy.Variant.{VariantMap, end, field, string, pos}
use nymea_remoteproxy.Types.{validate_map}
use nymea_remoteproxy.Types.Matching.{KeysMatch, AllAllowed, validate_map_iff}
use nymea_remoteproxy.JsonRpc.{
  register_json_client, split_dots, invoke_method, Request, accepted, check_request,
}
use nymea_remoteproxy.JsonRpc.Returns.{reply_returned}
use nymea_remoteproxy.JsonRpc.Checks.{IsAcceptable, check_request_iff}
use nymea_remoteproxy.TunnelHandler.{tunnel_proxy_handler, error_response, handle_register_server}
use nymea_remoteproxy.Handler.{
  JsonReply, create_reply, validate_returns, validate_params, has_method,
}
use nymea_remoteproxy.Types.{no_error, stripped_key, validate_text, validate_property}
use nymea_remoteproxy.Client.{new_client, TunnelProxyClient, tcp, process_data}
use nymea_remoteproxy.Variant.{insert_value, boolean, find, without_key}
use nymea_remoteproxy.Registration.{register_server}
use nymea_remoteproxy.Server.Sockets.{on_client_connected}
use nymea_remoteproxy.Server.Lifecycle.{new_server}
use nymea_remoteproxy.Tests.{two_sockets, settings, test_qt, server_request}

-- Bytes with an end byte and an escape byte among them.
abbrev awkward : Bytes
awkward = 1 ∷ 192 ∷ 219 ∷ 2 ∷ []

abbrev awkward_frame : Frame
awkward_frame = record { socket_address = 192; payload = awkward }

frame_round_trip_example :
    parse_frame (deserialize_data (serialize_data (build_frame awkward_frame) ++ []))
    ≡ awkward_frame
frame_round_trip_example = frame_round_trip awkward_frame [] (omega arith)

slip_cut-append_example : slip_cut [] (awkward ++ awkward) ≡ (
    let first = slip_cut [] awkward in
    let second = slip_cut first.buffer awkward in
    record { packets = first.packets ++ second.packets; buffer = second.buffer })
slip_cut-append_example = slip_cut-append [] awkward awkward

slip_cut_frames_example :
    slip_cut [] (concat (map serialize_data (awkward ∷ awkward ∷ [])) ++ 1 ∷ [])
    ≡ record { packets = map serialize_loop (awkward ∷ awkward ∷ []); buffer = 1 ∷ [] }
slip_cut_frames_example =
    slip_cut_frames (awkward ∷ awkward ∷ []) (1 ∷ []) (ground arith) (ground arith)

-- A client that speaks SLIP.
abbrev slipping : TunnelProxyClient
slipping = record (new_client tcp 2 "10.0.0.2" 6 8000) { slip_enabled = true }

packet_faithful_iff_example :
    (map parse_frame (process_data (serialize_data (build_frame awkward_frame)) slipping).1
      ≡ awkward_frame ∷ [])
    ↔ IsPlain (build_frame awkward_frame)
unfolding new_client
packet_faithful_iff_example = packet_faithful_iff slipping awkward_frame refl refl (omega arith)

slip_cut_stuck_example :
    let buffer = serialize_loop awkward ++ (protocol_byte_esc ∷ 7 ∷ []) in
    slip_cut buffer awkward ≡ record { packets = []; buffer = buffer ++ without_ends awkward }
slip_cut_stuck_example =
    slip_cut_stuck awkward 7 [] awkward (λ e. absurd (omega (arith, e)))
      (λ e. absurd (omega (arith, e)))

-- "{}\n{}" in two pieces.
abbrev piece : Bytes
piece = 123 ∷ 125 ∷ 10 ∷ 123 ∷ []

json_cut_complete_example :
    let rest = (json_cut piece (125 ∷ [])).buffer in
    (index_of_split rest ≡ none)
    × (ends_with_brace rest ≡ false)
    × (ends_with_brace_newline rest ≡ false)
json_cut_complete_example = json_cut_complete piece (125 ∷ [])

json_cut_conserves_example :
    let cut = json_cut piece (125 ∷ []) in
    (unsplit cut.packets cut.buffer ≡ piece ++ (125 ∷ []))
    ⊎ ((packets : List Bytes) × (last : Bytes) × (cut.packets ≡ packets ++ last ∷ [])
        × (cut.buffer ≡ [])
        × (unsplit packets last ≡ piece ++ (125 ∷ [])))
json_cut_conserves_example = json_cut_conserves piece (125 ∷ [])

abbrev house : TunnelProxyServerConnection
house = record (new_server_connection 1 77 "house") {
  current_address_counter = 65534;
  client_connections_addresses = (1, 88) ∷ [];
}

get_free_address_fresh_example :
    let address = (get_free_address house).1 in
    (contains house.client_connections_addresses address ≡ false)
    × (address ≢ 0)
    × (address ≢ 0xFFFF)
    × (address < 2 ^ 16)
unfolding new_server_connection
get_free_address_fresh_example = get_free_address_fresh house refl (omega arith)

-- A server whose addresses 0 to n are all in use.
all_used : ℕ → Hash ℕ
all_used zero = (0, 88) ∷ []
all_used (suc n) = (suc n, 88) ∷ all_used n

all_used_lem : (n k : ℕ) → k ≤ n → contains (all_used n) k ≡ true
unfolding all_used contains value
all_used_lem zero k h = ground arith
all_used_lem (suc n) k h = ground (arith, all_used_lem n k)

abbrev full_house : TunnelProxyServerConnection
full_house = record (new_server_connection 1 77 "house") {
  client_connections_addresses = all_used 101;
}

get_free_address_collides_example :
    contains full_house.client_connections_addresses (get_free_address full_house).1 ≡ true
unfolding new_server_connection
get_free_address_collides_example =
    get_free_address_collides full_house refl
      (λ k le. all_used_lem 101 ((1 + k) % 2 ^ 16) (omega arith))

abbrev name_template : VariantMap
name_template = field "name" (string "String") (field "o:size" (string "Int") end)

abbrev named : VariantMap
named = field "name" (string "house") end

validate_map_iff_example :
    ((validate_map test_qt name_template named).success ≡ true)
    ↔ (KeysMatch test_qt name_template named × AllAllowed test_qt name_template named)
validate_map_iff_example = validate_map_iff test_qt name_template named

abbrev registration : Request
registration = record {
  command_id = pos 7;
  handler = tunnel_proxy_handler;
  name_space = "TunnelProxy";
  method_name = "RegisterServer";
  params = field "serverName" (string "house") (field "serverUuid" (string "house uuid") end);
}

check_request_iff_example :
    (check_request test_qt new_server.handlers server_request ≡ accepted registration)
    ↔ IsAcceptable test_qt new_server.handlers server_request registration
check_request_iff_example =
    check_request_iff test_qt new_server.handlers server_request registration

abbrev registered : JsonReply
registered =
    create_reply tunnel_proxy_handler "RegisterServer"
      (insert_value (error_response no_error) "slipEnabled" (boolean true))

two_sockets_handlers : two_sockets.handlers ≡ new_server.handlers
unfolding on_client_connected new_server contains value register_json_client insert remove
two_sockets_handlers = refl

registration_accepted :
    check_request test_qt two_sockets.handlers server_request ≡ accepted registration
unfolding check_request new_server find split_dots on_client_connected contains value
    register_json_client insert remove tunnel_proxy_handler has_method validate_params validate_map
    stripped_key validate_text validate_property without_key
registration_accepted = refl

registration_answered :
    (invoke_method test_qt settings two_sockets registration 1).1 ≡ some registered
unfolding invoke_method new_server tunnel_proxy_handler handle_register_server register_server
    on_client_connected find value contains register_json_client insert remove new_client
registration_answered = refl

reply_returned_example :
    (validate_returns test_qt registration.handler registration.method_name
      registered.reply_values).success
    ≡ true
reply_returned_example =
    reply_returned test_qt (λ s. refl) (λ s. refl) (λ b. refl) settings two_sockets server_request
      registration 1 registered two_sockets_handlers registration_accepted registration_answered
