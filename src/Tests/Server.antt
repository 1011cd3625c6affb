-- ===== src/Tests/Server.antt =====
-- Examples for the theorems on tunnelproxyserver.cpp and jsonrpcserver.cpp.
use mathlib.Core.Option
use nymea_remoteproxy.Base.{
  ℕ, ◌≡◌, ◌≢◌, refl, true, false, none, some, List, [], ◌∷◌, ◌++◌, ◌↔◌, ◌⊎◌, Bytes, value, contains,
  insert, remove, modify, arith, is_some,
}
use nymea_remoteproxy.Client.{
  tcp, type_none, type_server, type_client, TunnelProxyClient, new_client, activate_client,
  set_name, set_uuid, set_type, enable_slip_after_response, add_tx_data_count,
}
use nymea_remoteproxy.Connections.{
  TunnelProxyClientConnection, register_client_connection, get_free_address, skip_used,
  set_server_connection, set_socket_address, new_client_connection, new_server_connection,
}
use nymea_remoteproxy.State.{
  TunnelProxyServer, Output, sent, killed, send_data, modify_client, send_notification,
  send_document, json_bytes, error_document, response_document, newline,
}
use nymea_remoteproxy.Registration.{
  register_server, accept_server, register_client, accept_client, link_client, disconnect_client,
}
use nymea_remoteproxy.Types.{no_error}
use nymea_remoteproxy.Slip.{parse_frame}
use nymea_remoteproxy.JsonRpc.{
  register_handler, register_json_client, process_data_packet, check_request, rejected,
  deliver_reply,
}
use nymea_remoteproxy.JsonRpc.Requests.{no_id}
use nymea_remoteproxy.TunnelHandler.{error_response, tunnel_proxy_handler}
use nymea_remoteproxy.Handler.{create_reply, JsonReply}
use nymea_remoteproxy.Variant.{pos}
use nymea_remoteproxy.Server.Lifecycle.{new_server}
use nymea_remoteproxy.Server.Sockets.{on_client_connected, on_client_disconnected}
use nymea_remoteproxy.Server.Traffic.{on_client_data_available, on_frame}
use nymea_remoteproxy.Server.View.{view}
use nymea_remoteproxy.Server.Directory.{Moves, nobody, directory, IsSound}
use nymea_remoteproxy.Server.Consistent.{IsConsistent, link_of, address_at}
use nymea_remoteproxy.Server.Registering.{
  register_server-IsConsistent, register_client-IsConsistent,
}
use nymea_remoteproxy.Server.Arriving.{on_client_connected-Changed}
use nymea_remoteproxy.Server.Reach.{
  new_server-IsConsistent, Reachable-IsConsistent, Reachable-refines, Reachable, initial, after,
  connects, sends, disconnects,
}
use nymea_remoteproxy.Server.Delivery.{server_frame_delivered}
use nymea_remoteproxy.Server.Outcomes.{
  type_of, register_server_iff, register_client_iff, disconnect_client_kills,
}
use nymea_remoteproxy.Server.Answers.{process_data_packet_rejected, register_server_slip}
use nymea_remoteproxy.Server.Farewell.{server_disconnected}
use nymea_remoteproxy.Tests.{
  test_qt, settings, server_request, client_request, one_socket, two_sockets, with_server,
  with_client,
}

one_socket-IsConsistent : IsConsistent (view one_socket)
unfolding new_server register_handler
one_socket-IsConsistent =
    (on_client_connected-Changed settings 5 new_server tcp 1 "10.0.0.1" new_server-IsConsistent
      (omega arith)).consistent

two_sockets-IsConsistent : IsConsistent (view two_sockets)
unfolding on_client_connected new_client register_json_client new_server register_handler value
    contains insert remove modify modify_client register_server accept_server register_client
    accept_client link_client register_client_connection get_free_address skip_used
    set_server_connection set_socket_address new_client_connection new_server_connection
    send_notification send_document send_data activate_client set_name set_uuid set_type
    enable_slip_after_response add_tx_data_count
two_sockets-IsConsistent =
    (on_client_connected-Changed settings 6 one_socket tcp 2 "10.0.0.2" one_socket-IsConsistent
      (omega arith)).consistent

with_server-IsConsistent : IsConsistent (view with_server)
with_server-IsConsistent =
    register_server-IsConsistent two_sockets 1 77 "house" two_sockets-IsConsistent

pub with_client-IsConsistent : IsConsistent (view with_client)
with_client-IsConsistent =
    register_client-IsConsistent test_qt with_server 2 88 "phone" 77 with_server-IsConsistent

-- Both sockets register with requests, and the server's socket disconnects.
abbrev after_requests : TunnelProxyServer
after_requests =
    on_client_disconnected test_qt
      (on_client_data_available test_qt settings
        (on_client_data_available test_qt settings two_sockets 1 server_request) 2 client_request)
      1

after_requests-Reachable : Reachable test_qt settings after_requests
unfolding on_client_connected new_client register_json_client new_server register_handler value
    contains insert remove modify modify_client register_server accept_server register_client
    accept_client link_client register_client_connection get_free_address skip_used
    set_server_connection set_socket_address new_client_connection new_server_connection
    send_notification send_document send_data activate_client set_name set_uuid set_type
    enable_slip_after_response add_tx_data_count
after_requests-Reachable =
    after
      (after
        (after
          (after (after initial (connects 5 new_server tcp 1 "10.0.0.1" (omega arith)))
            (connects 6 one_socket tcp 2 "10.0.0.2" (omega arith)))
          (sends two_sockets 1 server_request))
        (sends (on_client_data_available test_qt settings two_sockets 1 server_request) 2
          client_request))
      (disconnects _ 1)

Reachable-refines_example :
    Moves nobody (directory (view after_requests)) × IsSound (directory (view after_requests))
Reachable-refines_example =
    Reachable-refines test_qt settings after_requests after_requests-Reachable

Reachable-IsConsistent_example : IsConsistent (view after_requests)
Reachable-IsConsistent_example =
    Reachable-IsConsistent test_qt settings after_requests after_requests-Reachable

abbrev answer : JsonReply
answer = create_reply tunnel_proxy_handler "RegisterServer" (error_response no_error)

-- The phone's connection: it has the address 1 at the house.
abbrev pub phone : TunnelProxyClientConnection
phone = record {
  transport_client = 2;
  server_connection = some 77;
  client_uuid = 88;
  client_name = "phone";
  server_uuid = 77;
  socket_address = 1;
}

-- Who is where after both registrations.
after_registrations :
    (value with_client.tunnel_proxy_client_connections 88 ≡ some phone)
    × ((view with_client).role 2 ≡ some (type_client, 88))
    × ((view with_client).role 1 ≡ some (type_server, 77))
    × (address_at (value with_client.tunnel_proxy_server_connections 77) 1 ≡ some 88)
unfolding on_client_connected new_client register_json_client new_server register_handler value
    contains insert remove modify modify_client register_server accept_server register_client
    accept_client link_client register_client_connection get_free_address skip_used
    set_server_connection set_socket_address new_client_connection new_server_connection
    send_notification send_document send_data activate_client set_name set_uuid set_type
    enable_slip_after_response add_tx_data_count
after_registrations = (refl, refl, refl, refl)

pub phone_found : value with_client.tunnel_proxy_client_connections 88 ≡ some phone
phone_found = after_registrations.0

pub phone_role : (view with_client).role 2 ≡ some (type_client, 88)
phone_role = after_registrations.1

house_role : (view with_client).role 1 ≡ some (type_server, 77)
house_role = after_registrations.2

house_address : address_at (value with_client.tunnel_proxy_server_connections 77) 1 ≡ some 88
house_address = after_registrations.3

abbrev hello_bytes : Bytes
hello_bytes = 104 ∷ 105 ∷ []

abbrev frame_for_phone : Bytes
frame_for_phone = 0 ∷ 1 ∷ hello_bytes

address_of_frame : (parse_frame frame_for_phone).socket_address ≢ 0
unfolding parse_frame
address_of_frame = λ e. absurd (omega (arith, e))

server_frame_delivered_example :
    ((on_frame test_qt settings with_client 1 frame_for_phone ≡ with_client)
      × ((u : ℕ)
          → link_of (value with_client.tunnel_proxy_client_connections u)
            ≢ some (some 77, (parse_frame frame_for_phone).socket_address)))
    ⊎ ((u j : ℕ) × (p : TunnelProxyClient) × (link_of
            (value with_client.tunnel_proxy_client_connections u)
          ≡ some (some 77, (parse_frame frame_for_phone).socket_address))
        × ((view with_client).role j ≡ some (type_client, u))
        × (value with_client.proxy_clients j ≡ some p)
        × ((on_frame test_qt settings with_client 1 frame_for_phone).output
            ≡ with_client.output ++ sent p.interface j (parse_frame frame_for_phone).payload ∷ []))
server_frame_delivered_example =
    server_frame_delivered test_qt settings with_client with_client-IsConsistent 1 77
      frame_for_phone house_role address_of_frame

server_disconnected_example :
    let w' = on_client_disconnected test_qt with_client 1 in
    (value w'.tunnel_proxy_client_connections 88
      ≡ some (record phone { server_connection = none; server_uuid = 0; socket_address = 0xFFFF }))
    × ((j : ℕ) × (p : TunnelProxyClient) × ((view with_client).role j ≡ some (type_client, 88))
        × (value with_client.proxy_clients j ≡ some p)
        × (before rest : List Output) × (w'.output
            ≡ before ++ killed p.interface j "Server disconnected" ∷ rest))
server_disconnected_example =
    server_disconnected test_qt with_client 1 77 88 phone with_client-IsConsistent house_role
      phone_found refl

register_server_iff_example : ((register_server with_server 2 99 "shed").1 ≡ no_error) ↔ (
    (type_of with_server 2 ≡ some type_none)
    × (value with_server.tunnel_proxy_server_connections 99 ≡ none)
    × (value with_server.tunnel_proxy_client_connections 99 ≡ none))
register_server_iff_example = register_server_iff with_server 2 99 "shed"

register_client_iff_example :
    ((register_client test_qt with_server 2 88 "phone" 77).1 ≡ no_error) ↔ (
      (type_of with_server 2 ≡ some type_none)
      × (value with_server.tunnel_proxy_client_connections 88 ≡ none)
      × (value with_server.tunnel_proxy_server_connections 88 ≡ none)
      × (is_some (value with_server.tunnel_proxy_server_connections 77) ≡ true))
register_client_iff_example = register_client_iff test_qt with_server 2 88 "phone" 77

disconnect_client_kills_example :
    (j : ℕ) × (p : TunnelProxyClient) × ((view with_client).role j ≡ some (type_client, 88))
    × (value with_client.proxy_clients j ≡ some p)
    × (disconnect_client with_client 1 1 ≡ (
      record with_client {
        output = with_client.output ++ killed p.interface j "Server requested disconnect." ∷ [];
      },
      no_error,
    ))
disconnect_client_kills_example =
    disconnect_client_kills with_client 1 1 77 88 with_client-IsConsistent house_role house_address

-- No document at all: the bytes "x}".
abbrev broken : Bytes
broken = 120 ∷ 125 ∷ []

abbrev second_socket : TunnelProxyClient
second_socket = new_client tcp 2 "10.0.0.2" 6 8000

broken_refused :
    check_request test_qt two_sockets.handlers broken
    ≡ rejected (record {
      command_id = no_id;
      error = "Failed to parse JSON data: illegal value";
      reason = "Invalid JSON data received.";
    })
unfolding on_client_connected new_client register_json_client new_server register_handler value
    contains insert remove modify modify_client register_server accept_server register_client
    accept_client link_client register_client_connection get_free_address skip_used
    set_server_connection set_socket_address new_client_connection new_server_connection
    send_notification send_document send_data activate_client set_name set_uuid set_type
    enable_slip_after_response add_tx_data_count check_request
broken_refused = refl

second_socket_found : value two_sockets.proxy_clients 2 ≡ some second_socket
unfolding on_client_connected new_client register_json_client new_server register_handler value
    contains insert remove modify modify_client register_server accept_server register_client
    accept_client link_client register_client_connection get_free_address skip_used
    set_server_connection set_socket_address new_client_connection new_server_connection
    send_notification send_document send_data activate_client set_name set_uuid set_type
    enable_slip_after_response add_tx_data_count
second_socket_found = refl

process_data_packet_rejected_example :
    let w' = process_data_packet test_qt settings two_sockets 2 broken in
    (w'.output
      ≡ two_sockets.output
        ++ sent tcp 2 (
            json_bytes false
              (error_document test_qt no_id "Failed to parse JSON data: illegal value"))
          ∷ killed tcp 2 "Invalid JSON data received."
          ∷ [])
    × (view w' ≡ view two_sockets)
unfolding new_client
process_data_packet_rejected_example =
    process_data_packet_rejected test_qt settings two_sockets 2 broken
      (record {
        command_id = no_id;
        error = "Failed to parse JSON data: illegal value";
        reason = "Invalid JSON data received.";
      })
      second_socket broken_refused second_socket_found

register_server_slip_example :
    let w' = deliver_reply test_qt (register_server two_sockets 2 99 "shed").0 2 (pos 7) answer in
    (w'.output
      ≡ two_sockets.output
        ++ sent tcp 2 (response_document test_qt (pos 7) answer.reply_values ++ newline) ∷ [])
    × (Option.map (λ p. p.slip_enabled) (value w'.proxy_clients 2) ≡ some true)
unfolding on_client_connected new_client register_json_client new_server register_handler value
    contains insert remove modify modify_client register_server accept_server register_client
    accept_client link_client register_client_connection get_free_address skip_used
    set_server_connection set_socket_address new_client_connection new_server_connection
    send_notification send_document send_data activate_client set_name set_uuid set_type
    enable_slip_after_response add_tx_data_count create_reply
register_server_slip_example =
    register_server_slip test_qt two_sockets 2 99 "shed" (pos 7) answer second_socket
      second_socket_found refl refl refl refl refl refl
