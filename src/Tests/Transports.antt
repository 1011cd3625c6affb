-- ===== src/Tests/Transports.antt =====
-- Examples for the theorems on the transports, and on the connections of the client library.
use nymea_remoteproxy.Base.{
  ℕ, suc, ◌≡◌, ◌≢◌, refl, true, false, some, none, String, List, [], ◌∷◌, ◌++◌, Bytes, value,
  member, insert, remove, arith,
}
use nymea_remoteproxy.Client.{TunnelProxyClient, tcp, new_client, process_data}
use nymea_remoteproxy.Transports.{key, data_available, wrote}
use nymea_remoteproxy.Transports.TcpSockets.{
  TcpSocketServer, new_tcp_socket_server, on_ready_read, send_data,
}
use nymea_remoteproxy.Transports.TcpSockets
use nymea_remoteproxy.Transports.TcpEvents.{
  Event, starts, incoming, has_new_connection, is_encrypted, ready_read, run, handle,
}
use nymea_remoteproxy.Transports.TcpSessions.{only_encrypted, answer_returns, encrypted_clients}
use nymea_remoteproxy.Transports.WebSockets.{
  WebSocketServer, new_web_socket_server, on_client_disconnected, on_text_message_received,
}
use nymea_remoteproxy.Transports.WebSockets
use nymea_remoteproxy.Transports.WebSessions
use nymea_remoteproxy.Transports.UnixSockets.{UnixSocketServer, new_unix_socket_server}
use nymea_remoteproxy.Transports.UnixSockets
use nymea_remoteproxy.Transports.UnixSessions
use nymea_remoteproxy.Transports.Announcing.{Announces, transports_announce}
use nymea_remoteproxy.Transports.Texts.{frames_lost}
use nymea_remoteproxy.ProxyConnection.{ProxyUrl, new_connection, data_received}
use nymea_remoteproxy.ProxyConnection.Web
use nymea_remoteproxy.ProxyConnection.Tcp
use nymea_remoteproxy.ProxyConnection.Truthful.{IsHonest, connected_truthful}
use nymea_remoteproxy.ProxyConnection.Events.{
  TcpEvent, handle_tcp, run_tcp, run_web, connects, enters, encrypted, receives, connects_web,
  web_enters, receives_text,
}
use nymea_remoteproxy.SocketServer.{
  TunnelProxySocketServer, state_running, same_state, new_socket_server, set_state,
  set_socket_server_running, connected, unconnected,
}
use nymea_remoteproxy.SocketServer.Slots.{on_connection_data_available}
use nymea_remoteproxy.Tests.{test_qt}

abbrev create_uuid : ℕ → ℕ
create_uuid n = suc n

create_uuid_unique : (m n : ℕ) → create_uuid m ≡ create_uuid n → m ≡ n
create_uuid_unique m n e = omega (arith, e)

abbrev peer_address : ℕ → String
peer_address client = "10.0.0.7"

abbrev hello_bytes : Bytes
hello_bytes = 104 ∷ 105 ∷ []

-- A UTF-8 encoder that knows one text.
abbrev to_utf8 : String → Bytes
to_utf8 text = hello_bytes

abbrev from_utf8 : Bytes → String
from_utf8 bytes = "hi"

abbrev number_text : ℕ → String
number_text n = "8"

-- A connection without SSL that has sent data.
abbrev plain_events : List Event
plain_events =
    starts true ∷ incoming 7 true ∷ has_new_connection ∷ ready_read 7 hello_bytes false ∷ []

abbrev encrypted_events : List Event
encrypted_events = starts true ∷ incoming 7 true ∷ has_new_connection ∷ is_encrypted 7 ∷ []

abbrev pending : WebSockets.Pending
pending = record { socket = 4; version = 13; address = "10.0.0.4" }

abbrev web_one : WebSocketServer
web_one =
    WebSockets.on_client_connected number_text create_uuid (some pending)
      (new_web_socket_server true)

abbrev unix_one : UnixSocketServer
unix_one = UnixSockets.on_client_connected create_uuid 5 (new_unix_socket_server "/run/proxy")

unix_fresh : value (new_unix_socket_server "/run/proxy").captured 5 ≡ none
unfolding new_unix_socket_server value
unix_fresh = refl

transports_announce_example :
    (let t = run true create_uuid peer_address plain_events (new_tcp_socket_server true) in
      Announces t.client_list t.signals)
    × Announces web_one.client_list web_one.signals
    × ((client : ℕ)
        → key web_one.client_list client ≢ 0
        → (web' : WebSocketServer) × (on_client_disconnected client web_one ≡ some web'))
    × Announces unix_one.client_list unix_one.signals
    × ((id client : ℕ)
        → value unix_one.client_list id ≡ some client
        → value unix_one.captured client ≡ some id)
transports_announce_example =
    transports_announce from_utf8 to_utf8 number_text create_uuid peer_address true true
      plain_events "/run/proxy" web_one unix_one create_uuid_unique
      (WebSessions.after WebSessions.initial
        (WebSessions.connects (new_web_socket_server true) (some pending)))
      (UnixSessions.after UnixSessions.initial
        (UnixSessions.connects (new_unix_socket_server "/run/proxy") 5 unix_fresh))

encrypted_found :
    value
      (run true create_uuid peer_address encrypted_events (new_tcp_socket_server true)).client_list
      1
    ≡ some 7
unfolding run value handle TcpSockets.on_encrypted insert TcpSockets.on_new_connection
    TcpSockets.incoming_connection TcpSockets.start_server new_tcp_socket_server
encrypted_found = refl

only_encrypted_example : member 7 (encrypted_clients encrypted_events) ≡ true
only_encrypted_example =
    only_encrypted true create_uuid peer_address encrypted_events 1 7 encrypted_found

abbrev plain : TcpSocketServer
plain = run true create_uuid peer_address plain_events (new_tcp_socket_server false)

plain_key : key plain.client_list 7 ≡ 1
unfolding run value handle TcpSockets.on_encrypted insert remove TcpSockets.on_new_connection
    TcpSockets.incoming_connection TcpSockets.start_server new_tcp_socket_server on_ready_read
plain_key = refl

plain_known : key plain.client_list 7 ≢ 0
plain_known = λ e. absurd (omega (arith, e, plain_key))

answer_returns_example :
    (id : ℕ) × ((on_ready_read 7 hello_bytes true plain).signals
      ≡ data_available id hello_bytes ∷ plain.signals)
    × ((send_data id (9 ∷ []) (on_ready_read 7 hello_bytes true plain)).calls
        ≡ wrote 7 (9 ∷ []) ∷ plain.calls)
answer_returns_example =
    answer_returns true create_uuid peer_address false plain_events 7 hello_bytes (9 ∷ [])
      create_uuid_unique plain_known

-- A client of the proxy that speaks SLIP, and a server behind the proxy that is running.
abbrev slip_client : TunnelProxyClient
slip_client = record (new_client tcp 3 "10.0.0.3" 5 8000) { slip_enabled = true }

abbrev runs : TunnelProxySocketServer
runs = set_state state_running (new_socket_server 7 "home")

runs_running : same_state runs.state state_running ≡ true
unfolding set_state set_socket_server_running new_socket_server
runs_running = refl

slip_client_speaks : slip_client.slip_enabled ≡ true
unfolding new_client
slip_client_speaks = refl

frames_lost_example :
    (arrived : Bytes) × ((on_text_message_received to_utf8 4 "hi" web_one).signals
      ≡ data_available (key web_one.client_list 4) arrived ∷ web_one.signals)
    × (process_data arrived slip_client
        ≡ (record slip_client { data_buffer = slip_client.data_buffer ++ arrived }, []))
    × ((Web.on_text_message_received to_utf8 "hi" new_connection).signals
        ≡ data_received arrived ∷ new_connection.signals)
    × (on_connection_data_available test_qt arrived runs
        ≡ record runs { keep_alive_timer = true; data_buffer = runs.data_buffer ++ arrived })
frames_lost_example =
    frames_lost test_qt to_utf8 (λ text. ground arith) "hi" web_one 4 slip_client new_connection
      runs slip_client_speaks runs_running

abbrev proxy_url : ProxyUrl
proxy_url = record { scheme = "ssl"; host = "proxy"; port = 2213 }

abbrev plain_url : ProxyUrl
plain_url = record { scheme = "tcp"; host = "proxy"; port = 2213 }

-- A connection that was encrypted and has ended.
abbrev used : List TcpEvent
used =
    connects proxy_url
    ∷ enters connected
    ∷ encrypted
    ∷ receives hello_bytes
    ∷ enters unconnected
    ∷ []

used_gone : (run_tcp used new_connection).is_connected ≡ false
unfolding run_tcp handle_tcp new_connection Tcp.on_state_changed Tcp.on_ready_read Tcp.on_encrypted
    Tcp.connect_server
used_gone = refl

connected_truthful_example :
    IsHonest (run_tcp used new_connection)
    × IsHonest (
        run_web from_utf8 to_utf8
          (connects_web proxy_url ∷ web_enters connected ∷ receives_text "hi" ∷ [])
          new_connection)
    × ((run_tcp
          (connects plain_url ∷ enters connected ∷ [])
          (Tcp.connect_server proxy_url (run_tcp used new_connection))).is_connected
        ≡ false)
connected_truthful_example =
    connected_truthful from_utf8 to_utf8 used used (connects plain_url ∷ enters connected ∷ [])
      (connects_web proxy_url ∷ web_enters connected ∷ receives_text "hi" ∷ []) proxy_url refl
      used_gone (λ e. absurd (ground (arith, e)), (λ e. absurd (ground (arith, e)), tt))
