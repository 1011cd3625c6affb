-- ===== src/ProxyConnection/Truthful.antt =====
-- What a connection of the client library says of itself (proxyconnection.cpp,
-- tcpsocketconnection.cpp, websocketconnection.cpp).
use nymea_remoteproxy.Base.{
  All, ◌≢◌, ◌≡◌, refl, Bool, true, false, not, String, str_eq, List, [], ◌∷◌, Bytes, if◌then◌else◌,
  arith, sym, ◌∙◌, ap,
}
use nymea_remoteproxy.SocketServer.{
  SocketState, unconnected, host_lookup, connecting, connected, bound, closing, listening,
}
use nymea_remoteproxy.ProxyConnection.{
  same, ProxyConnection, ProxyUrl, ConnectionSignal, connected_changed, data_received,
  state_changed, error_occurred, new_connection, set_connected, on_disconnected, on_error, emit,
}
use nymea_remoteproxy.ProxyConnection.Tcp
use nymea_remoteproxy.ProxyConnection.Web
use nymea_remoteproxy.ProxyConnection.Events.{
  TcpEvent, WebEvent, sends, connects, disconnects, disconnected, encrypted, fails, enters,
  receives, sends_text, connects_web, disconnects_web, web_disconnected, web_fails, web_enters,
  receives_text, handle_tcp, run_tcp, handle_web, run_web,
}

-- What connectedChanged said last, of the signals with the latest first.
abbrev pub last_said : List ConnectionSignal → Bool
last_said [] = false
last_said (connected_changed b ∷ signals) = b
last_said (data_received bytes ∷ signals) = last_said signals
last_said (state_changed state ∷ signals) = last_said signals
last_said (error_occurred error ∷ signals) = last_said signals

-- connectedChanged says the opposite of what it said before, and first that it is connected.
abbrev pub Alternating : List ConnectionSignal → Type 0
Alternating [] = Unit
Alternating (connected_changed b ∷ signals) = (b ≡ not (last_said signals)) × Alternating signals
Alternating (data_received bytes ∷ signals) = Alternating signals
Alternating (state_changed state ∷ signals) = Alternating signals
Alternating (error_occurred error ∷ signals) = Alternating signals

abbrev pub IsHonest : ProxyConnection → Type 0
IsHonest c = Alternating c.signals × (last_said c.signals ≡ c.is_connected)

set_connected-IsHonest :
    (b : Bool) (c : ProxyConnection) → IsHonest c → IsHonest (set_connected b c)
unfolding set_connected
set_connected-IsHonest b c h = either c.is_connected b refl
  where
    either :
        (old new : Bool)
        → c.is_connected ≡ old
        → IsHonest (
            if same old new
            then c
            else emit (connected_changed new) (record c { is_connected = new }))
    either true true e = h
    either true false e = ((sym (ap not (h.1 ∙ e)), h.0), refl)
    either false true e = ((sym (ap not (h.1 ∙ e)), h.0), refl)
    either false false e = h

if-IsHonest :
    (b : Bool) (c c' : ProxyConnection) → IsHonest c → IsHonest c' → IsHonest (if b then c else c')
if-IsHonest true c c' h h' = h
if-IsHonest false c c' h h' = h'

on_state_changed-IsHonest :
    (state : SocketState) (c : ProxyConnection)
    → IsHonest c
    → IsHonest (Tcp.on_state_changed state c) × IsHonest (Web.on_state_changed state c)
unfolding Tcp.on_state_changed Web.on_state_changed
on_state_changed-IsHonest unconnected c h = let k = set_connected-IsHonest false c h in (k, k)
on_state_changed-IsHonest host_lookup c h = let k = set_connected-IsHonest false c h in (k, k)
on_state_changed-IsHonest connecting c h = let k = set_connected-IsHonest false c h in (k, k)
on_state_changed-IsHonest connected c h =
    let k = set_connected-IsHonest true c h in (if-IsHonest (not c.ssl) _ c k h, k)
on_state_changed-IsHonest bound c h = let k = set_connected-IsHonest false c h in (k, k)
on_state_changed-IsHonest closing c h = let k = set_connected-IsHonest false c h in (k, k)
on_state_changed-IsHonest listening c h = let k = set_connected-IsHonest false c h in (k, k)

handle_tcp-IsHonest :
    (event : TcpEvent) (c : ProxyConnection) → IsHonest c → IsHonest (handle_tcp event c)
unfolding handle_tcp Tcp.send_data Tcp.connect_server Tcp.disconnect_server on_disconnected
    Tcp.on_encrypted on_error Tcp.on_ready_read
handle_tcp-IsHonest (sends bytes) c h = h
handle_tcp-IsHonest (connects url) c h = if-IsHonest (str_eq url.scheme "tcp") _ _ h h
handle_tcp-IsHonest disconnects c h = h
handle_tcp-IsHonest disconnected c h = set_connected-IsHonest false c h
handle_tcp-IsHonest encrypted c h = set_connected-IsHonest true c h
handle_tcp-IsHonest (fails error) c h = h
handle_tcp-IsHonest (enters state) c h = (on_state_changed-IsHonest state c h).0
handle_tcp-IsHonest (receives bytes) c h = h

run_tcp-IsHonest :
    (events : List TcpEvent) (c : ProxyConnection) → IsHonest c → IsHonest (run_tcp events c)
unfolding run_tcp
run_tcp-IsHonest [] c h = h
run_tcp-IsHonest (event ∷ events) c h = run_tcp-IsHonest events _ (handle_tcp-IsHonest event c h)

module _ (from_utf8 : Bytes → String) (to_utf8 : String → Bytes) where
  handle_web-IsHonest :
      (event : WebEvent) (c : ProxyConnection)
      → IsHonest c
      → IsHonest (handle_web from_utf8 to_utf8 event c)
  unfolding handle_web Web.send_data Web.connect_server Web.disconnect_server on_disconnected
      on_error Web.on_text_message_received
  handle_web-IsHonest (sends_text bytes) c h = h
  handle_web-IsHonest (connects_web url) c h = if-IsHonest c.is_connected _ _ h h
  handle_web-IsHonest disconnects_web c h = h
  handle_web-IsHonest web_disconnected c h = set_connected-IsHonest false c h
  handle_web-IsHonest (web_fails error) c h = h
  handle_web-IsHonest (web_enters state) c h = (on_state_changed-IsHonest state c h).1
  handle_web-IsHonest (receives_text message) c h = h

  run_web-IsHonest :
      (events : List WebEvent) (c : ProxyConnection)
      → IsHonest c
      → IsHonest (run_web from_utf8 to_utf8 events c)
  unfolding run_web
  run_web-IsHonest [] c h = h
  run_web-IsHonest (event ∷ events) c h = run_web-IsHonest events _ (handle_web-IsHonest event c h)

-- No event is the end of a handshake.
abbrev pub NotEncrypted : List TcpEvent → Type 0
NotEncrypted events = All (λ event. event ≢ encrypted) events

abbrev Waiting : ProxyConnection → Type 0
Waiting c = (c.ssl ≡ true) × (c.is_connected ≡ false)

set_connected-Waiting : (c : ProxyConnection) → Waiting c → Waiting (set_connected false c)
unfolding set_connected
set_connected-Waiting c h = ground (arith, h.0, h.1)

if-Waiting :
    (b : Bool) (c c' : ProxyConnection)
    → (b ≡ true → Waiting c)
    → Waiting c'
    → Waiting (if b then c else c')
if-Waiting true c c' h h' = h refl
if-Waiting false c c' h h' = h'

on_state_changed-Waiting :
    (state : SocketState) (c : ProxyConnection) → Waiting c → Waiting (Tcp.on_state_changed state c)
unfolding Tcp.on_state_changed
on_state_changed-Waiting unconnected c h = set_connected-Waiting c h
on_state_changed-Waiting host_lookup c h = set_connected-Waiting c h
on_state_changed-Waiting connecting c h = set_connected-Waiting c h
on_state_changed-Waiting connected c h =
    if-Waiting (not c.ssl) _ c (λ plain. absurd (ground (arith, plain, h.0))) h
on_state_changed-Waiting bound c h = set_connected-Waiting c h
on_state_changed-Waiting closing c h = set_connected-Waiting c h
on_state_changed-Waiting listening c h = set_connected-Waiting c h

handle_tcp-Waiting :
    (event : TcpEvent) (c : ProxyConnection)
    → event ≢ encrypted
    → Waiting c
    → Waiting (handle_tcp event c)
unfolding handle_tcp Tcp.send_data Tcp.connect_server Tcp.disconnect_server on_disconnected
    Tcp.on_encrypted on_error Tcp.on_ready_read
handle_tcp-Waiting (sends bytes) c n h = h
handle_tcp-Waiting (connects url) c n h =
    if-Waiting (str_eq url.scheme "tcp") _ _ (λ e. h) (refl, h.1)
handle_tcp-Waiting disconnects c n h = h
handle_tcp-Waiting disconnected c n h = set_connected-Waiting c h
handle_tcp-Waiting encrypted c n h = absurd (n refl)
handle_tcp-Waiting (fails error) c n h = h
handle_tcp-Waiting (enters state) c n h = on_state_changed-Waiting state c h
handle_tcp-Waiting (receives bytes) c n h = h

run_tcp-Waiting :
    (events : List TcpEvent) (c : ProxyConnection)
    → NotEncrypted events
    → Waiting c
    → Waiting (run_tcp events c)
unfolding run_tcp
run_tcp-Waiting [] c n h = h
run_tcp-Waiting (event ∷ events) c n h =
    run_tcp-Waiting events _ n.1 (handle_tcp-Waiting event c n.0 h)

connect_server-Waiting :
    (url : ProxyUrl) (c : ProxyConnection)
    → str_eq url.scheme "tcp" ≡ false
    → c.is_connected ≡ false
    → Waiting (Tcp.connect_server url c)
unfolding Tcp.connect_server
connect_server-Waiting url c e gone = rw e (refl, gone)

encryption_first :
    (url : ProxyUrl) (events : List TcpEvent) (c : ProxyConnection)
    → str_eq url.scheme "tcp" ≡ false
    → c.is_connected ≡ false
    → NotEncrypted events
    → (run_tcp events (Tcp.connect_server url c)).is_connected ≡ false
encryption_first url events c e gone n =
    (run_tcp-Waiting events _ n (connect_server-Waiting url c e gone)).1

-- Whatever happens to a new connection of either kind, connectedChanged says in turn that it is
-- connected and that it is not, and connected() is what it said last. A TCP connection that is
-- asked to connect with encryption while it is not connected, whatever happened to it before, is
-- not said to be connected before Qt has reported the encryption; so it is not even if it is then
-- asked to connect without encryption and does, since nothing takes the encryption back.
pub connected_truthful :
    (from_utf8 : Bytes → String) (to_utf8 : String → Bytes)
    (tcp_events before waiting : List TcpEvent) (web_events : List WebEvent) (url : ProxyUrl)
    → str_eq url.scheme "tcp" ≡ false
    → (run_tcp before new_connection).is_connected ≡ false
    → NotEncrypted waiting
    → IsHonest (run_tcp tcp_events new_connection)
      × IsHonest (run_web from_utf8 to_utf8 web_events new_connection)
      × ((run_tcp waiting (Tcp.connect_server url (run_tcp before new_connection))).is_connected
          ≡ false)
unfolding new_connection
connected_truthful from_utf8 to_utf8 tcp_events before waiting web_events url e gone n = (
  run_tcp-IsHonest tcp_events _ (tt, refl),
  run_web-IsHonest from_utf8 to_utf8 web_events _ (tt, refl),
  encryption_first url waiting _ e gone n,
)
