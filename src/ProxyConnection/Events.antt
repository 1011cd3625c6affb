-- ===== src/ProxyConnection/Events.antt =====
-- What happens to a connection to the proxy (tcpsocketconnection.cpp, websocketconnection.cpp).
use nymea_remoteproxy.Base.{ℕ, String, List, [], ◌∷◌, Bytes}
use nymea_remoteproxy.SocketServer.{SocketState}
use nymea_remoteproxy.ProxyConnection.{ProxyConnection, ProxyUrl, on_disconnected, on_error}
use nymea_remoteproxy.ProxyConnection.Tcp
use nymea_remoteproxy.ProxyConnection.Web

-- What happens to a connection: its methods, and Qt's signals.
pub data TcpEvent : Type 0 where
  sends : Bytes → TcpEvent
  connects : ProxyUrl → TcpEvent
  disconnects : TcpEvent
  disconnected : TcpEvent
  encrypted : TcpEvent
  fails : ℕ → TcpEvent
  enters : SocketState → TcpEvent
  receives : Bytes → TcpEvent

unfoldable pub handle_tcp : TcpEvent → ProxyConnection → ProxyConnection
handle_tcp (sends bytes) c = Tcp.send_data bytes c
handle_tcp (connects url) c = Tcp.connect_server url c
handle_tcp disconnects c = Tcp.disconnect_server c
handle_tcp disconnected c = on_disconnected c
handle_tcp encrypted c = Tcp.on_encrypted c
handle_tcp (fails error) c = on_error error c
handle_tcp (enters state) c = Tcp.on_state_changed state c
handle_tcp (receives bytes) c = Tcp.on_ready_read bytes c

unfoldable pub run_tcp : List TcpEvent → ProxyConnection → ProxyConnection
run_tcp [] c = c
run_tcp (event ∷ events) c = run_tcp events (handle_tcp event c)

pub data WebEvent : Type 0 where
  sends_text : Bytes → WebEvent
  connects_web : ProxyUrl → WebEvent
  disconnects_web : WebEvent
  web_disconnected : WebEvent
  web_fails : ℕ → WebEvent
  web_enters : SocketState → WebEvent
  receives_text : String → WebEvent

module _ (from_utf8 : Bytes → String) (to_utf8 : String → Bytes) where
  unfoldable pub handle_web : WebEvent → ProxyConnection → ProxyConnection
  handle_web (sends_text bytes) c = Web.send_data from_utf8 bytes c
  handle_web (connects_web url) c = Web.connect_server url c
  handle_web disconnects_web c = Web.disconnect_server c
  handle_web web_disconnected c = on_disconnected c
  handle_web (web_fails error) c = on_error error c
  handle_web (web_enters state) c = Web.on_state_changed state c
  handle_web (receives_text message) c = Web.on_text_message_received to_utf8 message c

  unfoldable pub run_web : List WebEvent → ProxyConnection → ProxyConnection
  run_web [] c = c
  run_web (event ∷ events) c = run_web events (handle_web event c)
