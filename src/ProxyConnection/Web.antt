-- ===== src/ProxyConnection/Web.antt =====
-- libnymea-remoteproxyclient/websocketconnection.cpp. The conversion of texts is Qt's.
use nymea_remoteproxy.Base.{true, false, Bytes, String, if◌then◌else◌}
use nymea_remoteproxy.SocketServer.{SocketState, connected}
use nymea_remoteproxy.ProxyConnection.{
  ProxyConnection, ProxyUrl, data_received, state_changed, sent_text, opens, closes, emit, call,
  set_connected,
}

unfoldable pub send_data : (Bytes → String) → Bytes → ProxyConnection → ProxyConnection
send_data from_utf8 bytes c = call (sent_text (from_utf8 bytes)) c

unfoldable pub on_state_changed : SocketState → ProxyConnection → ProxyConnection
unfolding set_connected
on_state_changed connected c = emit (state_changed connected) (set_connected true c)
on_state_changed state c = emit (state_changed state) (set_connected false c)

unfoldable pub on_text_message_received :
    (String → Bytes) → String → ProxyConnection → ProxyConnection
on_text_message_received to_utf8 message c = emit (data_received (to_utf8 message)) c

unfoldable pub connect_server : ProxyUrl → ProxyConnection → ProxyConnection
connect_server url c =
    let c' = record (if c.is_connected then call closes c else c) { server_url = url } in
    call (opens url.scheme url.host url.port) c'

unfoldable pub disconnect_server : ProxyConnection → ProxyConnection
disconnect_server c = call closes c
