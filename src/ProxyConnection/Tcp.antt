-- ===== src/ProxyConnection/Tcp.antt =====
-- libnymea-remoteproxyclient/tcpsocketconnection.cpp.
use Prim.Native.Nat.{◌%◌, ◌^◌}
use nymea_remoteproxy.Base.{true, false, not, Bytes, str_eq, if◌then◌else◌}
use nymea_remoteproxy.SocketServer.{SocketState, connected}
use nymea_remoteproxy.ProxyConnection.{
  ProxyConnection, ProxyUrl, data_received, state_changed, wrote, connects_to, connects_encrypted,
  closes, disconnects, aborts, emit, call, set_connected,
}

unfoldable pub send_data : Bytes → ProxyConnection → ProxyConnection
send_data bytes c = call (wrote bytes) c

unfoldable pub on_encrypted : ProxyConnection → ProxyConnection
unfolding set_connected
on_encrypted c = set_connected true c

unfoldable pub on_state_changed : SocketState → ProxyConnection → ProxyConnection
unfolding set_connected
on_state_changed connected c =
    emit (state_changed connected) (if not c.ssl then set_connected true c else c)
on_state_changed state c = emit (state_changed state) (set_connected false c)

unfoldable pub on_ready_read : Bytes → ProxyConnection → ProxyConnection
on_ready_read bytes c = emit (data_received bytes) c

-- The port is cut to 16 bits. A connection that has been asked for encryption stays so.
unfoldable pub connect_server : ProxyUrl → ProxyConnection → ProxyConnection
connect_server url c =
    if str_eq url.scheme "tcp"
    then call (connects_to url.host (url.port % 2 ^ 16)) (record c { server_url = url })
    else call (connects_encrypted url.host (url.port % 2 ^ 16))
        (record c { server_url = url; ssl = true })

unfoldable pub disconnect_server : ProxyConnection → ProxyConnection
disconnect_server c = call aborts (call closes (call disconnects c))
