-- ===== src/Tests/Remote.antt =====
-- Examples for the theorems on a connection to a server behind the proxy.
use nymea_remoteproxy.Base.{◌≡◌, true, false}
use nymea_remoteproxy.RemoteConnection.{
  TunnelProxyRemoteConnection, new_remote_connection, connect_server, on_connection_changed,
  remote_connected,
}
use nymea_remoteproxy.RemoteConnection.Announced.{believed}
use nymea_remoteproxy.RemoteConnection.Reach.{
  created, then_step, connecting_to, connection_changes, announced_in_reach,
}
use nymea_remoteproxy.Tests.{test_qt}

abbrev idle : TunnelProxyRemoteConnection
idle = new_remote_connection 88 "phone"

abbrev greeting : TunnelProxyRemoteConnection
greeting = on_connection_changed test_qt true (connect_server 77 idle)

announced_in_reach_example : believed false greeting.signals ≡ remote_connected greeting
announced_in_reach_example = announced_in_reach test_qt (
    then_step (then_step (created 88 "phone") (connecting_to 77 idle))
      (connection_changes true (connect_server 77 idle)))
