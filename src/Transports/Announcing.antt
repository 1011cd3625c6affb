-- ===== src/Transports/Announcing.antt =====
-- The three transports together (tcpsocketserver.cpp, websocketserver.cpp, unixsocketserver.cpp).
use nymea_remoteproxy.Base.{
  ℕ, ◌≡◌, ◌≢◌, Bool, some, List, String, Bytes, Hash, value, contains, member,
}
use nymea_remoteproxy.Transports.{Signal, key}
use nymea_remoteproxy.Transports.Sessions.{WellAnnounced, connected}
use nymea_remoteproxy.Transports.TcpSockets.{new_tcp_socket_server}
use nymea_remoteproxy.Transports.TcpEvents.{Event, run}
use nymea_remoteproxy.Transports.TcpSessions.{run-IsAccurate}
use nymea_remoteproxy.Transports.WebSockets.{WebSocketServer, on_client_disconnected}
use nymea_remoteproxy.Transports.WebSessions
use nymea_remoteproxy.Transports.UnixSockets.{UnixSocketServer}
use nymea_remoteproxy.Transports.UnixSessions

-- The signals keep to the order that the TunnelProxyServer relies on, and the table has exactly the
-- clients that are connected.
abbrev pub Announces : Hash ℕ → List Signal → Type 0
Announces clients signals =
    WellAnnounced signals × ((id : ℕ) → contains clients id ≡ member id (connected signals))

module _ (from_utf8 : Bytes → String) (to_utf8 : String → Bytes) (number_text : ℕ → String)
    (create_uuid : ℕ → ℕ) (peer_address : ℕ → String) where
  -- In each state of a transport of any kind, with uuids that createUuid never gives twice: each
  -- client is announced once, its data and its end are announced only while it is connected, and
  -- the table has exactly the clients that are connected. The end of the socket of a client of a
  -- WebSocketServer finds its entry, and the uuid that the handler of a client's data in a
  -- UnixSocketServer has captured is the one that the client is in the table under.
  pub transports_announce :
      (qt_6 ssl_enabled : Bool) (events : List Event) (file : String) (web : WebSocketServer)
      (unix : UnixSocketServer)
      → ((m n : ℕ) → create_uuid m ≡ create_uuid n → m ≡ n)
      → WebSessions.Reachable from_utf8 to_utf8 number_text create_uuid ssl_enabled web
      → UnixSessions.Reachable create_uuid file unix
      → (let tcp = run qt_6 create_uuid peer_address events (new_tcp_socket_server ssl_enabled) in
          Announces tcp.client_list tcp.signals)
        × Announces web.client_list web.signals
        × ((client : ℕ)
            → key web.client_list client ≢ 0
            → (web' : WebSocketServer) × (on_client_disconnected client web ≡ some web'))
        × Announces unix.client_list unix.signals
        × ((id client : ℕ)
            → value unix.client_list id ≡ some client
            → value unix.captured client ≡ some id)
  transports_announce qt_6 ssl_enabled events file web unix unique reached reached_too =
      let w =
        WebSessions.Reachable-IsAnnounced from_utf8 to_utf8 number_text create_uuid ssl_enabled web
          unique reached in
      let u = UnixSessions.Reachable-IsCaptured create_uuid file unix unique reached_too in
      (
        run-IsAccurate qt_6 create_uuid peer_address ssl_enabled events unique,
        (w.0, w.1),
        w.2,
        (u.0, u.1),
        u.2,
      )
