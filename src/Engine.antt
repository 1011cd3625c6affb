-- ===== src/Engine.antt =====
-- libnymea-remoteproxy/engine.h and engine.cpp: the Engine, which makes, starts and stops the
-- servers, and its timer. Times are milliseconds; whether an address can be listened on is Qt's.
pub mod Configuration
pub mod Loading
pub mod Monitor
pub mod Requests
pub mod Whole
pub mod Ticks
use Prim.Native.Nat.{◌%◌, ◌^◌, ◌-◌}
use nymea_remoteproxy.Base.{
  ℕ, suc, ◌+◌, Bool, true, false, Option, none, some, String, List, [], ◌∷◌, ◌++◌, if◌then◌else◌,
  leb, ltb,
}
use nymea_remoteproxy.Client.{Transport, web_socket, tcp, unix}
use nymea_remoteproxy.Variant.{
  ℤ, pos, negsuc, Variant, VariantMap, string, map, end, insert_value, Qt,
}
use nymea_remoteproxy.State.{TunnelProxyServer, Settings}
use nymea_remoteproxy.Server.Lifecycle.{new_server, register_transport_interface, tick}
use nymea_remoteproxy.Server.Statistics.{current_statistics}
use nymea_remoteproxy.Server.Lifecycle
use nymea_remoteproxy.Transports.{Call, ServerUrl}
use nymea_remoteproxy.Transports.WebSockets.{WebSocketServer, new_web_socket_server}
use nymea_remoteproxy.Transports.TcpSockets.{TcpSocketServer, new_tcp_socket_server}
use nymea_remoteproxy.Transports.UnixSockets.{UnixSocketServer, new_unix_socket_server}
use nymea_remoteproxy.Transports.WebSockets
use nymea_remoteproxy.Transports.TcpSockets
use nymea_remoteproxy.Transports.UnixSockets
use nymea_remoteproxy.Engine.Configuration.{ProxyConfiguration}
use nymea_remoteproxy.Engine.Monitor.{MonitorServer, new_monitor_server}
use nymea_remoteproxy.Engine.Monitor

pub record Engine : Type 0 where
  pub running : Bool
  pub configuration : Option ProxyConfiguration
  pub tunnel_proxy_server : Option TunnelProxyServer
  pub web_socket_server : Option WebSocketServer
  pub tcp_socket_server : Option TcpSocketServer
  pub unix_socket_server : Option UnixSocketServer
  pub monitor_server : Option MonitorServer
  pub log_engine_enabled : Bool
  pub timer_active : Bool
  pub last_time_stamp : ℕ
  pub current_time_counter : ℤ
  -- the calls of setRunning that wait for the event loop, the first of them first
  pub posted : List Bool
  -- the signal runningChanged, the latest first
  pub running_changed : List Bool
  -- the calls of the servers that have been deleted
  pub past_calls : List Call

-- The constructor.
unfoldable pub new_engine : ℕ → Engine
new_engine now = record {
  running = false;
  configuration = none;
  tunnel_proxy_server = none;
  web_socket_server = none;
  tcp_socket_server = none;
  unix_socket_server = none;
  monitor_server = none;
  log_engine_enabled = false;
  timer_active = false;
  last_time_stamp = now;
  current_time_counter = pos 0;
  posted = [];
  running_changed = [];
  past_calls = [];
}

-- The system's answers to listen.
pub record Listens : Type 0 where
  pub address : String → ℕ → Bool
  pub file : String → Bool

abbrev pub stop_web : Option WebSocketServer → Option WebSocketServer
stop_web none = none
stop_web (some t) = some (WebSockets.stop_server t).0

abbrev pub stop_tcp : Option TcpSocketServer → Option TcpSocketServer
stop_tcp none = none
stop_tcp (some t) = some (TcpSockets.stop_server t).0

abbrev pub stop_unix : Option UnixSocketServer → Option UnixSocketServer
stop_unix none = none
stop_unix (some t) = some (UnixSockets.stop_server t).0

-- What a server did in its time, its destructor's stopServer included.
abbrev web_calls : Option WebSocketServer → List Call
web_calls none = []
web_calls (some t) = (WebSockets.stop_server t).0.calls

abbrev tcp_calls : Option TcpSocketServer → List Call
tcp_calls none = []
tcp_calls (some t) = (TcpSockets.stop_server t).0.calls

abbrev unix_calls : Option UnixSocketServer → List Call
unix_calls none = []
unix_calls (some t) = (UnixSockets.stop_server t).0.calls

abbrev monitor_calls : Option MonitorServer → List Call
monitor_calls none = []
monitor_calls (some m) = (Monitor.stop_server (Monitor.stop_server m)).calls

-- The tunnel proxy server, where there is one, stops the transports, which are its interfaces.
abbrev stopped_by : {A : Type 0} → Option TunnelProxyServer → (A → A) → A → A
stopped_by none f a = a
stopped_by (some w) f a = f a

unfoldable pub clean : Engine → Engine
clean e =
    let w = e.tunnel_proxy_server in
    record e {
      monitor_server = none;
      tunnel_proxy_server = none;
      web_socket_server = none;
      tcp_socket_server = none;
      unix_socket_server = none;
      configuration = none;
      past_calls =
          unix_calls (stopped_by w stop_unix e.unix_socket_server)
          ++ (web_calls (stopped_by w stop_web e.web_socket_server)
              ++ (tcp_calls (stopped_by w stop_tcp e.tcp_socket_server)
                  ++ (monitor_calls e.monitor_server ++ e.past_calls)));
    }

abbrev set_tunnel_running : Bool → Option TunnelProxyServer → Option TunnelProxyServer
set_tunnel_running running none = none
set_tunnel_running running (some w) = some (Lifecycle.set_running running w)

abbrev pub same : Bool → Bool → Bool
same true true = true
same false false = true
same _ _ = false

unfoldable pub set_running : Bool → Engine → Engine
set_running running e = if same e.running running then e else record e {
  tunnel_proxy_server = set_tunnel_running running e.tunnel_proxy_server;
  timer_active = running;
  running = running;
  running_changed = running ∷ e.running_changed;
}

-- The event loop makes the call that has waited longest.
unfoldable pub deliver_posted : List Bool → Engine → Engine
unfolding set_running
deliver_posted [] e = e
deliver_posted (running ∷ posted) e = set_running running (record e { posted = posted })

-- The tunnel proxy server with its transports registered, and started.
abbrev pub new_tunnel : TunnelProxyServer
new_tunnel = Lifecycle.start_server (
    register_transport_interface unix
      (register_transport_interface tcp (register_transport_interface web_socket new_server)))

module _ (listens : Listens) where
  unfoldable pub start : ProxyConfiguration → Engine → Engine
  unfolding clean
  start c e =
      let e' = clean e in
      let web_url : ServerUrl = record {
        host = c.web_socket_server_host;
        port = c.web_socket_server_port;
      } in
      let tcp_url : ServerUrl = record { host = c.tcp_server_host; port = c.tcp_server_port } in
      record e' {
        configuration = some c;
        tunnel_proxy_server = some new_tunnel;
        web_socket_server =
            some
              (WebSockets.start_server listens.address
                (WebSockets.set_server_url web_url (new_web_socket_server c.ssl_enabled))).0;
        tcp_socket_server =
            some
              (TcpSockets.start_server listens.address
                (TcpSockets.set_server_url tcp_url (new_tcp_socket_server c.ssl_enabled))).0;
        unix_socket_server =
            some
              (UnixSockets.start_server listens.file
                (new_unix_socket_server c.unix_socket_file_name)).0;
        monitor_server =
            some
              (Monitor.start_server listens.file (new_monitor_server c.monitor_socket_file_name));
        log_engine_enabled = if c.log_engine_enabled then true else e'.log_engine_enabled;
        posted = e'.posted ++ true ∷ [];
      }

unfoldable pub stop : Engine → Engine
unfolding clean set_running
stop e = set_running false (clean e)

-- Engine::instance, which makes the one engine if there is none.
unfoldable pub instance_of : ℕ → Option Engine → Engine
instance_of now none = new_engine now
instance_of now (some e) = e

abbrev pub minus : ℕ → ℕ → ℤ
minus a b = if leb b a then pos (a - b) else negsuc (b - a - 1)

abbrev add : ℤ → ℤ → ℤ
add (pos a) (pos b) = pos (a + b)
add (pos a) (negsuc b) = minus a (suc b)
add (negsuc a) (pos b) = minus b (suc a)
add (negsuc a) (negsuc b) = negsuc (suc (a + b))

-- The assignment to an int of 32 bits.
abbrev pub to_int32 : ℤ → ℤ
to_int32 (pos n) = let m = n % 2 ^ 32 in if ltb m (2 ^ 31) then pos m else negsuc (2 ^ 32 - 1 - m)
to_int32 (negsuc n) =
    let m = n % 2 ^ 32 in if ltb m (2 ^ 31) then negsuc m else pos (2 ^ 32 - 1 - m)

abbrev pub at_least : ℕ → ℤ → Bool
at_least n (pos m) = leb n m
at_least n (negsuc m) = false

abbrev tick_tunnel : Option TunnelProxyServer → Option TunnelProxyServer
tick_tunnel none = none
tick_tunnel (some w) = some (tick w)

-- The counter after a tick of the timer, before it is tested.
unfoldable pub counted : ℕ → Engine → ℤ
counted timestamp e = to_int32 (add e.current_time_counter (minus timestamp e.last_time_stamp))

unfoldable pub on_timer_tick : ℕ → Engine → Engine
unfolding counted
on_timer_tick timestamp e =
    if at_least 1000 (counted timestamp e)
    then record e {
      last_time_stamp = timestamp;
      current_time_counter = pos 0;
      tunnel_proxy_server = tick_tunnel e.tunnel_proxy_server;
    }
    else record e { last_time_stamp = timestamp; current_time_counter = counted timestamp e }

infixl 5 ◌>>=◌
abbrev ◌>>=◌ : {A B : Type 0} → Option A → (A → Option B) → Option B
none >>= f = none
some a >>= f = f a

module _ (q : Qt) where
  abbrev counts_of : Engine → Transport → ℕ
  counts_of e web_socket = elim e.web_socket_server [
    | none ↦ 0
    | some t ↦ WebSockets.connections_count t
  ]
  counts_of e tcp = elim e.tcp_socket_server [ none ↦ 0 | some t ↦ TcpSockets.connections_count t ]
  counts_of e unix = elim e.unix_socket_server [
    | none ↦ 0
    | some t ↦ UnixSockets.connections_count t
  ]

  -- No result where the configuration or the tunnel proxy server is a null pointer.
  unfoldable pub build_monitor_data : Settings → Bool → Engine → Option VariantMap
  build_monitor_data s print_all e = do
    c ← e.configuration
    w ← e.tunnel_proxy_server
    some (
        insert_value
          (insert_value
            (insert_value (insert_value end "serverName" (string c.server_name)) "serverVersion"
              (string s.server_version_string))
            "apiVersion" (string s.api_version_string))
          "tunnelProxyStatistic" (map (current_statistics q (counts_of e) w print_all)))
