-- ===== src/ProxyConnection.antt =====
-- libnymea-remoteproxyclient/proxyconnection.h and proxyconnection.cpp, with its two kinds,
-- tcpsocketconnection.h and .cpp and websocketconnection.h and .cpp: the connection of the client
-- library to the proxy. Its sockets are Qt's; what they are told is written down in order.
pub mod Tcp
pub mod Web
pub mod Events
pub mod Truthful
use nymea_remoteproxy.Base.{
  ℕ, Bool, true, false, not, List, [], ◌∷◌, String, str_eq, Bytes, if◌then◌else◌,
}
use nymea_remoteproxy.SocketServer.{
  SocketState, unconnected, host_lookup, connecting, connected, bound, closing, listening,
}

-- The signals of ProxyConnection.
pub data ConnectionSignal : Type 0 where
  connected_changed : Bool → ConnectionSignal
  data_received : Bytes → ConnectionSignal
  state_changed : SocketState → ConnectionSignal
  error_occurred : ℕ → ConnectionSignal

-- What the socket of the connection is told.
pub data SocketCall : Type 0 where
  wrote : Bytes → SocketCall
  sent_text : String → SocketCall
  connects_to connects_encrypted : String → ℕ → SocketCall
  opens : String → String → ℕ → SocketCall
  closes disconnects aborts : SocketCall

pub record ProxyUrl : Type 0 where
  pub scheme : String
  pub host : String
  pub port : ℕ

pub record ProxyConnection : Type 0 where
  pub server_url : ProxyUrl
  pub is_connected : Bool
  -- of a TcpSocketConnection
  pub ssl : Bool
  -- the signals and the calls, the latest first
  pub signals : List ConnectionSignal
  pub calls : List SocketCall

unfoldable pub new_connection : ProxyConnection
new_connection = record {
  server_url = record { scheme = ""; host = ""; port = 0 };
  is_connected = false;
  ssl = false;
  signals = [];
  calls = [];
}

abbrev pub emit : ConnectionSignal → ProxyConnection → ProxyConnection
emit signal c = record c { signals = signal ∷ c.signals }

abbrev pub call : SocketCall → ProxyConnection → ProxyConnection
call k c = record c { calls = k ∷ c.calls }

abbrev pub same : Bool → Bool → Bool
same true b = b
same false b = not b

unfoldable pub set_connected : Bool → ProxyConnection → ProxyConnection
set_connected is_connected c =
    if same c.is_connected is_connected
    then c
    else emit (connected_changed is_connected) (record c { is_connected = is_connected })

-- Both kinds.
unfoldable pub on_disconnected : ProxyConnection → ProxyConnection
unfolding set_connected
on_disconnected c = set_connected false c

unfoldable pub on_error : ℕ → ProxyConnection → ProxyConnection
on_error error c = emit (error_occurred error) c
