-- ===== src/Client.antt =====
-- libnymea-remoteproxy/server/transportclient.h and .cpp, tunnelproxy/tunnelproxyclient.h and .cpp:
-- one connected socket as the server sees it. The class and its base class are one record here;
-- what they send and kill goes out through the server's state (Server).
pub mod Packets
pub mod Fragments
pub mod Slip
pub use Packets.{Cut}
unfoldable pub use Packets.{slip_cut, json_cut}
use nymea_remoteproxy.Base.{
  ℕ, suc, ◌+◌, ◌%◌, ◌^◌, Bool, true, false, ◌&&◌, List, [], String, if◌then◌else◌, Bytes, length,
  ltb,
}

-- The transports of the engine, which a client is connected through.
pub data Transport : Type 0 where
  web_socket tcp unix : Transport

pub data ClientType : Type 0 where
  type_none type_server type_client : ClientType

-- A QTimer; `restarts` says that received data starts it again.
pub record Timer : Type 0 where
  pub interval : ℕ
  pub single_shot : Bool
  pub active : Bool
  pub restarts : Bool

pub record TunnelProxyClient : Type 0 where
  pub interface : Transport
  pub client_id : ℕ
  pub peer_address : String
  pub creation_time_stamp : ℕ
  pub name : String
  pub uuid : ℕ
  pub data_buffer : Bytes
  pub kill_connection_requested : Bool
  pub kill_connection_reason : String
  pub slip_after_response_enabled : Bool
  pub slip_enabled : Bool
  pub message_id : ℕ
  pub rx_data_count : ℕ
  pub tx_data_count : ℕ
  pub inactive_timer : Timer
  pub type : ClientType

-- The constructors. The time and the timeout of the configuration are arguments.
unfoldable pub new_client : Transport → ℕ → String → ℕ → ℕ → TunnelProxyClient
new_client interface client_id address now inactive_timeout = record {
  interface = interface;
  client_id = client_id;
  peer_address = address;
  creation_time_stamp = now;
  name = "";
  uuid = 0;
  data_buffer = [];
  kill_connection_requested = false;
  kill_connection_reason = "";
  slip_after_response_enabled = false;
  slip_enabled = false;
  message_id = 0;
  rx_data_count = 0;
  tx_data_count = 0;
  inactive_timer = record {
    interval = inactive_timeout;
    single_shot = true;
    active = true;
    restarts = false;
  };
  type = type_none;
}

unfoldable pub kill_connection_after_response : String → TunnelProxyClient → TunnelProxyClient
kill_connection_after_response reason c = record c {
  kill_connection_requested = true;
  kill_connection_reason = reason;
}

unfoldable pub enable_slip_after_response : TunnelProxyClient → TunnelProxyClient
enable_slip_after_response c = record c { slip_after_response_enabled = true }

unfoldable pub set_slip_enabled : Bool → TunnelProxyClient → TunnelProxyClient
set_slip_enabled enabled c = record c { slip_enabled = enabled }

unfoldable pub set_uuid : ℕ → TunnelProxyClient → TunnelProxyClient
set_uuid uuid c = record c { uuid = uuid }

unfoldable pub set_name : String → TunnelProxyClient → TunnelProxyClient
set_name name c = record c { name = name }

unfoldable pub set_type : ClientType → TunnelProxyClient → TunnelProxyClient
set_type type c = record c { type = type }

-- QTimer::start and QTimer::stop.
abbrev pub start : Timer → Timer
start t = record t { active = true }

abbrev pub stop : Timer → Timer
stop t = record t { active = false }

-- The counters are 64 bit; the signal rxDataCountChanged starts the timer of a server's socket.
unfoldable pub add_rx_data_count : ℕ → TunnelProxyClient → TunnelProxyClient
add_rx_data_count data_count c = record c {
  rx_data_count = (c.rx_data_count + data_count) % 2 ^ 64;
  inactive_timer =
      if ltb 0 data_count && c.inactive_timer.restarts
      then start c.inactive_timer
      else c.inactive_timer;
}

unfoldable pub add_tx_data_count : ℕ → TunnelProxyClient → TunnelProxyClient
add_tx_data_count data_count c = record c {
  tx_data_count = (c.tx_data_count + data_count) % 2 ^ 64;
}

unfoldable pub buffer_size : TunnelProxyClient → ℕ
buffer_size c = length c.data_buffer

unfoldable pub generate_message_id : TunnelProxyClient → TunnelProxyClient × ℕ
generate_message_id c = (record c { message_id = c.message_id + 1 }, c.message_id + 1)

-- TunnelProxyClient::processData: the packets, and the client with what is left in its buffer.
unfoldable pub process_data : Bytes → TunnelProxyClient → TunnelProxyClient × List Bytes
process_data received c =
    let cut =
      if c.slip_enabled then slip_cut c.data_buffer received else json_cut c.data_buffer received in
    (record c { data_buffer = cut.buffer }, cut.packets)

-- TunnelProxyClient::activateClient: a client's timer stops for good; a server's runs for a minute
-- at a time, and received data starts it again.
unfoldable pub activate_client : TunnelProxyClient → TunnelProxyClient
activate_client c = elim c.type [
  | type_server ↦ record c {
    inactive_timer = record {
      interval = 60000;
      single_shot = false;
      active = true;
      restarts = true;
    };
  }
  | _ ↦ record c { inactive_timer = stop c.inactive_timer }
]
