-- ===== src/Connections.antt =====
-- libnymea-remoteproxy/tunnelproxy/tunnelproxyserverconnection.h and .cpp,
-- tunnelproxyclientconnection.h and .cpp: what the server keeps of a registered server and of a
-- registered client. A pointer to a TransportClient is its client id, a pointer to a server
-- connection its server uuid, and a pointer to a client connection its client uuid, under which
-- the server stores it.
pub mod Addresses
pub mod Entries
use nymea_remoteproxy.Base.{
  ℕ, zero, suc, ◌+◌, ◌%◌, ◌^◌, Bool, ◌||◌, Option, none, some, List, [], String, Hash, value,
  contains, insert, remove, keys, if◌then◌else◌, ◌==◌,
}

pub record TunnelProxyClientConnection : Type 0 where
  pub transport_client : ℕ
  pub server_connection : Option ℕ
  pub client_uuid : ℕ
  pub client_name : String
  pub server_uuid : ℕ
  pub socket_address : ℕ

pub record TunnelProxyServerConnection : Type 0 where
  pub transport_client : ℕ
  pub server_uuid : ℕ
  pub server_name : String
  pub connection_limit : ℕ
  pub current_address_counter : ℕ
  pub client_connections : Hash ℕ
  pub client_connections_addresses : Hash ℕ

unfoldable pub new_client_connection : ℕ → ℕ → String → TunnelProxyClientConnection
new_client_connection transport_client client_uuid client_name = record {
  transport_client = transport_client;
  server_connection = none;
  client_uuid = client_uuid;
  client_name = client_name;
  server_uuid = 0;
  socket_address = 0xFFFF;
}

unfoldable pub new_server_connection : ℕ → ℕ → String → TunnelProxyServerConnection
new_server_connection transport_client server_uuid server_name = record {
  transport_client = transport_client;
  server_uuid = server_uuid;
  server_name = server_name;
  connection_limit = 100;
  current_address_counter = 0;
  client_connections = [];
  client_connections_addresses = [];
}

-- The uuid of a server connection is its name here, so it is what setServerConnection copies.
unfoldable pub set_server_connection :
    Option ℕ → TunnelProxyClientConnection → TunnelProxyClientConnection
set_server_connection none c = record c { server_connection = none; server_uuid = 0 }
set_server_connection (some s) c = record c { server_connection = some s; server_uuid = s }

unfoldable pub set_socket_address : ℕ → TunnelProxyClientConnection → TunnelProxyClientConnection
set_socket_address address c = record c { socket_address = address }

-- The loop of getFreeAddress over the rounds left: quint16, so the address wraps.
unfoldable pub skip_used : ℕ → Hash ℕ → ℕ → ℕ
skip_used zero used address = address
skip_used (suc rounds) used address =
    let next = skip_used rounds used ((address + 1) % 2 ^ 16) in
    if contains used address || (address == 0x0000 || address == 0xFFFF) then next else address

unfoldable pub get_free_address : TunnelProxyServerConnection → TunnelProxyServerConnection × ℕ
get_free_address s =
    let counter = (s.current_address_counter + 1) % 2 ^ 16 in
    (
      record s { current_address_counter = counter },
      skip_used s.connection_limit s.client_connections_addresses counter,
    )

-- Both objects are written; the results are the server's and the client's connection.
unfoldable pub register_client_connection :
    TunnelProxyServerConnection
    → TunnelProxyClientConnection
    → TunnelProxyServerConnection × TunnelProxyClientConnection
unfolding set_socket_address set_server_connection
register_client_connection s c =
    let (s', address) = get_free_address s in
    (
      record s' {
        client_connections_addresses = insert s'.client_connections_addresses address c.client_uuid;
        client_connections = insert s'.client_connections c.client_uuid c.client_uuid;
      },
      set_server_connection (some s.server_uuid) (set_socket_address address c),
    )

unfoldable pub unregister_client_connection :
    TunnelProxyServerConnection
    → TunnelProxyClientConnection
    → TunnelProxyServerConnection × TunnelProxyClientConnection
unfolding set_socket_address set_server_connection
unregister_client_connection s c = (
  record s {
    client_connections = remove s.client_connections c.client_uuid;
    client_connections_addresses = remove s.client_connections_addresses c.socket_address;
  },
  set_server_connection none (set_socket_address 0xFFFF c),
)

unfoldable pub get_client_connection : TunnelProxyServerConnection → ℕ → Option ℕ
get_client_connection s address = value s.client_connections_addresses address
