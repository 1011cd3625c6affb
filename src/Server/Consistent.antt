-- ===== src/Server/Consistent.antt =====
-- The bookkeeping invariant: the tables of connections, the roles of the sockets, and the
-- addresses at the servers agree with one another. It speaks of a server with at most 98 sockets,
-- for which there are addresses enough.
use nymea_remoteproxy.Base.{
  ◌≢◌, ◌<◌, ◌^◌, ◌≤◌, ℕ, ◌≡◌, Option, none, some, value, if◌then◌else◌, ◌==◌, is_some, member,
}
use nymea_remoteproxy.Client.{type_server, type_client}
use nymea_remoteproxy.Connections.{TunnelProxyServerConnection, TunnelProxyClientConnection}
use nymea_remoteproxy.Connections.Entries.{IsNamed, IsDistinct}
use nymea_remoteproxy.Server.View.{View, Role}

abbrev pub owner_of : Option TunnelProxyServerConnection → Option ℕ
owner_of none = none
owner_of (some s) = some s.transport_client

abbrev pub socket_of : Option TunnelProxyClientConnection → Option ℕ
socket_of none = none
socket_of (some c) = some c.transport_client

-- Who a server has at an address, and who it has listed.
abbrev pub address_at : Option TunnelProxyServerConnection → ℕ → Option ℕ
address_at none a = none
address_at (some s) a = value s.client_connections_addresses a

abbrev pub listed_at : Option TunnelProxyServerConnection → ℕ → Option ℕ
listed_at none u = none
listed_at (some s) u = value s.client_connections u

-- The server and the address that a client connection has.
abbrev pub link_of : Option TunnelProxyClientConnection → Option (Option ℕ × ℕ)
link_of none = none
link_of (some c) = some (c.server_connection, c.socket_address)

abbrev pub server_of : Option TunnelProxyClientConnection → Option (Option ℕ)
server_of none = none
server_of (some c) = some c.server_connection

-- An address of a client is 16 bits wide, and neither the API's nor that of no connection.
abbrev pub IsClientAddress : ℕ → Type 0
IsClientAddress a = (a ≢ 0) × (a ≢ 0xFFFF) × (a < 2 ^ 16)

pub record IsConsistent (v : View) : Type 0 where
  pub servers_owned :
      (u : ℕ) (s : TunnelProxyServerConnection)
      → value v.servers u ≡ some s
      → v.role s.transport_client ≡ some (type_server, u)
  pub servers_named :
      (u : ℕ) (s : TunnelProxyServerConnection)
      → value v.servers u ≡ some s
      → (s.server_uuid ≡ u) × (s.connection_limit ≡ 100)
  pub clients_owned :
      (u : ℕ) (c : TunnelProxyClientConnection)
      → value v.clients u ≡ some c
      → v.role c.transport_client ≡ some (type_client, u)
  pub clients_named :
      (u : ℕ) (c : TunnelProxyClientConnection) → value v.clients u ≡ some c → c.client_uuid ≡ u
  pub server_known :
      (id u : ℕ) → v.role id ≡ some (type_server, u) → owner_of (value v.servers u) ≡ some id
  pub client_known :
      (id u : ℕ) → v.role id ≡ some (type_client, u) → socket_of (value v.clients u) ≡ some id
  pub disjoint :
      (u : ℕ) (s : TunnelProxyServerConnection)
      → value v.servers u ≡ some s
      → value v.clients u ≡ none
  pub linked :
      (u x : ℕ) (c : TunnelProxyClientConnection)
      → value v.clients u ≡ some c
      → c.server_connection ≡ some x
      → (address_at (value v.servers x) c.socket_address ≡ some u)
        × (listed_at (value v.servers x) u ≡ some u)
  pub addressed :
      (x a u : ℕ) (s : TunnelProxyServerConnection)
      → value v.servers x ≡ some s
      → value s.client_connections_addresses a ≡ some u
      → link_of (value v.clients u) ≡ some (some x, a)
  pub listed :
      (x k u : ℕ) (s : TunnelProxyServerConnection)
      → value v.servers x ≡ some s
      → value s.client_connections k ≡ some u
      → (k ≡ u) × (server_of (value v.clients u) ≡ some (some x))
  pub entries :
      (x : ℕ) (s : TunnelProxyServerConnection)
      → value v.servers x ≡ some s
      → IsNamed s.client_connections
  pub distinct :
      (x : ℕ) (s : TunnelProxyServerConnection)
      → value v.servers x ≡ some s
      → IsDistinct s.client_connections_addresses
  pub valid :
      (x a u : ℕ) (s : TunnelProxyServerConnection)
      → value v.servers x ≡ some s
      → value s.client_connections_addresses a ≡ some u
      → IsClientAddress a
  pub few : v.socket_count ≤ 98
  pub sockets : (id : ℕ) → member id v.json_clients ≡ is_some (v.role id)

abbrev pub assign : (ℕ → Option Role) → ℕ → Option Role → ℕ → Option Role
assign role id r j = if id == j then r else role j
