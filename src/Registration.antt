-- ===== src/Registration.antt =====
-- libnymea-remoteproxy/tunnelproxy/tunnelproxyserver.cpp: registerServer, registerClient and
-- disconnectClient. Each gives the state after it and the error code of the reply.
use nymea_remoteproxy.Base.{
  ℕ, Bool, true, false, not, Option, none, some, String, value, contains, insert, if◌then◌else◌,
}
use nymea_remoteproxy.Client.{
  ClientType, type_none, type_server, type_client, TunnelProxyClient,
  kill_connection_after_response, enable_slip_after_response, set_uuid, set_name, set_type,
  activate_client,
}
use nymea_remoteproxy.Connections.{
  TunnelProxyServerConnection, TunnelProxyClientConnection, new_client_connection,
  new_server_connection, set_server_connection, register_client_connection, get_client_connection,
}
use nymea_remoteproxy.Variant.{VariantMap, number, string, pos, end, insert_value, Qt}
use nymea_remoteproxy.Types.{
  TunnelProxyError, no_error, internal_server_error, server_not_found, already_registered,
  unknown_socket_address,
}
use nymea_remoteproxy.State.{TunnelProxyServer, modify_client, kill_connection, send_notification}

abbrev pub is_type_none : ClientType → Bool
is_type_none type_none = true
is_type_none _ = false

abbrev pub is_type_server : ClientType → Bool
is_type_server type_server = true
is_type_server _ = false

abbrev pub is_type_client : ClientType → Bool
is_type_client type_client = true
is_type_client _ = false

abbrev pub Answer : Type 0
Answer = TunnelProxyServer × TunnelProxyError

-- A refusal schedules the end of the connection after the response.
unfoldable pub refuse : TunnelProxyServer → ℕ → String → TunnelProxyError → Answer
refuse w id reason error = (modify_client id (kill_connection_after_response reason) w, error)

abbrev pub as_server : ℕ → String → TunnelProxyClient → TunnelProxyClient
as_server uuid name c =
    enable_slip_after_response
      (activate_client (set_name name (set_uuid uuid (set_type type_server c))))

unfoldable pub accept_server : TunnelProxyServer → ℕ → ℕ → String → TunnelProxyServer
accept_server w id server_uuid server_name =
    let w' = modify_client id (as_server server_uuid server_name) w in
    record w' {
      tunnel_proxy_server_connections =
          insert w.tunnel_proxy_server_connections server_uuid
            (new_server_connection id server_uuid server_name);
    }

unfoldable pub register_server : TunnelProxyServer → ℕ → ℕ → String → Answer
register_server w id server_uuid server_name = elim (value w.proxy_clients id) [
  | none ↦ (w, internal_server_error)
  | some c ↦
      if not (is_type_none c.type)
      then refuse w id "Already registered" already_registered
      else if contains w.tunnel_proxy_server_connections server_uuid
      then refuse w id "Already registered" already_registered
      else if contains w.tunnel_proxy_client_connections server_uuid
      then refuse w id "UUID cross registeration" already_registered
      else (accept_server w id server_uuid server_name, no_error)
]

abbrev pub as_client : ℕ → String → TunnelProxyClient → TunnelProxyClient
as_client uuid name c = activate_client (set_name name (set_uuid uuid (set_type type_client c)))

-- The new client connection is known to the server's maps before the server connection writes its
-- address into it: both are written here.
unfoldable pub link_client :
    TunnelProxyServer
    → ℕ
    → ℕ
    → TunnelProxyServerConnection
    → TunnelProxyClientConnection
    → TunnelProxyServer
link_client w client_uuid server_uuid s c =
    let (s', c') = register_client_connection s c in
    record w {
      tunnel_proxy_server_connections = insert w.tunnel_proxy_server_connections server_uuid s';
      tunnel_proxy_client_connections = insert w.tunnel_proxy_client_connections client_uuid c';
    }

abbrev address_of : Option TunnelProxyClientConnection → ℕ
address_of none = 0xFFFF
address_of (some c) = c.socket_address

module _ (q : Qt) where
  unfoldable pub connected_params : TunnelProxyClient → ℕ → VariantMap
  connected_params c address =
      insert_value
        (insert_value
          (insert_value (insert_value end "clientName" (string c.name)) "clientUuid"
            (string (q.uuid_to_text c.uuid)))
          "clientPeerAddress" (string c.peer_address))
        "socketAddress" (number (pos address))

  unfoldable pub accept_client :
      TunnelProxyServer
      → ℕ
      → TunnelProxyClient
      → ℕ
      → String
      → ℕ
      → TunnelProxyServerConnection
      → TunnelProxyServer
  accept_client w id c client_uuid client_name server_uuid s =
      let connection =
        set_server_connection (some server_uuid)
          (new_client_connection id client_uuid client_name) in
      let linked =
        link_client (modify_client id (as_client client_uuid client_name) w) client_uuid server_uuid
          s connection in
      send_notification q linked "TunnelProxy" "ClientConnected"
        (connected_params (as_client client_uuid client_name c)
          (address_of (value linked.tunnel_proxy_client_connections client_uuid)))
        s.transport_client

  unfoldable pub register_client : TunnelProxyServer → ℕ → ℕ → String → ℕ → Answer
  register_client w id client_uuid client_name server_uuid = elim (value w.proxy_clients id) [
    | none ↦ (w, internal_server_error)
    | some c ↦
        if not (is_type_none c.type)
        then refuse w id "Already registered" already_registered
        else if contains w.tunnel_proxy_client_connections client_uuid
        then refuse w id "Already registered" already_registered
        else if contains w.tunnel_proxy_server_connections client_uuid
        then refuse w id "UUID cross registeration" already_registered
        else elim (value w.tunnel_proxy_server_connections server_uuid) [
          | none ↦ refuse w id "Unknown server" server_not_found
          | some s ↦ (accept_client w id c client_uuid client_name server_uuid s, no_error)
        ]
  ]

-- Following the pointer to a client connection to its socket.
unfoldable pub kill_client_connection : TunnelProxyServer → ℕ → String → TunnelProxyServer
kill_client_connection w client_uuid reason =
    elim (value w.tunnel_proxy_client_connections client_uuid) [
      | none ↦ w
      | some c ↦ kill_connection w c.transport_client reason
    ]

unfoldable pub disconnect_client : TunnelProxyServer → ℕ → ℕ → Answer
disconnect_client w id socket_address = elim (value w.proxy_clients id) [
  | none ↦ (w, internal_server_error)
  | some c ↦
      if not (is_type_server c.type)
      then refuse w id "Already registered" already_registered
      else elim (value w.tunnel_proxy_server_connections c.uuid) [
        | none ↦ refuse w id "Internal server error" internal_server_error
        | some s ↦ elim (get_client_connection s socket_address) [
          | none ↦ (w, unknown_socket_address)
          | some client_uuid ↦
              (kill_client_connection w client_uuid "Server requested disconnect.", no_error)
        ]
      ]
]
