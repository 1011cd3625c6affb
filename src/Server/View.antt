-- ===== src/Server/View.antt =====
-- The part of the server's state that its bookkeeping is about: which socket is registered as what,
-- the two tables of connections, and the clients of the JSON RPC server. What only sends, kills or
-- counts leaves it as it is.
use mathlib.Core.Option
use mathlib.Core.Path.{fun_ext}
use nymea_remoteproxy.Base.{
  ◌⊎◌, ℕ, ◌≡◌, refl, Option, none, some, List, String, Hash, value, value-modify, count,
  count-modify, modify, length, ◌+◌, Bytes, arith, Option-cases, inl, inr, ap,
}
use nymea_remoteproxy.Client.{
  ClientType, type_none, type_server, type_client, ClientType, TunnelProxyClient, add_tx_data_count,
  kill_connection_after_response,
}
use nymea_remoteproxy.Connections.{TunnelProxyServerConnection, TunnelProxyClientConnection}
use nymea_remoteproxy.Variant.{VariantMap, ℤ, Qt}
use nymea_remoteproxy.Types.{TunnelProxyError}
use nymea_remoteproxy.State.{
  TunnelProxyServer, modify_client, send_data, kill_connection, send_document, send_response,
  send_error_response, send_notification,
}
use nymea_remoteproxy.Registration.{refuse, kill_client_connection}

-- What a socket is registered as.
abbrev pub Role : Type 0
Role = ClientType × ℕ

pub type_cases : (t : ClientType) → (t ≡ type_none) ⊎ (t ≡ type_server) ⊎ (t ≡ type_client)
type_cases type_none = inl refl
type_cases type_server = inr (inl refl)
type_cases type_client = inr (inr refl)

abbrev pub role_of : TunnelProxyClient → Role
role_of c = (c.type, c.uuid)

abbrev pub role_in : Hash TunnelProxyClient → ℕ → Option Role
role_in clients id = Option.map role_of (value clients id)

pub record View : Type 0 where
  pub role : ℕ → Option Role
  pub servers : Hash TunnelProxyServerConnection
  pub clients : Hash TunnelProxyClientConnection
  pub json_clients : List ℕ
  pub socket_count : ℕ

abbrev pub view : TunnelProxyServer → View
view w = record {
  role = role_in w.proxy_clients;
  servers = w.tunnel_proxy_server_connections;
  clients = w.tunnel_proxy_client_connections;
  json_clients = w.clients;
  socket_count = count w.proxy_clients;
}

map_kept :
    (f : TunnelProxyClient → TunnelProxyClient) (o : Option TunnelProxyClient)
    → ((c : TunnelProxyClient) → role_of (f c) ≡ role_of c)
    → Option.map role_of (Option.map f o) ≡ Option.map role_of o
map_kept f none h = refl
map_kept f (some c) h = ap {B = Option Role} some (h c)

pub role-modify :
    (clients : Hash TunnelProxyClient) (id : ℕ) (f : TunnelProxyClient → TunnelProxyClient) (j : ℕ)
    → ((c : TunnelProxyClient) → role_of (f c) ≡ role_of c)
    → role_in (modify clients id f) j ≡ role_in clients j
role-modify clients id f j h =
    ground (arith, value-modify clients id f j, map_kept f (value clients j) h)

pub view-modify_client :
    (id : ℕ) (f : TunnelProxyClient → TunnelProxyClient) (w : TunnelProxyServer)
    → ((c : TunnelProxyClient) → role_of (f c) ≡ role_of c)
    → view (modify_client id f w) ≡ view w
unfolding modify_client
view-modify_client id f w h = λ i. record (view w) {
  role = fun_ext (λ j. role-modify w.proxy_clients id f j h) i;
  socket_count = count-modify w.proxy_clients id f i;
}

pub view-send_data :
    (w : TunnelProxyServer) (id : ℕ) (bytes : Bytes) → view (send_data w id bytes) ≡ view w
unfolding send_data add_tx_data_count
view-send_data w id bytes = elim (Option-cases (value w.proxy_clients id)) [
  | inl e ↦ rw (e, send_data)
  | inr (c, e) ↦
      rw (e, send_data) (view-modify_client id (add_tx_data_count (length bytes)) w (λ c. refl))
]

pub view-kill_connection :
    (w : TunnelProxyServer) (id : ℕ) (reason : String) → view (kill_connection w id reason) ≡ view w
unfolding kill_connection
view-kill_connection w id reason = elim (Option-cases (value w.proxy_clients id)) [
  | inl e ↦ rw (e, kill_connection)
  | inr (c, e) ↦ rw (e, kill_connection)
]

pub view-refuse :
    (w : TunnelProxyServer) (id : ℕ) (reason : String) (error : TunnelProxyError)
    → view (refuse w id reason error).0 ≡ view w
unfolding refuse kill_connection_after_response
view-refuse w id reason error =
    view-modify_client id (kill_connection_after_response reason) w (λ c. refl)

pub view-kill_client_connection :
    (w : TunnelProxyServer) (uuid : ℕ) (reason : String)
    → view (kill_client_connection w uuid reason) ≡ view w
unfolding kill_client_connection
view-kill_client_connection w uuid reason =
    elim (Option-cases (value w.tunnel_proxy_client_connections uuid)) [
      | inl e ↦ rw (e, kill_client_connection)
      | inr (c, e) ↦
          rw (e, kill_client_connection) (view-kill_connection w c.transport_client reason)
    ]

module _ (q : Qt) where
  pub view-send_response :
      (w : TunnelProxyServer) (id : ℕ) (n : ℤ) (params : VariantMap)
      → view (send_response q w id n params) ≡ view w
  unfolding send_response send_document
  view-send_response w id n params = view-send_data w id _

  pub view-send_error_response :
      (w : TunnelProxyServer) (id : ℕ) (n : ℤ) (error : String)
      → view (send_error_response q w id n error) ≡ view w
  unfolding send_error_response send_document
  view-send_error_response w id n error = view-send_data w id _

  pub view-send_notification :
      (w : TunnelProxyServer) (name_space method : String) (params : VariantMap) (id : ℕ)
      → view (send_notification q w name_space method params id) ≡ view w
  unfolding send_notification send_document
  view-send_notification w name_space method params id =
      view-send_data (record w { notification_id = w.notification_id + 1 }) id _
