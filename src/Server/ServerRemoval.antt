-- ===== src/Server/ServerRemoval.antt =====
-- What the end of a server's connection does to the tables (tunnelproxyserver.cpp:
-- onClientDisconnected): its clients have no server after it.
use mathlib.Core.Option
use nymea_remoteproxy.Base.{
  ℕ, ◌≤◌, ◌≡◌, refl, false, Option, none, some, List, [], ◌∷◌, Hash, value, values, value-insert,
  value-remove, insert, remove, arith, if◌then◌else◌, ◌==◌, is_some, member, inl, inr, Option-cases,
  ap, ◌∙◌, ◌⊎◌,
}
use nymea_remoteproxy.Client.{type_server}
use nymea_remoteproxy.Connections.{
  TunnelProxyServerConnection, TunnelProxyClientConnection, unregister_client_connection,
  set_socket_address, set_server_connection,
}
use nymea_remoteproxy.Connections.Entries.{member-values}
use nymea_remoteproxy.State.{TunnelProxyServer, kill_connection}
use nymea_remoteproxy.Server.View.{View, view, view-kill_connection}
use nymea_remoteproxy.Server.Sockets.{drop_clients}
use nymea_remoteproxy.Server.Consistent.{IsConsistent, server_of}
use nymea_remoteproxy.Server.Removal.{member-remove_all, remove_socket}

-- A client connection whose server has gone.
unfoldable pub orphan : TunnelProxyClientConnection → TunnelProxyClientConnection
unfolding set_socket_address set_server_connection
orphan c = set_server_connection none (set_socket_address 0xFFFF c)

abbrev pub orphaned :
    List ℕ → Hash TunnelProxyClientConnection → ℕ → Option TunnelProxyClientConnection
orphaned us clients y = if member y us then Option.map orphan (value clients y) else value clients y

orphan_twice :
    (o : Option TunnelProxyClientConnection)
    → Option.map orphan (Option.map orphan o) ≡ Option.map orphan o
unfolding orphan
orphan_twice none = refl
orphan_twice (some c) = refl

orphan_first :
    (clients : Hash TunnelProxyClientConnection) (u : ℕ) (c : TunnelProxyClientConnection)
    (us : List ℕ) (y : ℕ)
    → value clients u ≡ some c
    → orphaned us (insert clients u (orphan c)) y ≡ orphaned (u ∷ us) clients y
orphan_first clients u c us y e =
    ground (arith, e, value-insert clients u (orphan c) y, orphan_twice (some c))

abbrev pub with_clients : View → Hash TunnelProxyClientConnection → View
with_clients v clients = record v { clients = clients }

pub view-drop_clients :
    (w : TunnelProxyServer) (s : TunnelProxyServerConnection) (us : List ℕ)
    → view (drop_clients w s us)
      ≡ with_clients (view w) (drop_clients w s us).tunnel_proxy_client_connections
unfolding drop_clients unregister_client_connection
view-drop_clients w s [] = refl
view-drop_clients w s (u ∷ us) = elim (Option-cases (value w.tunnel_proxy_client_connections u)) [
  | inl e ↦ rw (e, drop_clients) (view-drop_clients w s us)
  | inr (c, e) ↦
      let (s', c') = unregister_client_connection s c in
      let w' = record w {
        tunnel_proxy_client_connections = insert w.tunnel_proxy_client_connections u c';
      } in
      let w'' = kill_connection w' c.transport_client "Server disconnected" in
      rw (e, drop_clients)
        (view-drop_clients w'' s' us
          ∙ ap (λ v. with_clients v (drop_clients w'' s' us).tunnel_proxy_client_connections)
              (view-kill_connection w' c.transport_client "Server disconnected"))
]

pub drop_clients_lem :
    (w : TunnelProxyServer) (s : TunnelProxyServerConnection) (us : List ℕ) (y : ℕ)
    → value (drop_clients w s us).tunnel_proxy_client_connections y
      ≡ orphaned us w.tunnel_proxy_client_connections y
unfolding drop_clients unregister_client_connection orphan
drop_clients_lem w s [] y = refl
drop_clients_lem w s (u ∷ us) y = elim (Option-cases (value w.tunnel_proxy_client_connections u)) [
  | inl e ↦ rw (e, drop_clients) (ground (arith, e, drop_clients_lem w s us y))
  | inr (c, e) ↦
      let (s', c') = unregister_client_connection s c in
      let w' = record w {
        tunnel_proxy_client_connections = insert w.tunnel_proxy_client_connections u c';
      } in
      let w'' = kill_connection w' c.transport_client "Server disconnected" in
      let killed_clients : w''.tunnel_proxy_client_connections
          ≡ w'.tunnel_proxy_client_connections =
        ap {B = Hash TunnelProxyClientConnection} (λ v. v.clients)
          (view-kill_connection w' c.transport_client "Server disconnected") in
      rw (e, drop_clients)
        (drop_clients_lem w'' s' us y
          ∙ ap (λ m. orphaned us m y) killed_clients
          ∙ orphan_first w.tunnel_proxy_client_connections u c us y e)
]

abbrev pub remove_server : View → ℕ → ℕ → ℕ → Hash TunnelProxyClientConnection → View
remove_server v id n x clients = record (remove_socket v id n) {
  servers = remove v.servers x;
  clients = clients;
}

module _ (v : View) (id n x : ℕ) (few : n ≤ 98) (s : TunnelProxyServerConnection)
    (clients : Hash TunnelProxyClientConnection) (h : IsConsistent v)
    (registered : v.role id ≡ some (type_server, x)) (found : value v.servers x ≡ some s)
    (after : (y : ℕ) → value clients y ≡ orphaned (values s.client_connections) v.clients y) where
  gone_after : (y : ℕ) → value (remove v.servers x) y ≡ (if x == y then none else value v.servers y)
  gone_after y = value-remove v.servers x y

  listed_lem :
      (y : ℕ) → member y (values s.client_connections) ≡ is_some (value s.client_connections y)
  listed_lem y = member-values s.client_connections y (h.entries x s found)

  -- What a client connection is now comes from what it was.
  before_orphan :
      (y : ℕ) (d : TunnelProxyClientConnection)
      → value clients y ≡ some d
      → (c : TunnelProxyClientConnection) × (value v.clients y ≡ some c)
        × (d.transport_client ≡ c.transport_client)
        × (d.client_uuid ≡ c.client_uuid)
        × ((d ≡ orphan c) ⊎ ((d ≡ c) × (is_some (value s.client_connections y) ≡ false)))
  unfolding orphan
  before_orphan y d e = elim (Option-cases (value v.clients y)) [
    | inl none_e ↦ absurd (ground (arith, none_e, after y))
    | inr (c, some_e) ↦ (
      c,
      some_e,
      ground (arith, some_e, after y),
      ground (arith, some_e, after y),
      ground (arith, some_e, after y, listed_lem y),
    )
  ]

  -- The server that has gone lists no client of another server.
  unlisted :
      (y z : ℕ)
      → (x == z) ≡ false
      → server_of (value v.clients y) ≡ some (some z)
      → is_some (value s.client_connections y) ≡ false
  unlisted y z other e = elim (Option-cases (value s.client_connections y)) [
    | inl none_e ↦ ap is_some none_e
    | inr (k, some_e) ↦ absurd (ground (arith, h.listed x y k s found some_e))
  ]

  pub remove_server-IsConsistent : IsConsistent (remove_server v id n x clients)
  unfolding orphan
  remove_server-IsConsistent = record {
    servers_owned = λ y t e.
        ground (arith, gone_after y, h.servers_owned y t, h.server_known id y, h.server_known id x);
    servers_named = λ y t e. ground (arith, gone_after y, h.servers_named y t);
    clients_owned = λ y d e.
        let (c, some_e, socket, uuid, r) = before_orphan y d e in
        ground (arith, h.clients_owned y c);
    clients_named = λ y d e.
        let (c, some_e, socket, uuid, r) = before_orphan y d e in
        ground (arith, h.clients_named y c);
    server_known = λ j y e. ground (arith, gone_after y, h.server_known j y, h.server_known id x);
    client_known = λ j y e. ground (arith, after y, h.client_known j y);
    disjoint = λ y t e. ground (arith, gone_after y, after y, h.disjoint y t);
    linked = λ y z d e l.
        let (c, some_e, socket, uuid, r) = before_orphan y d e in
        ground (arith, gone_after z, h.linked y z c);
    addressed = λ z b y t e l.
        ground (arith, gone_after z, after y, listed_lem y, unlisted y z, h.addressed z b y t);
    listed = λ z k y t e l.
        ground (arith, gone_after z, after y, listed_lem y, unlisted y z, h.listed z k y t);
    entries = λ z t e. h.entries z t (ground (arith, gone_after z));
    distinct = λ z t e. h.distinct z t (ground (arith, gone_after z));
    valid = λ z b y t e l. h.valid z b y t (ground (arith, gone_after z)) l;
    few = few;
    sockets = λ j. ground (arith, h.sockets j, member-remove_all j id v.json_clients);
  }
