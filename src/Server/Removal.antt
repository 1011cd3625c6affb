-- ===== src/Server/Removal.antt =====
-- What the end of a connection does to the tables (tunnelproxyserver.cpp: onClientDisconnected), and
-- that they stay consistent.
use nymea_remoteproxy.Base.{
  ℕ, ◌≤◌, ◌≡◌, true, false, none, some, List, [], ◌∷◌, ◌++◌, value, value-insert, value-remove,
  insert, remove, remove_all, arith, if◌then◌else◌, ◌==◌, member, inl, inr, ap, sym, ◌∙◌, subst,
}
use nymea_remoteproxy.Client.{type_none, type_client}
use nymea_remoteproxy.Connections.{TunnelProxyServerConnection, TunnelProxyClientConnection}
use nymea_remoteproxy.Connections.Entries.{IsNamed, IsNamed-remove, IsDistinct, IsDistinct-remove}
use nymea_remoteproxy.Server.View.{View}
use nymea_remoteproxy.Server.Consistent.{IsConsistent, assign}
use nymea_remoteproxy.Server.Additions.{added}

pub member-remove_all :
    (j id : ℕ) (ids : List ℕ)
    → member j (remove_all id ids) ≡ (if id == j then false else member j ids)
member-remove_all j id [] = ground arith
member-remove_all j id (k ∷ ids) = ground (arith, member-remove_all j id ids)

pub member-append :
    (j id : ℕ) (ids : List ℕ) → member j (ids ++ id ∷ []) ≡ (if id == j then true else member j ids)
member-append j id [] = ground arith
member-append j id (k ∷ ids) = ground (arith, member-append j id ids)

-- A socket is added, or one that is not registered goes.
abbrev pub add_socket : View → ℕ → ℕ → View
add_socket v id n = record v {
  socket_count = n;
  role = assign v.role id (some (type_none, 0));
  json_clients = v.json_clients ++ id ∷ [];
}

abbrev pub remove_socket : View → ℕ → ℕ → View
remove_socket v id n = record v {
  socket_count = n;
  role = assign v.role id none;
  json_clients = remove_all id v.json_clients;
}

pub add_socket-IsConsistent :
    (v : View) (id n : ℕ)
    → IsConsistent v
    → v.role id ≡ none
    → n ≤ 98
    → IsConsistent (add_socket v id n)
add_socket-IsConsistent v id n h new few = record {
  servers_owned = λ x s e. ground (arith, h.servers_owned x s);
  servers_named = h.servers_named;
  clients_owned = λ x c e. ground (arith, h.clients_owned x c);
  clients_named = h.clients_named;
  server_known = λ j x e. ground (arith, h.server_known j x);
  client_known = λ j x e. ground (arith, h.client_known j x);
  disjoint = h.disjoint;
  linked = h.linked;
  addressed = h.addressed;
  listed = h.listed;
  entries = h.entries;
  distinct = h.distinct;
  valid = h.valid;
  few = few;
  sockets = λ j. ground (arith, h.sockets j, member-append j id v.json_clients);
}

pub remove_socket-IsConsistent :
    (v : View) (id n old : ℕ)
    → IsConsistent v
    → v.role id ≡ some (type_none, old)
    → n ≤ 98
    → IsConsistent (remove_socket v id n)
remove_socket-IsConsistent v id n old h unregistered few = record {
  servers_owned = λ x s e. ground (arith, h.servers_owned x s);
  servers_named = h.servers_named;
  clients_owned = λ x c e. ground (arith, h.clients_owned x c);
  clients_named = h.clients_named;
  server_known = λ j x e. ground (arith, h.server_known j x);
  client_known = λ j x e. ground (arith, h.client_known j x);
  disjoint = h.disjoint;
  linked = h.linked;
  addressed = h.addressed;
  listed = h.listed;
  entries = h.entries;
  distinct = h.distinct;
  valid = h.valid;
  few = few;
  sockets = λ j. ground (arith, h.sockets j, member-remove_all j id v.json_clients);
}

module _ (v : View) (id n u : ℕ) (few : n ≤ 98) (h : IsConsistent v)
    (registered : v.role id ≡ some (type_client, u)) (c : TunnelProxyClientConnection)
    (found : value v.clients u ≡ some c) where
  gone_after : (y : ℕ) → value (remove v.clients u) y ≡ (if u == y then none else value v.clients y)
  gone_after y = value-remove v.clients u y

  -- A client goes that no server has.
  abbrev pub remove_client : View
  remove_client = record (remove_socket v id n) { clients = remove v.clients u }

  pub remove_client-IsConsistent : c.server_connection ≡ none → IsConsistent remove_client
  remove_client-IsConsistent unlinked = record {
    servers_owned = λ x s e. ground (arith, h.servers_owned x s);
    servers_named = h.servers_named;
    clients_owned = λ x d e.
        ground (arith, gone_after x, h.clients_owned x d, h.client_known id x, h.client_known id u);
    clients_named = λ x d e. ground (arith, gone_after x, h.clients_named x d);
    server_known = λ j x e. ground (arith, h.server_known j x);
    client_known = λ j x e. ground (arith, gone_after x, h.client_known j x, h.client_known id u);
    disjoint = λ x s e. ground (arith, gone_after x, h.disjoint x s);
    linked = λ y x d e l. ground (arith, gone_after y, h.linked y x d);
    addressed = λ x a y s e l. ground (arith, gone_after y, h.addressed x a y s);
    listed = λ x k y s e l. ground (arith, gone_after y, h.listed x k y s);
    entries = h.entries;
    distinct = h.distinct;
    valid = h.valid;
    few = few;
    sockets = λ j. ground (arith, h.sockets j, member-remove_all j id v.json_clients);
  }

  -- A client goes that has an address at a server: the server connection is s' after it.
  abbrev pub unlink_client : ℕ → TunnelProxyServerConnection → View
  unlink_client x s' = record remove_client { servers = insert v.servers x s' }

  module _ (x : ℕ) (s s' : TunnelProxyServerConnection) (linked_to : c.server_connection ≡ some x)
      (server : value v.servers x ≡ some s) (same_socket : s'.transport_client ≡ s.transport_client)
      (same_uuid : s'.server_uuid ≡ s.server_uuid)
      (same_limit : s'.connection_limit ≡ s.connection_limit)
      (addresses : s'.client_connections_addresses
        ≡ remove s.client_connections_addresses c.socket_address)
      (names : s'.client_connections ≡ remove s.client_connections u) where
    address_after :
        (b : ℕ)
        → value s'.client_connections_addresses b
          ≡ (if c.socket_address == b then none else value s.client_connections_addresses b)
    address_after b =
        ap (λ m. value m b) addresses
        ∙ value-remove s.client_connections_addresses c.socket_address b

    listed_after :
        (k : ℕ)
        → value s'.client_connections k ≡ (if u == k then none else value s.client_connections k)
    listed_after k = ap (λ m. value m k) names ∙ value-remove s.client_connections u k

    server_after :
        (y : ℕ) → value (insert v.servers x s') y ≡ (if x == y then some s' else value v.servers y)
    server_after y = value-insert v.servers x s' y

    pub unlink_client-IsConsistent : IsConsistent (unlink_client x s')
    unlink_client-IsConsistent = record {
      servers_owned =
          λ y t e. ground (arith, server_after y, h.servers_owned y t, h.servers_owned x s);
      servers_named =
          λ y t e. ground (arith, server_after y, h.servers_named y t, h.servers_named x s);
      clients_owned = λ y d e.
          ground
            (arith, gone_after y, h.clients_owned y d, h.client_known id y, h.client_known id u);
      clients_named = λ y d e. ground (arith, gone_after y, h.clients_named y d);
      server_known = λ j y e. ground (arith, server_after y, h.server_known j y);
      client_known = λ j y e. ground (arith, gone_after y, h.client_known j y, h.client_known id u);
      disjoint =
          λ y t e. ground (arith, server_after y, gone_after y, h.disjoint y t, h.disjoint x s);
      linked = λ y z d e l. ground (
        arith,
        server_after z,
        gone_after y,
        address_after d.socket_address,
        listed_after y,
        h.linked y z d,
        h.linked u x c,
      );
      addressed = λ z b y t e l. elim (added v.servers x s' z t e) [
        | inl (other, before) ↦ ground (arith, server_after z, gone_after y, h.addressed z b y t)
        | inr (at, same) ↦ ground (
          arith,
          at,
          ap (λ w. value w.client_connections_addresses b) same,
          gone_after y,
          address_after b,
          h.addressed x b y s,
        )
      ];
      listed = λ z k y t e l. elim (added v.servers x s' z t e) [
        | inl (other, before) ↦ ground (arith, server_after z, gone_after y, h.listed z k y t)
        | inr (at, same) ↦ ground (
          arith,
          at,
          ap (λ w. value w.client_connections k) same,
          gone_after y,
          listed_after k,
          h.listed x k y s,
        )
      ];
      entries = λ z t e. elim (added v.servers x s' z t e) [
        | inl (other, before) ↦ h.entries z t before
        | inr (at, same) ↦
            subst (λ w. IsNamed w.client_connections) (sym same)
              (subst IsNamed (sym names)
                (IsNamed-remove s.client_connections u (h.entries x s server)))
      ];
      distinct = λ z t e. elim (added v.servers x s' z t e) [
        | inl (other, before) ↦ h.distinct z t before
        | inr (at, same) ↦
            subst (λ w. IsDistinct w.client_connections_addresses) (sym same)
              (subst IsDistinct (sym addresses) (
                IsDistinct-remove s.client_connections_addresses c.socket_address
                  (h.distinct x s server)))
      ];
      valid = λ z b y t e l. elim (added v.servers x s' z t e) [
        | inl (other, before) ↦ h.valid z b y t before l
        | inr (at, same) ↦ ground (
          arith,
          ap (λ w. value w.client_connections_addresses b) same,
          address_after b,
          h.valid x b y s,
        )
      ];
      few = few;
      sockets = λ j. ground (arith, h.sockets j, member-remove_all j id v.json_clients);
    }
