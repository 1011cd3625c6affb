-- ===== src/Server/Additions.antt =====
-- Registrations (tunnelproxyserver.cpp: registerServer, registerClient) as changes of the tables,
-- and that the tables stay consistent.
use nymea_remoteproxy.Base.{
  ℕ, ◌≡◌, ◌≢◌, false, none, some, String, Hash, value, value-insert, insert, arith, if◌then◌else◌,
  ◌==◌, ◌⊎◌, inl, inr, Bool-cases, ap, sym, ◌∙◌, subst,
}
use nymea_remoteproxy.Client.{type_none, type_server, type_client}
use nymea_remoteproxy.Connections.{
  TunnelProxyServerConnection, TunnelProxyClientConnection, new_server_connection,
}
use nymea_remoteproxy.Connections.Entries.{
  IsNamed, IsNamed-nil, IsNamed-insert, IsDistinct, IsDistinct-nil, IsDistinct-insert,
}
use nymea_remoteproxy.Server.View.{View}
use nymea_remoteproxy.Server.Consistent.{IsClientAddress, IsConsistent, assign}

-- A server is added.
abbrev pub add_server : View → ℕ → ℕ → String → View
add_server v id u name = record v {
  role = assign v.role id (some (type_server, u));
  servers = insert v.servers u (new_server_connection id u name);
}

-- What is found after an insertion was there, or is what was inserted.
pub added :
    {V : Type 0} (m : Hash V) (k : ℕ) (v : V) (j : ℕ) (w : V)
    → value (insert m k v) j ≡ some w
    → (((k == j) ≡ false) × (value m j ≡ some w)) ⊎ ((k ≡ j) × (w ≡ v))
added m k v j w e = elim (Bool-cases (k == j)) [
  | inl hit ↦ inr (ground (arith, hit), ground (arith, hit, value-insert m k v j))
  | inr miss ↦ inl (miss, ground (arith, miss, value-insert m k v j))
]

no_address :
    (id u : ℕ) (name : String) (a y : ℕ)
    → value (new_server_connection id u name).client_connections_addresses a ≢ some y
unfolding new_server_connection value
no_address id u name a y e = ground arith

no_listed :
    (id u : ℕ) (name : String) (k y : ℕ)
    → value (new_server_connection id u name).client_connections k ≢ some y
unfolding new_server_connection value
no_listed id u name k y e = ground arith

module _ (v : View) (id u old : ℕ) (name : String) (h : IsConsistent v)
    (unregistered : v.role id ≡ some (type_none, old)) (no_server : value v.servers u ≡ none)
    (no_client : value v.clients u ≡ none) where
  pub add_server-IsConsistent : IsConsistent (add_server v id u name)
  unfolding new_server_connection
  add_server-IsConsistent = record {
    servers_owned = λ x s e.
        ground (
          arith,
          value-insert v.servers u (new_server_connection id u name) x,
          h.servers_owned x s,
        );
    servers_named = λ x s e.
        ground (
          arith,
          value-insert v.servers u (new_server_connection id u name) x,
          h.servers_named x s,
        );
    clients_owned = λ x c e. ground (arith, h.clients_owned x c);
    clients_named = h.clients_named;
    server_known = λ j x e.
        ground
          (arith, value-insert v.servers u (new_server_connection id u name) x, h.server_known j x);
    client_known = λ j x e. ground (arith, h.client_known j x);
    disjoint = λ x s e.
        ground
          (arith, value-insert v.servers u (new_server_connection id u name) x, h.disjoint x s);
    linked = λ y x c e l.
        ground
          (arith, value-insert v.servers u (new_server_connection id u name) x, h.linked y x c);
    addressed = λ x a y s e l. elim (added v.servers u (new_server_connection id u name) x s e) [
      | inl (other, old_one) ↦ h.addressed x a y s old_one l
      | inr (at, same) ↦ absurd (
          no_address id u name a y
            (ap (λ t. value t.client_connections_addresses a) (sym same) ∙ l))
    ];
    listed = λ x k y s e l. elim (added v.servers u (new_server_connection id u name) x s e) [
      | inl (other, old_one) ↦ h.listed x k y s old_one l
      | inr (at, same) ↦
          absurd (no_listed id u name k y (ap (λ t. value t.client_connections k) (sym same) ∙ l))
    ];
    entries = λ x s e. elim (added v.servers u (new_server_connection id u name) x s e) [
      | inl (other, before) ↦ h.entries x s before
      | inr (at, same) ↦ subst (λ t. IsNamed t.client_connections) (sym same) IsNamed-nil
    ];
    distinct = λ x s e. elim (added v.servers u (new_server_connection id u name) x s e) [
      | inl (other, before) ↦ h.distinct x s before
      | inr (at, same) ↦
          subst (λ t. IsDistinct t.client_connections_addresses) (sym same) IsDistinct-nil
    ];
    valid = λ x a y s e l. elim (added v.servers u (new_server_connection id u name) x s e) [
      | inl (other, old_one) ↦ h.valid x a y s old_one l
      | inr (at, same) ↦ absurd (
          no_address id u name a y
            (ap (λ t. value t.client_connections_addresses a) (sym same) ∙ l))
    ];
    few = h.few;
    sockets = λ j. ground (arith, h.sockets j);
  }

-- A client with a new address at a server is added: the server connection is s' after it.
abbrev pub add_client :
    View → ℕ → ℕ → ℕ → TunnelProxyServerConnection → TunnelProxyClientConnection → View
add_client v id u x s c = record v {
  role = assign v.role id (some (type_client, u));
  servers = insert v.servers x s;
  clients = insert v.clients u c;
}

module _ (v : View) (id u old x a : ℕ) (s s' : TunnelProxyServerConnection)
    (c : TunnelProxyClientConnection) (h : IsConsistent v)
    (unregistered : v.role id ≡ some (type_none, old)) (no_server : value v.servers u ≡ none)
    (no_client : value v.clients u ≡ none) (found : value v.servers x ≡ some s)
    (free : value s.client_connections_addresses a ≡ none) (usable : IsClientAddress a)
    (same_socket : s'.transport_client ≡ s.transport_client)
    (same_uuid : s'.server_uuid ≡ s.server_uuid)
    (same_limit : s'.connection_limit ≡ s.connection_limit)
    (addresses : s'.client_connections_addresses ≡ insert s.client_connections_addresses a u)
    (names : s'.client_connections ≡ insert s.client_connections u u)
    (socket : c.transport_client ≡ id) (uuid : c.client_uuid ≡ u) (address : c.socket_address ≡ a)
    (server : c.server_connection ≡ some x) where
  address_after :
      (b : ℕ)
      → value s'.client_connections_addresses b
        ≡ (if a == b then some u else value s.client_connections_addresses b)
  address_after b =
      ap (λ m. value m b) addresses ∙ value-insert s.client_connections_addresses a u b

  listed_after :
      (k : ℕ)
      → value s'.client_connections k ≡ (if u == k then some u else value s.client_connections k)
  listed_after k = ap (λ m. value m k) names ∙ value-insert s.client_connections u u k

  server_after :
      (y : ℕ) → value (insert v.servers x s') y ≡ (if x == y then some s' else value v.servers y)
  server_after y = value-insert v.servers x s' y

  client_after :
      (y : ℕ) → value (insert v.clients u c) y ≡ (if u == y then some c else value v.clients y)
  client_after y = value-insert v.clients u c y

  pub add_client-IsConsistent : IsConsistent (add_client v id u x s' c)
  add_client-IsConsistent = record {
    servers_owned =
        λ y t e. ground (arith, server_after y, h.servers_owned y t, h.servers_owned x s);
    servers_named =
        λ y t e. ground (arith, server_after y, h.servers_named y t, h.servers_named x s);
    clients_owned = λ y t e. ground (arith, client_after y, h.clients_owned y t);
    clients_named = λ y t e. ground (arith, client_after y, h.clients_named y t);
    server_known = λ j y e. ground (arith, server_after y, h.server_known j y);
    client_known = λ j y e. ground (arith, client_after y, h.client_known j y);
    disjoint =
        λ y t e. ground (arith, server_after y, client_after y, h.disjoint y t, h.disjoint x s);
    linked = λ y z t e l. ground (
      arith,
      server_after z,
      client_after y,
      address_after t.socket_address,
      listed_after y,
      h.linked y z t,
    );
    addressed = λ z b y t e l. elim (added v.servers x s' z t e) [
      | inl (other, before) ↦ ground (arith, client_after y, h.addressed z b y t)
      | inr (at, same) ↦ ground (
        arith,
        at,
        ap (λ w. value w.client_connections_addresses b) same,
        client_after y,
        address_after b,
        h.addressed x b y s,
      )
    ];
    listed = λ z k y t e l. elim (added v.servers x s' z t e) [
      | inl (other, before) ↦ ground (arith, client_after y, h.listed z k y t)
      | inr (at, same) ↦ ground (
        arith,
        at,
        ap (λ w. value w.client_connections k) same,
        client_after y,
        listed_after k,
        h.listed x k y s,
      )
    ];
    entries = λ z t e. elim (added v.servers x s' z t e) [
      | inl (other, before) ↦ h.entries z t before
      | inr (at, same) ↦
          subst (λ w. IsNamed w.client_connections) (sym same)
            (subst IsNamed (sym names)
              (IsNamed-insert s.client_connections u (h.entries x s found)))
    ];
    distinct = λ z t e. elim (added v.servers x s' z t e) [
      | inl (other, before) ↦ h.distinct z t before
      | inr (at, same) ↦
          subst (λ w. IsDistinct w.client_connections_addresses) (sym same)
            (subst IsDistinct (sym addresses)
              (IsDistinct-insert s.client_connections_addresses a u (h.distinct x s found)))
    ];
    valid = λ z b y t e l. elim (added v.servers x s' z t e) [
      | inl (other, before) ↦ h.valid z b y t before l
      | inr (at, same) ↦ ground (
        arith,
        ap (λ w. value w.client_connections_addresses b) same,
        address_after b,
        h.valid x b y s,
        usable,
      )
    ];
    few = h.few;
    sockets = λ j. ground (arith, h.sockets j);
  }
