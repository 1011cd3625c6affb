-- ===== src/Server/Directory/Tables.antt =====
-- Each change of the tables (Additions, Removal, ServerRemoval) is a move of their directory.
use nymea_remoteproxy.Base.{
  ℕ, String, ◌≡◌, ◌≢◌, ◌∙◌, refl, ap, false, Option, none, some, if◌then◌else◌, ◌==◌, is_some,
  member, Hash, value, values, value-insert, value-remove, insert, remove, arith, inl, inr,
  Option-cases, Bool-cases,
}
use nymea_remoteproxy.Client.{type_none, type_server, type_client}
use nymea_remoteproxy.Connections.{TunnelProxyServerConnection, TunnelProxyClientConnection}
use nymea_remoteproxy.Connections.Entries.{member-values}
use nymea_remoteproxy.Server.View.{View, Role}
use nymea_remoteproxy.Server.Consistent.{IsConsistent, assign}
use nymea_remoteproxy.Server.Additions.{add_server, add_client}
use nymea_remoteproxy.Server.Removal.{add_socket, remove_socket}
use nymea_remoteproxy.Server.ServerRemoval.{orphan, orphaned, remove_server}
use nymea_remoteproxy.Server.Directory.{
  visiting, uuid_in, IsUnused, without_server, Move, arrives, becomes_server, becomes_client,
  leaves, server_leaves, link_to, party_of, directory,
}

-- Only the server of a client is read from the table.
same_party :
    (m m' : Hash TunnelProxyClientConnection) (r : Option Role)
    → ((u : ℕ) → r ≡ some (type_client, u) → link_to (value m u) ≡ link_to (value m' u))
    → party_of m r ≡ party_of m' r
same_party m m' none h = refl
same_party m m' (some (type_none, u)) h = refl
same_party m m' (some (type_server, u)) h = refl
same_party m m' (some (type_client, u)) h = ap (λ l. some (visiting u l)) (h u refl)

module _ (v : View) (h : IsConsistent v) where
  unused : (u : ℕ) → value v.servers u ≡ none → value v.clients u ≡ none → IsUnused (directory v) u
  unused u no_server no_client j = named (v.role j) refl
    where
      named : (r : Option Role) → v.role j ≡ r → uuid_in (party_of v.clients r) ≢ some u
      named none e = ground arith
      named (some (type_none, y)) e = ground arith
      named (some (type_server, y)) e = ground (arith, h.server_known j y e, no_server)
      named (some (type_client, y)) e = ground (arith, h.client_known j y e, no_client)

  -- Two sockets are not registered as one client.
  one_client :
      (i j u : ℕ) → v.role i ≡ some (type_client, u) → v.role j ≡ some (type_client, u) → i ≡ j
  one_client i j u e f = ground (arith, h.client_known i u e, h.client_known j u f)

  pub add_socket-Move :
      (id n : ℕ) → v.role id ≡ none → Move (directory v) (directory (add_socket v id n))
  add_socket-Move id n new = arrives id (ground (arith, new)) (λ j. ground arith)

  pub add_server-Move :
      (id u old : ℕ) (name : String)
      → v.role id ≡ some (type_none, old)
      → value v.servers u ≡ none
      → value v.clients u ≡ none
      → Move (directory v) (directory (add_server v id u name))
  add_server-Move id u old name fresh no_server no_client =
      becomes_server id u (ground (arith, fresh)) (unused u no_server no_client) (λ j. ground arith)

  pub add_client-Move :
      (id u old x : ℕ) (s s' : TunnelProxyServerConnection) (c : TunnelProxyClientConnection)
      → v.role id ≡ some (type_none, old)
      → value v.servers u ≡ none
      → value v.clients u ≡ none
      → value v.servers x ≡ some s
      → c.server_connection ≡ some x
      → Move (directory v) (directory (add_client v id u x s' c))
  add_client-Move id u old x s s' c fresh no_server no_client found linked =
      becomes_client id u x s.transport_client (ground (arith, fresh))
        (unused u no_server no_client) (ground (arith, h.servers_owned x s found)) write
    where
      others :
          (j y : ℕ)
          → v.role j ≡ some (type_client, y)
          → link_to (value (insert v.clients u c) y) ≡ link_to (value v.clients y)
      others j y e = ground (arith, value-insert v.clients u c y, h.client_known j y e, no_client)

      write :
          (j : ℕ)
          → directory (add_client v id u x s' c) j
            ≡ (if id == j then some (visiting u (some x)) else directory v j)
      write j = elim (Bool-cases (id == j)) [
        | inl hit ↦ ground (arith, hit, value-insert v.clients u c u, linked)
        | inr miss ↦ rw miss (same_party (insert v.clients u c) v.clients (v.role j) (others j))
      ]

  pub remove_socket-Move :
      (id n old : ℕ)
      → v.role id ≡ some (type_none, old)
      → Move (directory v) (directory (remove_socket v id n))
  remove_socket-Move id n old fresh =
      leaves id (λ u e. ground (arith, fresh, e)) (λ j. ground arith)

  -- The client that is registered at a socket goes, whatever becomes of the servers.
  pub client_removed :
      (id u : ℕ) (v' : View)
      → v.role id ≡ some (type_client, u)
      → ((j : ℕ) → v'.role j ≡ assign v.role id none j)
      → v'.clients ≡ remove v.clients u
      → Move (directory v) (directory v')
  client_removed id u v' registered roles clients =
      leaves id (λ y e. ground (arith, registered, e)) write
    where
      others :
          (j y : ℕ)
          → (id == j) ≡ false
          → v.role j ≡ some (type_client, y)
          → link_to (value (remove v.clients u) y) ≡ link_to (value v.clients y)
      others j y other e =
          ground (arith, value-remove v.clients u y, one_client id j u registered, other, e)

      write : (j : ℕ) → directory v' j ≡ (if id == j then none else directory v j)
      write j = elim (Bool-cases (id == j)) [
        | inl hit ↦ ground (arith, hit, roles j)
        | inr miss ↦
            ap (party_of v'.clients) (roles j)
            ∙ ap (λ m. party_of m (assign v.role id none j)) clients
            ∙ rw miss
                (same_party (remove v.clients u) v.clients (v.role j) (λ y e. others j y miss e))
      ]

  pub remove_server-Move :
      (id n x : ℕ) (s : TunnelProxyServerConnection) (clients : Hash TunnelProxyClientConnection)
      → v.role id ≡ some (type_server, x)
      → value v.servers x ≡ some s
      → ((y : ℕ) → value clients y ≡ orphaned (values s.client_connections) v.clients y)
      → Move (directory v) (directory (remove_server v id n x clients))
  unfolding orphan
  remove_server-Move id n x s clients registered found after =
      server_leaves id x (ground (arith, registered)) write
    where
      listed_lem :
          (y : ℕ) → member y (values s.client_connections) ≡ is_some (value s.client_connections y)
      listed_lem y = member-values s.client_connections y (h.entries x s found)

      visitor :
          (y : ℕ)
          → some (visiting y (link_to (value clients y)))
            ≡ without_server x (some (visiting y (link_to (value v.clients y))))
      visitor y = elim (Option-cases (value v.clients y)) [
        | inl unknown ↦ ground (arith, unknown, after y)
        | inr (c, known) ↦ elim (Option-cases (value s.client_connections y)) [
          | inr (k, listed) ↦
              ground (arith, known, after y, listed_lem y, listed, h.listed x y k s found listed)
          | inl unlisted ↦ elim (Option-cases c.server_connection) [
            | inl alone ↦ ground (arith, known, after y, listed_lem y, unlisted, alone)
            | inr (z, linked) ↦ ground (
              arith,
              known,
              after y,
              listed_lem y,
              unlisted,
              linked,
              h.linked y z c known linked,
              found,
            )
          ]
        ]
      ]

      after_role : (r : Option Role) → party_of clients r ≡ without_server x (party_of v.clients r)
      after_role none = refl
      after_role (some (type_none, y)) = refl
      after_role (some (type_server, y)) = refl
      after_role (some (type_client, y)) = visitor y

      write :
          (j : ℕ)
          → directory (remove_server v id n x clients) j
            ≡ (if id == j then none else without_server x (directory v j))
      write j = elim (Bool-cases (id == j)) [
        | inl hit ↦ rw hit
        | inr miss ↦ rw miss (after_role (v.role j))
      ]
