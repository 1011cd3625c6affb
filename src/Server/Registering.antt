-- ===== src/Server/Registering.antt =====
-- The answers of registerServer, registerClient and disconnectClient (tunnelproxyserver.cpp) keep
-- the bookkeeping consistent.
use mathlib.Core.Path.{fun_ext}
use nymea_remoteproxy.Base.{
  ℕ, is_some, true, ◌≡◌, refl, false, not, Option, none, some, String, Hash, value, value-modify,
  contains, contains_lem, count, count-modify, arith, inl, inr, Bool-cases, Option-cases, ap, ◌∙◌,
  modify, ◌≤◌,
}
use nymea_remoteproxy.Client.{
  ClientType, TunnelProxyClient, type_none, type_server, type_client, enable_slip_after_response,
  activate_client, set_name, set_uuid, set_type,
}
use nymea_remoteproxy.Variant.{Qt}
use nymea_remoteproxy.Connections.{
  TunnelProxyServerConnection, TunnelProxyClientConnection, new_client_connection,
  set_server_connection, set_socket_address, register_client_connection, get_free_address,
}
use nymea_remoteproxy.Connections.Entries.{count-partners}
use nymea_remoteproxy.Connections.Addresses.{get_free_address_fresh}
use nymea_remoteproxy.State.{TunnelProxyServer, modify_client}
use nymea_remoteproxy.Registration.{
  register_server, register_client, accept_server, accept_client, link_client, refuse, as_server,
  as_client, is_type_none,
}
use nymea_remoteproxy.Server.View.{
  View, Role, view, role_in, role_of, view-refuse, view-send_notification,
}
use nymea_remoteproxy.Server.Consistent.{IsConsistent, assign, link_of}
use nymea_remoteproxy.Server.Directory.Tables.{add_server-Move, add_client-Move}
use nymea_remoteproxy.Server.Changed.{Changed, unchanged, moved, kept}
use nymea_remoteproxy.Server.Additions.{
  add_server, add_server-IsConsistent, add_client, add_client-IsConsistent,
}

is_type_none_lem : (t : ClientType) → not (is_type_none t) ≡ false → t ≡ type_none
is_type_none_lem type_none e = refl
is_type_none_lem type_server e = ground arith
is_type_none_lem type_client e = ground arith

absent : {V : Type 0} (m : Hash V) (k : ℕ) → contains m k ≡ false → value m k ≡ none
absent m k e = ground (arith, contains_lem m k)

-- The address at which the client with this role is reached.
address_back : View → ℕ → Option ℕ
address_back v id = elim (v.role id) [
  | none ↦ none
  | some r ↦ elim (link_of (value v.clients r.1)) [ none ↦ none | some l ↦ some l.1 ]
]

-- No server has more addresses in use than there are sockets.
few_addresses :
    (w : TunnelProxyServer) (x : ℕ) (s : TunnelProxyServerConnection)
    → IsConsistent (view w)
    → value w.tunnel_proxy_server_connections x ≡ some s
    → count s.client_connections_addresses ≤ 98
unfolding address_back
few_addresses w x s h found =
    let sockets =
      count-partners s.client_connections_addresses w.proxy_clients (address_back (view w))
        (h.distinct x s found) (λ a u at. partner a u at) in
    omega (arith, sockets, h.few)
  where
    partner :
        (a u : ℕ)
        → value s.client_connections_addresses a ≡ some u
        → (j : ℕ) × (is_some (value w.proxy_clients j) ≡ true) × (address_back (view w) j ≡ some a)
    partner a u at =
        let link = h.addressed x a u s found at in
        elim (Option-cases (value w.tunnel_proxy_client_connections u)) [
          | inl unknown ↦ absurd (ground (arith, unknown, link))
          | inr (c, known) ↦
              let role = h.clients_owned u c known in
              (
                c.transport_client,
                ground (arith, role),
                rw (role, address_back) (ground (arith, known, link)),
              )
        ]

-- A socket takes a role.
role-assign :
    (clients : Hash TunnelProxyClient) (id : ℕ) (f : TunnelProxyClient → TunnelProxyClient)
    (c : TunnelProxyClient) (r : Role)
    → value clients id ≡ some c
    → role_of (f c) ≡ r
    → (j : ℕ) → role_in (modify clients id f) j ≡ assign (role_in clients) id (some r) j
role-assign clients id f c r e same j =
    ground (arith, value-modify clients id f j, ap {B = Option Role} some same)

module _ (w : TunnelProxyServer) (id : ℕ) (c : TunnelProxyClient)
    (found : value w.proxy_clients id ≡ some c) where
  view-accept_server :
      (u : ℕ) (name : String) → view (accept_server w id u name) ≡ add_server (view w) id u name
  unfolding accept_server enable_slip_after_response activate_client set_name set_uuid set_type
      modify_client
  view-accept_server u name = λ i. record (add_server (view w) id u name) {
    role =
        fun_ext
          (λ j. role-assign w.proxy_clients id (as_server u name) c (type_server, u) found refl j)
          i;
    socket_count = count-modify w.proxy_clients id (as_server u name) i;
  }

  unregistered : c.type ≡ type_none → (view w).role id ≡ some (type_none, c.uuid)
  unregistered e = ground (arith, found)

  accept_server-Changed :
      (u : ℕ) (name : String)
      → IsConsistent (view w)
      → c.type ≡ type_none
      → value w.tunnel_proxy_server_connections u ≡ none
      → value w.tunnel_proxy_client_connections u ≡ none
      → Changed (view w) (view (accept_server w id u name))
  accept_server-Changed u name h fresh server client = kept (view-accept_server u name) (
      moved (add_server-IsConsistent (view w) id u c.uuid name h (unregistered fresh) server client)
        (add_server-Move (view w) h id u c.uuid name (unregistered fresh) server client))

-- Whatever registerServer answers, consistent bookkeeping stays consistent, and the directory moves.
pub register_server-Changed :
    (w : TunnelProxyServer) (id u : ℕ) (name : String)
    → IsConsistent (view w)
    → Changed (view w) (view (register_server w id u name).0)
unfolding register_server
register_server-Changed w id u name h = elim (Option-cases (value w.proxy_clients id)) [
  | inl e ↦ rw (e, register_server) (unchanged h)
  | inr (c, e) ↦ elim (Bool-cases (not (is_type_none c.type))) [
    | inl twice ↦ rw (e, register_server, twice) (refused _ _)
    | inr fresh ↦ elim (Bool-cases (contains w.tunnel_proxy_server_connections u)) [
      | inl used ↦ rw (e, register_server, fresh, used) (refused _ _)
      | inr server ↦ elim (Bool-cases (contains w.tunnel_proxy_client_connections u)) [
        | inl used ↦ rw (e, register_server, fresh, server, used) (refused _ _)
        | inr client ↦
            rw (e, register_server, fresh, server, client)
              (accept_server-Changed w id c e u name h (is_type_none_lem c.type fresh)
                (absent w.tunnel_proxy_server_connections u server)
                (absent w.tunnel_proxy_client_connections u client))
      ]
    ]
  ]
]
  where
    refused : (reason : String) (error : _) → Changed (view w) (view (refuse w id reason error).0)
    refused reason error = kept (view-refuse w id reason error) (unchanged h)

-- Whatever registerServer answers, the bookkeeping is consistent after it if it was before.
pub register_server-IsConsistent :
    (w : TunnelProxyServer) (id u : ℕ) (name : String)
    → IsConsistent (view w)
    → IsConsistent (view (register_server w id u name).0)
register_server-IsConsistent w id u name h = (register_server-Changed w id u name h).consistent

-- The connection of a new client before it has an address.
abbrev fresh_connection : ℕ → ℕ → String → ℕ → TunnelProxyClientConnection
fresh_connection id u name x = set_server_connection (some x) (new_client_connection id u name)

module _ (q : Qt) (w : TunnelProxyServer) (id u x : ℕ) (name : String) (c : TunnelProxyClient)
    (s : TunnelProxyServerConnection) (e : value w.proxy_clients id ≡ some c) where
  new_server_side : TunnelProxyServerConnection
  new_server_side = (register_client_connection s (fresh_connection id u name x)).0

  new_client_side : TunnelProxyClientConnection
  new_client_side = (register_client_connection s (fresh_connection id u name x)).1

  view-accept_client :
      view (accept_client q w id c u name x s)
      ≡ add_client (view w) id u x new_server_side new_client_side
  unfolding accept_client link_client activate_client set_name set_uuid set_type modify_client
      new_server_side new_client_side
  view-accept_client =
      view-send_notification q
        (link_client (modify_client id (as_client u name) w) u x s (fresh_connection id u name x))
        "TunnelProxy" "ClientConnected" _ s.transport_client
      ∙ (λ i. record (add_client (view w) id u x new_server_side new_client_side) {
        role =
            fun_ext
              (λ j. role-assign w.proxy_clients id (as_client u name) c (type_client, u) e refl j)
              i;
        socket_count = count-modify w.proxy_clients id (as_client u name) i;
      })

  accept_client-Changed :
      IsConsistent (view w)
      → c.type ≡ type_none
      → contains w.tunnel_proxy_client_connections u ≡ false
      → contains w.tunnel_proxy_server_connections u ≡ false
      → value w.tunnel_proxy_server_connections x ≡ some s
      → Changed (view w) (view (accept_client q w id c u name x s))
  unfolding new_server_side new_client_side register_client_connection get_free_address
      set_server_connection set_socket_address new_client_connection
  accept_client-Changed h fresh client server found =
      let named = h.servers_named x s found in
      let fresh_address = get_free_address_fresh s named.1 (few_addresses w x s h found) in
      let server_absent = absent w.tunnel_proxy_server_connections u server in
      let client_absent = absent w.tunnel_proxy_client_connections u client in
      kept view-accept_client (
        moved
          (add_client-IsConsistent (view w) id u c.uuid x (get_free_address s).1 s new_server_side
            new_client_side h (unregistered w id c e fresh) server_absent client_absent found
            (absent s.client_connections_addresses (get_free_address s).1 fresh_address.0)
            (fresh_address.1, fresh_address.2, fresh_address.3) refl refl refl refl refl refl refl
            refl (ap {B = Option ℕ} some named.0))
          (add_client-Move (view w) h id u c.uuid x s new_server_side new_client_side
            (unregistered w id c e fresh) server_absent client_absent found
            (ap {B = Option ℕ} some named.0)))

module _ (q : Qt) where
  -- Whatever registerClient answers, consistent bookkeeping stays consistent, and the directory
  -- moves.
  pub register_client-Changed :
      (w : TunnelProxyServer) (id u : ℕ) (name : String) (x : ℕ)
      → IsConsistent (view w)
      → Changed (view w) (view (register_client q w id u name x).0)
  unfolding register_client
  register_client-Changed w id u name x h = elim (Option-cases (value w.proxy_clients id)) [
    | inl e ↦ rw (e, register_client) (unchanged h)
    | inr (c, e) ↦ elim (Bool-cases (not (is_type_none c.type))) [
      | inl twice ↦ rw (e, register_client, twice) (refused _ _)
      | inr fresh ↦ elim (Bool-cases (contains w.tunnel_proxy_client_connections u)) [
        | inl used ↦ rw (e, register_client, fresh, used) (refused _ _)
        | inr client ↦ elim (Bool-cases (contains w.tunnel_proxy_server_connections u)) [
          | inl used ↦ rw (e, register_client, fresh, client, used) (refused _ _)
          | inr server ↦ elim (Option-cases (value w.tunnel_proxy_server_connections x)) [
            | inl unknown ↦ rw (e, register_client, fresh, client, server, unknown) (refused _ _)
            | inr (s, found) ↦
                rw (e, register_client, fresh, client, server, found)
                  (accept_client-Changed q w id u x name c s e h (is_type_none_lem c.type fresh)
                    client server found)
          ]
        ]
      ]
    ]
  ]
    where
      refused : (reason : String) (error : _) → Changed (view w) (view (refuse w id reason error).0)
      refused reason error = kept (view-refuse w id reason error) (unchanged h)

  -- Whatever registerClient answers, the bookkeeping is consistent after it if it was before.
  pub register_client-IsConsistent :
      (w : TunnelProxyServer) (id u : ℕ) (name : String) (x : ℕ)
      → IsConsistent (view w)
      → IsConsistent (view (register_client q w id u name x).0)
  register_client-IsConsistent w id u name x h =
      (register_client-Changed w id u name x h).consistent
