-- ===== src/Server/Outcomes.antt =====
-- When registrations and forced disconnections succeed (tunnelproxyserver.cpp: registerServer,
-- registerClient, disconnectClient).
use mathlib.Core.Option
use nymea_remoteproxy.Base.{
  ℕ, ◌≡◌, ◌∙◌, true, [], ◌∷◌, ◌++◌, Option, none, some, String, value, contains, arith, inl, inr,
  Option-cases, ap, ◌↔◌, is_some,
}
use nymea_remoteproxy.Client.{ClientType, TunnelProxyClient, type_none, type_server, type_client}
use nymea_remoteproxy.Connections.{
  TunnelProxyServerConnection, TunnelProxyClientConnection, get_client_connection,
}
use nymea_remoteproxy.Types.{no_error}
use nymea_remoteproxy.Variant.{Qt}
use nymea_remoteproxy.State.{TunnelProxyServer, kill_connection, killed}
use nymea_remoteproxy.Registration.{
  register_server, register_client, disconnect_client, refuse, kill_client_connection,
}
use nymea_remoteproxy.Server.View.{view}
use nymea_remoteproxy.Server.Sending.{socket_with_role}
use nymea_remoteproxy.Server.Consistent.{IsConsistent, address_at}

-- What a socket is registered as.
abbrev pub type_of : TunnelProxyServer → ℕ → Option ClientType
type_of w id = Option.map (λ c. c.type) (value w.proxy_clients id)

-- registerServer succeeds exactly for a socket that is known and not registered, and a uuid that is
-- neither a server's nor a client's.
pub register_server_iff :
    (w : TunnelProxyServer) (id u : ℕ) (name : String)
    → ((register_server w id u name).1 ≡ no_error) ↔ (
        (type_of w id ≡ some type_none)
        × (value w.tunnel_proxy_server_connections u ≡ none)
        × (value w.tunnel_proxy_client_connections u ≡ none))
unfolding register_server refuse contains
register_server_iff w id u name = (λ e. ground arith, λ h. ground arith)

module _ (q : Qt) where
  -- registerClient succeeds exactly for a socket that is known and not registered, a uuid that is
  -- neither a client's nor a server's, and a server that is registered.
  pub register_client_iff :
      (w : TunnelProxyServer) (id u : ℕ) (name : String) (x : ℕ)
      → ((register_client q w id u name x).1 ≡ no_error) ↔ (
          (type_of w id ≡ some type_none)
          × (value w.tunnel_proxy_client_connections u ≡ none)
          × (value w.tunnel_proxy_server_connections u ≡ none)
          × (is_some (value w.tunnel_proxy_server_connections x) ≡ true))
  unfolding register_client refuse contains
  register_client_iff w id u name x = (λ e. ground arith, λ h. ground arith)

-- disconnectClient succeeds exactly for a socket that is registered as a server, and an address that
-- one of this server's clients has.
pub disconnect_client_iff :
    (w : TunnelProxyServer) (id a : ℕ)
    → ((disconnect_client w id a).1 ≡ no_error) ↔ (
        (x u : ℕ) × ((view w).role id ≡ some (type_server, x))
        × (address_at (value w.tunnel_proxy_server_connections x) a ≡ some u))
unfolding disconnect_client refuse get_client_connection
disconnect_client_iff w id a = (succeeds, λ h. let (x, u, role, at) = h in ground (arith, role, at))
  where
    succeeds :
        (disconnect_client w id a).1 ≡ no_error
        → (x u : ℕ) × ((view w).role id ≡ some (type_server, x))
          × (address_at (value w.tunnel_proxy_server_connections x) a ≡ some u)
    succeeds e = elim (Option-cases (value w.proxy_clients id)) [
      | inl nobody ↦ absurd (ground (arith, e, nobody))
      | inr (c, found) ↦
          elim (Option-cases (address_at (value w.tunnel_proxy_server_connections c.uuid) a)) [
            | inl free ↦ absurd (ground (arith, e, found, free))
            | inr (u, at) ↦ (c.uuid, u, ground (arith, e, found), at)
          ]
    ]

kill_step :
    (w : TunnelProxyServer) (u : ℕ) (d : TunnelProxyClientConnection) (p : TunnelProxyClient)
    (reason : String)
    → value w.tunnel_proxy_client_connections u ≡ some d
    → value w.proxy_clients d.transport_client ≡ some p
    → kill_client_connection w u reason
      ≡ record w { output = w.output ++ killed p.interface d.transport_client reason ∷ [] }
unfolding kill_client_connection kill_connection
kill_step w u d p reason known socket = rw (known, kill_client_connection, kill_connection, socket)

disconnect_step :
    (w : TunnelProxyServer) (id a u : ℕ) (c : TunnelProxyClient) (s : TunnelProxyServerConnection)
    → value w.proxy_clients id ≡ some c
    → c.type ≡ type_server
    → value w.tunnel_proxy_server_connections c.uuid ≡ some s
    → value s.client_connections_addresses a ≡ some u
    → disconnect_client w id a
      ≡ (kill_client_connection w u "Server requested disconnect.", no_error)
unfolding disconnect_client get_client_connection
disconnect_step w id a u c s found t server there = rw (found, disconnect_client, t, server, there)

-- With consistent bookkeeping, a server that asks for the end of the client at an address of its
-- own has the socket of exactly this client killed, and nothing else changes; the answer is no
-- error.
pub disconnect_client_kills :
    (w : TunnelProxyServer) (id a x u : ℕ)
    → IsConsistent (view w)
    → (view w).role id ≡ some (type_server, x)
    → address_at (value w.tunnel_proxy_server_connections x) a ≡ some u
    → (j : ℕ) × (p : TunnelProxyClient) × ((view w).role j ≡ some (type_client, u))
      × (value w.proxy_clients j ≡ some p)
      × (disconnect_client w id a ≡ (
        record w { output = w.output ++ killed p.interface j "Server requested disconnect." ∷ [] },
        no_error,
      ))
disconnect_client_kills w id a x u h role at =
    elim (Option-cases (value w.tunnel_proxy_server_connections x)) [
      | inl unknown ↦ absurd (ground (arith, unknown, at))
      | inr (s, server) ↦
          let there : value s.client_connections_addresses a ≡ some u =
            ground (arith, server, at) in
          let link = h.addressed x a u s server there in
          elim (Option-cases (value w.tunnel_proxy_client_connections u)) [
            | inl unknown ↦ absurd (ground (arith, unknown, link))
            | inr (d, known) ↦
                let owned = h.clients_owned u d known in
                let (c, found, c_role) = socket_with_role w id (type_server, x) role in
                let (p, socket, p_role) =
                  socket_with_role w d.transport_client (type_client, u) owned in
                (
                  d.transport_client,
                  p,
                  owned,
                  socket,
                  disconnect_step w id a u c s found (ap (λ r. r.0) c_role)
                        (ap (λ r. value w.tunnel_proxy_server_connections r.1) c_role ∙ server)
                        there
                      ∙ ap (λ v. (v, no_error))
                          (kill_step w u d p "Server requested disconnect." known socket),
                )
          ]
    ]
