-- ===== src/Server/Farewell.antt =====
-- What becomes of the clients of a server whose socket disconnects (tunnelproxyserver.cpp:
-- onClientDisconnected).
use mathlib.Core.Option
use nymea_remoteproxy.Base.{
  ℕ, ◌≡◌, ◌∙◌, refl, true, List, [], ◌∷◌, ◌++◌, append_assoc, append-nil, none, some, String, value,
  values, value-insert, value-remove, insert, remove, arith, ◌==◌, inl, inr, Option-cases,
  Bool-cases, ap, sym, member,
}
use nymea_remoteproxy.Client.{TunnelProxyClient, type_server, type_client}
use nymea_remoteproxy.Connections.{
  TunnelProxyServerConnection, TunnelProxyClientConnection, unregister_client_connection,
  set_socket_address, set_server_connection,
}
use nymea_remoteproxy.Connections.Entries.{member-values}
use nymea_remoteproxy.State.{TunnelProxyServer, Output, killed, kill_connection}
use nymea_remoteproxy.Variant.{Qt}
use nymea_remoteproxy.JsonRpc.{unregister_json_client}
use nymea_remoteproxy.Server.Sockets.{
  on_client_disconnected, connection_gone, server_gone, drop_clients,
}
use nymea_remoteproxy.Server.View.{view}
use nymea_remoteproxy.Server.Consistent.{IsConsistent}
use nymea_remoteproxy.Server.ServerRemoval.{orphan, drop_clients_lem}
use nymea_remoteproxy.Server.Sending.{socket_with_role}

-- Some output holds this one.
abbrev Holds : List Output → Output → Type 0
Holds outputs o = (before rest : List Output) × (outputs ≡ before ++ o ∷ rest)

grown-kill_connection :
    (w : TunnelProxyServer) (id : ℕ) (reason : String)
    → (rest : List Output) × ((kill_connection w id reason).output ≡ w.output ++ rest)
unfolding kill_connection
grown-kill_connection w id reason = elim (Option-cases (value w.proxy_clients id)) [
  | inl nobody ↦ ([], rw (nobody, kill_connection) (sym (append-nil w.output)))
  | inr (c, found) ↦ (killed c.interface id reason ∷ [], rw (found, kill_connection))
]

grown-drop_clients :
    (w : TunnelProxyServer) (s : TunnelProxyServerConnection) (us : List ℕ)
    → (rest : List Output) × ((drop_clients w s us).output ≡ w.output ++ rest)
unfolding drop_clients unregister_client_connection
grown-drop_clients w s [] = ([], sym (append-nil w.output))
grown-drop_clients w s (u ∷ us) = elim (Option-cases (value w.tunnel_proxy_client_connections u)) [
  | inl e ↦ let (rest, ih) = grown-drop_clients w s us in (rest, rw (e, drop_clients) ih)
  | inr (c, e) ↦
      let (s', c') = unregister_client_connection s c in
      let w' = record w {
        tunnel_proxy_client_connections = insert w.tunnel_proxy_client_connections u c';
      } in
      let (more, e') = grown-kill_connection w' c.transport_client "Server disconnected" in
      let (rest, ih) =
        grown-drop_clients (kill_connection w' c.transport_client "Server disconnected") s' us in
      (
        more ++ rest,
        rw (e, drop_clients) (ih ∙ ap (λ o. o ++ rest) e' ∙ append_assoc w.output more rest),
      )
]

same_sockets :
    (w : TunnelProxyServer) (id : ℕ) (reason : String)
    → (kill_connection w id reason).proxy_clients ≡ w.proxy_clients
unfolding kill_connection
same_sockets w id reason = elim (Option-cases (value w.proxy_clients id)) [
  | inl nobody ↦ rw (nobody, kill_connection)
  | inr (c, found) ↦ rw (found, kill_connection)
]

same_clients :
    (w : TunnelProxyServer) (id : ℕ) (reason : String)
    → (kill_connection w id reason).tunnel_proxy_client_connections
      ≡ w.tunnel_proxy_client_connections
unfolding kill_connection
same_clients w id reason = elim (Option-cases (value w.proxy_clients id)) [
  | inl nobody ↦ rw (nobody, kill_connection)
  | inr (c, found) ↦ rw (found, kill_connection)
]

killed_once :
    (w : TunnelProxyServer) (id : ℕ) (reason : String) (p : TunnelProxyClient)
    → value w.proxy_clients id ≡ some p
    → (kill_connection w id reason).output ≡ w.output ++ killed p.interface id reason ∷ []
unfolding kill_connection
killed_once w id reason p found = rw (found, kill_connection)

drop_clients-kills :
    (w : TunnelProxyServer) (s : TunnelProxyServerConnection) (us : List ℕ) (u j : ℕ)
    (p : TunnelProxyClient)
    → member u us ≡ true
    → Option.map (λ c. c.transport_client) (value w.tunnel_proxy_client_connections u) ≡ some j
    → value w.proxy_clients j ≡ some p
    → Holds (drop_clients w s us).output (killed p.interface j "Server disconnected")
unfolding drop_clients unregister_client_connection set_socket_address set_server_connection
drop_clients-kills w s [] u j p there at socket = absurd (ground arith)
drop_clients-kills w s (v ∷ us) u j p there at socket =
    elim (Option-cases (value w.tunnel_proxy_client_connections v)) [
      | inl e ↦
          let (before, rest, ih) =
            drop_clients-kills w s us u j p (ground (arith, e, there, at)) at socket in
          (before, rest, rw (e, drop_clients) ih)
      | inr (c, e) ↦
          let (s', c') = unregister_client_connection s c in
          let w' = record w {
            tunnel_proxy_client_connections = insert w.tunnel_proxy_client_connections v c';
          } in
          let w'' = kill_connection w' c.transport_client "Server disconnected" in
          elim (Bool-cases (v == u)) [
            | inl hit ↦
                let same : c.transport_client ≡ j = ground (arith, hit, e, at) in
                let once =
                  killed_once w' c.transport_client "Server disconnected" p
                    (ap (value w.proxy_clients) same ∙ socket) in
                let (rest, grown) = grown-drop_clients w'' s' us in
                (
                  w.output,
                  rest,
                  rw (e, drop_clients)
                      (grown
                        ∙ ap (λ o. o ++ rest) once
                        ∙ append_assoc w.output
                            (killed p.interface c.transport_client "Server disconnected" ∷ []) rest
                        ∙ ap (λ k. w.output ++ killed p.interface k "Server disconnected" ∷ rest)
                            same),
                )
            | inr miss ↦
                let kept_at : Option.map (λ c. c.transport_client)
                      (value w''.tunnel_proxy_client_connections u)
                    ≡ some j =
                  ap (λ m. Option.map (λ c. c.transport_client) (value m u))
                    (same_clients w' c.transport_client "Server disconnected")
                  ∙ ground
                      (arith, miss, value-insert w.tunnel_proxy_client_connections v c' u, at) in
                let kept_socket : value w''.proxy_clients j ≡ some p =
                  ap (λ m. value m j) (same_sockets w' c.transport_client "Server disconnected")
                  ∙ socket in
                let (before, rest, ih) =
                  drop_clients-kills w'' s' us u j p (ground (arith, miss, there)) kept_at
                    kept_socket in
                (before, rest, rw (e, drop_clients) ih)
          ]
    ]

same_tables :
    (id : ℕ) (w : TunnelProxyServer)
    → ((unregister_json_client id w).output ≡ w.output)
      × ((unregister_json_client id w).tunnel_proxy_client_connections
          ≡ w.tunnel_proxy_client_connections)
unfolding unregister_json_client
same_tables id w = elim (Bool-cases (member id w.clients)) [
  | inl known ↦ rw (known, unregister_json_client) (refl, refl)
  | inr stranger ↦ rw (stranger, unregister_json_client) (refl, refl)
]

-- The state in which the clients of the server x are let go.
letting_go : TunnelProxyServer → ℕ → ℕ → TunnelProxyServer
letting_go w id x = record w {
  proxy_clients = remove w.proxy_clients id;
  tunnel_proxy_server_connections = remove w.tunnel_proxy_server_connections x;
}

module _ (q : Qt) where
  server_leaves :
      (w : TunnelProxyServer) (id x : ℕ) (c : TunnelProxyClient) (s : TunnelProxyServerConnection)
      → value w.proxy_clients id ≡ some c
      → c.type ≡ type_server
      → c.uuid ≡ x
      → value w.tunnel_proxy_server_connections x ≡ some s
      → on_client_disconnected q w id
        ≡ unregister_json_client id
            (drop_clients (letting_go w id x) s (values s.client_connections))
  unfolding on_client_disconnected connection_gone server_gone letting_go
  server_leaves w id x c s found t u server =
      rw (found, on_client_disconnected, t, connection_gone, u) (rw (server, server_gone))

  -- When the socket of a server disconnects in a state with consistent bookkeeping, every client
  -- that is connected to this server has no server and no address after it, and its socket is
  -- killed.
  pub server_disconnected :
      (w : TunnelProxyServer) (id x u : ℕ) (d : TunnelProxyClientConnection)
      → IsConsistent (view w)
      → (view w).role id ≡ some (type_server, x)
      → value w.tunnel_proxy_client_connections u ≡ some d
      → d.server_connection ≡ some x
      → let w' = on_client_disconnected q w id in
        (value w'.tunnel_proxy_client_connections u
          ≡ some (record d { server_connection = none; server_uuid = 0; socket_address = 0xFFFF }))
        × ((j : ℕ) × (p : TunnelProxyClient) × ((view w).role j ≡ some (type_client, u))
            × (value w.proxy_clients j ≡ some p)
            × (before rest : List Output) × (w'.output
                ≡ before ++ killed p.interface j "Server disconnected" ∷ rest))
  unfolding orphan set_socket_address set_server_connection letting_go
  server_disconnected w id x u d h role known linked =
      elim (Option-cases (value w.tunnel_proxy_server_connections x)) [
        | inl unknown ↦ absurd (ground (arith, unknown, h.server_known id x role))
        | inr (s, server) ↦
            let (c, found, c_role) = socket_with_role w id (type_server, x) role in
            let owned = h.clients_owned u d known in
            let (p, socket, p_role) =
              socket_with_role w d.transport_client (type_client, u) owned in
            let us = values s.client_connections in
            let listed : member u us ≡ true =
              member-values s.client_connections u (h.entries x s server)
              ∙ ground (arith, server, h.linked u x d known linked) in
            let g = letting_go w id x in
            let there : value g.proxy_clients d.transport_client ≡ some p =
              ground
                (arith, socket, value-remove w.proxy_clients id d.transport_client, role, owned) in
            let ends =
              server_leaves w id x c s found (ap (λ r. r.0) c_role) (ap (λ r. r.1) c_role) server in
            let tables = same_tables id (drop_clients g s us) in
            let (before, rest, kills) =
              drop_clients-kills g s us u d.transport_client p listed
                (ap (Option.map (λ c. c.transport_client)) known) there in
            (
              ap (λ v. value v.tunnel_proxy_client_connections u) ends
                  ∙ ap (λ m. value m u) tables.1
                  ∙ drop_clients_lem g s us u
                  ∙ ground (arith, listed, known),
              (
                d.transport_client,
                p,
                owned,
                socket,
                before,
                rest,
                ap (λ v. v.output) ends ∙ tables.0 ∙ kills,
              ),
            )
      ]
