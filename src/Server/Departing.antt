-- ===== src/Server/Departing.antt =====
-- Disconnections (tunnelproxyserver.cpp: onClientDisconnected) keep the bookkeeping consistent.
use mathlib.Core.Option
use mathlib.Core.Path.{fun_ext}
use nymea_remoteproxy.Base.{
  ℕ, count, count-remove-le, ◌≤◌, ◌≡◌, refl, true, List, Option, none, some, Hash, value, values,
  value-remove, remove, insert, arith, member, inl, inr, Option-cases, ap, ◌∙◌, remove_all,
}
use nymea_remoteproxy.Client.{TunnelProxyClient, type_none, type_server, type_client}
use nymea_remoteproxy.Variant.{Qt, insert_value, end, number, pos}
use nymea_remoteproxy.Connections.{
  TunnelProxyClientConnection, TunnelProxyServerConnection, unregister_client_connection,
}
use nymea_remoteproxy.State.{TunnelProxyServer, send_notification}
use nymea_remoteproxy.JsonRpc.{unregister_json_client}
use nymea_remoteproxy.Server.Sockets.{
  on_client_disconnected, connection_gone, server_gone, client_gone, leave_server, drop_clients,
}
use nymea_remoteproxy.Server.View.{
  type_cases, View, Role, view, role_in, role_of, view-send_notification,
}
use nymea_remoteproxy.Server.Consistent.{IsConsistent, assign}
use nymea_remoteproxy.Server.Directory.Tables.{
  remove_socket-Move, client_removed, remove_server-Move,
}
use nymea_remoteproxy.Server.Changed.{Changed, unchanged, moved, kept}
use nymea_remoteproxy.Server.Removal.{
  remove_socket-IsConsistent, remove_client-IsConsistent, unlink_client-IsConsistent,
}
use nymea_remoteproxy.Server.ServerRemoval.{
  remove_server-IsConsistent, view-drop_clients, drop_clients_lem,
}

role-remove :
    (clients : Hash TunnelProxyClient) (id j : ℕ)
    → role_in (remove clients id) j ≡ assign (role_in clients) id none j
role-remove clients id j = ground (arith, value-remove clients id j)

-- What the JSON RPC server forgets.
forget_json : View → ℕ → View
forget_json v id = record v { json_clients = remove_all id v.json_clients }

view-unregister_json_client :
    (id : ℕ) (w : TunnelProxyServer)
    → member id w.clients ≡ true
    → view (unregister_json_client id w) ≡ forget_json (view w) id
unfolding unregister_json_client forget_json
view-unregister_json_client id w e = rw (e, unregister_json_client)

module _ (q : Qt) (w : TunnelProxyServer) (id : ℕ) (c : TunnelProxyClient)
    (found : value w.proxy_clients id ≡ some c) (h : IsConsistent (view w)) where
  without_socket : TunnelProxyServer
  without_socket = record w { proxy_clients = remove w.proxy_clients id }

  -- The number of sockets that stay.
  abbrev left : ℕ
  left = count (remove w.proxy_clients id)

  left_few : left ≤ 98
  left_few = omega (arith, h.few, count-remove-le w.proxy_clients id)

  without_role : View
  without_role = record (view w) { role = assign (view w).role id none; socket_count = left }

  view-without_socket : view without_socket ≡ without_role
  unfolding without_socket without_role
  view-without_socket = λ i. record (view w) {
    socket_count = left;
    role = fun_ext (λ j. role-remove w.proxy_clients id j) i;
  }

  registered_json : member id w.clients ≡ true
  registered_json = ground (arith, h.sockets id, found)

  -- The last step of onClientDisconnected, after the tables have been written.
  finish :
      (w' : TunnelProxyServer) (v : View)
      → view w' ≡ v
      → v.json_clients ≡ w.clients
      → view (unregister_json_client id w') ≡ forget_json v id
  finish w' v e same =
      let clients : w'.clients ≡ w.clients = ap {B = List ℕ} (λ v. v.json_clients) e ∙ same in
      view-unregister_json_client id w' (ap (λ l. member id l) clients ∙ registered_json)
      ∙ ap (λ v. forget_json v id) e

  role_found : (view w).role id ≡ some (c.type, c.uuid)
  role_found = ap (Option.map role_of) found

  none_gone-Changed :
      c.type ≡ type_none → Changed (view w) (view (unregister_json_client id without_socket))
  unfolding without_role forget_json
  none_gone-Changed t =
      let fresh = role_found ∙ ap {B = Option Role} (λ k. some (k, c.uuid)) t in
      kept (finish without_socket without_role view-without_socket refl) (
        moved (remove_socket-IsConsistent (view w) id left c.uuid h fresh left_few)
          (remove_socket-Move (view w) h id left c.uuid fresh))

  server_gone-Changed :
      c.type ≡ type_server
      → Changed (view w) (view (unregister_json_client id (server_gone without_socket c.uuid)))
  unfolding without_socket without_role forget_json server_gone
  server_gone-Changed t =
      let registered : (view w).role id ≡ some (type_server, c.uuid) =
        role_found ∙ ap {B = Option Role} (λ k. some (k, c.uuid)) t in
      elim (Option-cases (value w.tunnel_proxy_server_connections c.uuid)) [
        | inl unknown ↦ absurd (ground (arith, h.server_known id c.uuid))
        | inr (s, known) ↦
            let w' = record without_socket {
              tunnel_proxy_server_connections = remove w.tunnel_proxy_server_connections c.uuid;
            } in
            let dropped = drop_clients w' s (values s.client_connections) in
            let v' = record without_role {
              servers = remove w.tunnel_proxy_server_connections c.uuid;
              clients = dropped.tunnel_proxy_client_connections;
            } in
            let seen : view dropped ≡ v' =
              view-drop_clients w' s (values s.client_connections)
              ∙ ap {A = View} {B = View}
                  (λ v. record v {
                    servers = remove w.tunnel_proxy_server_connections c.uuid;
                    clients = dropped.tunnel_proxy_client_connections;
                  })
                  view-without_socket in
            rw (known, server_gone)
              (kept (finish dropped v' seen refl) (
                moved
                  (remove_server-IsConsistent (view w) id left c.uuid left_few s
                    dropped.tunnel_proxy_client_connections h registered known
                    (drop_clients_lem w' s (values s.client_connections)))
                  (remove_server-Move (view w) h id left c.uuid s
                    dropped.tunnel_proxy_client_connections registered known
                    (drop_clients_lem w' s (values s.client_connections)))))
      ]

  -- A client that has no server is forgotten.
  alone_gone-Changed :
      (d : TunnelProxyClientConnection)
      → (view w).role id ≡ some (type_client, c.uuid)
      → value w.tunnel_proxy_client_connections c.uuid ≡ some d
      → d.server_connection ≡ none
      → Changed (view w) (view (unregister_json_client id (client_gone q without_socket c.uuid)))
  unfolding without_socket without_role forget_json client_gone leave_server
      unregister_client_connection
  alone_gone-Changed d registered known alone =
      let w' = record without_socket {
        tunnel_proxy_client_connections = remove w.tunnel_proxy_client_connections c.uuid;
      } in
      let v' = record without_role { clients = remove w.tunnel_proxy_client_connections c.uuid } in
      let seen : view w' ≡ v' =
        ap {A = View} {B = View}
          (λ v. record v { clients = remove w.tunnel_proxy_client_connections c.uuid })
          view-without_socket in
      rw (known, client_gone, alone, leave_server)
        (kept (finish w' v' seen refl) (
          moved
            (remove_client-IsConsistent (view w) id left c.uuid left_few h registered d known alone)
            (client_removed (view w) h id c.uuid (forget_json v' id) registered (λ j. refl) refl)))

  -- A client that has a server is forgotten there too, and the server is told.
  linked_gone-Changed :
      (d : TunnelProxyClientConnection) (x : ℕ) (s : TunnelProxyServerConnection)
      → (view w).role id ≡ some (type_client, c.uuid)
      → value w.tunnel_proxy_client_connections c.uuid ≡ some d
      → d.server_connection ≡ some x
      → value w.tunnel_proxy_server_connections x ≡ some s
      → Changed (view w) (view (unregister_json_client id (client_gone q without_socket c.uuid)))
  unfolding without_socket without_role forget_json client_gone leave_server
      unregister_client_connection
  linked_gone-Changed d x s registered known linked server =
      let both = unregister_client_connection s d in
      let w' = record without_socket {
        tunnel_proxy_client_connections = remove w.tunnel_proxy_client_connections c.uuid;
        tunnel_proxy_server_connections = insert w.tunnel_proxy_server_connections x both.0;
      } in
      let v' = record without_role {
        clients = remove w.tunnel_proxy_client_connections c.uuid;
        servers = insert w.tunnel_proxy_server_connections x both.0;
      } in
      let params = insert_value end "socketAddress" (number (pos d.socket_address)) in
      let seen : view
            (send_notification q w' "TunnelProxy" "ClientDisconnected" params s.transport_client)
          ≡ v' =
        view-send_notification q w' "TunnelProxy" "ClientDisconnected" params s.transport_client
        ∙ ap {A = View} {B = View}
            (λ v. record v {
              clients = remove w.tunnel_proxy_client_connections c.uuid;
              servers = insert w.tunnel_proxy_server_connections x both.0;
            })
            view-without_socket in
      rw (known, client_gone, linked, leave_server, server)
        (kept
          (finish
            (send_notification q w' "TunnelProxy" "ClientDisconnected" params s.transport_client) v'
            seen refl)
          (moved
            (unlink_client-IsConsistent (view w) id left c.uuid left_few h registered d known x s
              both.0 linked server refl refl refl refl
              (ap (λ u. remove s.client_connections u) (h.clients_named c.uuid d known)))
            (client_removed (view w) h id c.uuid (forget_json v' id) registered (λ j. refl) refl)))

  client_gone-Changed :
      c.type ≡ type_client
      → Changed (view w) (view (unregister_json_client id (client_gone q without_socket c.uuid)))
  client_gone-Changed t =
      let registered : (view w).role id ≡ some (type_client, c.uuid) =
        role_found ∙ ap {B = Option Role} (λ k. some (k, c.uuid)) t in
      elim (Option-cases (value w.tunnel_proxy_client_connections c.uuid)) [
        | inl unknown ↦ absurd (ground (arith, h.client_known id c.uuid))
        | inr (d, known) ↦ elim (Option-cases d.server_connection) [
          | inl alone ↦ alone_gone-Changed d registered known alone
          | inr (x, linked) ↦ elim (Option-cases (value w.tunnel_proxy_server_connections x)) [
            | inl unknown ↦ absurd (ground (arith, unknown, h.linked c.uuid x d known linked))
            | inr (s, server) ↦ linked_gone-Changed d x s registered known linked server
          ]
        ]
      ]

module _ (q : Qt) where
  -- A socket that disconnects, registered or not, known or not, leaves consistent bookkeeping
  -- behind, and is a move of the directory at most.
  pub on_client_disconnected-Changed :
      (w : TunnelProxyServer) (id : ℕ)
      → IsConsistent (view w)
      → Changed (view w) (view (on_client_disconnected q w id))
  unfolding on_client_disconnected connection_gone without_socket
  on_client_disconnected-Changed w id h = elim (Option-cases (value w.proxy_clients id)) [
    | inl e ↦ rw (e, on_client_disconnected) (unchanged h)
    | inr (c, e) ↦ elim (type_cases c.type) [
      | inl t ↦
          rw (e, on_client_disconnected, t, connection_gone) (none_gone-Changed q w id c e h t)
      | inr (inl t) ↦
          rw (e, on_client_disconnected, t, connection_gone) (server_gone-Changed q w id c e h t)
      | inr (inr t) ↦
          rw (e, on_client_disconnected, t, connection_gone) (client_gone-Changed q w id c e h t)
    ]
  ]

  -- A socket that disconnects, registered or not, known or not, leaves consistent bookkeeping behind
  -- if the bookkeeping was consistent before.
  pub on_client_disconnected-IsConsistent :
      (w : TunnelProxyServer) (id : ℕ)
      → IsConsistent (view w)
      → IsConsistent (view (on_client_disconnected q w id))
  on_client_disconnected-IsConsistent w id h = (on_client_disconnected-Changed w id h).consistent
