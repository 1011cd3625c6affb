-- ===== src/Server/Arriving.antt =====
-- Connections and forced disconnections (tunnelproxyserver.cpp: onClientConnected, disconnectClient)
-- keep the bookkeeping consistent.
use mathlib.Core.Option
use mathlib.Core.Path.{fun_ext}
use nymea_remoteproxy.Base.{
  ℕ, suc, count, count-remove-le, ◌<◌, ◌≡◌, refl, false, not, Option, some, String, Hash, value,
  value-insert, remove, insert, contains, arith, member, inl, inr, Bool-cases, Option-cases, ap,
}
use nymea_remoteproxy.Client.{Transport, TunnelProxyClient, new_client, type_none}
use nymea_remoteproxy.Connections.{get_client_connection}
use nymea_remoteproxy.State.{TunnelProxyServer, Settings}
use nymea_remoteproxy.JsonRpc.{register_json_client}
use nymea_remoteproxy.Registration.{disconnect_client, is_type_server}
use nymea_remoteproxy.Server.Sockets.{on_client_connected}
use nymea_remoteproxy.Server.View.{
  Role, view, role_in, role_of, view-refuse, view-kill_client_connection,
}
use nymea_remoteproxy.Server.Consistent.{IsConsistent, assign}
use nymea_remoteproxy.Server.Directory.Tables.{add_socket-Move}
use nymea_remoteproxy.Server.Changed.{Changed, unchanged, moved, kept}
use nymea_remoteproxy.Server.Removal.{add_socket, add_socket-IsConsistent}

-- Where there is no socket of this id, a new one is an unregistered one.
role-insert :
    (clients : Hash TunnelProxyClient) (id : ℕ) (c : TunnelProxyClient) (r : Role)
    → role_of c ≡ r
    → (j : ℕ) → role_in (insert clients id c) j ≡ assign (role_in clients) id (some r) j
role-insert clients id c r same j =
    ground (arith, value-insert clients id c j, ap {B = Option Role} some same)

-- A socket that connects, whether its id is new or not, keeps the bookkeeping consistent, and is a
-- move of the directory at most.
pub on_client_connected-Changed :
    (s : Settings) (now : ℕ) (w : TunnelProxyServer) (interface : Transport) (id : ℕ)
    (address : String)
    → IsConsistent (view w)
    → count w.proxy_clients < 98
    → Changed (view w) (view (on_client_connected s now w interface id address))
unfolding on_client_connected insert contains register_json_client new_client
on_client_connected-Changed s now w interface id address h room =
    elim (Option-cases (value w.proxy_clients id)) [
      | inr (c, e) ↦ rw (e, on_client_connected) (unchanged h)
      | inl e ↦
          let unknown : member id w.clients ≡ false = ground (arith, h.sockets id, e) in
          rw (e, on_client_connected, unknown)
            (kept
              (λ i. record (add_socket (view w) id (suc (count (remove w.proxy_clients id)))) {
                role =
                    fun_ext
                      (λ j.
                        role-insert w.proxy_clients id
                          (new_client interface id address now s.inactive_timeout) (type_none, 0)
                          refl j)
                      i;
              })
              (moved
                (add_socket-IsConsistent (view w) id (suc (count (remove w.proxy_clients id))) h
                  (ap (Option.map role_of) e) (omega (arith, count-remove-le w.proxy_clients id)))
                (add_socket-Move (view w) h id (suc (count (remove w.proxy_clients id)))
                  (ap (Option.map role_of) e))))
    ]

-- Whatever disconnectClient answers, the bookkeeping is what it was: the client's end comes with its
-- own disconnection.
pub view-disconnect_client :
    (w : TunnelProxyServer) (id address : ℕ) → view (disconnect_client w id address).0 ≡ view w
unfolding disconnect_client
view-disconnect_client w id address = elim (Option-cases (value w.proxy_clients id)) [
  | inl e ↦ rw (e, disconnect_client)
  | inr (c, e) ↦ elim (Bool-cases (not (is_type_server c.type))) [
    | inl other ↦ rw (e, disconnect_client, other) (view-refuse w id _ _)
    | inr server ↦ elim (Option-cases (value w.tunnel_proxy_server_connections c.uuid)) [
      | inl unknown ↦ rw (e, disconnect_client, server, unknown) (view-refuse w id _ _)
      | inr (s, found) ↦ elim (Option-cases (get_client_connection s address)) [
        | inl nobody ↦ rw (e, disconnect_client, server, found, nobody)
        | inr (u, at) ↦
            rw (e, disconnect_client, server, found, at) (view-kill_client_connection w u _)
      ]
    ]
  ]
]
