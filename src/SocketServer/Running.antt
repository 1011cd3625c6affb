-- ===== src/SocketServer/Running.antt =====
-- A server behind the proxy says that it is running exactly in the running state
-- (tunnelproxysocketserver.cpp: setState, setRunning, and all that calls them).
use nymea_remoteproxy.Base.{
  ℕ, ◌≡◌, ◌∙◌, refl, Bool, true, false, List, [], ◌∷◌, String, arith, inl, inr, Option-cases,
  Bool-cases, value, keys, sym, ap,
}
use nymea_remoteproxy.SocketServer.{
  TunnelProxySocketServer, SocketServerState, SocketServerError, SocketState, unconnected,
  host_lookup, connecting, connected, bound, closing, listening, state_running, same_state,
  set_socket_server_running, after_change, disconnect_all, state_disconnected, state_host_lookup,
  state_connecting, state_connected, state_disconnecting, set_state, set_error, set_server_error,
  on_tunnel_proxy_client_connected, on_tunnel_proxy_client_disconnected, clean_up,
  start_socket_server, stop_socket_server, on_connection_state_changed, signal, state_changed,
  unknown_socket_error,
}

abbrev pub IsSettled : TunnelProxySocketServer → Type 0
IsSettled s = s.running ≡ same_state s.state state_running

pub running_set :
    (b : Bool) (s : TunnelProxySocketServer)
    → ((set_socket_server_running b s).running ≡ b)
      × ((set_socket_server_running b s).state ≡ s.state)
unfolding set_socket_server_running
running_set true s = ground arith
running_set false s = ground arith

after_change-IsSettled : (s : TunnelProxySocketServer) → IsSettled s → IsSettled (after_change s)
after_change-IsSettled s h = ground (arith, h)

running_set-IsSettled :
    (b : Bool) (s : TunnelProxySocketServer)
    → same_state s.state state_running ≡ b
    → IsSettled (set_socket_server_running b s)
running_set-IsSettled b s h =
    let set = running_set b s in set.0 ∙ sym h ∙ ap (λ st. same_state st state_running) (sym set.1)

pub state_set :
    (state : SocketServerState) (s : TunnelProxySocketServer)
    → IsSettled s
    → IsSettled (set_state state s)
unfolding set_state
state_set state s h = elim (Bool-cases (same_state s.state state)) [
  | inl same ↦ rw same h
  | inr other ↦ rw other (
      after_change-IsSettled _ (
        running_set-IsSettled (same_state state state_running)
          (signal (state_changed state) (record s { state = state })) refl))
]

pub error_set :
    (error : SocketServerError) (s : TunnelProxySocketServer)
    → IsSettled s
    → IsSettled (set_server_error error s)
unfolding set_server_error
error_set error s h = ground arith

pub socket_failed :
    (error : ℕ) (s : TunnelProxySocketServer) → IsSettled s → IsSettled (set_error error s)
unfolding set_error
socket_failed error s h = ground arith

pub socket_gone :
    (a : ℕ) (s : TunnelProxySocketServer)
    → IsSettled s
    → IsSettled (on_tunnel_proxy_client_disconnected a s)
unfolding on_tunnel_proxy_client_disconnected
socket_gone a s h = elim (Option-cases (value s.tunnel_proxy_sockets a)) [
  | inl none_e ↦ rw (on_tunnel_proxy_client_disconnected, none_e) h
  | inr (socket, found) ↦ rw (on_tunnel_proxy_client_disconnected, found) h
]

pub socket_new :
    (name : String) (uuid : ℕ) (peer : String) (a : ℕ) (s : TunnelProxySocketServer)
    → IsSettled s
    → IsSettled (on_tunnel_proxy_client_connected name uuid peer a s)
unfolding on_tunnel_proxy_client_connected
socket_new name uuid peer a s h = h

pub sockets_gone :
    (l : List ℕ) (s : TunnelProxySocketServer) → IsSettled s → IsSettled (disconnect_all l s)
sockets_gone [] s h = h
sockets_gone (a ∷ l) s h =
    sockets_gone l (on_tunnel_proxy_client_disconnected a s) (socket_gone a s h)

pub cleaned : (s : TunnelProxySocketServer) → IsSettled s → IsSettled (clean_up s)
unfolding clean_up
cleaned s h = state_set state_disconnected _ (sockets_gone (keys s.tunnel_proxy_sockets) s h)

pub started :
    (valid : Bool) (s : TunnelProxySocketServer)
    → IsSettled s
    → IsSettled (start_socket_server valid s)
unfolding start_socket_server
started true s h = cleaned (record s { error = unknown_socket_error }) h
started false s h = h

pub stopped : (s : TunnelProxySocketServer) → IsSettled s → IsSettled (stop_socket_server s)
unfolding stop_socket_server
stopped s h = ground (arith, h)

pub connection_state :
    (st : SocketState) (s : TunnelProxySocketServer)
    → IsSettled s
    → IsSettled (on_connection_state_changed st s)
unfolding on_connection_state_changed
connection_state unconnected s h = state_set state_disconnected s h
connection_state host_lookup s h = state_set state_host_lookup s h
connection_state connecting s h = state_set state_connecting s h
connection_state connected s h = state_set state_connected s h
connection_state closing s h = state_set state_disconnecting s h
connection_state bound s h = h
connection_state listening s h = h
