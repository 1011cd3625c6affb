-- ===== src/Transports/TcpKept.antt =====
-- What holds of the table and the signals of a TcpSocketServer (tcpsocketserver.cpp) whatever
-- happens.
use nymea_remoteproxy.Base.{
  All, ◌⊎◌, ℕ, ◌≡◌, ◌+◌, Bool, true, false, not, ◌&&◌, Option, none, some, String, List, [], ◌∷◌,
  keys, Bytes, Hash, value, insert, remove, contains, refl, Bool-cases, inl, inr, arith,
  if◌then◌else◌, ◌==◌,
}
use nymea_remoteproxy.Transports.{
  wrote, closed, flushed, Signal, key, data_available, client_disconnected, client_connected,
}
use nymea_remoteproxy.Transports.Sessions.{key-contains}
use nymea_remoteproxy.Transports.TcpSockets.{
  close_old, pending_of, stop_listening, call, forward, TcpSocketServer, SslServer, set_server_url,
  send_data, kill_client_connection, kill_all, start_server, stop_server, on_data_available,
  on_socket_disconnected, on_encryption_timeout, on_error_occurred, incoming_connection,
  on_ready_read, on_socket_connected, accept_pending, on_new_connection, on_encrypted,
  on_disconnected,
}
use nymea_remoteproxy.Transports.TcpEvents.{
  Event, gets_url, starts, stops, sends, kills, incoming, has_new_connection, is_encrypted,
  ready_read, disconnected, error_occurred, times_out, handle, run, Says,
}

-- Whether SSL is enabled, the table, the number of uuids, and the signals.
abbrev pub Predicate : Type 1
Predicate = Bool → Hash ℕ → ℕ → List Signal → Type 0

-- A property that the announcements keep, of clients that are encrypted or that need not be.
pub record IsKept (create_uuid : ℕ → ℕ) (Encrypted : ℕ → Type 0) (P : Predicate) : Type 0 where
  pub connects :
      (ssl : Bool) (clients : Hash ℕ) (created : ℕ) (signals : List Signal) (socket : ℕ)
      (address : String)
      → (ssl ≡ false) ⊎ Encrypted socket
      → P ssl clients created signals
      → P ssl
          (insert clients (create_uuid created) socket)
          (created + 1)
          (client_connected (create_uuid created) address ∷ signals)
  pub disconnects :
      (ssl : Bool) (clients : Hash ℕ) (created : ℕ) (signals : List Signal) (id : ℕ)
      → contains clients id ≡ true
      → P ssl clients created signals
      → P ssl (remove clients id) created (client_disconnected id ∷ signals)
  pub receives :
      (ssl : Bool) (clients : Hash ℕ) (created : ℕ) (signals : List Signal) (id : ℕ) (bytes : Bytes)
      → contains clients id ≡ true
      → P ssl clients created signals
      → P ssl clients created (data_available id bytes ∷ signals)

module _ (qt_6 : Bool) (create_uuid : ℕ → ℕ) (peer_address : ℕ → String) (Encrypted : ℕ → Type 0)
    (P : Predicate) (kept : IsKept create_uuid Encrypted P) where
  abbrev Holds : TcpSocketServer → Type 0
  Holds t = P t.ssl_enabled t.client_list t.created t.signals

  on_socket_connected_lem :
      (client : ℕ) (t : TcpSocketServer)
      → (t.ssl_enabled ≡ false) ⊎ Encrypted client
      → Holds t
      → Holds (on_socket_connected create_uuid peer_address client t)
  unfolding on_socket_connected
  on_socket_connected_lem client t allowed h =
      kept.connects t.ssl_enabled t.client_list t.created t.signals client (peer_address client)
        allowed h

  accept_pending_lem :
      (clients : List ℕ) (t : TcpSocketServer)
      → Holds t
      → Holds (accept_pending create_uuid peer_address clients t)
  unfolding accept_pending
  accept_pending_lem [] t h = h
  accept_pending_lem (client ∷ clients) t h =
      accept_pending_lem clients _ (either t.ssl_enabled refl)
    where
      either :
          (ssl : Bool)
          → t.ssl_enabled ≡ ssl
          → Holds (if not ssl then on_socket_connected create_uuid peer_address client t else t)
      either true e = h
      either false e = on_socket_connected_lem client t (inl e) h

  on_data_available_lem :
      (client : ℕ) (bytes : Bytes) (t : TcpSocketServer)
      → Holds t
      → Holds (on_data_available client bytes t)
  unfolding on_data_available
  on_data_available_lem client bytes t h = elim (Bool-cases (key t.client_list client == 0)) [
    | inl null ↦ rw (null, on_data_available) h
    | inr known ↦
        rw (known, on_data_available)
          (kept.receives t.ssl_enabled t.client_list t.created t.signals (key t.client_list client)
            bytes
            (key-contains t.client_list client _ refl (λ e. absurd (ground (arith, e, known)))) h)
  ]

  on_socket_disconnected_lem :
      (client : ℕ) (t : TcpSocketServer) → Holds t → Holds (on_socket_disconnected client t)
  unfolding on_socket_disconnected
  on_socket_disconnected_lem client t h = elim (Bool-cases (key t.client_list client == 0)) [
    | inl null ↦ rw (null, on_socket_disconnected) h
    | inr known ↦
        rw (known, on_socket_disconnected)
          (kept.disconnects t.ssl_enabled t.client_list t.created t.signals
            (key t.client_list client)
            (key-contains t.client_list client _ refl (λ e. absurd (ground (arith, e, known)))) h)
  ]

  send_data_lem :
      (id : ℕ) (bytes : Bytes) (t : TcpSocketServer) → Holds t → Holds (send_data id bytes t)
  unfolding send_data
  send_data_lem id bytes t h =
      elim (value t.client_list id)
        as (λ o. Holds (elim o [ none ↦ t | some client ↦ call (wrote client bytes) t ])) [
          | none ↦ h
          | some client ↦ h
        ]

  kill_lem :
      (id : ℕ) (reason : String) (t : TcpSocketServer)
      → Holds t
      → Holds (kill_client_connection id reason t)
  unfolding kill_client_connection
  kill_lem id reason t h =
      elim (value t.client_list id)
        as (λ o.
          Holds
            (elim o [ none ↦ t | some client ↦ call (closed client) (call (flushed client) t) ])) [
              | none ↦ h
              | some client ↦ h
            ]

  kill_all_lem : (ids : List ℕ) (t : TcpSocketServer) → Holds t → Holds (kill_all ids t)
  unfolding kill_all
  kill_all_lem [] t h = h
  kill_all_lem (id ∷ ids) t h = kill_all_lem ids _ (kill_lem id "Stop server" t h)

  close_old_lem :
      (server : Option SslServer) (t : TcpSocketServer) → Holds t → Holds (close_old server t)
  close_old_lem none t h = h
  close_old_lem (some server) t h = h

  start_server_lem :
      (can_listen : Bool) (t : TcpSocketServer)
      → Holds t
      → Holds (start_server (λ host port. can_listen) t).0
  unfolding start_server
  start_server_lem true t h = close_old_lem t.server t h
  start_server_lem false t h = close_old_lem t.server t h

  stop_listening_lem :
      (server : Option SslServer) (t : TcpSocketServer) → Holds t → Holds (stop_listening server t)
  unfolding stop_listening
  stop_listening_lem none t h = h
  stop_listening_lem (some server) t h = kill_all_lem (keys t.client_list) t h

  forward_lem : (f : SslServer → SslServer) (t : TcpSocketServer) → Holds t → Holds (forward f t)
  forward_lem f t h =
      elim t.server
        as (λ o.
          Holds (elim o [ none ↦ t | some server ↦ record t { server = some (f server) } ])) [
            | none ↦ h
            | some server ↦ h
          ]

  either_lem :
      (b : Bool) (t t' : TcpSocketServer) → Holds t → Holds t' → Holds (if b then t else t')
  either_lem true t t' h h' = h
  either_lem false t t' h h' = h'

  incoming_connection_lem :
      (client : ℕ) (accepted : Bool) (t : TcpSocketServer)
      → Holds t
      → Holds (incoming_connection client accepted t)
  unfolding incoming_connection
  incoming_connection_lem client accepted t h =
      either_lem (not accepted) _ _ h (forward_lem _ _ (either_lem t.ssl_enabled _ _ h h))

  on_ready_read_lem :
      (client : ℕ) (bytes : Bytes) (encrypted : Bool) (t : TcpSocketServer)
      → Holds t
      → Holds (on_ready_read client bytes encrypted t)
  unfolding on_ready_read
  on_ready_read_lem client bytes encrypted t h =
      either_lem (t.ssl_enabled && not encrypted) _ _ h (on_data_available_lem client bytes t h)

  on_disconnected_lem :
      (client : ℕ) (encrypted : Bool) (t : TcpSocketServer)
      → Holds t
      → Holds (on_disconnected qt_6 client encrypted t)
  unfolding on_disconnected
  on_disconnected_lem client encrypted t h =
      let gone = on_socket_disconnected_lem client t h in
      forward_lem _ _ (
        either_lem t.ssl_enabled _ _ (either_lem qt_6 _ _ gone (either_lem encrypted _ _ gone h))
          gone)

  handle_lem :
      (event : Event) (t : TcpSocketServer)
      → Says Encrypted event
      → Holds t
      → Holds (handle qt_6 create_uuid peer_address event t)
  unfolding handle stop_server on_new_connection on_encrypted set_server_url on_error_occurred
      on_encryption_timeout
  handle_lem (gets_url url) t says h = h
  handle_lem (starts can_listen) t says h = start_server_lem can_listen t h
  handle_lem stops t says h = stop_listening_lem t.server t h
  handle_lem (sends id bytes) t says h = send_data_lem id bytes t h
  handle_lem (kills id reason) t says h = kill_lem id reason t h
  handle_lem (incoming client accepted) t says h = incoming_connection_lem client accepted t h
  handle_lem has_new_connection t says h =
      accept_pending_lem (pending_of t.server)
        (forward (λ server. record server { pending = [] }) t) (forward_lem _ t h)
  handle_lem (is_encrypted client) t says h =
      on_socket_connected_lem client t (inr (says client refl)) h
  handle_lem (ready_read client bytes encrypted) t says h =
      on_ready_read_lem client bytes encrypted t h
  handle_lem (disconnected client encrypted) t says h = on_disconnected_lem client encrypted t h
  handle_lem (error_occurred client) t says h = h
  handle_lem (times_out client) t says h = h

  pub run_lem :
      (events : List Event) (t : TcpSocketServer)
      → All (Says Encrypted) events
      → Holds t
      → Holds (run qt_6 create_uuid peer_address events t)
  unfolding run
  run_lem [] t says h = h
  run_lem (event ∷ events) t says h = run_lem events _ says.1 (handle_lem event t says.0 h)
