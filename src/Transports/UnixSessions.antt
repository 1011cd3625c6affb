-- ===== src/Transports/UnixSessions.antt =====
-- The states that a UnixSocketServer (unixsocketserver.cpp) is in, and its signals.
use nymea_remoteproxy.Base.{
  ℕ, ◌≡◌, Bool, true, false, Option, none, some, String, List, [], ◌∷◌, Hash, Bytes, value, insert,
  contains, contains_lem, value-insert, value-remove, values, refl, arith, Bool-cases, inl, inr,
  if◌then◌else◌, ◌==◌, member,
}
use nymea_remoteproxy.Transports.{key, closed, wrote, flushed}
use nymea_remoteproxy.Transports.Sessions.{
  WellAnnounced, connected, IsAccurate, nothing-IsAccurate, data_available-IsAccurate,
  client_disconnected-IsAccurate, client_connected-IsAccurate,
}
use nymea_remoteproxy.Transports.UnixSockets.{
  UnixSocketServer, new_unix_socket_server, call, start_server, stop_server, close_all,
  stop_listening, send_data, kill_client_connection, take_client, forward, on_disconnected,
  on_ready_read, on_client_connected,
}

module _ (create_uuid : ℕ → ℕ) where
  -- What happens to the server. A connection comes with a socket of its own, and Qt reports data
  -- only of sockets that are connected.
  pub data Step : UnixSocketServer → UnixSocketServer → Type 0 where
    starts :
        (t : UnixSocketServer) (can_listen : Bool) → Step t (start_server (λ file. can_listen) t).0
    stops : (t : UnixSocketServer) → Step t (stop_server t).0
    sends : (t : UnixSocketServer) (id : ℕ) (bytes : Bytes) → Step t (send_data id bytes t)
    kills :
        (t : UnixSocketServer) (is_connected : ℕ → Bool) (id : ℕ) (reason : String)
        → Step t (kill_client_connection is_connected id reason t)
    connects :
        (t : UnixSocketServer) (client : ℕ)
        → value t.captured client ≡ none
        → Step t (on_client_connected create_uuid client t)
    receives :
        (t : UnixSocketServer) (client id : ℕ) (bytes : Bytes)
        → value t.client_list id ≡ some client
        → Step t (on_ready_read client bytes t)
    ends : (t : UnixSocketServer) (client : ℕ) → Step t (on_disconnected client t)

  pub data Reachable (file : String) : UnixSocketServer → Type 0 where
    initial : Reachable file (new_unix_socket_server file)
    after : {t t' : UnixSocketServer} → Reachable file t → Step t t' → Reachable file t'

  -- The handler of a client's data has captured the client's uuid.
  abbrev IsCaptured : Hash ℕ → Hash ℕ → Type 0
  IsCaptured clients captured =
      (id client : ℕ) → value clients id ≡ some client → value captured client ≡ some id

  abbrev Accurate : UnixSocketServer → Type 0
  Accurate t =
      IsAccurate create_uuid t.client_list t.created t.signals × IsCaptured t.client_list t.captured

  new_lem : (file : String) → Accurate (new_unix_socket_server file)
  unfolding new_unix_socket_server value
  new_lem file = (nothing-IsAccurate create_uuid, λ id client e. absurd (ground (arith, e)))

  close_all_lem :
      (clients : List ℕ) (t : UnixSocketServer) → Accurate t → Accurate (close_all clients t)
  close_all_lem [] t h = h
  close_all_lem (client ∷ clients) t h = close_all_lem clients _ h

  stop_listening_lem :
      (server : Option Bool) (t : UnixSocketServer)
      → Accurate t
      → Accurate (stop_listening server t)
  stop_listening_lem none t h = h
  stop_listening_lem (some listening) t h = close_all_lem (values t.client_list) t h

  send_data_lem :
      (id : ℕ) (bytes : Bytes) (t : UnixSocketServer) → Accurate t → Accurate (send_data id bytes t)
  unfolding send_data
  send_data_lem id bytes t h =
      elim (value t.client_list id)
        as (λ o. Accurate (elim o [
          | none ↦ t
          | some client ↦ call (flushed client) (call (wrote client bytes) t)
        ])) [ none ↦ h | some client ↦ h ]

  either_lem :
      (b : Bool) (t t' : UnixSocketServer)
      → Accurate t
      → Accurate t'
      → Accurate (if b then t else t')
  either_lem true t t' h h' = h
  either_lem false t t' h h' = h'

  kill_lem :
      (is_connected : ℕ → Bool) (id : ℕ) (reason : String) (t : UnixSocketServer)
      → Accurate t
      → Accurate (kill_client_connection is_connected id reason t)
  unfolding kill_client_connection
  kill_lem is_connected id reason t h =
      elim (value t.client_list id)
        as (λ o. Accurate (elim o [
          | none ↦ t
          | some client ↦ if is_connected client then call (closed client) t else t
        ])) [ none ↦ h | some client ↦ either_lem (is_connected client) _ _ h h ]

  take_client_lem :
      (o : Option ℕ) (id : ℕ) (t : UnixSocketServer)
      → value t.client_list id ≡ o
      → Accurate t
      → Accurate (take_client o id t)
  take_client_lem none id t e h = h
  take_client_lem (some found) id t e h = (
    client_disconnected-IsAccurate create_uuid t.client_list t.created t.signals id h.0
        (ground (arith, contains_lem t.client_list id, e)),
    λ j client k. h.1 j client (ground (arith, value-remove t.client_list id j, k)),
  )

  forward_lem :
      (o : Option ℕ) (client id : ℕ) (bytes : Bytes) (t : UnixSocketServer)
      → value t.captured client ≡ o
      → value t.client_list id ≡ some client
      → Accurate t
      → Accurate (forward o bytes t)
  forward_lem none client id bytes t e known h = h
  forward_lem (some captured) client id bytes t e known h = (
    data_available-IsAccurate create_uuid t.client_list t.created t.signals captured bytes h.0 (
        ground (
          arith,
          contains_lem t.client_list captured,
          contains_lem t.client_list id,
          e,
          known,
          h.1 id client known,
        )),
    h.1,
  )

  on_client_connected_lem :
      ((m n : ℕ) → create_uuid m ≡ create_uuid n → m ≡ n)
      → (client : ℕ) (t : UnixSocketServer) → value t.captured client ≡ none
      → Accurate t
      → Accurate (on_client_connected create_uuid client t)
  unfolding on_client_connected
  on_client_connected_lem unique client t fresh h = (
    client_connected-IsAccurate create_uuid unique t.client_list t.created t.signals client
        "127.0.0.1" h.0,
    λ id c e. captures id c e,
  )
    where
      in_table :
          (id c : ℕ)
          → value (insert t.client_list (create_uuid t.created) client) id
            ≡ (if create_uuid t.created == id then some client else value t.client_list id)
      in_table id c = value-insert t.client_list (create_uuid t.created) client id

      captures :
          IsCaptured
            (insert t.client_list (create_uuid t.created) client)
            (insert t.captured client (create_uuid t.created))
      captures id c e = elim (Bool-cases (create_uuid t.created == id)) [
        | inl same ↦ ground (
          arith,
          in_table id c,
          value-insert t.captured client (create_uuid t.created) c,
          e,
          same,
        )
        | inr other ↦ ground (
          arith,
          in_table id c,
          value-insert t.captured client (create_uuid t.created) c,
          e,
          other,
          fresh,
          h.1 id c (ground (arith, in_table id c, e, other)),
        )
      ]

  Step_lem :
      ((m n : ℕ) → create_uuid m ≡ create_uuid n → m ≡ n)
      → (t t' : UnixSocketServer) → Step t t'
      → Accurate t
      → Accurate t'
  unfolding start_server stop_server on_ready_read on_disconnected
  Step_lem unique t _ (starts _ true) h = h
  Step_lem unique t _ (starts _ false) h = h
  Step_lem unique t _ (stops _) h = stop_listening_lem t.server t h
  Step_lem unique t _ (sends _ id bytes) h = send_data_lem id bytes t h
  Step_lem unique t _ (kills _ is_connected id reason) h = kill_lem is_connected id reason t h
  Step_lem unique t _ (connects _ client fresh) h = on_client_connected_lem unique client t fresh h
  Step_lem unique t _ (receives _ client id bytes known) h =
      forward_lem (value t.captured client) client id bytes t refl known h
  Step_lem unique t _ (ends _ client) h =
      take_client_lem (value t.client_list (key t.client_list client)) _ t refl h

  accurate :
      ((m n : ℕ) → create_uuid m ≡ create_uuid n → m ≡ n)
      → (file : String) (t : UnixSocketServer) → Reachable file t
      → Accurate t
  accurate unique file _ initial = new_lem file
  accurate unique file t' (after {t} r step) = Step_lem unique t t' step (accurate unique file t r)

  pub Reachable-IsCaptured :
      (file : String) (t : UnixSocketServer)
      → ((m n : ℕ) → create_uuid m ≡ create_uuid n → m ≡ n)
      → Reachable file t
      → WellAnnounced t.signals
        × ((id : ℕ) → contains t.client_list id ≡ member id (connected t.signals))
        × ((id client : ℕ)
            → value t.client_list id ≡ some client
            → value t.captured client ≡ some id)
  Reachable-IsCaptured file t unique r =
      let h = accurate unique file t r in (h.0.well_announced, h.0.tabled, h.1)
