-- ===== src/Transports/WebSessions.antt =====
-- The states that a WebSocketServer (websocketserver.cpp) is in, and its signals.
use nymea_remoteproxy.Base.{
  is_some, subst, ℕ, ◌≡◌, ◌≢◌, Bool, true, false, not, Option, none, some, String, List, [], ◌∷◌,
  Bytes, value, contains, contains_lem, values, refl, sym, ◌∙◌, arith, if◌then◌else◌, ◌==◌, member,
}
use nymea_remoteproxy.Transports.{
  ServerUrl, key, closed_because, close_code_bad_operation, flushed, sent_text,
}
use nymea_remoteproxy.Transports.Sessions.{
  WellAnnounced, connected, IsAccurate, nothing-IsAccurate, data_available-IsAccurate,
  client_disconnected-IsAccurate, client_connected-IsAccurate, key-contains,
}
use nymea_remoteproxy.Transports.WebSockets.{
  take_client, refuse, admit, WebSocketServer, Pending, new_web_socket_server, call, set_server_url,
  start_server, stop_server, abort_all, drop_server, kill_client_connection, on_client_disconnected,
  on_binary_message_received, on_client_error, send_data, on_text_message_received, accept_client,
  on_client_connected,
}

module _ (from_utf8 : Bytes → String) (to_utf8 : String → Bytes) (number_text : ℕ → String)
    (create_uuid : ℕ → ℕ) where
  -- What happens to the server. Qt emits the signals of a client's socket only after the server has
  -- connected to them, and none after the end of the socket.
  pub data Step : WebSocketServer → WebSocketServer → Type 0 where
    gets_url : (t : WebSocketServer) (url : ServerUrl) → Step t (set_server_url url t)
    starts :
        (t : WebSocketServer) (can_listen : Bool)
        → Step t (start_server (λ host port. can_listen) t).0
    stops : (t : WebSocketServer) → Step t (stop_server t).0
    sends : (t : WebSocketServer) (id : ℕ) (bytes : Bytes) → Step t (send_data from_utf8 id bytes t)
    kills :
        (t : WebSocketServer) (id : ℕ) (reason : String)
        → Step t (kill_client_connection id reason t)
    connects :
        (t : WebSocketServer) (next : Option Pending)
        → Step t (on_client_connected number_text create_uuid next t)
    receives_text :
        (t : WebSocketServer) (client : ℕ) (message : String)
        → key t.client_list client ≢ 0
        → Step t (on_text_message_received to_utf8 client message t)
    receives_binary :
        (t : WebSocketServer) (client : ℕ) (bytes : Bytes)
        → Step t (on_binary_message_received client bytes t)
    fails : (t : WebSocketServer) (client : ℕ) → Step t (on_client_error client t)
    ends :
        (t t' : WebSocketServer) (client : ℕ)
        → key t.client_list client ≢ 0
        → on_client_disconnected client t ≡ some t'
        → Step t t'

  pub data Reachable (ssl_enabled : Bool) : WebSocketServer → Type 0 where
    initial : Reachable ssl_enabled (new_web_socket_server ssl_enabled)
    after :
        {t t' : WebSocketServer} → Reachable ssl_enabled t → Step t t' → Reachable ssl_enabled t'

  abbrev Accurate : WebSocketServer → Type 0
  Accurate t = IsAccurate create_uuid t.client_list t.created t.signals

  new_lem : (ssl_enabled : Bool) → Accurate (new_web_socket_server ssl_enabled)
  unfolding new_web_socket_server
  new_lem ssl_enabled = nothing-IsAccurate create_uuid

  abort_all_lem :
      (clients : List ℕ) (t : WebSocketServer) → Accurate t → Accurate (abort_all clients t)
  unfolding abort_all
  abort_all_lem [] t h = h
  abort_all_lem (client ∷ clients) t h = abort_all_lem clients _ h

  drop_server_lem :
      (server : Option Bool) (t : WebSocketServer) → Accurate t → Accurate (drop_server server t)
  drop_server_lem none t h = h
  drop_server_lem (some listening) t h = h

  take_client_lem :
      (o : Option ℕ) (client id : ℕ) (t t' : WebSocketServer)
      → contains t.client_list id ≡ true
      → take_client o client id t ≡ some t'
      → Accurate t
      → Accurate t'
  take_client_lem none client id t t' known e h = absurd (ground (arith, e))
  take_client_lem (some found) client id t t' known e h =
      subst Accurate (of_some e)
        (client_disconnected-IsAccurate create_uuid t.client_list t.created t.signals id h known)
    where
      of_some : {a b : WebSocketServer} → some a ≡ some b → a ≡ b
      of_some e = cc

  accept_client_lem :
      ((m n : ℕ) → create_uuid m ≡ create_uuid n → m ≡ n)
      → (p : Pending) (t : WebSocketServer) → Accurate t
      → Accurate (accept_client number_text create_uuid p t)
  unfolding accept_client
  accept_client_lem unique p t h =
      elim (p.version == 13)
        as (λ b. Accurate (
          if not b
          then refuse number_text create_uuid p t
          else admit number_text create_uuid p t)) [
            | true ↦
                client_connected-IsAccurate create_uuid unique t.client_list t.created t.signals
                  p.socket p.address h
            | false ↦ h
          ]

  send_data_lem :
      (id : ℕ) (bytes : Bytes) (t : WebSocketServer)
      → Accurate t
      → Accurate (send_data from_utf8 id bytes t)
  unfolding send_data
  send_data_lem id bytes t h =
      elim (value t.client_list id)
        as (λ o.
          Accurate
            (elim o [ none ↦ t | some client ↦ call (sent_text client (from_utf8 bytes)) t ])) [
              | none ↦ h
              | some client ↦ h
            ]

  kill_lem :
      (id : ℕ) (reason : String) (t : WebSocketServer)
      → Accurate t
      → Accurate (kill_client_connection id reason t)
  unfolding kill_client_connection
  kill_lem id reason t h =
      elim (value t.client_list id)
        as (λ o. Accurate (elim o [
          | none ↦ t
          | some client ↦
              call (closed_because client close_code_bad_operation reason) (call (flushed client) t)
        ])) [ none ↦ h | some client ↦ h ]

  known_lem :
      (client : ℕ) (t : WebSocketServer)
      → key t.client_list client ≢ 0
      → contains t.client_list (key t.client_list client) ≡ true
  known_lem client t known = key-contains t.client_list client _ refl known

  Step_lem :
      ((m n : ℕ) → create_uuid m ≡ create_uuid n → m ≡ n)
      → (t t' : WebSocketServer) → Step t t'
      → Accurate t
      → Accurate t'
  unfolding set_server_url start_server stop_server on_client_connected on_text_message_received
      on_binary_message_received on_client_error on_client_disconnected
  Step_lem unique t _ (gets_url _ url) h = h
  Step_lem unique t _ (starts _ true) h = h
  Step_lem unique t _ (starts _ false) h = h
  Step_lem unique t _ (stops _) h =
      drop_server_lem t.server _ (abort_all_lem (values t.client_list) t h)
  Step_lem unique t _ (sends _ id bytes) h = send_data_lem id bytes t h
  Step_lem unique t _ (kills _ id reason) h = kill_lem id reason t h
  Step_lem unique t _ (connects _ none) h = h
  Step_lem unique t _ (connects _ (some p)) h = accept_client_lem unique p t h
  Step_lem unique t _ (receives_text _ client message known) h =
      data_available-IsAccurate create_uuid t.client_list t.created t.signals _ (to_utf8 message) h
        (known_lem client t known)
  Step_lem unique t _ (receives_binary _ client bytes) h = h
  Step_lem unique t _ (fails _ client) h = h
  Step_lem unique t t' (ends _ _ client known e) h =
      take_client_lem (value t.client_list (key t.client_list client)) client _ t t'
        (known_lem client t known) e h

  accurate :
      ((m n : ℕ) → create_uuid m ≡ create_uuid n → m ≡ n)
      → (ssl_enabled : Bool) (t : WebSocketServer) → Reachable ssl_enabled t
      → Accurate t
  accurate unique ssl_enabled _ initial = new_lem ssl_enabled
  accurate unique ssl_enabled t' (after {t} r step) =
      Step_lem unique t t' step (accurate unique ssl_enabled t r)

  pub Reachable-IsAnnounced :
      (ssl_enabled : Bool) (t : WebSocketServer)
      → ((m n : ℕ) → create_uuid m ≡ create_uuid n → m ≡ n)
      → Reachable ssl_enabled t
      → WellAnnounced t.signals
        × ((id : ℕ) → contains t.client_list id ≡ member id (connected t.signals))
        × ((client : ℕ)
            → key t.client_list client ≢ 0
            → (t' : WebSocketServer) × (on_client_disconnected client t ≡ some t'))
  unfolding on_client_disconnected
  Reachable-IsAnnounced ssl_enabled t unique r =
      let h = accurate unique ssl_enabled t r in
      (
        h.well_announced,
        h.tabled,
        λ client known.
            found client _ (value t.client_list (key t.client_list client))
              (sym (contains_lem _ _) ∙ known_lem client t known),
      )
    where
      found :
          (client id : ℕ) (o : Option ℕ)
          → is_some o ≡ true
          → (t' : WebSocketServer) × (take_client o client id t ≡ some t')
      found client id none e = absurd (ground (arith, e))
      found client id (some s) e = (_, refl)
