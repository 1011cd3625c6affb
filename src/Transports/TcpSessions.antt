-- ===== src/Transports/TcpSessions.antt =====
-- The signals of a TcpSocketServer (tcpsocketserver.cpp), the clients that it hands on with SSL, and
-- where its answers go.
use nymea_remoteproxy.Base.{
  ap, not, ◌&&◌, ℕ, ◌≡◌, ◌≢◌, Bool, true, false, All, some, String, List, [], ◌∷◌, ◌++◌, Bytes,
  value, contains, value-insert, value-remove, refl, member, inl, inr, arith, subst, sym, ◌∙◌, ◌==◌,
  if◌then◌else◌, Bool-cases, none,
}
use nymea_remoteproxy.Transports.{key, data_available, wrote}
use nymea_remoteproxy.Transports.Sessions.{
  WellAnnounced, connected, IsAccurate, nothing-IsAccurate, data_available-IsAccurate,
  client_disconnected-IsAccurate, client_connected-IsAccurate, value-key,
}
use nymea_remoteproxy.Transports.TcpSockets.{
  emit, call, TcpSocketServer, new_tcp_socket_server, send_data, on_data_available, on_ready_read,
}
use nymea_remoteproxy.Transports.TcpEvents.{Event, is_encrypted, run, Says}
use nymea_remoteproxy.Transports.TcpKept.{run_lem, IsKept, Predicate}

module _ (create_uuid : ℕ → ℕ) where
  abbrev Accurate : Predicate
  Accurate ssl clients created signals = IsAccurate create_uuid clients created signals

  Accurate-IsKept :
      ((m n : ℕ) → create_uuid m ≡ create_uuid n → m ≡ n)
      → IsKept create_uuid (λ client. Unit) Accurate
  Accurate-IsKept unique = record {
    connects = λ ssl clients created signals socket address allowed h.
        client_connected-IsAccurate create_uuid unique clients created signals socket address h;
    disconnects = λ ssl clients created signals id known h.
        client_disconnected-IsAccurate create_uuid clients created signals id h known;
    receives = λ ssl clients created signals id bytes known h.
        data_available-IsAccurate create_uuid clients created signals id bytes h known;
  }

  -- The clients in the table are encrypted if SSL is enabled.
  abbrev Sealed : (ℕ → Type 0) → Predicate
  Sealed Encrypted ssl clients created signals =
      (ssl ≡ true) × ((id client : ℕ) → value clients id ≡ some client → Encrypted client)

  Sealed-IsKept : (Encrypted : ℕ → Type 0) → IsKept create_uuid Encrypted (Sealed Encrypted)
  Sealed-IsKept Encrypted = record {
    connects = λ ssl clients created signals socket address allowed h. (
      h.0,
      λ id client e. elim (Bool-cases (create_uuid created == id)) [
        | inl same ↦ elim allowed [
          | inl off ↦ absurd (ground (arith, h.0, off))
          | inr encrypted ↦
              subst Encrypted
                (ground (arith, value-insert clients (create_uuid created) socket id, same, e))
                encrypted
        ]
        | inr other ↦
            h.1 id client
              (ground (arith, value-insert clients (create_uuid created) socket id, other, e))
      ],
    );
    disconnects = λ ssl clients created signals id known h.
        (h.0, λ j client e. h.1 j client (ground (arith, value-remove clients id j, e)));
    receives = λ ssl clients created signals id bytes known h. h;
  }

nothing_said : (events : List Event) → All (Says (λ client. Unit)) events
nothing_said [] = tt
nothing_said (event ∷ events) = (λ client e. tt, nothing_said events)

abbrev pub encrypted_by : Event → List ℕ
encrypted_by (is_encrypted client) = client ∷ []
encrypted_by _ = []

-- The sockets that Qt has reported as encrypted.
abbrev pub encrypted_clients : List Event → List ℕ
encrypted_clients [] = []
encrypted_clients (event ∷ events) = encrypted_by event ++ encrypted_clients events

member-append : (a : ℕ) (xs ys : List ℕ) → member a ys ≡ true → member a (xs ++ ys) ≡ true
member-append a [] ys e = e
member-append a (x ∷ xs) ys e = ground (arith, member-append a xs ys e)

encryption_said :
    (events : List Event) (Encrypted : ℕ → Type 0)
    → ((client : ℕ) → member client (encrypted_clients events) ≡ true → Encrypted client)
    → All (Says Encrypted) events
encryption_said [] Encrypted all = tt
encryption_said (event ∷ events) Encrypted all = (
  λ client e.
      all client
        (subst (λ v. member client (encrypted_clients (v ∷ events)) ≡ true) (sym e) (ground arith)),
  encryption_said events Encrypted
      (λ client e. all client (member-append client (encrypted_by event) _ e)),
)

new_lem :
    (create_uuid : ℕ → ℕ) (ssl_enabled : Bool)
    → let t = new_tcp_socket_server ssl_enabled in
      IsAccurate create_uuid t.client_list t.created t.signals
unfolding new_tcp_socket_server
new_lem create_uuid ssl_enabled = nothing-IsAccurate create_uuid

new_Sealed :
    (create_uuid : ℕ → ℕ) (Encrypted : ℕ → Type 0)
    → let t = new_tcp_socket_server true in
      Sealed create_uuid Encrypted t.ssl_enabled t.client_list t.created t.signals
unfolding new_tcp_socket_server value
new_Sealed create_uuid Encrypted = (refl, λ id client e. absurd (ground (arith, e)))

-- Data of a socket with a uuid, from a socket that is encrypted if need be.
ready_lem :
    (client : ℕ) (bytes : Bytes) (t : TcpSocketServer)
    → key t.client_list client ≢ 0
    → on_ready_read client bytes true t ≡ emit (data_available (key t.client_list client) bytes) t
unfolding on_ready_read on_data_available
ready_lem client bytes t known = either t.ssl_enabled (id == 0) (ground (arith, known))
  where
    id : ℕ
    id = key t.client_list client

    either :
        (ssl null : Bool)
        → null ≡ false
        → (if ssl && not true then t else if null then t else emit (data_available id bytes) t)
          ≡ emit (data_available id bytes) t
    either ssl true n = absurd (ground (arith, n))
    either true false n = refl
    either false false n = refl

sent_lem :
    (client id : ℕ) (answer : Bytes) (t : TcpSocketServer)
    → value t.client_list id ≡ some client
    → (send_data id answer t).calls ≡ wrote client answer ∷ t.calls
unfolding send_data
sent_lem client id answer t e =
    ap (λ o. TcpSocketServer.calls (elim o [ none ↦ t | some c ↦ call (wrote c answer) t ])) e

module _ (qt_6 : Bool) (create_uuid : ℕ → ℕ) (peer_address : ℕ → String) where
  accurate :
      (ssl_enabled : Bool) (events : List Event)
      → ((m n : ℕ) → create_uuid m ≡ create_uuid n → m ≡ n)
      → let t = run qt_6 create_uuid peer_address events (new_tcp_socket_server ssl_enabled) in
        IsAccurate create_uuid t.client_list t.created t.signals
  accurate ssl_enabled events unique =
      run_lem qt_6 create_uuid peer_address (λ client. Unit) (Accurate create_uuid)
        (Accurate-IsKept create_uuid unique) events _ (nothing_said events)
        (new_lem create_uuid ssl_enabled)

  pub run-IsAccurate :
      (ssl_enabled : Bool) (events : List Event)
      → ((m n : ℕ) → create_uuid m ≡ create_uuid n → m ≡ n)
      → let t = run qt_6 create_uuid peer_address events (new_tcp_socket_server ssl_enabled) in
        WellAnnounced t.signals
        × ((id : ℕ) → contains t.client_list id ≡ member id (connected t.signals))
  run-IsAccurate ssl_enabled events unique =
      let h = accurate ssl_enabled events unique in (h.well_announced, h.tabled)

  -- With SSL, each client in the table has been reported as encrypted: no plain connection is handed
  -- on.
  pub only_encrypted :
      (events : List Event) (id client : ℕ)
      → value (run qt_6 create_uuid peer_address events (new_tcp_socket_server true)).client_list id
        ≡ some client
      → member client (encrypted_clients events) ≡ true
  only_encrypted events id client e =
      (run_lem qt_6 create_uuid peer_address Encrypted (Sealed create_uuid Encrypted)
          (Sealed-IsKept create_uuid Encrypted) events _
          (encryption_said events Encrypted (λ c k. k)) (new_Sealed create_uuid Encrypted)).1
        id client e
    where
      Encrypted : ℕ → Type 0
      Encrypted c = member c (encrypted_clients events) ≡ true

  -- Data of a socket that has been handed on is announced under a uuid, and what is then sent to
  -- this uuid is written to this socket and to no other.
  pub answer_returns :
      (ssl_enabled : Bool) (events : List Event) (client : ℕ) (bytes answer : Bytes)
      → ((m n : ℕ) → create_uuid m ≡ create_uuid n → m ≡ n)
      → let t = run qt_6 create_uuid peer_address events (new_tcp_socket_server ssl_enabled) in
        key t.client_list client ≢ 0
        → (id : ℕ) × ((on_ready_read client bytes true t).signals
            ≡ data_available id bytes ∷ t.signals)
          × ((send_data id answer (on_ready_read client bytes true t)).calls
              ≡ wrote client answer ∷ t.calls)
  answer_returns ssl_enabled events client bytes answer unique known =
      let t = run qt_6 create_uuid peer_address events (new_tcp_socket_server ssl_enabled) in
      let id = key t.client_list client in
      let found =
        value-key t.client_list client id (accurate ssl_enabled events unique).distinct refl
          known in
      let ready = ready_lem client bytes t known in
      (
        id,
        ap (λ v. TcpSocketServer.signals v) ready,
        ap (λ v. TcpSocketServer.calls (send_data id answer v)) ready
            ∙ sent_lem client id answer (emit (data_available id bytes) t) found,
      )
