-- ===== src/Transports/Sessions.antt =====
-- What the TunnelProxyServer relies on in the signals of a transport: each client is announced once,
-- under a uuid of its own, and its data and its end come while it is connected. The lists of signals
-- have the latest first.
use nymea_remoteproxy.Base.{
  ℕ, ◌≡◌, ◌≢◌, ◌<◌, ◌+◌, sym, ◌∙◌, if◌then◌else◌, ◌==◌, ==_iff, Bool-cases, inl, inr, true, false,
  some, List, [], ◌∷◌, String, Hash, Bytes, value, contains, insert, remove, value-insert,
  value-remove, contains_lem, member, remove_all, arith,
}
use nymea_remoteproxy.Transports.{
  Signal, client_connected, client_disconnected, data_available, key,
}

-- The uuids of the clients that have been announced.
abbrev pub announced : List Signal → List ℕ
announced [] = []
announced (client_connected id address ∷ signals) = id ∷ announced signals
announced (client_disconnected id ∷ signals) = announced signals
announced (data_available id bytes ∷ signals) = announced signals

-- The uuids of the clients that are connected.
abbrev pub connected : List Signal → List ℕ
connected [] = []
connected (client_connected id address ∷ signals) = id ∷ connected signals
connected (client_disconnected id ∷ signals) = remove_all id (connected signals)
connected (data_available id bytes ∷ signals) = connected signals

abbrev pub WellAnnounced : List Signal → Type 0
WellAnnounced [] = Unit
WellAnnounced (client_connected id address ∷ signals) =
    (member id (announced signals) ≡ false) × WellAnnounced signals
WellAnnounced (client_disconnected id ∷ signals) =
    (member id (connected signals) ≡ true) × WellAnnounced signals
WellAnnounced (data_available id bytes ∷ signals) =
    (member id (connected signals) ≡ true) × WellAnnounced signals

member-remove_all :
    (a b : ℕ) (xs : List ℕ) → member b (remove_all a xs) ≡ (if a == b then false else member b xs)
member-remove_all a b [] = ground arith
member-remove_all a b (x ∷ xs) = ground (arith, member-remove_all a b xs)

pub key-contains :
    (clients : Hash ℕ) (socket id : ℕ)
    → key clients socket ≡ id
    → id ≢ 0
    → contains clients id ≡ true
unfolding contains value
key-contains [] socket id e n = absurd (ground (arith, e, n))
key-contains ((i, s) ∷ clients) socket id e n = ground (arith, e, n, key-contains clients socket id)

-- No uuid stands in the table twice.
abbrev pub Distinct : Hash ℕ → Type 0
Distinct [] = Unit
Distinct ((id, socket) ∷ clients) = (contains clients id ≡ false) × Distinct clients

remove-Distinct : (clients : Hash ℕ) (id : ℕ) → Distinct clients → Distinct (remove clients id)
unfolding remove contains value
remove-Distinct [] id h = tt
remove-Distinct ((i, s) ∷ clients) id h =
    ground (arith, remove-Distinct clients id h.1, h.0, value-remove clients id i)

insert-Distinct :
    (clients : Hash ℕ) (id socket : ℕ) → Distinct clients → Distinct (insert clients id socket)
unfolding insert contains
insert-Distinct clients id socket h =
    (ground (arith, value-remove clients id id), remove-Distinct clients id h)

-- What is sent to the uuid of a socket goes to this socket.
pub value-key :
    (clients : Hash ℕ) (socket id : ℕ)
    → Distinct clients
    → key clients socket ≡ id
    → id ≢ 0
    → value clients id ≡ some socket
unfolding contains value
value-key [] socket id h e n = absurd (ground (arith, e, n))
value-key ((i, s) ∷ clients) socket id h e n =
    ground (arith, e, n, h.0, value-key clients socket id h.1)

-- QUuid::createUuid, by the number of the call.
module _ (create_uuid : ℕ → ℕ) where
  -- The table has the clients that are connected, and their uuids come from createUuid.
  pub record IsAccurate (clients : Hash ℕ) (created : ℕ) (signals : List Signal) : Type 0 where
    pub well_announced : WellAnnounced signals
    pub distinct : Distinct clients
    pub tabled : (id : ℕ) → contains clients id ≡ member id (connected signals)
    pub opened :
        (id : ℕ) → member id (connected signals) ≡ true → member id (announced signals) ≡ true
    pub made :
        (id : ℕ)
        → member id (announced signals) ≡ true
        → (k : ℕ) × (k < created) × (id ≡ create_uuid k)

  pub nothing-IsAccurate : IsAccurate [] 0 []
  unfolding contains value
  nothing-IsAccurate = record {
    well_announced = tt;
    distinct = tt;
    tabled = λ id. ground arith;
    opened = λ id h. ground (arith, h);
    made = λ id h. absurd (ground (arith, h));
  }

  pub data_available-IsAccurate :
      (clients : Hash ℕ) (created : ℕ) (signals : List Signal) (id : ℕ) (bytes : Bytes)
      → IsAccurate clients created signals
      → contains clients id ≡ true
      → IsAccurate clients created (data_available id bytes ∷ signals)
  data_available-IsAccurate clients created signals id bytes h known = record {
    well_announced = (sym (h.tabled id) ∙ known, h.well_announced);
    distinct = h.distinct;
    tabled = h.tabled;
    opened = h.opened;
    made = h.made;
  }

  pub client_disconnected-IsAccurate :
      (clients : Hash ℕ) (created : ℕ) (signals : List Signal) (id : ℕ)
      → IsAccurate clients created signals
      → contains clients id ≡ true
      → IsAccurate (remove clients id) created (client_disconnected id ∷ signals)
  client_disconnected-IsAccurate clients created signals id h known = record {
    well_announced = (sym (h.tabled id) ∙ known, h.well_announced);
    distinct = remove-Distinct clients id h.distinct;
    tabled = λ j. ground (
      arith,
      contains_lem clients j,
      contains_lem (remove clients id) j,
      value-remove clients id j,
      member-remove_all id j (connected signals),
      h.tabled j,
    );
    opened = λ j e. h.opened j (ground (arith, e, member-remove_all id j (connected signals)));
    made = h.made;
  }

  pub client_connected-IsAccurate :
      ((m n : ℕ) → create_uuid m ≡ create_uuid n → m ≡ n)
      → (clients : Hash ℕ) (created : ℕ) (signals : List Signal) (socket : ℕ) (address : String)
      → IsAccurate clients created signals
      → IsAccurate
          (insert clients (create_uuid created) socket)
          (created + 1)
          (client_connected (create_uuid created) address ∷ signals)
  client_connected-IsAccurate unique clients created signals socket address h = record {
    well_announced = (fresh, h.well_announced);
    distinct = insert-Distinct clients (create_uuid created) socket h.distinct;
    tabled = λ j. ground (
      arith,
      contains_lem clients j,
      contains_lem (insert clients (create_uuid created) socket) j,
      value-insert clients (create_uuid created) socket j,
      h.tabled j,
    );
    opened = λ j e. ground (arith, e, h.opened j);
    made = λ j e. elim (Bool-cases (create_uuid created == j)) [
      | inl same ↦ (created, omega arith, sym ((==_iff _ _).0 same))
      | inr other ↦
          let (k, less, named) = h.made j (ground (arith, e, other)) in
          (k, omega (arith, less), named)
    ];
  }
    where
      fresh : member (create_uuid created) (announced signals) ≡ false
      fresh = elim (Bool-cases (member (create_uuid created) (announced signals))) [
        | inl used ↦
            let (k, less, named) = h.made (create_uuid created) used in
            absurd (omega (arith, unique created k named, less))
        | inr unused ↦ unused
      ]
