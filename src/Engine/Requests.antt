-- ===== src/Engine/Requests.antt =====
-- How the MonitorServer (monitorserver.cpp) answers what a monitor sends with what the engine
-- (engine.cpp: buildMonitorData) and its tunnel proxy server (tunnelproxyserver.cpp:
-- currentStatistics) show.
use nymea_remoteproxy.Base.{
  ℕ, ◌≡◌, ◌∙◌, refl, ap, Bool, true, false, none, some, str_eq, eq_iff, List, [], ◌∷◌, ◌++◌, Bytes,
  ◌⊎◌, ◌↔◌, inl, inr, Bool-cases, Option-cases, arith, is_empty, values, if◌then◌else◌, ◌&&◌,
}
use nymea_remoteproxy.Variant.{
  Variant, VariantList, VariantMap, nil, cons, list, map, has_key, get_value, to_map, find,
  insert_value, without_key, Qt,
}
use nymea_remoteproxy.Connections.{TunnelProxyServerConnection}
use nymea_remoteproxy.State.{TunnelProxyServer, Settings}
use nymea_remoteproxy.Server.Statistics.{tunnel_connections, current_statistics, server_map}
use nymea_remoteproxy.Handler.{or_empty}
use nymea_remoteproxy.Transports.{wrote, flushed, closed}
use nymea_remoteproxy.Engine.{Engine, build_monitor_data}
use nymea_remoteproxy.Engine.Configuration.{ProxyConfiguration}
use nymea_remoteproxy.Engine.Monitor.{
  MonitorServer, newline, print_all, on_monitor_ready_read, process_request, send_monitor_data,
}

-- The servers that have a client.
abbrev pub with_clients : List TunnelProxyServerConnection → List TunnelProxyServerConnection
with_clients [] = []
with_clients (s ∷ servers) =
    let rest = with_clients servers in
    if is_empty (values s.client_connections) then rest else s ∷ rest

module _ (q : Qt) where
  -- The request of a monitor that asks for data has the method "refresh".
  abbrev pub IsRefresh : Variant → Type 0
  IsRefresh document =
      (method : Variant) × (find (to_map document) "method" ≡ some method)
      × (q.to_text method ≡ "refresh")

  -- Its parameters say that all is to be printed.
  abbrev pub AsksAll : Variant → Type 0
  AsksAll document =
      (params all : Variant) × (find (to_map document) "params" ≡ some params)
      × (find (to_map params) "printAll" ≡ some all)
      × (q.to_bool all ≡ true)

  abbrev pub entries : TunnelProxyServer → List TunnelProxyServerConnection → VariantList
  entries w [] = nil
  entries w (s ∷ servers) = cons (map (server_map q w s)) (entries w servers)

  -- The data has one entry for each of these servers.
  abbrev pub Shows : TunnelProxyServer → List TunnelProxyServerConnection → VariantMap → Type 0
  Shows w servers data_ =
      (statistic : VariantMap) × (find data_ "tunnelProxyStatistic" ≡ some (map statistic))
      × (find statistic "tunnelConnections" ≡ some (list (entries w servers)))

  all_shown :
      (w : TunnelProxyServer) (servers : List TunnelProxyServerConnection)
      → tunnel_connections q w true servers ≡ entries w servers
  unfolding tunnel_connections
  all_shown w [] = refl
  all_shown w (s ∷ servers) = ap (cons (map (server_map q w s))) (all_shown w servers)

  some_shown :
      (w : TunnelProxyServer) (servers : List TunnelProxyServerConnection)
      → tunnel_connections q w false servers ≡ entries w (with_clients servers)
  unfolding tunnel_connections
  some_shown w [] = refl
  some_shown w (s ∷ servers) = elim (Bool-cases (is_empty (values s.client_connections))) [
    | inl empty ↦ rw empty (some_shown w servers)
    | inr full ↦ rw full (ap (cons (map (server_map q w s))) (some_shown w servers))
  ]

  data_shown :
      (s : Settings) (all : Bool) (e : Engine) (c : ProxyConfiguration) (w : TunnelProxyServer)
      (servers : List TunnelProxyServerConnection)
      → e.configuration ≡ some c
      → e.tunnel_proxy_server ≡ some w
      → tunnel_connections q w all (values w.tunnel_proxy_server_connections) ≡ entries w servers
      → Shows w servers (or_empty (build_monitor_data q s all e))
  unfolding build_monitor_data current_statistics insert_value without_key find
  data_shown s all e c w servers configured served shown =
      rw (configured, served) (_, refl, ap (λ l. some (list l)) shown)

  print_all_iff : (document : Variant) → (print_all q (to_map document) ≡ true) ↔ AsksAll document
  print_all_iff document = (
    λ e. elim (Option-cases (find (to_map document) "params")) [
      | inl without ↦ absurd (ground (arith, without, e))
      | inr (params, given) ↦ elim (Option-cases (find (to_map params) "printAll")) [
        | inl without ↦ absurd (ground (arith, given, without, e))
        | inr (all, said) ↦ (params, all, given, said, ground (arith, given, said, e))
      ]
    ],
    λ (params, all, given, said, true_). rw (given, said) true_,
  )

  test_of_method_iff :
      (document : Variant)
      → ((has_key (to_map document) "method"
            && str_eq (q.to_text (get_value (to_map document) "method")) "refresh")
          ≡ true)
        ↔ IsRefresh document
  test_of_method_iff document = (
    λ e. elim (Option-cases (find (to_map document) "method")) [
      | inl without ↦ absurd (ground (arith, without, e))
      | inr (method, given) ↦
          (method, given, (eq_iff (q.to_text method) "refresh").0 (ground (arith, given, e)))
    ],
    λ (method, given, same). rw given ((eq_iff (q.to_text method) "refresh").1 same),
  )

  -- A monitor gets one line with this data.
  abbrev pub line_for : ℕ → VariantMap → MonitorServer → MonitorServer
  line_for client data_ m = record m {
    calls = flushed client ∷ wrote client (q.to_json data_ ++ newline) ∷ m.calls;
  }

  abbrev pub closed_for : ℕ → MonitorServer → MonitorServer
  closed_for client m = record m { calls = closed client ∷ m.calls }

  process_request_lem :
      (build : Bool → VariantMap) (client : ℕ) (document : Variant) (m : MonitorServer)
      → process_request q build client (to_map document) m ≡ (
          if has_key (to_map document) "method"
            && str_eq (q.to_text (get_value (to_map document) "method")) "refresh"
          then line_for client (build (print_all q (to_map document))) m
          else closed_for client m)
  unfolding process_request send_monitor_data
  process_request_lem build client document m = ground arith

  read_document :
      (build : Bool → VariantMap) (client : ℕ) (bytes : Bytes) (document : Variant)
      (m : MonitorServer)
      → q.from_json bytes ≡ some document
      → on_monitor_ready_read q build client bytes m
        ≡ process_request q build client (to_map document) m
  unfolding on_monitor_ready_read
  read_document build client bytes document m e = rw (e, on_monitor_ready_read) refl

  read_nothing :
      (build : Bool → VariantMap) (client : ℕ) (bytes : Bytes) (m : MonitorServer)
      → q.from_json bytes ≡ none
      → on_monitor_ready_read q build client bytes m ≡ closed_for client m
  unfolding on_monitor_ready_read
  read_nothing build client bytes m e = rw (e, on_monitor_ready_read) refl

  -- While the engine has a configuration and a tunnel proxy server, what a monitor sends is
  -- answered with one line of data if it is a JSON document with the method "refresh", and its
  -- connection is closed if it is not; nothing else is done, and no monitor is forgotten. The
  -- data has an entry for each server if the parameters of the request have a "printAll" that is
  -- true, and else for each server that has a client.
  pub monitor_answered :
      (s : Settings) (e : Engine) (c : ProxyConfiguration) (w : TunnelProxyServer) (client : ℕ)
      (bytes : Bytes) (m : MonitorServer)
      → e.configuration ≡ some c
      → e.tunnel_proxy_server ≡ some w
      → let answered =
          on_monitor_ready_read q (λ all. or_empty (build_monitor_data q s all e)) client bytes m in
        let servers = values w.tunnel_proxy_server_connections in
        ((document : Variant) × (data_ : VariantMap) × (q.from_json bytes ≡ some document)
          × IsRefresh document
          × (answered ≡ line_for client data_ m)
          × ((AsksAll document × Shows w servers data_)
              ⊎ ((¬ AsksAll document) × Shows w (with_clients servers) data_)))
        ⊎ (((q.from_json bytes ≡ none)
              ⊎ ((document : Variant) × (q.from_json bytes ≡ some document)
                  × (¬ IsRefresh document)))
            × (answered ≡ closed_for client m))
  monitor_answered s e c w client bytes m configured served =
      let build : Bool → VariantMap = λ all. or_empty (build_monitor_data q s all e) in
      elim (Option-cases (q.from_json bytes)) [
        | inl broken ↦ inr (inl broken, read_nothing build client bytes m broken)
        | inr (document, read) ↦
            let goes =
              read_document build client bytes document m read
              ∙ process_request_lem build client document m in
            elim (Bool-cases (
              has_key (to_map document) "method"
              && str_eq (q.to_text (get_value (to_map document) "method")) "refresh")) [
                | inr other ↦ inr (
                  inr (
                    document,
                    read,
                    λ h. absurd (ground (arith, (test_of_method_iff document).1 h, other)),
                  ),
                  goes
                      ∙ ap
                          (λ b.
                            if b
                            then line_for client (build (print_all q (to_map document))) m
                            else closed_for client m)
                          other,
                )
                | inl refresh ↦ inl (
                  document,
                  build (print_all q (to_map document)),
                  read,
                  (test_of_method_iff document).0 refresh,
                  goes
                      ∙ ap
                          (λ b.
                            if b
                            then line_for client (build (print_all q (to_map document))) m
                            else closed_for client m)
                          refresh,
                  asked document,
                )
              ]
      ]
    where
      asked :
          (document : Variant)
          → let servers = values w.tunnel_proxy_server_connections in
            let data_ = or_empty (build_monitor_data q s (print_all q (to_map document)) e) in
            (AsksAll document × Shows w servers data_)
            ⊎ ((¬ AsksAll document) × Shows w (with_clients servers) data_)
      asked document = elim (Bool-cases (print_all q (to_map document))) [
        | inl all ↦ inl (
          (print_all_iff document).0 all,
          rw all (data_shown s true e c w _ configured served (all_shown w _)),
        )
        | inr some_ ↦ inr (
          λ h. absurd (ground (arith, (print_all_iff document).1 h, some_)),
          rw some_ (data_shown s false e c w _ configured served (some_shown w _)),
        )
      ]
