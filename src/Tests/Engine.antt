-- ===== src/Tests/Engine.antt =====
-- Examples for the theorems on the engine, its configuration and its monitor server.
use nymea_remoteproxy.Base.{
  ℕ, ◌≡◌, refl, ◌⊎◌, ◌↔◌, ◌≤◌, ◌<◌, ◌+◌, ◌-◌, ◌*◌, true, false, some, none, is_some, str_eq, List,
  [], ◌∷◌, Bytes, arith, if◌then◌else◌, values,
}
use nymea_remoteproxy.Handler.{or_empty}
use nymea_remoteproxy.Variant.{Variant, VariantMap, map, boolean, end, field, string, pos}
use nymea_remoteproxy.Engine.{Engine, start, Listens, new_engine, new_tunnel, build_monitor_data}
use nymea_remoteproxy.Engine.Configuration.{
  Files, new_configuration, read_settings, load_configuration,
}
use nymea_remoteproxy.Engine.Loading.{CanRead, load_configuration_iff}
use nymea_remoteproxy.Engine.Monitor.{
  MonitorServer, new_monitor_server, on_monitor_connected, on_monitor_ready_read,
}
use nymea_remoteproxy.Engine.Requests.{
  IsRefresh, AsksAll, Shows, with_clients, line_for, closed_for, monitor_answered,
}
use nymea_remoteproxy.Engine.Whole.{
  starts, stops, event_loop, ticks, run, IsWhole, run-IsWhole, stop_overtaken,
}
use nymea_remoteproxy.Engine.Ticks.{final, run_times, ticked, server_ticked}
use nymea_remoteproxy.Tests.{test_qt, settings}
use nymea_remoteproxy.Tests.Codec.{json_qt}

-- A system with a configuration file and the SSL files that it names, and no other file.
abbrev files : Files
files = record {
  exists = λ name. str_eq name "proxy.conf";
  open_file = λ name.
      if str_eq name "cert.pem"
      then some (1 ∷ [])
      else if str_eq name "key.pem"
      then some (2 ∷ [])
      else none;
  setting = λ group key.
      if str_eq key "certificate"
      then some (string "cert.pem")
      else if str_eq key "certificateKey"
      then some (string "key.pem")
      else none;
  host_address = λ host. host;
}

load_configuration_iff_example :
    let loaded = load_configuration test_qt files "proxy.conf" new_configuration in
    let read =
      read_settings test_qt files (record new_configuration { file_name = "proxy.conf" }) in
    ((loaded.1 ≡ true) ↔ ((files.exists "proxy.conf" ≡ true) × CanRead test_qt files read))
    × (loaded.1 ≡ false → loaded.0.ssl_configuration ≡ new_configuration.ssl_configuration)
load_configuration_iff_example = load_configuration_iff test_qt files "proxy.conf" new_configuration

loads : (load_configuration test_qt files "proxy.conf" new_configuration).1 ≡ true
unfolding load_configuration
loads = refl

abbrev monitored : MonitorServer
monitored = on_monitor_connected 3 (new_monitor_server "/tmp/monitor")

abbrev listens : Listens
listens = record { address = λ host port. true; file = λ name. true }

-- An engine that has been started.
abbrev begun : Engine
begun = start listens new_configuration (new_engine 0)

-- A monitor asks for all.
abbrev refresh : Bytes
refresh = json_qt.to_json (
    field "method" (string "refresh")
      (field "params" (map (field "printAll" (boolean true) end)) end))

monitor_answered_example :
    let answered =
      on_monitor_ready_read json_qt
        (λ all. or_empty (build_monitor_data json_qt settings all begun))
        3
        refresh
        monitored in
    let servers = values new_tunnel.tunnel_proxy_server_connections in
    ((document : Variant) × (data_ : VariantMap) × (json_qt.from_json refresh ≡ some document)
      × IsRefresh json_qt document
      × (answered ≡ line_for json_qt 3 data_ monitored)
      × ((AsksAll json_qt document × Shows json_qt new_tunnel servers data_)
          ⊎ ((¬ AsksAll json_qt document) × Shows json_qt new_tunnel (with_clients servers) data_)))
    ⊎ (((json_qt.from_json refresh ≡ none)
          ⊎ ((document : Variant) × (json_qt.from_json refresh ≡ some document)
              × (¬ IsRefresh json_qt document)))
        × (answered ≡ closed_for json_qt 3 monitored))
unfolding start new_engine
monitor_answered_example =
    monitor_answered json_qt settings begun new_configuration new_tunnel 3 refresh monitored refl
      refl

run-IsWhole_example :
    let e =
      run listens
        (starts new_configuration ∷ event_loop ∷ ticks 50 ∷ stops ∷ starts new_configuration ∷ [])
        (new_engine 0) in
    (IsWhole true e ⊎ IsWhole false e)
    × (is_some e.monitor_server ≡ true
        → is_some (build_monitor_data test_qt settings true e) ≡ true)
run-IsWhole_example =
    run-IsWhole listens 0
      (starts new_configuration ∷ event_loop ∷ ticks 50 ∷ stops ∷ starts new_configuration ∷ [])
      test_qt settings true

new_idle : (new_engine 0).running ≡ false
unfolding new_engine
new_idle = refl

new_empty : (new_engine 0).posted ≡ []
unfolding new_engine
new_empty = refl

stop_overtaken_example :
    let e' = run listens (starts new_configuration ∷ stops ∷ event_loop ∷ []) (new_engine 0) in
    (e'.running ≡ true)
    × (e'.timer_active ≡ true)
    × IsWhole false e'
    × (e'.running_changed ≡ true ∷ (new_engine 0).running_changed)
stop_overtaken_example = stop_overtaken listens new_configuration (new_engine 0) new_idle new_empty

new_counter : (new_engine 0).current_time_counter ≡ pos 0
unfolding new_engine
new_counter = refl

-- The timer runs out three times in a little more than a second.
abbrev times : List ℕ
times = 400 ∷ 800 ∷ 1200 ∷ []

begun_counter : begun.current_time_counter ≡ pos 0
unfolding start new_engine
begun_counter = refl

server_ticked_example :
    let elapsed = 0 + (final begun.last_time_stamp times - begun.last_time_stamp) in
    (n : ℕ) × ((run_times times begun).tunnel_proxy_server ≡ ticked n begun.tunnel_proxy_server)
    × (n * 1000 ≤ elapsed)
    × ((n ≡ 0) ↔ (elapsed < 1000))
unfolding new_engine start
server_ticked_example =
    server_ticked begun 0 times begun_counter (omega arith)
      (omega arith, omega arith, (omega arith, omega arith, (omega arith, omega arith, tt)))
