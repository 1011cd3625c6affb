-- ===== src/Engine/Monitor.antt =====
-- libnymea-remoteproxy/server/monitorserver.h and monitorserver.cpp: MonitorServer, which shows the
-- state of the engine to the programs that ask for it. Sockets are numbers.
use nymea_remoteproxy.Base.{
  ℕ, Bool, true, false, Option, none, some, String, str_eq, List, [], ◌∷◌, ◌++◌, Bytes,
  if◌then◌else◌, remove_all,
}
use nymea_remoteproxy.Variant.{VariantMap, has_key, get_value, to_map, Qt}
use nymea_remoteproxy.Transports.{Call, wrote, flushed, closed, deleted, closed_server}

pub record MonitorServer : Type 0 where
  pub server_name : String
  -- the server object, and whether it listens
  pub server : Option Bool
  pub clients : List ℕ
  -- the calls, the latest first
  pub calls : List Call

unfoldable pub new_monitor_server : String → MonitorServer
new_monitor_server server_name = record {
  server_name = server_name;
  server = none;
  clients = [];
  calls = [];
}

abbrev pub call : Call → MonitorServer → MonitorServer
call k m = record m { calls = k ∷ m.calls }

unfoldable pub running : MonitorServer → Bool
running m = elim m.server [ none ↦ false | some listening ↦ listening ]

unfoldable pub on_monitor_connected : ℕ → MonitorServer → MonitorServer
on_monitor_connected client m = record m { clients = m.clients ++ client ∷ [] }

unfoldable pub on_monitor_disconnected : ℕ → MonitorServer → MonitorServer
on_monitor_disconnected client m =
    call (deleted client) (record m { clients = remove_all client m.clients })

-- The removal of an old file is left out.
unfoldable pub start_server : (String → Bool) → MonitorServer → MonitorServer
start_server can_listen m =
    if can_listen m.server_name then record m { server = some true } else record m { server = none }

abbrev pub close_all : List ℕ → MonitorServer → MonitorServer
close_all [] m = m
close_all (client ∷ clients) m = close_all clients (call (closed client) m)

unfoldable pub stop_server : MonitorServer → MonitorServer
stop_server m = elim m.server [
  | none ↦ m
  | some listening ↦ record (call closed_server (close_all m.clients m)) { server = none }
]

abbrev pub newline : Bytes
newline = 10 ∷ []

module _ (q : Qt) where
  unfoldable pub send_monitor_data : ℕ → VariantMap → MonitorServer → MonitorServer
  send_monitor_data client data_map m =
      call (flushed client) (call (wrote client (q.to_json data_map ++ newline)) m)

  unfoldable pub update_clients : VariantMap → List ℕ → MonitorServer → MonitorServer
  unfolding send_monitor_data
  update_clients data_map [] m = m
  update_clients data_map (client ∷ clients) m =
      update_clients data_map clients (send_monitor_data client data_map m)

  abbrev pub print_all : VariantMap → Bool
  print_all request =
      if has_key request "params"
      then (let params = to_map (get_value request "params") in
          if has_key params "printAll" then q.to_bool (get_value params "printAll") else false)
      else false

  -- With what the engine shows, for whether all is to be printed.
  unfoldable pub process_request :
      (Bool → VariantMap) → ℕ → VariantMap → MonitorServer → MonitorServer
  unfolding send_monitor_data
  process_request build_monitor_data client request m =
      if has_key request "method"
      then (if str_eq (q.to_text (get_value request "method")) "refresh"
          then send_monitor_data client (build_monitor_data (print_all request)) m
          else call (closed client) m)
      else call (closed client) m

  unfoldable pub on_monitor_ready_read :
      (Bool → VariantMap) → ℕ → Bytes → MonitorServer → MonitorServer
  unfolding process_request
  on_monitor_ready_read build_monitor_data client bytes m = elim (q.from_json bytes) [
    | none ↦ call (closed client) m
    | some document ↦ process_request build_monitor_data client (to_map document) m
  ]
