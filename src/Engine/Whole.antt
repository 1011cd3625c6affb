-- ===== src/Engine/Whole.antt =====
-- Which of its servers the engine has (engine.cpp), and what it shows.
use nymea_remoteproxy.Base.{
  ℕ, ◌≡◌, refl, ◌⊎◌, inl, inr, Bool, true, false, Option, none, some, is_some, List, [], ◌∷◌, arith,
}
use nymea_remoteproxy.Variant.{Qt}
use nymea_remoteproxy.State.{TunnelProxyServer, Settings}
use nymea_remoteproxy.Server.Lifecycle
use nymea_remoteproxy.Engine.{
  Engine, Listens, new_engine, start, stop, clean, set_running, deliver_posted, on_timer_tick,
  build_monitor_data,
}
use nymea_remoteproxy.Engine.Configuration.{ProxyConfiguration}

-- What happens to the engine.
pub data Event : Type 0 where
  starts : ProxyConfiguration → Event
  stops : Event
  event_loop : Event
  ticks : ℕ → Event

module _ (listens : Listens) where
  unfoldable pub handle : Event → Engine → Engine
  handle (starts c) e = start listens c e
  handle stops e = stop e
  handle event_loop e = deliver_posted e.posted e
  handle (ticks now) e = on_timer_tick now e

  unfoldable pub run : List Event → Engine → Engine
  run [] e = e
  run (event ∷ events) e = run events (handle event e)

-- The engine has all its servers and a configuration, or none of them.
abbrev pub IsWhole : Bool → Engine → Type 0
IsWhole b e =
    (is_some e.configuration ≡ b)
    × (is_some e.tunnel_proxy_server ≡ b)
    × (is_some e.web_socket_server ≡ b)
    × (is_some e.tcp_socket_server ≡ b)
    × (is_some e.unix_socket_server ≡ b)
    × (is_some e.monitor_server ≡ b)

abbrev pub runs : Option TunnelProxyServer → Bool
runs none = false
runs (some w) = w.running

clean-IsWhole : (e : Engine) → IsWhole false (clean e)
unfolding clean
clean-IsWhole e = ground arith

set_running-IsWhole :
    (b : Bool) (running : Bool) (e : Engine) → IsWhole b e → IsWhole b (set_running running e)
unfolding set_running
set_running-IsWhole b running e h = ground (arith, h)

tick-IsWhole : (b : Bool) (now : ℕ) (e : Engine) → IsWhole b e → IsWhole b (on_timer_tick now e)
unfolding on_timer_tick
tick-IsWhole b now e h = ground (arith, h)

deliver_posted-IsWhole :
    (b : Bool) (posted : List Bool) (e : Engine) → IsWhole b e → IsWhole b (deliver_posted posted e)
unfolding deliver_posted
deliver_posted-IsWhole b [] e h = h
deliver_posted-IsWhole b (running ∷ posted) e h =
    set_running-IsWhole b running (record e { posted = posted }) h

module _ (listens : Listens) where
  handle-IsWhole :
      (event : Event) (e : Engine) (b : Bool)
      → IsWhole b e
      → (b' : Bool) × IsWhole b' (handle listens event e)
  unfolding handle start stop
  handle-IsWhole (starts c) e b h = (true, (refl, refl, refl, refl, refl, refl))
  handle-IsWhole stops e b h = (false, set_running-IsWhole false false (clean e) (clean-IsWhole e))
  handle-IsWhole event_loop e b h = (b, deliver_posted-IsWhole b e.posted e h)
  handle-IsWhole (ticks now) e b h = (b, tick-IsWhole b now e h)

  run_lem :
      (events : List Event) (e : Engine) (b : Bool)
      → IsWhole b e
      → (b' : Bool) × IsWhole b' (run listens events e)
  unfolding run
  run_lem [] e b h = (b, h)
  run_lem (event ∷ events) e b h =
      let (b', h') = handle-IsWhole event e b h in run_lem events _ b' h'

  -- At any time the engine has either a configuration and all its servers or none of them; so, when
  -- it has a monitor server, there is data to show to a monitor.
  pub run-IsWhole :
      (now : ℕ) (events : List Event) (q : Qt) (s : Settings) (print_all : Bool)
      → let e = run listens events (new_engine now) in
        (IsWhole true e ⊎ IsWhole false e)
        × (is_some e.monitor_server ≡ true → is_some (build_monitor_data q s print_all e) ≡ true)
  unfolding new_engine build_monitor_data
  run-IsWhole now events q s print_all =
      let (b, h) = run_lem events (new_engine now) false (refl, refl, refl, refl, refl, refl) in
      whole b (run listens events (new_engine now)) h
    where
      whole :
          (b : Bool) (e : Engine)
          → IsWhole b e
          → (IsWhole true e ⊎ IsWhole false e)
            × (is_some e.monitor_server ≡ true
                → is_some (build_monitor_data q s print_all e) ≡ true)
      whole true e h = (inl h, λ k. ground (arith, h))
      whole false e h = (inr h, λ k. absurd (ground (arith, h, k)))

  -- When an engine that is not running, with no call waiting, is started, and the event loop
  -- turns, it is running with all its servers and its timer, the tunnel proxy server is running
  -- too, and it has said so; when it is then stopped, it is not running, has no server, no timer
  -- and no call waiting.
  pub start_stop :
      (c : ProxyConfiguration) (e : Engine)
      → e.running ≡ false
      → e.posted ≡ []
      → let started = run listens (starts c ∷ event_loop ∷ []) e in
        let stopped = run listens (starts c ∷ event_loop ∷ stops ∷ []) e in
        ((started.running ≡ true)
          × (started.timer_active ≡ true)
          × IsWhole true started
          × (runs started.tunnel_proxy_server ≡ true)
          × (started.running_changed ≡ true ∷ e.running_changed))
        × ((stopped.running ≡ false)
            × (stopped.timer_active ≡ false)
            × IsWhole false stopped
            × (stopped.posted ≡ [])
            × (stopped.running_changed ≡ false ∷ true ∷ e.running_changed))
  unfolding run handle start stop clean deliver_posted set_running Lifecycle.set_running
  start_stop c e idle empty = ground (arith, idle, empty)

  -- When an engine that is not running, with no call waiting, is started and stopped before the
  -- event loop turns, it ends up running, with its timer, and says so, though it has no server
  -- and no configuration.
  pub stop_overtaken :
      (c : ProxyConfiguration) (e : Engine)
      → e.running ≡ false
      → e.posted ≡ []
      → let e' = run listens (starts c ∷ stops ∷ event_loop ∷ []) e in
        (e'.running ≡ true)
        × (e'.timer_active ≡ true)
        × IsWhole false e'
        × (e'.running_changed ≡ true ∷ e.running_changed)
  unfolding run handle start stop clean deliver_posted set_running
  stop_overtaken c e idle empty = ground (arith, idle, empty)
