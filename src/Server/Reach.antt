-- ===== src/Server/Reach.antt =====
-- The events that the server handles, one after the other (tunnelproxyserver.cpp,
-- jsonrpcserver.cpp), and the states that they lead to from the constructor's.
use nymea_remoteproxy.Base.{ℕ, ◌<◌, String, value, count, Bytes, arith}
use nymea_remoteproxy.Client.{Transport}
use nymea_remoteproxy.Variant.{Qt}
use nymea_remoteproxy.Handler.{JsonReply}
use nymea_remoteproxy.State.{TunnelProxyServer, Settings}
use nymea_remoteproxy.JsonRpc.{async_reply_finished, register_handler}
use nymea_remoteproxy.Server.Lifecycle.{
  new_server, register_transport_interface, start_server, stop_server, tick,
}
use nymea_remoteproxy.Server.Sockets.{
  on_client_connected, on_client_disconnected, on_inactive_timeout,
}
use nymea_remoteproxy.Server.Traffic.{on_client_data_available}
use nymea_remoteproxy.Server.View.{view}
use nymea_remoteproxy.Server.Consistent.{IsConsistent}
use nymea_remoteproxy.Server.Arriving.{on_client_connected-Changed}
use nymea_remoteproxy.Server.Departing.{on_client_disconnected-Changed}
use nymea_remoteproxy.Server.Quiet.{
  view-register_transport_interface, view-start_server, view-stop_server, view-on_inactive_timeout,
  view-async_reply_finished,
}
use nymea_remoteproxy.Server.Changed.{Changed, Changed-trans, unchanged, kept}
use nymea_remoteproxy.Server.Directory.{Moves, nobody, directory, IsSound}
use nymea_remoteproxy.Server.Directory.Sound.{Moves-IsSound}
use nymea_remoteproxy.Server.Tunnelling.{on_client_data_available-Changed}

-- An event; a 99th socket is none of these.
pub data Step (q : Qt) (s : Settings) : TunnelProxyServer → TunnelProxyServer → Type 0 where
  connects :
      (now : ℕ) (w : TunnelProxyServer) (interface : Transport) (id : ℕ) (address : String)
      → count w.proxy_clients < 98
      → Step q s w (on_client_connected s now w interface id address)
  disconnects : (w : TunnelProxyServer) (id : ℕ) → Step q s w (on_client_disconnected q w id)
  sends :
      (w : TunnelProxyServer) (id : ℕ) (received : Bytes)
      → Step q s w (on_client_data_available q s w id received)
  times_out : (w : TunnelProxyServer) (id : ℕ) → Step q s w (on_inactive_timeout w id)
  replies :
      (w : TunnelProxyServer) (number : ℕ) (reply : JsonReply)
      → Step q s w (async_reply_finished q w number reply)
  ticks : (w : TunnelProxyServer) → Step q s w (tick w)
  gets_transport :
      (w : TunnelProxyServer) (t : Transport) → Step q s w (register_transport_interface t w)
  starts : (w : TunnelProxyServer) → Step q s w (start_server w)
  stops : (w : TunnelProxyServer) → Step q s w (stop_server w)

pub data Reachable (q : Qt) (s : Settings) : TunnelProxyServer → Type 0 where
  initial : Reachable q s new_server
  after : {w w' : TunnelProxyServer} → Reachable q s w → Step q s w w' → Reachable q s w'

pub new_server-IsConsistent : IsConsistent (view new_server)
unfolding new_server register_handler value
new_server-IsConsistent = record {
  servers_owned = λ x s e. ground arith;
  servers_named = λ x s e. ground arith;
  clients_owned = λ x c e. ground arith;
  clients_named = λ x c e. ground arith;
  server_known = λ j x e. ground arith;
  client_known = λ j x e. ground arith;
  disjoint = λ x s e. ground arith;
  linked = λ y x c e l. ground arith;
  addressed = λ x a y s e l. ground arith;
  listed = λ x k y s e l. ground arith;
  entries = λ x s e. absurd (ground arith);
  distinct = λ x s e. absurd (ground arith);
  valid = λ x a y s e l. absurd (ground arith);
  few = ground arith;
  sockets = λ j. ground arith;
}

module _ (q : Qt) where
  -- Each event keeps the bookkeeping consistent, and changes the directory by its moves.
  Step-Changed :
      (s : Settings) (w w' : TunnelProxyServer)
      → Step q s w w'
      → IsConsistent (view w)
      → Changed (view w) (view w')
  unfolding tick
  Step-Changed s _ _ (connects now w interface id address room) h =
      on_client_connected-Changed s now w interface id address h room
  Step-Changed s _ _ (disconnects w id) h = on_client_disconnected-Changed q w id h
  Step-Changed s _ _ (sends w id received) h =
      on_client_data_available-Changed q s (view w) w id received (unchanged h)
  Step-Changed s _ _ (times_out w id) h = kept (view-on_inactive_timeout w id) (unchanged h)
  Step-Changed s _ _ (replies w number reply) h =
      kept (view-async_reply_finished q w number reply) (unchanged h)
  Step-Changed s _ _ (ticks w) h = unchanged h
  Step-Changed s _ _ (gets_transport w t) h =
      kept (view-register_transport_interface t w) (unchanged h)
  Step-Changed s _ _ (starts w) h = kept (view-start_server w) (unchanged h)
  Step-Changed s _ _ (stops w) h = kept (view-stop_server w) (unchanged h)

  Reachable-Changed :
      (s : Settings) (w : TunnelProxyServer) → Reachable q s w → Changed (view new_server) (view w)
  Reachable-Changed s _ initial = unchanged new_server-IsConsistent
  Reachable-Changed s w' (after {w} r step) =
      let before = Reachable-Changed s w r in
      Changed-trans before (Step-Changed s w w' step before.consistent)

  -- In every state that the server reaches from the constructor's with at most 98 sockets at a time,
  -- the bookkeeping is consistent.
  pub Reachable-IsConsistent :
      (s : Settings) (w : TunnelProxyServer) → Reachable q s w → IsConsistent (view w)
  Reachable-IsConsistent s w r = (Reachable-Changed s w r).consistent

  -- The server implements a directory. For every sequence of its events from the constructor's
  -- state with at most 98 sockets at a time, whatever is sent and whatever the handlers answer,
  -- the directory of its tables comes from an empty one by the moves of a directory: a socket
  -- arrives, or registers under a uuid that nobody goes by, as a server, or as a client of a
  -- server that is connected; a socket that is no server leaves; a server leaves, and exactly its
  -- clients lose it. So no two sockets go by one uuid, and the server of a client is connected.
  pub Reachable-refines :
      (s : Settings) (w : TunnelProxyServer)
      → Reachable q s w
      → Moves nobody (directory (view w)) × IsSound (directory (view w))
  unfolding new_server register_handler value
  Reachable-refines s w r =
      let steps = (Reachable-Changed s w r).steps in (steps, Moves-IsSound steps)
