-- ===== src/Transports/Texts.antt =====
-- SLIP over web sockets: websocketserver.cpp and websocketconnection.cpp send bytes as text messages
-- (sendTextMessage, QString::fromUtf8, toUtf8), to tunnelproxyclient.cpp and
-- tunnelproxysocketserver.cpp. The conversions are Qt's.
use nymea_remoteproxy.Base.{
  ℕ, ◌≡◌, refl, sym, ap, ◌∙◌, true, String, [], ◌∷◌, ◌++◌, Bytes, append-nil,
}
use nymea_remoteproxy.Slip.RoundTrip.{IsEndFree}
use nymea_remoteproxy.Client.{TunnelProxyClient, process_data, slip_cut}
use nymea_remoteproxy.Client.Slip.{slip_loop_fill}
use nymea_remoteproxy.Client.{Cut}
use nymea_remoteproxy.Variant.{Qt}
use nymea_remoteproxy.Transports.{data_available, key}
use nymea_remoteproxy.Transports.WebSockets.{WebSocketServer, on_text_message_received}
use nymea_remoteproxy.ProxyConnection.{ProxyConnection, data_received}
use nymea_remoteproxy.ProxyConnection.Web
use nymea_remoteproxy.SocketServer.{TunnelProxySocketServer, state_running, same_state}
use nymea_remoteproxy.SocketServer.Delivery.{buffered, running_reads}
use nymea_remoteproxy.SocketServer.Slots.{on_bytes, on_connection_data_available}

slip_cut_fill :
    (buffer xs : Bytes)
    → IsEndFree xs
    → slip_cut buffer xs ≡ record { packets = []; buffer = buffer ++ xs }
unfolding slip_cut
slip_cut_fill buffer xs h = slip_loop_fill (record { packets = []; buffer = buffer }) xs h

process_data_fill :
    (c : TunnelProxyClient) (xs : Bytes)
    → c.slip_enabled ≡ true
    → IsEndFree xs
    → process_data xs c ≡ (record c { data_buffer = c.data_buffer ++ xs }, [])
unfolding process_data
process_data_fill c xs slip h = rw slip (
    ap (λ k. (record c { data_buffer = Cut.buffer k; slip_enabled = true }, Cut.packets k))
      (slip_cut_fill c.data_buffer xs h))

module _ (q : Qt) (to_utf8 : String → Bytes)
    (valid : (text : String) → IsEndFree (to_utf8 text)) where
  -- Whatever text message arrives through a web socket, no packet and no frame is read in it: the
  -- proxy announces its bytes, from which a client with SLIP takes no packet, and a connection of
  -- the client library hands its bytes on, for which a running server behind the proxy emits
  -- nothing; both only add them to their buffer. So SLIP frames, which end in the byte 192, never
  -- arrive as text messages. The bytes of a text in UTF-8 are taken never to be 192.
  pub frames_lost :
      (message : String) (t : WebSocketServer) (client : ℕ) (c : TunnelProxyClient)
      (p : ProxyConnection) (s : TunnelProxySocketServer)
      → c.slip_enabled ≡ true
      → same_state s.state state_running ≡ true
      → (arrived : Bytes) × ((on_text_message_received to_utf8 client message t).signals
          ≡ data_available (key t.client_list client) arrived ∷ t.signals)
        × (process_data arrived c ≡ (record c { data_buffer = c.data_buffer ++ arrived }, []))
        × ((Web.on_text_message_received to_utf8 message p).signals
            ≡ data_received arrived ∷ p.signals)
        × (on_connection_data_available q arrived s
            ≡ record s { keep_alive_timer = true; data_buffer = s.data_buffer ++ arrived })
  unfolding on_bytes on_text_message_received Web.on_text_message_received
  frames_lost message t client c p s slip runs =
      let arrived = to_utf8 message in
      let s' = record s { keep_alive_timer = true } in
      (
        arrived,
        refl,
        process_data_fill c arrived slip (valid message),
        refl,
        running_reads q arrived s runs
            ∙ (ap (λ l. on_bytes q l s') (sym (append-nil arrived))
                ∙ buffered q arrived [] s.data_buffer s' (valid message)),
      )
