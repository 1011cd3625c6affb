-- ===== src/Transports/TcpEvents.antt =====
-- What happens to a TcpSocketServer (tcpsocketserver.cpp).
use nymea_remoteproxy.Base.{ℕ, ◌≡◌, Bool, String, List, [], ◌∷◌, Bytes}
use nymea_remoteproxy.Transports.{ServerUrl}
use nymea_remoteproxy.Transports.TcpSockets.{
  TcpSocketServer, set_server_url, send_data, kill_client_connection, start_server, stop_server,
  on_encryption_timeout, on_error_occurred, incoming_connection, on_ready_read, on_new_connection,
  on_encrypted, on_disconnected,
}

-- What happens to the server: calls of its methods, and Qt's signals, with what Qt answers.
pub data Event : Type 0 where
  gets_url : ServerUrl → Event
  starts : Bool → Event
  stops : Event
  sends : ℕ → Bytes → Event
  kills : ℕ → String → Event
  incoming : ℕ → Bool → Event
  has_new_connection : Event
  is_encrypted : ℕ → Event
  ready_read : ℕ → Bytes → Bool → Event
  disconnected : ℕ → Bool → Event
  error_occurred : ℕ → Event
  times_out : ℕ → Event

module _ (qt_6 : Bool) (create_uuid : ℕ → ℕ) (peer_address : ℕ → String) where
  unfoldable pub handle : Event → TcpSocketServer → TcpSocketServer
  handle (gets_url url) t = set_server_url url t
  handle (starts can_listen) t = (start_server (λ host port. can_listen) t).0
  handle stops t = (stop_server t).0
  handle (sends client_id bytes) t = send_data client_id bytes t
  handle (kills client_id reason) t = kill_client_connection client_id reason t
  handle (incoming client accepted) t = incoming_connection client accepted t
  handle has_new_connection t = on_new_connection create_uuid peer_address t
  handle (is_encrypted client) t = on_encrypted create_uuid peer_address client t
  handle (ready_read client bytes encrypted) t = on_ready_read client bytes encrypted t
  handle (disconnected client encrypted) t = on_disconnected qt_6 client encrypted t
  handle (error_occurred client) t = on_error_occurred client t
  handle (times_out client) t = on_encryption_timeout client t

  -- The events, the first of them first.
  unfoldable pub run : List Event → TcpSocketServer → TcpSocketServer
  run [] t = t
  run (event ∷ events) t = run events (handle event t)

-- Only encrypted clients are said to be so.
abbrev pub Says : (ℕ → Type 0) → Event → Type 0
Says Encrypted event = (client : ℕ) → event ≡ is_encrypted client → Encrypted client
