-- ===== src/Transports.antt =====
-- libnymea-remoteproxy/server/transportinterface.h and transportinterface.cpp: what the transports
-- have in common, that is the signals that they emit, the address that they listen on, and the table
-- of their sockets by uuid. What Qt's sockets and servers are told is written down in order.
pub mod Sessions
pub mod TcpSockets
pub mod TcpEvents
pub mod TcpKept
pub mod TcpSessions
pub mod WebSockets
pub mod WebSessions
pub mod UnixSockets
pub mod UnixSessions
pub mod Texts
pub mod Announcing
use nymea_remoteproxy.Base.{ℕ, String, List, [], ◌∷◌, Hash, Bytes, if◌then◌else◌, ◌==◌}

-- The signals of TransportInterface.
pub data Signal : Type 0 where
  client_connected : ℕ → String → Signal
  client_disconnected : ℕ → Signal
  data_available : ℕ → Bytes → Signal

-- QUrl, as far as it is read.
pub record ServerUrl : Type 0 where
  pub host : String
  pub port : ℕ

-- QWebSocketProtocol::CloseCode, as far as it is used.
pub data CloseCode : Type 0 where
  close_code_normal close_code_protocol_error close_code_bad_operation : CloseCode

-- What is called on a socket, by the socket's number, or on a server.
pub data Call : Type 0 where
  wrote : ℕ → Bytes → Call
  sent_text : ℕ → String → Call
  flushed : ℕ → Call
  closed : ℕ → Call
  closed_because : ℕ → CloseCode → String → Call
  aborted : ℕ → Call
  deleted : ℕ → Call
  started_encryption : ℕ → Call
  closed_server : Call

-- QHash::key: the uuid of a socket, or the null uuid.
abbrev pub key : Hash ℕ → ℕ → ℕ
key [] socket = 0
key ((id, s) ∷ clients) socket = if s == socket then id else key clients socket
