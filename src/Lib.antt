-- ===== src/Lib.antt =====
-- nymea-remoteproxy: a server that lets clients reach servers behind a router. Both connect to it and
-- register over a JSON API; from then on it tunnels: what a client sends goes to its server in SLIP
-- frames with the client's address, and what the server sends in such frames goes to the client.
--
-- Slip            common/slipdataprocessor.cpp: escaping and frames
-- Client          libnymea-remoteproxy/server/transportclient.cpp, tunnelproxy/tunnelproxyclient.cpp: a
--                 socket; Client/Packets: processData, the cutting of data into packets
-- Variant         QVariant, and what is taken from Qt: the record Qt
-- Types           libnymea-remoteproxy/jsonrpc/jsontypes.cpp: the types of the API, and validation
-- Connections     tunnelproxy/tunnelproxyserverconnection.cpp, tunnelproxyclientconnection.cpp
-- Handler         jsonrpc/jsonhandler.cpp, jsonreply.cpp
-- State           the state of tunnelproxy/tunnelproxyserver.cpp with its server/jsonrpcserver.cpp, and what
--                 goes out
-- Registration    tunnelproxyserver.cpp: registerServer, registerClient, disconnectClient
-- TunnelHandler   jsonrpc/tunnelproxyhandler.cpp
-- JsonRpc         server/jsonrpcserver.cpp; JsonRpc/Api: its own methods; JsonRpc/Requests: the checks
-- Server          tunnelproxyserver.cpp: Lifecycle (start, stop, tick), Sockets (connections,
--                 disconnections, timers), Traffic (onClientDataAvailable), Statistics;
--                 Server/Directory: the abstract specification, who serves and who visits whom
-- Transports      libnymea-remoteproxy/server/transportinterface.cpp: its signals and a table of
--                 sockets; Transports/TcpSockets: tcpsocketserver.cpp, Transports/WebSockets:
--                 websocketserver.cpp, Transports/UnixSockets: unixsocketserver.cpp;
--                 TcpEvents, TcpSessions, WebSessions, UnixSessions: their events
-- Engine          libnymea-remoteproxy/engine.cpp; Engine/Configuration: proxyconfiguration.cpp;
--                 Engine/Monitor: server/monitorserver.cpp
-- LogEngine       libnymea-remoteproxy/logengine.cpp; LogEngine/Logging: what it writes
-- RpcClient       libnymea-remoteproxyclient/proxyjsonrpcclient.cpp, jsonreply.cpp: the requests of a
--                 client of the proxy, and the packets it receives
-- SocketServer    libnymea-remoteproxyclient/tunnelproxy/tunnelproxysocketserver.cpp: a server behind
--                 the proxy, and its sockets; SocketServer/Slots: its slots, its reader of frames
--                 and its timers; SocketServer/Reach: its steps
-- RemoteConnection  libnymea-remoteproxyclient/tunnelproxy/tunnelproxyremoteconnection.cpp: the
--                 connection of a client to a server behind the proxy; RemoteConnection/Reach: its
--                 steps
-- ProxyConnection  libnymea-remoteproxyclient/proxyconnection.cpp: a connection to the proxy, which
--                 SocketServer and RemoteConnection use; ProxyConnection/Tcp: tcpsocketconnection.cpp,
--                 ProxyConnection/Web: websocketconnection.cpp; ProxyConnection/Events: their events
-- Tunnel          the proxy together with SocketServer and RemoteConnection: data on its whole way
-- The modules Server/View to Server/Farewell, and the modules below the other parts that no line
-- above names, hold proofs. Base holds lists, hashes and dictionaries; Tests holds examples.
--
-- The state is one record, TunnelProxyServer: a pointer to a socket is the id of the socket, a
-- pointer to a server connection or a client connection is the uuid under which the server keeps
-- it. A handler is a function on this state; what it sends, and the sockets it has killed, are
-- appended to the field output. In Transports and ProxyConnection a socket of Qt is a number, and
-- what it is told and the signals that are emitted are kept in lists, the latest first; a uuid
-- that is made there is numbered. Qt's signals are events, and a signal that Qt emits inside of a
-- call is an event after the call. A function is named as in the source, in lower case with
-- underscores. To the server the transports are behind the events: a socket that is killed is
-- reported as disconnected by an event of its own, after the handler that killed it (Server/Reach
-- lists the events). The id of a socket is new whenever one connects, or the event is answered as
-- the source does.
--
-- Loops: the search for a free address makes m_connectionLimit rounds, which is the source's own
-- bound; the loop over split positions runs on the length of the buffer, and each round shortens
-- the buffer, so that it ends on no split position left. All other loops are over lists. The
-- quantities that C++ keeps in an int (message ids, notification ids, sizes) are natural numbers;
-- the counters of 64 bits and the addresses of 16 bits wrap around, and so does the counter of the
-- engine's timer, which is an int of 32 bits.
--
-- A QHash is an association list; the order of iteration, which Qt leaves open, is that of the
-- list. A null QByteArray is an empty one. Qt's JSON parser and printer, its conversions and what
-- it reads from files are parameters of all that uses them. Hypotheses on them stand in
-- RpcClient/Matching (JSON objects, numbers, texts and uuids are read back), JsonRpc/Returns (what
-- a conversion answers), Transports/Texts (a text has no byte that UTF-8 lacks), and the modules
-- on the events of the transports (uuids are never made twice) only. Not modelled: the debug
-- output, the error that JsonTypes only logs, the assertions, memory management, the removal of
-- old socket files, and the programs.
--
-- In SocketServer and RemoteConnection what the connection is asked to do, and what is emitted, is
-- appended to the field signals; the connection answers by events. A server or connection without
-- a JSON client ignores data, where the source would follow a null pointer.
pub mod Base
pub mod Slip
pub mod Client
pub mod Variant
pub mod Types
pub mod Connections
pub mod Handler
pub mod State
pub mod Registration
pub mod TunnelHandler
pub mod JsonRpc
pub mod Server
pub mod RemoteConnection
pub mod RpcClient
pub mod SocketServer
pub mod Tests
pub mod Transports
pub mod ProxyConnection
pub mod Engine
pub mod Tunnel
pub mod LogEngine
