-- ===== src/Server.antt =====
-- libnymea-remoteproxy/tunnelproxy/tunnelproxyserver.h and tunnelproxyserver.cpp: what the server
-- does when a socket connects, disconnects or sends data, when a timer runs out, and its start
-- and stop. The definitions are in the modules below.
pub mod Lifecycle
pub mod Sockets
pub mod Traffic
pub mod View
pub mod Consistent
pub mod Directory
pub mod Additions
pub mod Removal
pub mod ServerRemoval
pub mod Registering
pub mod Arriving
pub mod Departing
pub mod Changed
pub mod Serving
pub mod Tunnelling
pub mod Quiet
pub mod Reach
pub mod Sending
pub mod Delivery
pub mod Outcomes
pub mod Answers
pub mod Farewell
pub mod Statistics
