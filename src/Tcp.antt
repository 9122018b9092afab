-- ===== src/Tcp.antt =====
-- pkg/server/tcp: the server of stream connections.
pub mod Connection
pub mod Server
