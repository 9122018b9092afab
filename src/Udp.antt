-- ===== src/Udp.antt =====
-- pkg/server/udp: the sessions of UDP clients, and the server that serves them.
pub mod Session
pub mod Server
