-- ===== src/Networking.antt =====
-- nonstop_networking: the file server (server.c) and the socket loops that it shares with the
-- client (common.c).
pub mod Sockets
pub mod Header
pub mod Get
pub mod List
pub mod Delete
pub mod Put
mod Examples
