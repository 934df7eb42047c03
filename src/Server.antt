-- ===== src/Server.antt =====
-- The transaction server of hw5: reference-counted data (src/data.c), packets (src/protocol.c), and
-- the service of one client (src/server.c).
pub mod Blobs
pub mod Packets
pub mod World
pub mod Session
