-- ===== src/Server.antt =====
-- Package server (server/): the live stream.
pub mod Hub
pub mod Api
pub mod Request
pub mod Stream
