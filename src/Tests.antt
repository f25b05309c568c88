-- ===== src/Tests.antt =====
-- The theorems at concrete inputs.
pub mod Data
pub mod Timeline
pub mod Storage
pub mod Mysql
pub mod Watch
pub mod Server
pub mod Consul
